-- ===== src/Examples/Tools.antt =====
-- The tools of integration/cmd at concrete inputs.
use hackathon.Common.{ℕ, ◌≡◌, refl, true, none, some, List, [], ◌∷◌}
use hackathon.Text.{Text, codes}
use hackathon.Integration.ForwardTarget.{HttpRequest}
use hackathon.Integration.ForwardTarget.Latest.{
  Event, controlled, recorded, after, last_seen, last_status, after_latest,
}
use hackathon.Integration.ForwardCert.{Os, Authority, run, write_pem}
use hackathon.Integration.ForwardCert.Files.{Chmods, Issued, run-Issued}
use hackathon.Common.{◌≤◌}

abbrev hit : HttpRequest
hit = record {
  method = codes "POST";
  path = codes "/hook";
  request_uri = codes "/hook?a=1";
  host = codes "forward-target";
  header = [];
  body = some (codes "x");
  code = [];
}

abbrev asks : HttpRequest
asks = record hit { path = codes "/__status"; code = codes "503" }

abbrev clears : HttpRequest
clears = record hit { path = codes "/__reset" }

abbrev history : List Event
history = controlled asks ∷ recorded hit ∷ controlled clears ∷ recorded hit ∷ []

after_latest_example :
    (after history ≡ record { req = last_seen history; status = last_status history })
    × (100 ≤ (after history).status)
    × ((after history).status ≤ 599)
after_latest_example = after_latest history

-- A world is the permission of the file that is open; a file starts with a wide one.
abbrev os : Os
os = record {
  World = ℕ;
  File = Text;
  dir = λ path. codes "testdata";
  mkdir_all = λ path perm w. (true, w);
  open_file = λ path perm w. (some path, 511);
  chmod = λ f perm w. (true, perm);
  encode = λ f block w. (true, w);
  close = λ f w. w;
}

chmods : Chmods os (λ f w. w)
chmods = record { chmod_law = λ f perm w h. refl }

abbrev authority : Authority
authority = record {
  os = os;
  Key = Text;
  Time = ℕ;
  Ip = Text;
  generate_key = λ w. (some (codes "k"), w);
  serial = λ w. (some 5, w);
  now = λ w. (7, w);
  hour_before = λ t. t;
  year_after = λ t. t;
  parse_ip = λ t. t;
  create_certificate = λ t key w. (some (codes "der"), w);
  marshal_key = λ key. key;
}

written : (run authority 0).0 ≡ none
unfolding run write_pem
written = refl

run-Issued_example : Issued authority chmods 0 (run authority 0).1
run-Issued_example = run-Issued authority chmods 0 written
