-- ===== src/Examples/Deliveries.antt =====
-- Bash with one command's output, and an engine of the runner that has opened one shell.
use hackathon.Common.{ℕ, ◌≡◌, refl, true, false, some, List, [], ◌∷◌, ◌++◌, arith}
use hackathon.Text.{Text, codes, text_eq}
use hackathon.Text
use hackathon.Text.Decimal.{decimal, parse_uint}
use hackathon.Broker.Outcome.{Outcome, ok}
use hackathon.Broker.Router.{post}
use hackathon.Runner.Shell.{marker_of, newline, strip_prefix, cut_at}
use hackathon.Runner.Shell.Scanner.{byte_length}
use hackathon.Runner.Validator.{ValidateError, ValidationResult}
use hackathon.Runner.Manager.{lookup, create}
use hackathon.Runner.Sessions.{handle_create_shell}
use hackathon.Runner.Execute.{
  AuditLine, streamed, handle_execute, client_address, parse_client_address, cut_last, complete,
}
use hackathon.Runner.Execute.Delivery.{
  Bash, Prints, Able, Delivered, surroundings, handle_execute-Delivered,
}
use hackathon.Runner.Router.{ApiRequest, Parts, api_route, handle}
use hackathon.Runner.Router
use hackathon.Runner.Router.History.{after, RanIn, handle_execute-RanIn}
use hackathon.Examples.Commands.{ls, netip, request, shells, execute_stream, open_shells, events}
use hackathon.Examples.Shells.{ready}

abbrev pub out : Text
out = codes "one\ntwo"

-- The clock stands still, and the pipes bring the same for every command.
abbrev pub bash : Bash
bash = record {
  World = ℕ;
  Shell = ℕ;
  shell_of = λ shell w. ready;
  put_shell = λ shell s w. w;
  now = λ w. 7;
  context_err = λ w. false;
  write_failed = λ shell text w. false;
  stdout_of = λ shell text w. out ++ (newline ∷ ((marker_of 7 ++ decimal 3) ++ (newline ∷ [])));
  scan_failed = λ shell text w. false;
  stderr_of = λ shell text w. codes "oops__MRK_" ∷ codes "7_END__\n" ∷ [];
  send = λ t w. (true, w);
}

abbrev pub safe : ValidationResult
safe = record { safe = true; reason = codes "list" }

abbrev pub validate : Text → ℕ → Outcome ValidateError ValidationResult × ℕ
validate command w = (ok safe, w)

pub prints : Prints bash 2 ls 0 out (codes "oops") 3
unfolding marker_of strip_prefix cut_at Text.split decimal byte_length
prints = record {
  on_stdout = refl;
  on_stderr = refl;
  plain = (refl, (refl, (refl, (refl, (refl, (refl, (refl, tt)))))));
  unmarked = (refl, (refl, tt));
  short = (refl, (refl, tt));
  short_marker = refl;
  small = omega arith;
}

pub able : Able bash 2 ls 0
able = record { in_order = refl; alive = refl; written = refl; takes = λ t v. refl }

pub asked_in : lookup (codes "b") open_shells ≡ some 2
unfolding lookup text_eq
asked_in = refl

pub client :
    client_address (surroundings bash netip validate) (codes "::1:443") ≡ some (codes "[::1]:443")
unfolding client_address parse_client_address cut_last parse_uint decimal
client = refl

handle_execute-Delivered_example :
    Delivered bash netip validate
      (codes "b")
      (codes "[::1]:443")
      ls
      out
      (codes "oops")
      3
      (handle_execute (surroundings bash netip validate) open_shells request 0)
handle_execute-Delivered_example =
    handle_execute-Delivered bash netip validate open_shells request 0 0 2 ls (codes "[::1]:443")
      out (codes "oops") 3 safe refl asked_in refl client refl refl able prints

abbrev parts : Parts
parts = record {
  shells = record shells { gen_id = λ w. (some (codes "b"), w) };
  netip = netip;
  validate = validate;
  execute_stream = execute_stream;
  unrouted = λ req. 404;
}

abbrev opening : ApiRequest
opening = record { method = post; path = codes "/api/shell"; request = request }

abbrev logged : List AuditLine
logged =
    (complete (Router.surroundings parts) (codes "b") (codes "[::1]:443") ls
      (execute_stream 5 ls 6)).1

ran :
    handle_execute
      (Router.surroundings parts)
      (after parts 5 (opening ∷ [])).0
      request
      (after parts 5 (opening ∷ [])).1
    ≡ (streamed events, logged, 6)
unfolding handle_execute lookup client_address parse_client_address cut_last text_eq decimal
    parse_uint after handle api_route handle_create_shell create
ran = refl

handle_execute-RanIn_example : RanIn parts 5 (opening ∷ []) request events logged 6
handle_execute-RanIn_example =
    handle_execute-RanIn parts 5 (opening ∷ []) request events logged 6 ran
