-- ===== src/Examples/Commands.antt =====
-- A runner with two shells, and a remote model that is overloaded at first.
use hackathon.Common.{
  ℕ, zero, suc, ◌+◌, ◌≡◌, refl, false, Option, none, some, List, [], ◌∷◌, ◌++◌, leb, ltb,
}
use hackathon.Text.{Text, codes, text_eq}
use hackathon.Text.Decimal.{decimal, parse_uint}
use hackathon.Broker.Outcome.{err}
use hackathon.Runner.Shell.{Result}
use hackathon.Runner.Validator.{
  Validator, unavailable, request_failed, Exchange, responded, no_response, validate, validate_from,
  post, verdict,
}
use hackathon.Runner.Validator.Verdicts.{Judged}
use hackathon.Runner.Validator.Attempts.{validate_exhausted}
use hackathon.Runner.Manager.{Shells, Table, lookup, create}
use hackathon.Runner.Execute.{
  Netip, Request, Surroundings, SseEvent, stdout_event, complete_event, AuditLine, streamed,
  handle_execute, client_address, parse_client_address, cut_last, complete,
}
use hackathon.Runner.Execute.Effect.{ExecuteEffect}
use hackathon.Runner.Execute.Gate.{
  jev_surroundings, handle_execute-ExecuteEffect, handle_execute-Judged,
}
use hackathon.Runner.Sessions.{set_shell_id, handle_create_shell}

-- The first request is refused by 429, the later ones are answered; a probability is in percent.
abbrev exchange : Text → ℕ → Exchange ℕ × ℕ
exchange command zero = (responded 429 0, 1)
exchange command (suc n) = (responded 200 90, n + 2)

abbrev validator : Validator
validator = record {
  World = ℕ;
  Payload = ℕ;
  Float = ℕ;
  exchange = exchange;
  sleep = λ n w. w;
  decode = λ p. some (some (record { type_name = codes "noul"; noul = some p }));
  below_zero = λ p. false;
  above_one = ltb 100;
  reaches_threshold = leb 80;
  reason_of = λ p. decimal p;
}

abbrev pub ls : Text
ls = codes "ls"

abbrev down : Validator
down = record validator { exchange = λ t w. (no_response, w + 1) }

validate_exhausted_example : validate down ls 0 ≡ (err (unavailable request_failed), 3)
validate_exhausted_example =
    validate_exhausted down ls 0 (unavailable request_failed) (unavailable request_failed)
      (unavailable request_failed) refl refl refl

-- The world of the shells is the number of the next id.
abbrev pub shells : Shells
shells = record {
  World = ℕ;
  Shell = ℕ;
  gen_id = λ w. (some (codes "a"), w);
  new_shell = λ w. (some w, w + 1);
  close = λ shell w. (false, w);
}

abbrev pub open_shells : Table ℕ
open_shells = (codes "a", 1) ∷ (codes "b", 2) ∷ []

-- Only addresses with brackets are read with their port at once.
abbrev pub netip : Netip
netip = record {
  Addr = Text;
  AddrPort = Text × ℕ;
  parse_addr_port = λ t. none;
  parse_addr = some;
  addr_port_from = λ ip port. (ip, port);
  port_of = λ a. a.1;
  text_of = λ a. codes "[" ++ (a.0 ++ (codes "]:" ++ decimal a.1));
}

abbrev pub execute_stream : ℕ → Text → ℕ → (Option Result × List Text) × ℕ
execute_stream shell command w = (
  (
    some (record {
      exit_code = record { negative = false; magnitude = 0 };
      stderr = [];
      err = none;
    }),
    codes "file\n" ∷ [],
  ),
  w,
)

abbrev surroundings : Surroundings
surroundings = jev_surroundings validator netip execute_stream

abbrev pub request : Request
request = record { shell_cookie = codes "b"; client_address = codes "::1:443"; command = some ls }

handle_execute_example :
    ExecuteEffect surroundings open_shells request 0
      (handle_execute surroundings open_shells request 0)
handle_execute_example = handle_execute-ExecuteEffect surroundings open_shells request 0

abbrev pub events : List SseEvent
events =
    stdout_event (codes "file\n") ∷ complete_event (record { negative = false; magnitude = 0 }) ∷ []

abbrev logged : List AuditLine
logged = (complete surroundings (codes "b") (codes "[::1]:443") ls (execute_stream 2 ls 2)).1

let_through : handle_execute surroundings open_shells request 0 ≡ (streamed events, logged, 2)
unfolding handle_execute lookup client_address parse_client_address cut_last validate validate_from
    post verdict text_eq decimal parse_uint
let_through = refl

handle_execute-Judged_example :
    (command : Text) × (w0 : ℕ) × (payload : ℕ) × (request.command ≡ some command)
    × ((exchange command w0).0 ≡ responded 200 payload)
    × Judged validator payload
handle_execute-Judged_example =
    handle_execute-Judged validator netip execute_stream open_shells request 0 2 events logged
      let_through

abbrev free_shells : Table ℕ
free_shells = (codes "b", 2) ∷ []

cookie_set : (handle_create_shell shells free_shells 3).0.cookie ≡ some (set_shell_id (codes "a"))
unfolding handle_create_shell create lookup text_eq
cookie_set = refl
