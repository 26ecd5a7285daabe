-- ===== src/Integration/ForwardTarget.antt =====
-- integration/cmd/forward-target/main.go: a server that records the last request and answers as it is
-- told to. Each locked section of the code is one step; net/http and encoding/json are parameters.
pub mod Latest
use hackathon.Common.{
  ℕ, Bool, true, false, ◌||◌, not, Option, none, some, List, [], ◌∷◌, ltb, if◌then◌else◌,
}
use hackathon.Text.{Text, codes, text_eq, is_empty}
use hackathon.Text.Decimal.{Integer, atoi}

pub record RecordedRequest : Type 0 where
  pub method : Text
  pub path : Text
  pub host : Text
  pub header : List (Text × List Text)
  pub body : Text

pub record Recorder : Type 0 where
  pub req : Option RecordedRequest
  pub status : ℕ

-- What the handlers read of a request: `body` is none if it cannot be read, `code` is the query
-- parameter, empty if it is absent.
pub record HttpRequest : Type 0 where
  pub method : Text
  pub path : Text
  pub request_uri : Text
  pub host : Text
  pub header : List (Text × List Text)
  pub body : Option Text
  pub code : Text

pub data Answer : Type 0 where
  answer : ℕ → Answer
  error : ℕ → Text → Answer
  json : RecordedRequest → Answer

abbrev pub initial : Recorder
initial = record { req = none; status = 204 }

abbrev pub set : HttpRequest → Text → Recorder → Recorder
set req body r = record r {
  req = some (record {
    method = req.method;
    path = req.request_uri;
    host = req.host;
    header = req.header;
    body = body;
  });
}

abbrev pub reset : Recorder → Answer × Recorder
reset r = (answer 204, initial)

-- strconv.Atoi, then the bounds
abbrev pub status_of : Option Integer → Option ℕ
status_of none = none
status_of (some n) =
    if n.negative || ltb n.magnitude 100 || ltb 599 n.magnitude then none else some n.magnitude

abbrev pub with_status : Recorder → Option ℕ → Answer × Recorder
with_status r none = (error 400 (codes "invalid code"), r)
with_status r (some status) = (answer 204, record r { status = status })

unfoldable pub set_status : HttpRequest → Recorder → Answer × Recorder
set_status req r =
    if is_empty req.code
    then (error 400 (codes "missing code"), r)
    else with_status r (status_of (atoi req.code))

abbrev pub response_status : Recorder → ℕ
response_status r = r.status

abbrev pub last : Recorder → Answer
last r = elim r.req [ none ↦ error 404 (codes "404 page not found") | some req ↦ json req ]

-- The mux of the control server, for a path without empty or dotted segments; one without a handler is
-- answered by 404.
unfoldable pub control : HttpRequest → Recorder → Answer × Recorder
unfolding set_status
control req r =
    if text_eq req.path (codes "/health")
    then (answer 200, r)
    else if text_eq req.path (codes "/__reset")
    then reset r
    else if text_eq req.path (codes "/__status")
    then set_status req r
    else if text_eq req.path (codes "/__last")
    then (last r, r)
    else (error 404 (codes "404 page not found"), r)

-- The first half of the target's handler: none if the body cannot be read.
abbrev pub record_request : HttpRequest → Recorder → Recorder
record_request req r = elim req.body [ none ↦ r | some body ↦ set req body r ]

-- The second half, which may come after steps of other requests.
abbrev pub respond : HttpRequest → Recorder → Answer
respond req r = elim req.body [
  | none ↦ error 500 (codes "read body")
  | some body ↦ answer (response_status r)
]

-- none is a panic.
abbrev pub require_env : (Text → Text) → Text → Option Text
require_env getenv name = let value = getenv name in if is_empty value then none else some value
