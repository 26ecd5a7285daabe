-- ===== src/Broker/Handler.antt =====
-- broker/handler: the HTTP handlers over the service, and the middleware of request ids. What gin
-- reads of a request is the record Request, and what a handler writes is the record Response; the
-- log lines are not modelled.
pub mod Middleware
pub mod Fallback
pub mod Responses
pub mod Staying
pub mod Registration
pub mod Deregistration
use hackathon.Common.{
  ℕ, Bool, true, false, not, ◌||◌, ◌&&◌, Option, none, some, List, [], ◌∷◌, ◌++◌, map, leb, ◌==◌,
  if◌then◌else◌,
}
use hackathon.Text.{Text, codes, is_empty, join, hex_encode, all_test}
use hackathon.Broker.Model.{
  Runner, Code, ErrorResponse, session_not_found, invalid_request, runner_conflict, internal_error,
}
use hackathon.Broker.Model
use hackathon.Broker.Outcome.{Outcome, ok, err, out_of_fuel, Act}
use hackathon.Broker.Stacklist
use hackathon.Broker.Stacklist.{comma}
use hackathon.Broker.Store.{StoreError, not_found, no_idle_runner, conflict}
use hackathon.Broker.Service.{ServiceError, store_error, delete_unhealthy, ResolveResult}

-- service.Service
pub record Service (World : Type 0) : Type 0 where
  pub close_session : Text → Act World ServiceError (Unit {0})
  pub resolve_session : Text → Act World ServiceError ResolveResult
  pub register_runner : Text → Text → Act World ServiceError (Unit {0})
  pub deregister_runner : Text → Act World ServiceError (Unit {0})
  pub list_busy_runners : Act World ServiceError (List Runner)

pub data HeaderName : Type 0 where
  fallback_stack_header fallback_remaining_header runner_host_header : HeaderName
  reassigned_header session_hex_header stack_name_header request_id_header : HeaderName

pub record RegisterRequest : Type 0 where
  pub runner_id : Text
  pub private_host : Text

-- An absent cookie, header or parameter is the empty text; `bound` is what ShouldBindJSON read.
pub record Request : Type 0 where
  pub session_cookie : Text
  pub path_param : Text
  pub fallback_stack : Text
  pub fallback_remaining : Text
  pub bound : Option RegisterRequest
  pub request_id : Text

-- SetCookie with max-age 0, path "/", secure, HttpOnly and SameSite=Strict.
pub record SessionCookie : Type 0 where
  pub value : Text

pub data Body : Type 0 where
  no_body : Body
  text_body : Text → Body
  error_body : ErrorResponse → Body
  busy_runners : List Text → Body

pub record Response : Type 0 where
  pub status : ℕ
  pub headers : List (HeaderName × Text)
  pub cookie : Option SessionCookie
  pub body : Body

pub record Handler (World : Type 0) : Type 0 where
  pub svc : Service World
  pub fallback_stacks : List Text
  pub stack_self : Text

-- NewHandler panics on an empty name.
unfoldable pub new_handler :
    {World : Type 0} → Service World → List Text → Text → Option (Handler World)
new_handler svc fallback_stacks stack_self =
    if is_empty stack_self
    then none
    else some (record { svc = svc; fallback_stacks = fallback_stacks; stack_self = stack_self })

-- errors.Is against a sentinel of the store looks through the wrapping.
abbrev pub unwrap : ServiceError → Option StoreError
unwrap (store_error e) = some e
unwrap (delete_unhealthy e) = some e
unwrap _ = none

abbrev pub bare : ℕ → Response
bare status = record { status = status; headers = []; cookie = none; body = no_body }

abbrev pub write_error : Request → ℕ → Code → Text → Response → Response
write_error req status code message r = record r {
  status = status;
  body = error_body (record { code = code; message = message; request_id = req.request_id });
}

-- The stacks that are left to try.
abbrev pub signal_pool : List Text → Request → List Text
signal_pool fallback_stacks req =
    if is_empty req.fallback_stack then fallback_stacks else Stacklist.split req.fallback_remaining

abbrev pub signal_headers : List Text → List (HeaderName × Text)
signal_headers [] = []
signal_headers (p ∷ []) = (fallback_stack_header, p) ∷ []
signal_headers (p ∷ q ∷ ps) =
    (fallback_stack_header, p) ∷ (fallback_remaining_header, join comma (q ∷ ps)) ∷ []

unfoldable pub signal_fallback : List Text → Request → Response → Response
signal_fallback fallback_stacks req r = record r {
  headers = r.headers ++ signal_headers (signal_pool fallback_stacks req);
}

-- ^[A-Za-z0-9.-]+$
abbrev pub is_host_char : ℕ → Bool
is_host_char c =
    (leb b'A' c && leb c b'Z')
    || (leb b'a' c && leb c b'z')
    || (leb b'0' c && leb c b'9')
    || (c == b'.')
    || (c == b'-')

unfoldable pub validate_runner_host : Text → Option Text
validate_runner_host host =
    if is_empty host
    then some (codes "host is required")
    else if not (all_test is_host_char host)
    then some (codes "host must be hostname-style")
    else none

module _ {World : Type 0} (h : Handler World) (req : Request) where
  open h use {svc, fallback_stacks, stack_self}

  -- `none` is a loop that was cut off.
  abbrev pub Answer : Type 0
  Answer = Option Response × World

  abbrev pub after_close : Outcome ServiceError (Unit {0}) × World → Answer
  after_close (ok _, w) = (some (bare 204), w)
  after_close (err e, w) = (
    elim (unwrap e) [
      | some not_found ↦
          some (write_error req 404 session_not_found (codes "session not found") (bare 200))
      | _ ↦ some (write_error req 500 internal_error (codes "failed to close session") (bare 200))
    ],
    w,
  )
  after_close (out_of_fuel, w) = (none, w)

  unfoldable pub delete_session : World → Answer
  delete_session w = after_close (svc.close_session req.path_param w)

  abbrev pub resolved : ResolveResult → Response
  resolved result = record {
    status = 200;
    headers =
        (if result.reassigned then (reassigned_header, codes "true") ∷ [] else [])
        ++ ((session_hex_header, result.session_hex)
            ∷ (stack_name_header, stack_self)
            ∷ (runner_host_header, result.runner_host)
            ∷ []);
    cookie = if result.created then some (record { value = result.session_id }) else none;
    body = no_body;
  }

  abbrev pub refused : ServiceError → Response
  refused e = elim (unwrap e) [
    | some no_idle_runner ↦
        write_error req 503 Code.no_idle_runner (codes "no idle runner available")
          (signal_fallback fallback_stacks req (bare 200))
    | _ ↦ write_error req 500 internal_error (codes "failed to resolve session") (bare 200)
  ]

  abbrev pub after_resolve : Outcome ServiceError ResolveResult × World → Answer
  after_resolve (ok result, w) = (some (resolved result), w)
  after_resolve (err e, w) = (some (refused e), w)
  after_resolve (out_of_fuel, w) = (none, w)

  unfoldable pub get_resolve_session : World → Answer
  get_resolve_session w = after_resolve (svc.resolve_session req.session_cookie w)

  abbrev pub after_register : Outcome ServiceError (Unit {0}) × World → Answer
  after_register (ok _, w) = (some (bare 201), w)
  after_register (err e, w) = (
    elim (unwrap e) [
      | some conflict ↦ some (
          write_error req 409 runner_conflict
            (codes "runner already registered with different attributes") (bare 200))
      | _ ↦ some (write_error req 500 internal_error (codes "failed to register runner") (bare 200))
    ],
    w,
  )
  after_register (out_of_fuel, w) = (none, w)

  abbrev pub with_valid_host : RegisterRequest → Option Text → World → Answer
  with_valid_host body (some reason) w = (
    some (write_error req 400 invalid_request (codes "invalid privateHost: " ++ reason) (bare 200)),
    w,
  )
  with_valid_host body none w =
      after_register (svc.register_runner body.runner_id body.private_host w)

  abbrev pub with_body : Option RegisterRequest → World → Answer
  with_body none w =
      (some (write_error req 400 invalid_request (codes "invalid request body") (bare 200)), w)
  with_body (some body) w = with_valid_host body (validate_runner_host body.private_host) w

  unfoldable pub post_register : World → Answer
  post_register w = with_body req.bound w

  abbrev pub after_deregister : Outcome ServiceError (Unit {0}) × World → Answer
  after_deregister (ok _, w) = (some (bare 204), w)
  after_deregister (err e, w) = (
    some (write_error req 500 internal_error (codes "failed to deregister runner") (bare 200)),
    w,
  )
  after_deregister (out_of_fuel, w) = (none, w)

  unfoldable pub delete_runner : World → Answer
  delete_runner w = after_deregister (svc.deregister_runner req.path_param w)

  abbrev pub after_list : Outcome ServiceError (List Runner) × World → Answer
  after_list (ok runners, w) =
      (some (record (bare 200) { body = busy_runners (map (λ r. r.runner_id) runners) }), w)
  after_list (err e, w) = (
    some (write_error req 500 internal_error (codes "failed to list busy runners") (bare 200)),
    w,
  )
  after_list (out_of_fuel, w) = (none, w)

  unfoldable pub get_list_busy_runners : World → Answer
  get_list_busy_runners w = after_list (svc.list_busy_runners w)
