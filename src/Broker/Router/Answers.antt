-- ===== src/Broker/Router/Answers.antt =====
-- broker/main.go with broker/handler/: what an answer of each route looks like.
pub mod Handlers
pub mod Served
use hackathon.Common.{
  ℕ, ◌≡◌, refl, sym, ◌∙◌, ap, subst, ◌⊎◌, inl, inr, Bool, true, false, Option, none, some, List, [],
  ◌∷◌, ◌++◌, In, Bool-cases, Option-cases,
}
use hackathon.Text.{Text, codes, is_empty}
use hackathon.Broker.Model.{
  Runner, Code, ErrorResponse, session_not_found, invalid_request, runner_conflict, internal_error,
}
use hackathon.Broker.Model
use hackathon.Broker.Outcome.{Outcome, ok, err, out_of_fuel}
use hackathon.Broker.Store.{StoreError, not_found, no_idle_runner, conflict}
use hackathon.Broker.Service.{ServiceError, store_error, delete_unhealthy, ResolveResult}
use hackathon.Broker.Handler.{
  Handler, Request, Response, RegisterRequest, HeaderName, request_id_header, SessionCookie, Body,
  no_body, text_body, error_body, busy_runners, bare, write_error, unwrap, signal_fallback,
  after_close, delete_session, resolved, refused, after_resolve, get_resolve_session,
  after_register, with_valid_host, with_body, post_register, after_deregister, delete_runner,
  after_list, get_list_busy_runners, validate_runner_host,
}
use hackathon.Broker.Handler.Middleware.{request_id_middleware, after_id, tagged, with_header}
use hackathon.Broker.Handler.Fallback.{next_stack, value_of}
use hackathon.Broker.Router.{
  HttpRequest, Route, health_route, resolve_route, register_route, busy_route, session_route,
  runner_route, match, to_handler, serve, handle,
}

abbrev pub allowed : Route → List ℕ
allowed health_route = 200 ∷ []
allowed resolve_route = 200 ∷ 503 ∷ 500 ∷ []
allowed register_route = 201 ∷ 400 ∷ 409 ∷ 500 ∷ []
allowed busy_route = 200 ∷ 500 ∷ []
allowed (session_route id) = 204 ∷ 404 ∷ 500 ∷ []
allowed (runner_route id) = 204 ∷ 500 ∷ []

abbrev pub status_of_code : Code → ℕ
status_of_code Model.no_idle_runner = 503
status_of_code session_not_found = 404
status_of_code invalid_request = 400
status_of_code runner_conflict = 409
status_of_code internal_error = 500

-- What a body says of the status: without one the request succeeded, or it ended before it had an id.
-- `id` is the id of the request.
abbrev pub BodyFits : ℕ → Text → Body → Type 0
BodyFits status id no_body = In status (200 ∷ 201 ∷ 204 ∷ []) ⊎ ((status ≡ 500) × (id ≡ []))
BodyFits status id (text_body t) = status ≡ 200
BodyFits status id (busy_runners ids) = status ≡ 200
BodyFits status id (error_body e) = (status ≡ status_of_code e.code) × (e.request_id ≡ id)

pub record Fits (route : Route) (id : Text) (r : Response) : Type 0 where
  pub status_law : In r.status (allowed route)
  pub body_law : BodyFits r.status id r.body
  pub cookie_law :
      (c : SessionCookie) → r.cookie ≡ some c → (route ≡ resolve_route) × (r.status ≡ 200)
  pub stack_law : is_empty (next_stack r) ≡ false → (route ≡ resolve_route) × (r.status ≡ 503)

pub bare-Fits :
    (route : Route) (id : Text) (status : ℕ)
    → In status (allowed route)
    → BodyFits status id no_body
    → Fits route id (bare status)
bare-Fits route id status h b = record {
  status_law = h;
  body_law = b;
  cookie_law = λ c e. cc e;
  stack_law = λ e. cc e;
}

pub error-Fits :
    (route : Route) (req : Request) (status : ℕ) (code : Code) (message : Text)
    → In status (allowed route)
    → status ≡ status_of_code code
    → Fits route req.request_id (write_error req status code message (bare 200))
error-Fits route req status code message h e = record {
  status_law = h;
  body_law = (e, refl);
  cookie_law = λ c f. cc f;
  stack_law = λ f. cc f;
}

-- The answers of a handler, if there is one.
abbrev pub OfHandler : {World : Type 0} → Route → Text → Option Response × World → Type 0
OfHandler route id (none, w) = Unit
OfHandler route id (some r, w) = Fits route id r

abbrev pub is_id_header : HeaderName → Bool
is_id_header request_id_header = true
is_id_header name = false

-- The answer, if there is one, fits the route; its id is the one in the header.
abbrev pub Answers : {World : Type 0} → Route → Option Response × World → Type 0
Answers route (none, w) = Unit
Answers route (some r, w) = Fits route (value_of is_id_header r.headers) r
