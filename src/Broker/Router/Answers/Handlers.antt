-- ===== src/Broker/Router/Answers/Handlers.antt =====
-- broker/handler/handler.go: what each handler answers.
use hackathon.Common.{◌≡◌, refl, inl, inr, Option, none, some, List, [], Bool-cases}
use hackathon.Text.{Text}
use hackathon.Broker.Model.{
  Runner, Code, ErrorResponse, session_not_found, invalid_request, runner_conflict, internal_error,
}
use hackathon.Broker.Model
use hackathon.Broker.Outcome.{Outcome, ok, err, out_of_fuel}
use hackathon.Broker.Store.{not_found, no_idle_runner, conflict}
use hackathon.Broker.Service.{ServiceError, store_error, delete_unhealthy, ResolveResult}
use hackathon.Broker.Handler.{
  Handler, Request, RegisterRequest, bare, write_error, signal_fallback, after_close, resolved,
  after_resolve, after_register, with_valid_host, with_body, after_deregister, after_list,
  validate_runner_host,
}
use hackathon.Broker.Handler.Fallback.{next_stack}
use hackathon.Broker.Router.{resolve_route, register_route, busy_route, session_route, runner_route}
use hackathon.Broker.Router.Answers.{Fits, bare-Fits, error-Fits, OfHandler}

module _ {World : Type 0} (h : Handler World) (req : Request) where
  pub close_lem :
      (id : Text) (o : Outcome ServiceError (Unit {0}) × World)
      → OfHandler (session_route id) req.request_id (after_close h req o)
  close_lem id (ok _, w) = bare-Fits _ _ 204 (inl refl) (inl (inr (inr (inl refl))))
  close_lem id (err (store_error not_found), w) = error-Fits _ req 404 _ _ (inr (inl refl)) refl
  close_lem id (err (delete_unhealthy not_found), w) =
      error-Fits _ req 404 _ _ (inr (inl refl)) refl
  close_lem id (err (store_error _), w) = error-Fits _ req 500 _ _ (inr (inr (inl refl))) refl
  close_lem id (err (delete_unhealthy _), w) = error-Fits _ req 500 _ _ (inr (inr (inl refl))) refl
  close_lem id (err _, w) = error-Fits _ req 500 _ _ (inr (inr (inl refl))) refl
  close_lem id (out_of_fuel, w) = tt

  no_stack : (result : ResolveResult) → next_stack (resolved h req result) ≡ []
  no_stack result = elim (Bool-cases result.reassigned) [
    | inl yes_new ↦ rw yes_new refl
    | inr same ↦ rw same refl
  ]

  resolved-Fits :
      (result : ResolveResult) → Fits resolve_route req.request_id (resolved h req result)
  resolved-Fits result = record {
    status_law = inl refl;
    body_law = inl (inl refl);
    cookie_law = λ c e. (refl, refl);
    stack_law = λ e. cc (rw (no_stack result) at e);
  }

  internal-Fits :
      (message : Text)
      → Fits resolve_route req.request_id (write_error req 500 internal_error message (bare 200))
  internal-Fits message = error-Fits resolve_route req 500 _ message (inr (inr (inl refl))) refl

  idle-Fits :
      (message : Text)
      → Fits resolve_route req.request_id (
          write_error req 503 Model.no_idle_runner message
            (signal_fallback h.fallback_stacks req (bare 200)))
  unfolding signal_fallback
  idle-Fits message = record {
    status_law = inr (inl refl);
    body_law = (refl, refl);
    cookie_law = λ c e. cc e;
    stack_law = λ e. (refl, refl);
  }

  pub resolve_lem :
      (o : Outcome ServiceError ResolveResult × World)
      → OfHandler resolve_route req.request_id (after_resolve h req o)
  resolve_lem (ok result, w) = resolved-Fits result
  resolve_lem (err (store_error no_idle_runner), w) = idle-Fits _
  resolve_lem (err (delete_unhealthy no_idle_runner), w) = idle-Fits _
  resolve_lem (err (store_error _), w) = internal-Fits _
  resolve_lem (err (delete_unhealthy _), w) = internal-Fits _
  resolve_lem (err _, w) = internal-Fits _
  resolve_lem (out_of_fuel, w) = tt

  register_lem :
      (o : Outcome ServiceError (Unit {0}) × World)
      → OfHandler register_route req.request_id (after_register h req o)
  register_lem (ok _, w) = bare-Fits _ _ 201 (inl refl) (inl (inr (inl refl)))
  register_lem (err (store_error conflict), w) =
      error-Fits register_route req 409 _ _ (inr (inr (inl refl))) refl
  register_lem (err (delete_unhealthy conflict), w) =
      error-Fits register_route req 409 _ _ (inr (inr (inl refl))) refl
  register_lem (err (store_error _), w) =
      error-Fits register_route req 500 _ _ (inr (inr (inr (inl refl)))) refl
  register_lem (err (delete_unhealthy _), w) =
      error-Fits register_route req 500 _ _ (inr (inr (inr (inl refl)))) refl
  register_lem (err _, w) = error-Fits register_route req 500 _ _ (inr (inr (inr (inl refl)))) refl
  register_lem (out_of_fuel, w) = tt

  host_lem :
      (body : RegisterRequest) (reason : Option Text) (w : World)
      → OfHandler register_route req.request_id (with_valid_host h req body reason w)
  host_lem body (some reason) w = error-Fits register_route req 400 _ _ (inr (inl refl)) refl
  host_lem body none w = register_lem (h.svc.register_runner body.runner_id body.private_host w)

  pub body_lem :
      (body : Option RegisterRequest) (w : World)
      → OfHandler register_route req.request_id (with_body h req body w)
  body_lem none w = error-Fits register_route req 400 _ _ (inr (inl refl)) refl
  body_lem (some body) w = host_lem body (validate_runner_host body.private_host) w

  pub deregister_lem :
      (id : Text) (o : Outcome ServiceError (Unit {0}) × World)
      → OfHandler (runner_route id) req.request_id (after_deregister h req o)
  deregister_lem id (ok _, w) = bare-Fits _ _ 204 (inl refl) (inl (inr (inr (inl refl))))
  deregister_lem id (err e, w) = error-Fits (runner_route id) req 500 _ _ (inr (inl refl)) refl
  deregister_lem id (out_of_fuel, w) = tt

  pub list_lem :
      (o : Outcome ServiceError (List Runner) × World)
      → OfHandler busy_route req.request_id (after_list h req o)
  list_lem (ok runners, w) = record {
    status_law = inl refl;
    body_law = refl;
    cookie_law = λ c e. cc e;
    stack_law = λ e. cc e;
  }
  list_lem (err e, w) = error-Fits busy_route req 500 _ _ (inr (inl refl)) refl
  list_lem (out_of_fuel, w) = tt
