-- ===== src/Broker/Router/Answers/Served.antt =====
-- broker/main.go, newRouter: what the router answers.
use hackathon.Common.{◌≡◌, refl, inl, inr, Option, none, some, [], In}
use hackathon.Text.{Text}
use hackathon.Broker.Handler.{
  Handler, Response, delete_session, get_resolve_session, post_register, delete_runner,
  get_list_busy_runners,
}
use hackathon.Broker.Handler.Middleware.{request_id_middleware, after_id, tagged}
use hackathon.Broker.Router.{
  HttpRequest, Route, health_route, resolve_route, register_route, busy_route, session_route,
  runner_route, match, to_handler, serve, handle,
}
use hackathon.Broker.Router.Answers.{allowed, bare-Fits, OfHandler, Answers}
use hackathon.Broker.Router.Answers.Handlers.{
  close_lem, resolve_lem, body_lem, deregister_lem, list_lem,
}

tagged-Fits :
    {World : Type 0} (route : Route) (id : Text) (o : Option Response × World)
    → OfHandler route id o
    → Answers route (tagged id o.0, o.1)
tagged-Fits route id (none, w) h = tt
tagged-Fits route id (some r, w) h = record {
  status_law = h.status_law;
  body_law = h.body_law;
  cookie_law = h.cookie_law;
  stack_law = h.stack_law;
}

after_id_lem :
    {World : Type 0} (route : Route) (handle : Text → World → Option Response × World)
    (reply : Option Text × World)
    → In 500 (allowed route)
    → ((id : Text) (w : World) → OfHandler route id (handle id w))
    → Answers route (after_id handle reply)
after_id_lem route handle (none, w) h more = bare-Fits route [] 500 h (inr (refl, refl))
after_id_lem route handle (some id, w) h more = tagged-Fits route id (handle id w) (more id w)

module _ {World : Type 0} (h : Handler World) (id_fn : World → Option Text × World)
    (unrouted : HttpRequest → World → Option Response × World) where
  serve_lem :
      (req : HttpRequest) (w : World) (route : Route)
      → Answers route (serve h id_fn unrouted req w (some route))
  unfolding request_id_middleware delete_session get_resolve_session post_register delete_runner
      get_list_busy_runners
  serve_lem req w health_route = record {
    status_law = inl refl;
    body_law = refl;
    cookie_law = λ c e. cc e;
    stack_law = λ e. cc e;
  }
  serve_lem req w (session_route id) =
      after_id_lem (session_route id) _ (id_fn w) (inr (inr (inl refl)))
        (λ x w'. close_lem h (to_handler req id x) id (h.svc.close_session id w'))
  serve_lem req w resolve_route =
      after_id_lem resolve_route _ (id_fn w) (inr (inr (inl refl)))
        (λ x w'. resolve_lem h (to_handler req [] x) (h.svc.resolve_session req.session_cookie w'))
  serve_lem req w register_route =
      after_id_lem register_route _ (id_fn w) (inr (inr (inr (inl refl))))
        (λ x w'. body_lem h (to_handler req [] x) req.bound w')
  serve_lem req w (runner_route id) =
      after_id_lem (runner_route id) _ (id_fn w) (inr (inl refl))
        (λ x w'. deregister_lem h (to_handler req id x) id (h.svc.deregister_runner id w'))
  serve_lem req w busy_route =
      after_id_lem busy_route _ (id_fn w) (inr (inl refl))
        (λ x w'. list_lem h (to_handler req [] x) (h.svc.list_busy_runners w'))

  -- Every answer of the broker to a request that a route fits, whatever its service gives: its status is
  -- one of those of the route; a status other than 200, 201 and 204
  -- comes with an error in the body, whose code goes with the status and whose id is the request id
  -- of the answer's header, or is 500 without a body where no request id could be made; a cookie comes only with a resolved session, and a fallback
  -- stack only where the answer to a resolution is 503.
  pub handle-Answers :
      (req : HttpRequest) (w : World) (route : Route)
      → match req ≡ some route
      → Answers route (handle h id_fn unrouted req w)
  unfolding handle
  handle-Answers req w route fits = rw fits (serve_lem req w route)
