-- ===== src/Broker/Handler/Responses.antt =====
-- What a client may conclude from a response, down to the table of runners.
use mathlib.Core.Option.{some-injective}
use hackathon.Common.{
  ℕ, ◌<◌, ◌≡◌, refl, sym, ◌∙◌, ap, subst, inl, inr, ◌⊎◌, Option, none, some, List, map,
}
use hackathon.Text.{Text}
use hackathon.Broker.Model.{Runner, state_busy}
use hackathon.Broker.Outcome.{Outcome, ok, err, out_of_fuel}
use hackathon.Broker.Store.Table.{find_row, idle_row, find-assign_self, count_idle}
use hackathon.Broker.Store.Acquire.{Assigns}
use hackathon.Broker.Store.{no_idle_runner}
use hackathon.Broker.Service.{
  BrokerService, ServiceError, store_error, delete_unhealthy, ResolveResult, raised,
}
use hackathon.Broker.Service
use hackathon.Broker.Service.Contract.{Contract, Ambient}
use hackathon.Broker.Service.Resolve.{Kept, Renewed, ResolveEffect, resolve_session-ResolveEffect}
use hackathon.Broker.Handler.{
  Handler, Request, Response, RegisterRequest, SessionCookie, is_host_char, validate_runner_host,
  resolved, refused, signal_fallback, after_resolve, get_resolve_session, after_register,
  with_valid_host, with_body, post_register, get_list_busy_runners,
}
use hackathon.Broker.Handler

-- The service behind the handlers, with the fuel of its loop.
abbrev pub service_api : (s : BrokerService) → ℕ → Handler.Service s.World
service_api s fuel = record {
  close_session = Service.close_session s;
  resolve_session = Service.resolve_session s fuel;
  register_runner = Service.register_runner s;
  deregister_runner = Service.deregister_runner s;
  list_busy_runners = Service.list_busy_runners s;
}

-- The list of busy runners shows their ids and nothing else: two states whose busy runners have the
-- same ids, whatever their sessions and hosts, give the same answer.
pub get_list_busy_runners_ids :
    {World : Type 0} (h h' : Handler World) (req : Request) (w w' v v' : World)
    (rs rs' : List Runner)
    → h.svc.list_busy_runners w ≡ (ok rs, v)
    → h'.svc.list_busy_runners w' ≡ (ok rs', v')
    → map (λ (r : Runner). r.runner_id) rs ≡ map (λ (r : Runner). r.runner_id) rs'
    → (get_list_busy_runners h req w).0 ≡ (get_list_busy_runners h' req w').0
unfolding get_list_busy_runners
get_list_busy_runners_ids h h' req w w' v v' rs rs' e e' same = rw (e, e') (rw same)

-- The row of an assigned runner, read back.
pub busy_row :
    (session_id : Text) (mid after : List Runner) (x : Runner)
    → Assigns session_id mid after x
    → (y : Runner) × (find_row x.runner_id after ≡ some y)
      × (y.state ≡ state_busy)
      × (y.current_session_id ≡ session_id)
unfolding idle_row
busy_row session_id mid after x a = found (find_row x.runner_id mid) refl
  where
    found :
        (o : Option Runner)
        → find_row x.runner_id mid ≡ o
        → (y : Runner) × (find_row x.runner_id after ≡ some y)
          × (y.state ≡ state_busy)
          × (y.current_session_id ≡ session_id)
    found none e = absurd (cc (a.was_idle, e))
    found (some y) e = (
      record y { state = state_busy; current_session_id = session_id },
      rw a.one_row (find-assign_self x.runner_id session_id mid y e),
      refl,
      refl,
    )

refused_cookie :
    {World : Type 0} (h : Handler World) (req : Request) (e : ServiceError)
    → (refused h req e).cookie ≡ none
unfolding signal_fallback
refused_cookie h req (store_error no_idle_runner) = refl
refused_cookie h req (store_error _) = refl
refused_cookie h req (delete_unhealthy no_idle_runner) = refl
refused_cookie h req (delete_unhealthy _) = refl
refused_cookie h req _ = refl

module _ (s : BrokerService) {rows : s.World → List Runner} (c : Contract s.repo rows)
    (m : Ambient s rows) where
  open s use {World}

  abbrev Serves : SessionCookie → World → Type 0
  Serves k w =
      (id : Text) × (y : Runner) × (find_row id (rows w) ≡ some y)
      × (y.state ≡ state_busy)
      × (y.current_session_id ≡ k.value)

  cookie_of_result :
      (h : Handler World) (req : Request) (session_id : Text) (before : List Runner)
      (reply : Outcome ServiceError ResolveResult × World) (r : Response) (w : World)
      (k : SessionCookie)
      → ResolveEffect s c m session_id before reply
      → after_resolve h req reply ≡ (some r, w)
      → r.cookie ≡ some k
      → Serves k w
  cookie_of_result h req session_id before (ok result, w') r w k e a b =
      subst (Serves k) (ap (λ (t : Option Response × World). t.1) a) (
        of_case e (
          ap (λ (x : Response). x.cookie)
            (some-injective _ _ (ap (λ (t : Option Response × World). t.0) a))
          ∙ b))
    where
      of_case :
          Kept s c m session_id before result w' ⊎ Renewed s c m session_id before result w'
          → (resolved h req result).cookie ≡ some k
          → Serves k w'
      of_case (inl kept) b' = absurd (cc (rw kept.not_created at b'))
      of_case (inr fresh) b' =
          let (y, found, busy, same) = busy_row _ _ (rows w') fresh.session.runner fresh.made.2 in
          (
            fresh.session.runner.runner_id,
            y,
            found,
            busy,
            same
                ∙ sym fresh.made.4
                ∙ sym fresh.same_id
                ∙ ap (λ (x : SessionCookie). x.value)
                    (some-injective _ _ (rw fresh.is_created at b')),
          )
  cookie_of_result h req session_id before (err e', w') r w k e a b = absurd (
      cc (
        refused_cookie h req e',
        ap (λ (x : Response). x.cookie)
            (some-injective _ _ (ap (λ (t : Option Response × World). t.0) a)),
        b,
      ))
  cookie_of_result h req session_id before (out_of_fuel, w') r w k e a b = absurd e

  -- If a response of GET /resolve/session sets a session cookie, then the table has a runner that is
  -- busy with just that session.
  pub get_resolve_session_cookie :
      (h : Handler World) (req : Request) (fuel : ℕ) (w w' : World) (r : Response)
      (k : SessionCookie)
      → h.svc ≡ service_api s fuel
      → count_idle (rows w) < fuel
      → get_resolve_session h req w ≡ (some r, w')
      → r.cookie ≡ some k
      → (id : Text) × (y : Runner) × (find_row id (rows w') ≡ some y)
        × (y.state ≡ state_busy)
        × (y.current_session_id ≡ k.value)
  unfolding get_resolve_session
  get_resolve_session_cookie h req fuel w w' r k same lt a b =
      cookie_of_result h req req.session_cookie (rows w)
        (h.svc.resolve_session req.session_cookie w) r w' k
        (rw same (resolve_session-ResolveEffect s c m fuel req.session_cookie w lt)) a b
