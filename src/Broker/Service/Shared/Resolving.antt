-- ===== src/Broker/Service/Shared/Resolving.antt =====
-- broker/service/service.go, ResolveSession among other brokers.
use hackathon.Common.{ℕ, ◌≡◌, refl, ap, Bool, true, false, List}
use hackathon.Text.{Text, is_empty}
use hackathon.Broker.Model.{Runner}
use hackathon.Broker.Outcome.{Outcome, ok, err, out_of_fuel, next}
use hackathon.Broker.Store.{StoreError, not_found}
use hackathon.Broker.Store.Shared.{Reaches, refl-Reaches, trans-Reaches}
use hackathon.Broker.Service.{
  BrokerService, ServiceError, CreateSessionResult, create_session, created_result, create_resolved,
  kept_session, after_recheck, after_find, resolve_session,
}
use hackathon.Broker.Service.Shared.{
  SharedContract, SharedAmbient, Healthy, CreateServed, ResolveServed, unhealthy_lem,
}
use hackathon.Broker.Service.Shared.Creating.{create_session-CreateServed}

module _ (s : BrokerService) {rows : s.World → List Runner} (c : SharedContract s.repo rows)
    (m : SharedAmbient s rows) where
  open s use {World, repo, check, context_err, session_fn}
  open c use {acquire_law, delete_law, find_law}
  open m use {check_law, session_law}

  create_resolved_lem :
      (reassigned : Bool) (before : List Runner)
      (reply : Outcome ServiceError CreateSessionResult × World)
      → CreateServed s c m before reply
      → ResolveServed s c m before
          (next reply λ result w1. (ok (created_result s reassigned result), w1))
  create_resolved_lem reassigned before (ok r, w) h = (r.runner, refl, h)
  create_resolved_lem reassigned before (err e, w) h = h
  create_resolved_lem reassigned before (out_of_fuel, w) h = h

  create_lem :
      (fuel : ℕ) (reassigned : Bool) (before : List Runner) (w : World)
      → Reaches before (rows w)
      → ResolveServed s c m before (create_resolved s fuel reassigned w)
  unfolding create_resolved
  create_lem fuel reassigned before w reach =
      create_resolved_lem reassigned before (create_session s fuel w)
        (create_session-CreateServed s c m fuel before w reach)

  kept_lem :
      (session_id : Text) (before : List Runner) (x : Runner) (hex : Text) (found : Bool)
      (w : World)
      → Reaches before (rows w)
      → Healthy s c m x.private_host
      → ResolveServed s c m before (kept_session s session_id x hex found, w)
  kept_lem session_id before x hex true w reach alive = (reach, alive)
  kept_lem session_id before x hex false w reach alive = reach

  recheck_lem :
      (fuel : ℕ) (session_id : Text) (before : List Runner) (x : Runner) (w1 : World)
      (reply : Bool × World)
      → check x.private_host w1 ≡ reply
      → Reaches before (rows reply.1)
      → ResolveServed s c m before (after_recheck s fuel session_id x reply)
  recheck_lem fuel session_id before x w1 (true, w) e reach =
      kept_lem session_id before x _ _ w reach (w1, ap (λ (r : Bool × World). r.0) e)
  recheck_lem fuel session_id before x w1 (false, w) e reach =
      unhealthy_lem s c m (ResolveServed s c m before) before (λ e w reach. reach)
        (λ w reach. reach) x (create_resolved s fuel true) (context_err w) w reach
        (create_lem fuel true before)

  find_lem :
      (fuel : ℕ) (session_id : Text) (before : List Runner)
      (reply : Outcome StoreError Runner × World)
      → Reaches before (rows reply.1)
      → ResolveServed s c m before (after_find s fuel session_id reply)
  find_lem fuel session_id before (ok x, w) reach =
      recheck_lem fuel session_id before x w (check x.private_host w) refl
        (trans-Reaches reach (check_law x.private_host w))
  find_lem fuel session_id before (err not_found, w) reach = create_lem fuel false before w reach
  find_lem fuel session_id before (err _, w) reach = reach
  find_lem fuel session_id before (out_of_fuel, w) reach = reach

  -- ResolveSession among other brokers, whatever they do between and during its calls. A session that
  -- it creates has a runner with the host of the result, whose row was idle at some moment since the
  -- call, was made busy with the session by the write at that moment, and has been so ever since unless
  -- it was removed. The host of a result, of a new session or a kept one, passed a health check. Under
  -- an error, or where the rounds exceed the fuel, the table went on by transitions.
  pub resolve_session-ResolveServed :
      (fuel : ℕ) (session_id : Text) (w : World)
      → ResolveServed s c m (rows w) (resolve_session s fuel session_id w)
  unfolding resolve_session
  resolve_session-ResolveServed fuel session_id w =
      elim (is_empty session_id)
        as (λ b. ResolveServed s c m (rows w) (elim b [
          | true ↦ create_resolved s fuel false w
          | false ↦ after_find s fuel session_id (repo.find_by_session_id session_id w)
        ])) [
          | true ↦ create_lem fuel false (rows w) w (refl-Reaches (rows w))
          | false ↦
              find_lem fuel session_id (rows w) (repo.find_by_session_id session_id w)
                (find_law session_id w)
        ]
