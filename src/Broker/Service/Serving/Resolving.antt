-- ===== src/Broker/Service/Serving/Resolving.antt =====
-- ResolveSession while a healthy runner waits.
use hackathon.Common.{ℕ, ◌≡◌, ◌≢◌, refl, ◌∙◌, ap, inl, inr, Bool, true, false, List, Bool-cases}
use hackathon.Text.{Text, is_empty}
use hackathon.Broker.Model.{Runner}
use hackathon.Broker.Outcome.{Outcome, ok, err, out_of_fuel, next}
use hackathon.Broker.Store.{StoreError, no_idle_runner, not_found}
use hackathon.Broker.Store.Current.{IsIn}
use hackathon.Broker.Service.{
  BrokerService, ServiceError, store_error, delete_unhealthy, CreateSessionResult, create_session,
  created_result, create_resolved, kept_session, after_recheck, after_find, resolve_session,
}
use hackathon.Broker.Service.Serving.{Prompt, Waits, NotExhausted, other_runner, unhealthy_lem}
use hackathon.Broker.Service.Contract.{Contract, Ambient}
use hackathon.Broker.Service.Serving.Creating.{create_session_lem}

module _ (s : BrokerService) {rows : s.World → List Runner} (c : Contract s.repo rows)
    (m : Ambient s rows) (p : Prompt s.repo rows) (x : Runner)
    (steady : (w : s.World) → (s.check x.private_host w).0 ≡ true) where
  open s use {World, repo, check, context_err, session_fn}
  open c use {acquire_law, delete_law, find_law}
  open m use {check_law, session_law}
  open p use {acquire_exact, find_exact, find_error}

  resolved_lem :
      (flag : Bool) (o : Outcome ServiceError CreateSessionResult × World)
      → NotExhausted o.0
      → NotExhausted (next o (λ result w1. (ok (created_result s flag result), w1))).0
  resolved_lem flag (ok result, w) h = tt
  resolved_lem flag (err (store_error no_idle_runner), w) h = h
  resolved_lem flag (err (store_error _), w) h = h
  resolved_lem flag (err (delete_unhealthy no_idle_runner), w) h = h
  resolved_lem flag (err (delete_unhealthy _), w) h = h
  resolved_lem flag (err _, w) h = h
  resolved_lem flag (out_of_fuel, w) h = tt

  create_resolved_lem :
      (fuel : ℕ) (flag : Bool) (w : World)
      → Waits x (rows w)
      → NotExhausted (create_resolved s fuel flag w).0
  unfolding create_resolved
  create_resolved_lem fuel flag w h =
      resolved_lem flag (create_session s fuel w) (create_session_lem s c m p x steady fuel w h)

  kept_lem :
      (session_id hex : Text) (y : Runner) (found : Bool)
      → NotExhausted (kept_session s session_id y hex found)
  kept_lem session_id hex y true = tt
  kept_lem session_id hex y false = tt

  recheck_lem :
      (fuel : ℕ) (session_id : Text) (table : List Runner) (y : Runner) (w : World)
      (verdict : Bool × World)
      → check y.private_host w ≡ verdict
      → rows verdict.1 ≡ table
      → Waits x table
      → IsIn table y
      → NotExhausted (after_recheck s fuel session_id y verdict).0
  recheck_lem fuel session_id table y w (true, w1) e same h mine = kept_lem session_id _ y _
  recheck_lem fuel session_id table y w (false, w1) e same h mine =
      unhealthy_lem s c m p x steady table y (create_resolved s fuel true) (context_err w1) w1 same
        h
        (other_runner s c m p x steady table y.runner_id y.private_host w y h mine refl refl
          (ap (λ (v : Bool × World). v.0) e))
        (create_resolved_lem fuel true)

  found_lem :
      (fuel : ℕ) (session_id : Text) (table : List Runner)
      (reply : Outcome StoreError Runner × World)
      → rows reply.1 ≡ table
      → Waits x table
      → ((y : Runner) → reply.0 ≡ ok y → IsIn table y)
      → reply.0 ≢ err no_idle_runner
      → NotExhausted (after_find s fuel session_id reply).0
  found_lem fuel session_id table (ok y, w) e h mine other =
      recheck_lem fuel session_id table y w (check y.private_host w) refl
        (check_law y.private_host w ∙ e) h (mine y refl)
  found_lem fuel session_id table (err not_found, w) e h mine other =
      create_resolved_lem fuel false w (rw e h)
  found_lem fuel session_id table (err no_idle_runner, w) e h mine other = other refl
  found_lem fuel session_id table (err _, w) e h mine other = tt
  found_lem fuel session_id table (out_of_fuel, w) e h mine other = tt

  -- As long as the index shows the table as it is, ResolveSession never says that there is no idle
  -- runner while a runner with an idle row passes every health check: it does not lose that runner
  -- among the unhealthy ones.
  pub resolve_session-NotExhausted :
      (fuel : ℕ) (session_id : Text) (w : World)
      → Waits x (rows w)
      → NotExhausted (resolve_session s fuel session_id w).0
  unfolding resolve_session
  resolve_session-NotExhausted fuel session_id w h = elim (Bool-cases (is_empty session_id)) [
    | inl empty ↦ rw (empty, resolve_session) (create_resolved_lem fuel false w h)
    | inr filled ↦
        rw (filled, resolve_session)
          (found_lem fuel session_id (rows w) (repo.find_by_session_id session_id w)
            (find_law session_id w).0 h (find_exact session_id w) (find_error session_id w))
  ]
