-- ===== src/Broker/Service/Create.antt =====
-- createSession: it ends, and a runner that it returns is healthy and belongs to the session.
use hackathon.Common.{
  inl, inr, ℕ, subst, zero, suc, ◌<◌, ◌≤◌, ◌≡◌, refl, sym, ◌∙◌, Bool, true, false, Option, none,
  some, List, arith, ap,
}
use hackathon.Text.{Text}
use hackathon.Broker.Model.{Runner}
use hackathon.Broker.Outcome.{Outcome, ok, err, out_of_fuel, next}
use hackathon.Broker.Store.{StoreError, no_idle_runner}
use hackathon.Broker.Store.Table.{
  idle_row, assign_row, remove_row, count_idle, count_idle-assign, count_idle-remove, remove-assign,
}
use hackathon.Broker.Store.Acquire.{Assigns, AtMostOne, AcquireEffect}
use hackathon.Broker.Store.Effects.{DeleteDone}
use hackathon.Broker.Service.{
  BrokerService, ServiceError, store_error, delete_unhealthy, missing_prefix, session_id_failed,
  CreateSessionResult, raised, after_check, after_unhealthy, create_from, with_session,
  create_session, namespaced_session_id,
}
use hackathon.Broker.Service.Contract.{Contract, Ambient}

module _ (s : BrokerService) {rows : s.World → List Runner} (c : Contract s.repo rows)
    (m : Ambient s rows) where
  open s use {World, repo, check, context_err, session_fn}
  open c use {acquire_law, delete_law}
  open m use {check_law, session_law}

  -- The rows that are left of `before` once some unhealthy runners, idle till then, were removed.
  pub data Purged (before : List Runner) : List Runner → Type 0 where
    untouched : {after : List Runner} → after ≡ before → Purged before after
    purged :
        {mid after : List Runner} (x : Runner) (w : World)
        → Purged before mid
        → idle_row x.runner_id mid ≡ true
        → (check x.private_host w).0 ≡ false
        → after ≡ remove_row x.runner_id mid
        → Purged before after

  -- The health check that led to this world found the host healthy.
  abbrev pub FoundHealthy : Text → World → Type 0
  FoundHealthy host after = (w : World) × (check host w ≡ (true, after))

  abbrev pub Created : Text → Text → List Runner → World → CreateSessionResult → Type 0
  Created session_id session_hex before w result =
      (mid : List Runner) × Purged before mid
      × Assigns session_id mid (rows w) result.runner
      × FoundHealthy result.runner.private_host w
      × (result.session_id ≡ session_id)
      × (result.session_hex ≡ session_hex)

  -- Besides unhealthy runners, whose rows are gone, at most one idle row was assigned.
  abbrev pub Strayed : Text → List Runner → List Runner → Type 0
  Strayed session_id before after =
      (mid : List Runner) × Purged before mid × AtMostOne session_id mid after

  abbrev pub CreateEffect :
      Text → Text → List Runner → Outcome ServiceError CreateSessionResult × World → Type 0
  CreateEffect session_id session_hex before (ok result, w) =
      Created session_id session_hex before w result
  CreateEffect session_id session_hex before (err (store_error no_idle_runner), w) =
      Purged before (rows w)
  CreateEffect session_id session_hex before (err missing_prefix, w) = ⊥
  CreateEffect session_id session_hex before (err session_id_failed, w) = ⊥
  CreateEffect session_id session_hex before (err e, w) = Strayed session_id before (rows w)
  CreateEffect session_id session_hex before (out_of_fuel, w) = ⊥

  abbrev Round :
      Text
      → Text
      → List Runner
      → ℕ
      → World
      → (World → Outcome ServiceError CreateSessionResult × World)
      → Type 0
  Round session_id session_hex before n w go_on =
      (w' : World)
      → Purged before (rows w')
      → count_idle (rows w') < n
      → CreateEffect session_id session_hex before (go_on w')

  after_delete :
      (session_id session_hex : Text) (before mid : List Runner) (x : Runner) (n : ℕ) (wc : World)
      (go_on : World → Outcome ServiceError CreateSessionResult × World)
      (reply : Outcome StoreError (Unit {0}) × World)
      → Purged before mid
      → idle_row x.runner_id mid ≡ true
      → (check x.private_host wc).0 ≡ false
      → count_idle (assign_row x.runner_id session_id mid) < n
      → DeleteDone x.runner_id (assign_row x.runner_id session_id mid) (rows reply.1) reply.0
      → Round session_id session_hex before n wc go_on
      → CreateEffect session_id session_hex before
          (next (raised delete_unhealthy reply) (λ _. go_on))
  after_delete session_id session_hex before mid x n wc go_on (err e, w) p idle bad lt h more =
      elim h.1 [
        | inl kept ↦ (mid, p, inr (x.runner_id, idle, kept))
        | inr gone ↦ (
          remove_row x.runner_id mid,
          purged x wc p idle bad refl,
          inl (gone ∙ remove-assign x.runner_id session_id mid),
        )
      ]
  after_delete session_id session_hex before mid x n wc go_on (out_of_fuel, w) p idle bad lt h
        more =
      h
  after_delete session_id session_hex before mid x n wc go_on (ok _, w) p idle bad lt h more =
      more w (purged x wc p idle bad (h ∙ remove-assign x.runner_id session_id mid)) (
        rw h (omega (arith, count_idle-remove x.runner_id (assign_row x.runner_id session_id mid))))

  after_check_lem :
      (session_id session_hex : Text) (before mid : List Runner) (x : Runner) (n : ℕ) (wc : World)
      (go_on : World → Outcome ServiceError CreateSessionResult × World) (verdict : Bool × World)
      → check x.private_host wc ≡ verdict
      → rows verdict.1 ≡ assign_row x.runner_id session_id mid
      → Purged before mid
      → Assigns session_id mid (rows verdict.1) x
      → count_idle (assign_row x.runner_id session_id mid) < n
      → Round session_id session_hex before n wc go_on
      → CreateEffect session_id session_hex before
          (after_check s session_id session_hex x go_on verdict)
  after_check_lem session_id session_hex before mid x n wc go_on (true, w) e same p a lt more =
      (mid, p, a, (wc, e), refl, refl)
  after_check_lem session_id session_hex before mid x n wc go_on (false, w) e same p a lt more =
      by_context (context_err w)
    where
      by_context :
          (b : Bool) → CreateEffect session_id session_hex before (after_unhealthy s x go_on b w)
      by_context true = (mid, p, inr (x.runner_id, a.was_idle, same))
      by_context false =
          after_delete session_id session_hex before mid x n wc go_on (repo.delete x.runner_id w) p
            a.was_idle (ap (λ (v : Bool × World). v.0) e) lt
            (rw (← same) (delete_law x.runner_id w)) more

  round_lem :
      (session_id session_hex : Text) (before mid : List Runner) (n : ℕ)
      (go_on : World → Outcome ServiceError CreateSessionResult × World)
      (reply : Outcome StoreError Runner × World)
      → Purged before mid
      → count_idle mid ≤ n
      → AcquireEffect session_id mid (rows reply.1) reply.0
      → Round session_id session_hex before n reply.1 go_on
      → CreateEffect session_id session_hex before (
          next
            (raised store_error reply)
            λ x w1. after_check s session_id session_hex x go_on (check x.private_host w1))
  round_lem session_id session_hex before mid n go_on (ok x, w) p lt h more =
      after_check_lem session_id session_hex before mid x n w go_on (check x.private_host w) refl
        (check_law x.private_host w ∙ h.one_row) p (rw (check_law x.private_host w) h)
        (omega (arith, count_idle-assign x.runner_id session_id mid h.was_idle)) more
  round_lem session_id session_hex before mid n go_on (err no_idle_runner, w) p lt h more =
      rw (h.0 refl) p
  round_lem session_id session_hex before mid n go_on (err _, w) p lt h more = (mid, p, h.1)
  round_lem session_id session_hex before mid n go_on (out_of_fuel, w) p lt h more = h

  create_from_lem :
      (fuel : ℕ) (session_id session_hex : Text) (before : List Runner) (w : World)
      → Purged before (rows w)
      → count_idle (rows w) < fuel
      → CreateEffect session_id session_hex before (create_from s fuel session_id session_hex w)
  unfolding create_from
  create_from_lem zero session_id session_hex before w p lt = elim lt [ ]
  create_from_lem (suc fuel) session_id session_hex before w p lt =
      round_lem session_id session_hex before (rows w) fuel
        (create_from s fuel session_id session_hex) _ p (omega arith) (acquire_law session_id w)
        (λ w' p' lt'. create_from_lem fuel session_id session_hex before w' p' lt')

  -- A runner that comes back is new to a session named after the stack; without one, unhealthy
  -- runners are all that is gone.
  abbrev pub SessionEffect : List Runner → Outcome ServiceError CreateSessionResult × World → Type 0
  SessionEffect before (ok result, w) =
      Created (namespaced_session_id s result.session_hex) result.session_hex before w result
  SessionEffect before (err (store_error no_idle_runner), w) = Purged before (rows w)
  SessionEffect before (err missing_prefix, w) = ⊥
  SessionEffect before (err session_id_failed, w) = rows w ≡ before
  SessionEffect before (err e, w) = (session_id : Text) × Strayed session_id before (rows w)
  SessionEffect before (out_of_fuel, w) = ⊥

  named :
      (session_hex : Text) (before : List Runner)
      (reply : Outcome ServiceError CreateSessionResult × World)
      → CreateEffect (namespaced_session_id s session_hex) session_hex before reply
      → SessionEffect before reply
  named session_hex before (ok result, w) h =
      subst (λ (t : Text). Created (namespaced_session_id s t) t before w result) (sym h.5) h
  named session_hex before (err (store_error no_idle_runner), w) h = h
  named session_hex before (err missing_prefix, w) h = h
  named session_hex before (err session_id_failed, w) h = absurd h
  named session_hex before (err e, w) h = (namespaced_session_id s session_hex, h)
  named session_hex before (out_of_fuel, w) h = h

  with_session_lem :
      (fuel : ℕ) (before : List Runner) (reply : Option Text × World)
      → rows reply.1 ≡ before
      → count_idle before < fuel
      → SessionEffect before (with_session s fuel reply)
  with_session_lem fuel before (none, w) e lt = e
  with_session_lem fuel before (some session_hex, w) e lt = named session_hex before _ (
      create_from_lem fuel (namespaced_session_id s session_hex) session_hex before w (untouched e)
        (rw e lt))

  -- With more fuel than idle rows, createSession returns. If it returns a session, its id is that of
  -- the stack and of the hex it returns, its runner passed the last health check, the runner's row
  -- was idle and is now the one row that is busy with the session, and the rows that are gone are
  -- those of runners found unhealthy. If no runner is idle, only such rows are gone. If no id could be
  -- made, nothing changed; under any other error one idle row may have been assigned besides.
  pub create_session-SessionEffect :
      (fuel : ℕ) (w : World)
      → count_idle (rows w) < fuel
      → SessionEffect (rows w) (create_session s fuel w)
  unfolding create_session
  create_session-SessionEffect fuel w lt =
      with_session_lem fuel (rows w) (session_fn w) (session_law w) lt
