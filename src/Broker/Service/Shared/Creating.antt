-- ===== src/Broker/Service/Shared/Creating.antt =====
-- broker/service/service.go, createSession among other brokers.
use hackathon.Common.{
  ℕ, zero, suc, ◌≡◌, refl, ap, ◌⊎◌, inl, inr, Bool, true, false, Option, none, some, List,
}
use hackathon.Text.{Text}
use hackathon.Broker.Model.{Runner}
use hackathon.Broker.Outcome.{Outcome, ok, err, out_of_fuel, next}
use hackathon.Broker.Store.{StoreError}
use hackathon.Broker.Store.Changes
use hackathon.Broker.Store.Changes.{Holds}
use hackathon.Broker.Store.Acquire.{Assigns}
use hackathon.Broker.Store.Shared.{Reaches, trans-Reaches, Change-Reaches, AcquireShared}
use hackathon.Broker.Store.Shared.Exclusive.{Gone, Steps-Holds, claimed}
use hackathon.Broker.Service.{
  BrokerService, ServiceError, store_error, raised, CreateSessionResult, after_check, create_from,
  with_session, create_session,
}
use hackathon.Broker.Service.Shared.{
  SharedContract, SharedAmbient, Healthy, Served, CreateServed, unhealthy_lem,
}

module _ (s : BrokerService) {rows : s.World → List Runner} (c : SharedContract s.repo rows)
    (m : SharedAmbient s rows) where
  open s use {World, repo, check, context_err, session_fn}
  open c use {acquire_law, delete_law, find_law}
  open m use {check_law, session_law}

  serve :
      (session_id : Text) (before : List Runner) (w : World) (x : Runner)
      → (moment : List Runner) (taken : List Runner) → Reaches before moment
      → Assigns session_id moment taken x
      → Reaches taken (rows w)
      → Healthy s c m x.private_host
      → Served s c m session_id before (rows w) x
  serve session_id before w x moment taken reached a (tables, steps) alive =
      let (y, named, session, held) = claimed session_id moment taken x a in
      record {
        moment = moment;
        taken = taken;
        since = tables;
        reached = reached;
        assigned = a;
        later = steps;
        row = y;
        of_runner = named;
        of_session = session;
        kept = kept_of y named (Steps-Holds y taken tables (rows w) steps held);
        healthy = alive;
      }
    where
      kept_of :
          (y : Runner)
          → y.runner_id ≡ x.runner_id
          → Holds y (rows w) ⊎ Gone y.runner_id tables
          → Holds y (rows w) ⊎ Gone x.runner_id tables
      kept_of y named (inl still) = inl still
      kept_of y named (inr gone) = inr (rw (← named) gone)

  after_check_lem :
      (session_id session_hex : Text) (before moment taken : List Runner) (x : Runner)
      (go_on : World → Outcome ServiceError CreateSessionResult × World) (w1 : World)
      (reply : Bool × World)
      → check x.private_host w1 ≡ reply
      → Reaches before moment
      → Assigns session_id moment taken x
      → Reaches taken (rows reply.1)
      → ((w' : World) → Reaches before (rows w') → CreateServed s c m before (go_on w'))
      → CreateServed s c m before (after_check s session_id session_hex x go_on reply)
  after_check_lem session_id session_hex before moment taken x go_on w1 (true, w) e reached a later
        more =
      serve session_id before w x moment taken reached a later
        (w1, ap (λ (r : Bool × World). r.0) e)
  after_check_lem session_id session_hex before moment taken x go_on w1 (false, w) e reached a later
        more =
      unhealthy_lem s c m (CreateServed s c m before) before (λ e w reach. reach) (λ w reach. reach)
        x go_on (context_err w) w
        (trans-Reaches reached (
          trans-Reaches
            (Change-Reaches (Changes.assigned x.runner_id session_id a.was_idle a.one_row)) later))
        more

  round_lem :
      (session_id session_hex : Text) (before start : List Runner)
      (go_on : World → Outcome ServiceError CreateSessionResult × World)
      (reply : Outcome StoreError Runner × World)
      → Reaches before start
      → AcquireShared session_id start (rows reply.1) reply.0
      → ((w' : World) → Reaches before (rows w') → CreateServed s c m before (go_on w'))
      → CreateServed s c m before (
          next (raised store_error reply) λ runner w1.
            after_check s session_id session_hex runner go_on (check runner.private_host w1))
  round_lem session_id session_hex before start go_on (ok x, w) reach (moment, reached, a) more =
      after_check_lem session_id session_hex before moment (rows w) x go_on w
        (check x.private_host w) refl (trans-Reaches reach reached) a (check_law x.private_host w)
        more
  round_lem session_id session_hex before start go_on (err e, w) reach h more =
      trans-Reaches reach h
  round_lem session_id session_hex before start go_on (out_of_fuel, w) reach h more =
      trans-Reaches reach h

  create_from_lem :
      (fuel : ℕ) (session_id session_hex : Text) (before : List Runner) (w : World)
      → Reaches before (rows w)
      → CreateServed s c m before (create_from s fuel session_id session_hex w)
  unfolding create_from
  create_from_lem zero session_id session_hex before w reach = reach
  create_from_lem (suc fuel) session_id session_hex before w reach =
      round_lem session_id session_hex before (rows w) (create_from s fuel session_id session_hex)
        (repo.acquire_idle session_id w) reach (acquire_law session_id w)
        (create_from_lem fuel session_id session_hex before)

  -- A session that createSession returns among other brokers, whatever they do meanwhile: its runner
  -- had an idle row at some moment since the call, the write at that moment made it busy with the
  -- session, it has been so ever since unless its row was removed, and it passed a health check.
  pub create_session-CreateServed :
      (fuel : ℕ) (before : List Runner) (w : World)
      → Reaches before (rows w)
      → CreateServed s c m before (create_session s fuel w)
  unfolding create_session
  create_session-CreateServed fuel before w reach =
      with_session_lem fuel before (session_fn w) (trans-Reaches reach (session_law w))
    where
      with_session_lem :
          (fuel : ℕ) (before : List Runner) (reply : Option Text × World)
          → Reaches before (rows reply.1)
          → CreateServed s c m before (with_session s fuel reply)
      with_session_lem fuel before (none, w) reach = reach
      with_session_lem fuel before (some hex, w) reach = create_from_lem fuel _ hex before w reach
