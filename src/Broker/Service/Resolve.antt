-- ===== src/Broker/Service/Resolve.antt =====
-- ResolveSession and CloseSession, on every branch.
use hackathon.Common.{
  ℕ, ◌<◌, ◌≡◌, ◌≢◌, refl, ◌∙◌, ◌⊎◌, inl, inr, Bool, true, false, List, [], arith, ap, Bool-cases,
}
use hackathon.Text.{Text, is_empty}
use hackathon.Broker.Model.{Runner}
use hackathon.Broker.Outcome.{Outcome, ok, err, out_of_fuel, next}
use hackathon.Broker.Store.{StoreError, no_idle_runner, not_found}
use hackathon.Broker.Store.Table.{remove_row, count_idle, count_idle-remove}
use hackathon.Broker.Store.Effects.{DeleteDone}
use hackathon.Broker.Service.{
  BrokerService, ServiceError, store_error, delete_unhealthy, missing_prefix, session_id_failed,
  CreateSessionResult, ResolveResult, raised, after_unhealthy, created_result, create_session,
  create_resolved, kept_session, after_recheck, after_find, resolve_session, namespaced_session_id,
  split_namespaced_session_id,
}
use hackathon.Broker.Service.Contract.{Contract, Ambient}
use hackathon.Broker.Service.Create.{
  Purged, untouched, Strayed, FoundHealthy, Created, SessionEffect, create_session-SessionEffect,
}

module _ (s : BrokerService) {rows : s.World → List Runner} (c : Contract s.repo rows)
    (m : Ambient s rows) where
  open s use {World, repo, check, context_err}
  open c use {delete_law, find_law}
  open m use {check_law}

  -- The repository found this runner for the session, and its health check failed.
  abbrev pub FoundUnhealthy : Text → List Runner → Runner → Type 0
  FoundUnhealthy session_id before x =
      (w0 : World) × (w : World) × (rows w0 ≡ before)
      × (repo.find_by_session_id session_id w0 ≡ (ok x, w))
      × ((check x.private_host w).0 ≡ false)

  -- The rows that a new session starts from: those before, or those without the runner that was found
  -- for the session, if it is unhealthy.
  abbrev pub Base : Text → List Runner → List Runner → Bool → Type 0
  Base session_id before base false = base ≡ before
  Base session_id before base true =
      (x : Runner) × FoundUnhealthy session_id before x × (base ≡ remove_row x.runner_id before)

  -- What an error leaves: besides the rows of unhealthy runners, which may be gone, at most one idle row
  -- was assigned.
  abbrev pub Failed : Text → List Runner → List Runner → Type 0
  Failed session_id before after =
      (flag : Bool) × (base : List Runner) × Base session_id before base flag
      × ((new_id : Text) × Strayed s c m new_id base after)

  still :
      (session_id : Text) (before after : List Runner)
      → after ≡ before
      → Failed session_id before after
  still session_id before after e = (false, before, refl, ([], (before, untouched refl, inl e)))

  -- The session is the one asked for, its runner is healthy, and nothing changed.
  pub record Kept (session_id : Text) (before : List Runner) (result : ResolveResult) (w : World)
      : Type 0 where
    pub not_created : result.created ≡ false
    pub not_reassigned : result.reassigned ≡ false
    pub same_id : result.session_id ≡ session_id
    pub parted : (split_namespaced_session_id session_id).found ≡ true
    pub hex_part : result.session_hex ≡ (split_namespaced_session_id session_id).after
    pub healthy : FoundHealthy s c m result.runner_host w
    pub same_rows : rows w ≡ before

  -- A new session, with the runner that serves it.
  pub record Renewed (session_id : Text) (before : List Runner) (result : ResolveResult) (w : World)
      : Type 0 where
    pub is_created : result.created ≡ true
    pub base : List Runner
    pub start : Base session_id before base result.reassigned
    pub session : CreateSessionResult
    pub same_id : result.session_id ≡ session.session_id
    pub host : result.runner_host ≡ session.runner.private_host
    pub made :
        Created s c m (namespaced_session_id s result.session_hex) result.session_hex base w session

  abbrev pub ResolveEffect :
      Text → List Runner → Outcome ServiceError ResolveResult × World → Type 0
  ResolveEffect session_id before (ok result, w) =
      Kept session_id before result w ⊎ Renewed session_id before result w
  ResolveEffect session_id before (err (store_error no_idle_runner), w) =
      (flag : Bool) × (base : List Runner) × Base session_id before base flag
      × Purged s c m base (rows w)
  ResolveEffect session_id before (err missing_prefix, w) =
      ((split_namespaced_session_id session_id).found ≡ false) × (rows w ≡ before)
  ResolveEffect session_id before (err e, w) = Failed session_id before (rows w)
  ResolveEffect session_id before (out_of_fuel, w) = ⊥

  resolved_reply :
      (session_id : Text) (before base : List Runner) (flag : Bool)
      (reply : Outcome ServiceError CreateSessionResult × World)
      → Base session_id before base flag
      → SessionEffect s c m base reply
      → ResolveEffect session_id before
          (next reply (λ result w1. (ok (created_result s flag result), w1)))
  resolved_reply session_id before base flag (ok result, w) b h = inr (record {
    is_created = refl;
    base = base;
    start = b;
    session = result;
    same_id = refl;
    host = refl;
    made = h;
  })
  resolved_reply session_id before base flag (err (store_error no_idle_runner), w) b h =
      (flag, base, b, h)
  resolved_reply session_id before base flag (err missing_prefix, w) b h = absurd h
  resolved_reply session_id before base flag (err session_id_failed, w) b h =
      (flag, base, b, ([], (base, untouched refl, inl h)))
  resolved_reply session_id before base flag (err e, w) b h = (flag, base, b, h)
  resolved_reply session_id before base flag (out_of_fuel, w) b h = h

  create_resolved_lem :
      (fuel : ℕ) (session_id : Text) (before : List Runner) (flag : Bool) (w : World)
      → Base session_id before (rows w) flag
      → count_idle (rows w) < fuel
      → ResolveEffect session_id before (create_resolved s fuel flag w)
  unfolding create_resolved
  create_resolved_lem fuel session_id before flag w b lt =
      resolved_reply session_id before (rows w) flag (create_session s fuel w) b
        (create_session-SessionEffect s c m fuel w lt)

  after_delete :
      (fuel : ℕ) (session_id : Text) (before : List Runner) (x : Runner)
      (reply : Outcome StoreError (Unit {0}) × World)
      → FoundUnhealthy session_id before x
      → count_idle before < fuel
      → DeleteDone x.runner_id before (rows reply.1) reply.0
      → ResolveEffect session_id before
          (next (raised delete_unhealthy reply) (λ _. create_resolved s fuel true))
  after_delete fuel session_id before x (err e, w) bad lt h = elim h.1 [
    | inl kept ↦ still session_id before (rows w) kept
    | inr gone ↦ (true, rows w, (x, bad, gone), ([], (rows w, untouched refl, inl refl)))
  ]
  after_delete fuel session_id before x (out_of_fuel, w) bad lt h = h
  after_delete fuel session_id before x (ok _, w) bad lt h =
      create_resolved_lem fuel session_id before true w (x, bad, h)
        (rw h (omega (arith, count_idle-remove x.runner_id before)))

  recheck_lem :
      (fuel : ℕ) (session_id : Text) (before : List Runner) (x : Runner) (w0 wc : World)
      (verdict : Bool × World)
      → rows w0 ≡ before
      → repo.find_by_session_id session_id w0 ≡ (ok x, wc)
      → check x.private_host wc ≡ verdict
      → rows verdict.1 ≡ before
      → count_idle before < fuel
      → ResolveEffect session_id before (after_recheck s fuel session_id x verdict)
  recheck_lem fuel session_id before x w0 wc (false, w) at_first found e same lt =
      by_context (context_err w)
    where
      by_context :
          (b : Bool)
          → ResolveEffect session_id before (after_unhealthy s x (create_resolved s fuel true) b w)
      by_context true = still session_id before (rows w) same
      by_context false =
          after_delete fuel session_id before x (repo.delete x.runner_id w)
            (w0, wc, at_first, found, ap (λ (v : Bool × World). v.0) e) lt
            (rw (← same) (delete_law x.runner_id w))
  recheck_lem fuel session_id before x w0 wc (true, w) at_first found e same lt =
      by_found (split_namespaced_session_id session_id).found refl
    where
      by_found :
          (found : Bool)
          → (split_namespaced_session_id session_id).found ≡ found
          → ResolveEffect session_id before
              (kept_session s session_id x (split_namespaced_session_id session_id).after found, w)
      by_found false p = (p, same)
      by_found true p = inl (record {
        not_created = refl;
        not_reassigned = refl;
        same_id = refl;
        parted = p;
        hex_part = refl;
        healthy = (wc, e);
        same_rows = same;
      })

  find_reply :
      (fuel : ℕ) (session_id : Text) (before : List Runner) (w0 : World)
      (reply : Outcome StoreError Runner × World)
      → rows w0 ≡ before
      → repo.find_by_session_id session_id w0 ≡ reply
      → rows reply.1 ≡ before
      → reply.0 ≢ out_of_fuel
      → count_idle before < fuel
      → ResolveEffect session_id before (after_find s fuel session_id reply)
  find_reply fuel session_id before w0 (ok x, w) at_first e same h lt =
      recheck_lem fuel session_id before x w0 w (check x.private_host w) at_first e refl
        (check_law x.private_host w ∙ same) lt
  find_reply fuel session_id before w0 (err not_found, w) at_first e same h lt =
      create_resolved_lem fuel session_id before false w same (rw same lt)
  find_reply fuel session_id before w0 (err no_idle_runner, w) at_first e same h lt =
      (false, before, refl, untouched same)
  find_reply fuel session_id before w0 (err _, w) at_first e same h lt =
      still session_id before (rows w) same
  find_reply fuel session_id before w0 (out_of_fuel, w) at_first e same h lt = h refl

  -- With more fuel than idle rows, ResolveSession returns. Either it keeps the session that was asked
  -- for, whose runner passed the health check, and changes no row; or it makes a new session, marked
  -- as reassigned exactly if the record of the runner that was found for the session, and was
  -- unhealthy, was deleted first. A shortage of idle runners costs only unhealthy runners their rows, a
  -- stored id without a stack prefix is an error that changes nothing, and under any other error
  -- the rows that are gone are those of unhealthy runners and at most one idle row was assigned.
  pub resolve_session-ResolveEffect :
      (fuel : ℕ) (session_id : Text) (w : World)
      → count_idle (rows w) < fuel
      → ResolveEffect session_id (rows w) (resolve_session s fuel session_id w)
  unfolding resolve_session
  resolve_session-ResolveEffect fuel session_id w lt = elim (Bool-cases (is_empty session_id)) [
    | inl empty ↦
        rw (empty, resolve_session) (create_resolved_lem fuel session_id (rows w) false w refl lt)
    | inr filled ↦
        rw (filled, resolve_session)
          (find_reply fuel session_id (rows w) w (repo.find_by_session_id session_id w) refl refl
            (find_law session_id w).0 (find_law session_id w).1 lt)
  ]
