-- ===== src/Broker/Service/Serving.antt =====
-- A waiting runner that is healthy, and the service over a repository whose index is in step.
pub mod Creating
pub mod Resolving
use hackathon.Common.{
  ℕ, zero, suc, ◌<◌, ◌≡◌, ◌≢◌, refl, sym, ◌∙◌, ap, subst, inl, inr, Bool, true, false, Option, none,
  some, List, ◌∷◌, Bool-cases,
}
use mathlib.Core.Option.{some-injective}
use hackathon.Text.{Text, text_eq, is_empty}
use hackathon.Text.Laws.{text_eq_sound}
use hackathon.Broker.Model.{Runner, is_idle}
use hackathon.Broker.Outcome.{Outcome, ok, err, out_of_fuel, next}
use hackathon.Broker.Store.{StoreError, no_idle_runner, not_found, delete_failed}
use hackathon.Broker.Store.Table.{
  find_row, idle_row, assign_row, remove_row, find-assign_ne, find-remove_ne, remove-assign,
}
use hackathon.Broker.Store.Acquire.{AcquireEffect}
use hackathon.Broker.Store.Effects.{DeleteDone}
use hackathon.Broker.Store.Current.{IsIn, Exact}
use hackathon.Broker.Service.{
  BrokerService, Repository, ServiceError, store_error, delete_unhealthy, missing_prefix,
  CreateSessionResult, ResolveResult, raised, after_check, after_unhealthy, create_from,
  with_session, create_session, created_result, create_resolved, kept_session, after_recheck,
  after_find, resolve_session, namespaced_session_id, split_namespaced_session_id,
}
use hackathon.Broker.Service.Contract.{Contract, Ambient}

-- What a repository promises besides, as long as its index shows the table as it is.
pub record Prompt {World : Type 0} (repo : Repository World) (rows : World → List Runner)
    : Type 0 where
  pub acquire_exact :
      (session_id : Text) (w : World) → Exact (rows w) (repo.acquire_idle session_id w).0
  pub find_exact :
      (session_id : Text) (w : World) (x : Runner)
      → (repo.find_by_session_id session_id w).0 ≡ ok x
      → IsIn (rows w) x
  pub find_error :
      (session_id : Text) (w : World)
      → (repo.find_by_session_id session_id w).0 ≢ err no_idle_runner

-- The runner has an idle row.
abbrev pub Waits : Runner → List Runner → Type 0
Waits x table = IsIn table x × (is_idle x ≡ true)

-- The result is not that there is no idle runner.
abbrev pub NotExhausted : {A : Type 0} → Outcome ServiceError A → Type 0
NotExhausted (ok a) = Unit
NotExhausted (err (store_error no_idle_runner)) = ⊥
NotExhausted (err (delete_unhealthy no_idle_runner)) = ⊥
NotExhausted (err e) = Unit
NotExhausted out_of_fuel = Unit

pub idle-Waits :
    (x : Runner) (table : List Runner) → Waits x table → idle_row x.runner_id table ≡ true
unfolding idle_row
idle-Waits x table (there, idle) = rw there idle

same_row :
    (table : List Runner) (x y : Runner)
    → IsIn table x
    → IsIn table y
    → text_eq y.runner_id x.runner_id ≡ true
    → y ≡ x
same_row table x y a b same =
    let e = text_eq_sound y.runner_id x.runner_id same in
    some-injective y x (sym b ∙ ap (λ (t : Text). find_row t table) e ∙ a)

module _ (s : BrokerService) {rows : s.World → List Runner} (c : Contract s.repo rows)
    (m : Ambient s rows) (p : Prompt s.repo rows) (x : Runner)
    (steady : (w : s.World) → (s.check x.private_host w).0 ≡ true) where
  open s use {World, repo, check, context_err, session_fn}
  open c use {acquire_law, delete_law, find_law}
  open m use {check_law, session_law}
  open p use {acquire_exact, find_exact, find_error}

  -- An unhealthy runner is another one.
  pub other_runner :
      (table : List Runner) (id host : Text) (w : World) (y : Runner)
      → Waits x table
      → IsIn table y
      → id ≡ y.runner_id
      → host ≡ y.private_host
      → (check host w).0 ≡ false
      → text_eq id x.runner_id ≡ false
  other_runner table id host w y (there, idle) mine e f bad =
      elim (Bool-cases (text_eq id x.runner_id)) [
        | inr differs ↦ differs
        | inl same ↦
            let one : y ≡ x = same_row table x y there mine (rw (← e) same) in
            let up : (check host w).0 ≡ true =
              rw f
                (subst (λ (z : Runner). (check z.private_host w).0 ≡ true) (sym one) (steady w)) in
            absurd (cc (bad, up))
      ]

  removed-Waits :
      (id : Text) (table : List Runner)
      → text_eq id x.runner_id ≡ false
      → Waits x table
      → Waits x (remove_row id table)
  removed-Waits id table differs (there, idle) =
      (find-remove_ne id x.runner_id table differs ∙ there, idle)

  after_delete :
      {A : Type 0} (table : List Runner) (id : Text)
      (go_on : World → Outcome ServiceError A × World)
      (reply : Outcome StoreError (Unit {0}) × World)
      → Waits x table
      → text_eq id x.runner_id ≡ false
      → DeleteDone id table (rows reply.1) reply.0
      → ((w : World) → Waits x (rows w) → NotExhausted (go_on w).0)
      → NotExhausted (next (raised delete_unhealthy reply) (λ _. go_on)).0
  after_delete table id go_on (ok _, w) h differs e more =
      more w (rw e (removed-Waits id table differs h))
  after_delete table id go_on (err delete_failed, w) h differs e more = tt
  after_delete table id go_on (err no_idle_runner, w) h differs e more = cc (e.0)
  after_delete table id go_on (err _, w) h differs e more = tt
  after_delete table id go_on (out_of_fuel, w) h differs e more = tt

  pub unhealthy_lem :
      {A : Type 0} (table : List Runner) (y : Runner)
      (go_on : World → Outcome ServiceError A × World) (b : Bool) (w : World)
      → rows w ≡ table
      → Waits x table
      → text_eq y.runner_id x.runner_id ≡ false
      → ((w' : World) → Waits x (rows w') → NotExhausted (go_on w').0)
      → NotExhausted (after_unhealthy s y go_on b w).0
  unhealthy_lem table y go_on true w e h differs more = tt
  unhealthy_lem table y go_on false w e h differs more =
      after_delete table y.runner_id go_on (repo.delete y.runner_id w) h differs
        (rw (← e) (delete_law y.runner_id w)) more
