-- ===== src/Broker/Service/Shared.antt =====
-- broker/service/service.go where several brokers share the table.
pub mod Creating
pub mod Resolving
use hackathon.Common.{
  ℕ, zero, suc, ◌≡◌, refl, sym, ◌∙◌, ap, ◌⊎◌, inl, inr, Bool, true, false, Option, none, some, List,
  [], ◌∷◌, Bool-cases,
}
use hackathon.Text.{Text, is_empty}
use hackathon.Broker.Model.{Runner}
use hackathon.Broker.Outcome.{Outcome, ok, err, out_of_fuel, next}
use hackathon.Broker.Store.{
  DynamoRepository, Response, done, conditional_check_failed, failed, StoreError, not_found, settle,
  delete_failed, query_failed,
}
use hackathon.Broker.Store.Reads.{reply_world}
use hackathon.Broker.Store.Changes
use hackathon.Broker.Store.Changes.{Holds}
use hackathon.Broker.Store.Documented.{DeleteEffect}
use hackathon.Broker.Store.Acquire.{Assigns}
use hackathon.Broker.Store.Operations
use hackathon.Broker.Store.Shared.{
  Steps, Reaches, refl-Reaches, trans-Reaches, Change-Reaches, AcquireShared, Shared,
}
use hackathon.Broker.Store.Shared.Acquire.{acquire_idle-AcquireShared}
use hackathon.Broker.Store.Shared.Exclusive.{Gone, Steps-Holds, claimed}
use hackathon.Broker.Service.{
  Repository, BrokerService, ServiceError, store_error, delete_unhealthy, context_done,
  session_id_failed, missing_prefix, raised, CreateSessionResult, ResolveResult, after_unhealthy,
  after_check, create_from, with_session, create_session, created_result, create_resolved,
  kept_session, after_recheck, after_find, resolve_session,
}
use hackathon.Broker.Service.Contract.{dynamo_repository}

-- What the service relies on of a repository among others.
pub record SharedContract {World : Type 0} (repo : Repository World) (rows : World → List Runner)
    : Type 0 where
  pub acquire_law :
      (session_id : Text) (w : World)
      → let final = repo.acquire_idle session_id w in
        AcquireShared session_id (rows w) (rows final.1) final.0
  pub delete_law : (id : Text) (w : World) → Reaches (rows w) (rows (repo.delete id w).1)
  pub find_law :
      (session_id : Text) (w : World)
      → Reaches (rows w) (rows (repo.find_by_session_id session_id w).1)

-- While a health check or the making of a session id goes on, the others write.
pub record SharedAmbient (s : BrokerService) (rows : s.World → List Runner) : Type 0 where
  pub check_law : (host : Text) (w : s.World) → Reaches (rows w) (rows (s.check host w).1)
  pub session_law : (w : s.World) → Reaches (rows w) (rows (s.session_fn w).1)

delete-Reaches :
    {World : Type 0} (rows : World → List Runner) (id : Text) (before moment : List Runner)
    (reply : Response (Unit {0}) × World)
    → Reaches before moment
    → DeleteEffect id moment (rows reply.1) reply.0
    → Reaches before (rows (settle delete_failed delete_failed reply).1)
delete-Reaches rows id before moment (done _, w) reach e =
    trans-Reaches reach (Change-Reaches (Changes.removed id e))
delete-Reaches rows id before moment (conditional_check_failed, w) reach e =
    trans-Reaches reach (Change-Reaches (Changes.same e))
delete-Reaches rows id before moment (failed, w) reach (inl e) =
    trans-Reaches reach (Change-Reaches (Changes.same e))
delete-Reaches rows id before moment (failed, w) reach (inr e) =
    trans-Reaches reach (Change-Reaches (Changes.removed id e))

pub dynamo_repository-SharedContract :
    (r : DynamoRepository) (d : Shared r) (fuel : ℕ)
    → SharedContract (dynamo_repository r fuel) d.rows
unfolding Operations.delete Operations.find_by_session_id
dynamo_repository-SharedContract r d fuel = record {
  acquire_law = acquire_idle-AcquireShared r d fuel;
  delete_law = λ id w.
      let (moment, reach, e) = d.delete_law id w in
      delete-Reaches d.rows id (d.rows w) moment _ reach e;
  find_law = λ session_id w.
      rw (reply_world r query_failed (Operations.first_item r) (r.query _ w)) (d.query_law _ w);
}

module _ (s : BrokerService) {rows : s.World → List Runner} (c : SharedContract s.repo rows)
    (m : SharedAmbient s rows) where
  open s use {World, repo, check, context_err, session_fn}
  open c use {acquire_law, delete_law, find_law}
  open m use {check_law, session_law}

  -- The host passed a health check.
  abbrev pub Healthy : Text → Type 0
  Healthy host = (v : World) × ((check host v).0 ≡ true)

  -- The session got the runner since `before`, and still has it unless the row was removed since then.
  pub record Served (session_id : Text) (before after : List Runner) (x : Runner) : Type 0 where
    pub moment : List Runner
    pub taken : List Runner
    pub since : List (List Runner)
    pub reached : Reaches before moment
    pub assigned : Assigns session_id moment taken x
    pub later : Steps taken since after
    pub row : Runner
    pub of_runner : row.runner_id ≡ x.runner_id
    pub of_session : row.current_session_id ≡ session_id
    pub kept : Holds row after ⊎ Gone x.runner_id since
    pub healthy : Healthy x.private_host

  -- What createSession leaves, and what ResolveSession leaves.
  abbrev pub CreateServed : List Runner → Outcome ServiceError CreateSessionResult × World → Type 0
  CreateServed before (ok r, w) = Served r.session_id before (rows w) r.runner
  CreateServed before (err e, w) = Reaches before (rows w)
  CreateServed before (out_of_fuel, w) = Reaches before (rows w)

  abbrev pub OfResult : List Runner → List Runner → ResolveResult → Bool → Type 0
  OfResult before after r true =
      (x : Runner) × (x.private_host ≡ r.runner_host) × Served r.session_id before after x
  OfResult before after r false = Reaches before after × Healthy r.runner_host

  abbrev pub ResolveServed : List Runner → Outcome ServiceError ResolveResult × World → Type 0
  ResolveServed before (ok r, w) = OfResult before (rows w) r r.created
  ResolveServed before (err e, w) = Reaches before (rows w)
  ResolveServed before (out_of_fuel, w) = Reaches before (rows w)

  module _ {A : Type 0} (P : Outcome ServiceError A × World → Type 0) (before : List Runner)
      (fails : (e : ServiceError) (w : World) → Reaches before (rows w) → P (err e, w))
      (cut_off : (w : World) → Reaches before (rows w) → P (out_of_fuel, w)) where
    deleted_lem :
        (go_on : World → Outcome ServiceError A × World)
        (reply : Outcome StoreError (Unit {0}) × World)
        → Reaches before (rows reply.1)
        → ((w : World) → Reaches before (rows w) → P (go_on w))
        → P (next (raised delete_unhealthy reply) (λ _. go_on))
    deleted_lem go_on (ok _, w) reach more = more w reach
    deleted_lem go_on (err e, w) reach more = fails (delete_unhealthy e) w reach
    deleted_lem go_on (out_of_fuel, w) reach more = cut_off w reach

    pub unhealthy_lem :
        (x : Runner) (go_on : World → Outcome ServiceError A × World) (over : Bool) (w : World)
        → Reaches before (rows w)
        → ((w' : World) → Reaches before (rows w') → P (go_on w'))
        → P (after_unhealthy s x go_on over w)
    unhealthy_lem x go_on true w reach more = fails context_done w reach
    unhealthy_lem x go_on false w reach more =
        deleted_lem go_on (repo.delete x.runner_id w)
          (trans-Reaches reach (delete_law x.runner_id w)) more
