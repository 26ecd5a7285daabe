-- ===== src/Broker/Service.antt =====
-- broker/service/service.go: sessions over a repository of runners and a health checker. The
-- context and the source of random bytes are parameters; the log lines are not modelled.
pub mod Contract
pub mod Create
pub mod Resolve
pub mod SessionIds
pub mod Serving
pub mod Shared
use hackathon.Common.{
  ℕ, zero, suc, Bool, true, false, Option, none, some, List, [], ◌∷◌, ◌++◌, if◌then◌else◌,
}
use hackathon.Text.{Text, Cut, cut, is_empty, hex_encode}
use hackathon.Broker.Model.{Runner}
use hackathon.Broker.Outcome.{Outcome, ok, err, out_of_fuel, Act, next}
use hackathon.Broker.Store.{StoreError, not_found}

-- store.Repository
pub record Repository (World : Type 0) : Type 0 where
  pub register : Text → Text → Act World StoreError (Unit {0})
  pub acquire_idle : Text → Act World StoreError Runner
  pub list_busy_runners : Act World StoreError (List Runner)
  pub find_by_session_id : Text → Act World StoreError Runner
  pub find_by_id : Text → Act World StoreError Runner
  pub delete : Text → Act World StoreError (Unit {0})

-- `delete_unhealthy` wraps the error of the repository.
pub data ServiceError : Type 0 where
  store_error : StoreError → ServiceError
  delete_unhealthy : StoreError → ServiceError
  session_id_failed context_done missing_prefix : ServiceError

pub record ResolveResult : Type 0 where
  pub session_id : Text
  pub session_hex : Text
  pub runner_host : Text
  pub created : Bool
  pub reassigned : Bool

pub record CreateSessionResult : Type 0 where
  pub session_id : Text
  pub session_hex : Text
  pub runner : Runner

-- `check` is true where Check returns nil, and `context_err` where ctx.Err() is not nil.
pub record BrokerService : Type 1 where
  pub World : Type 0
  pub repo : Repository World
  pub stack_prefix : Text
  pub check : Text → World → Bool × World
  pub session_fn : World → Option Text × World
  pub context_err : World → Bool

-- The options of NewBrokerService; a nil function or checker is none.
pub data ServiceOption (World : Type 0) : Type 0 where
  with_session_fn : Option (World → Option Text × World) → ServiceOption World
  with_checker : Option (Text → World → Bool × World) → ServiceOption World

pub record Draft (World : Type 0) : Type 0 where
  pub session_fn : World → Option Text × World
  pub checker : Option (Text → World → Bool × World)

abbrev pub apply_option : {World : Type 0} → ServiceOption World → Draft World → Draft World
apply_option (with_session_fn none) d = d
apply_option (with_session_fn (some f)) d = record d { session_fn = f }
apply_option (with_checker c) d = record d { checker = c }

abbrev pub apply_options : {World : Type 0} → List (ServiceOption World) → Draft World → Draft World
apply_options [] d = d
apply_options (o ∷ opts) d = apply_options opts (apply_option o d)

abbrev pub finish :
    {World : Type 0} → Repository World → Text → (World → Bool) → Draft World → Option BrokerService
finish repo stack_prefix context_err d = elim d.checker [
  | none ↦ none
  | some check ↦ some (record {
    World = _;
    repo = repo;
    stack_prefix = stack_prefix;
    check = check;
    session_fn = d.session_fn;
    context_err = context_err;
  })
]

-- NewBrokerService; none is a panic. `default_fn` is defaultSessionFn.
unfoldable pub new_broker_service :
    {World : Type 0}
    → (World → Option Text × World)
    → (World → Bool)
    → Repository World
    → Text
    → List (ServiceOption World)
    → Option BrokerService
new_broker_service default_fn context_err repo stack_prefix opts =
    if is_empty stack_prefix
    then none
    else finish repo stack_prefix context_err
        (apply_options opts (record { session_fn = default_fn; checker = none }))

-- io.ReadFull of 16 bytes, and the hexadecimal text.
default_session_fn :
    {World : Type 0} → (ℕ → World → Option (List ℕ) × World) → World → Option Text × World
default_session_fn read_full w = let (bytes, w1) = read_full 16 w in (encode bytes, w1)
  where
    encode : Option (List ℕ) → Option Text
    encode none = none
    encode (some b) = some (hex_encode b)

abbrev pub session_id_separator : ℕ
session_id_separator = b'_'

unfoldable pub split_namespaced_session_id : Text → Cut
split_namespaced_session_id session_id = cut session_id_separator session_id

abbrev pub raised :
    {World A : Type 0}
    → (StoreError → ServiceError)
    → Outcome StoreError A × World
    → Outcome ServiceError A × World
raised wrap (ok a, w) = (ok a, w)
raised wrap (err e, w) = (err (wrap e), w)
raised wrap (out_of_fuel, w) = (out_of_fuel, w)

module _ (s : BrokerService) where
  open s use {World, repo, stack_prefix, check, session_fn, context_err}

  abbrev pub Call : Type 0 → Type 0
  Call A = Act World ServiceError A

  unfoldable pub namespaced_session_id : Text → Text
  namespaced_session_id session_hex = stack_prefix ++ (session_id_separator ∷ session_hex)

  -- What follows a failed health check: nothing if the context is done, else the record is
  -- deleted and `go_on` comes next.
  abbrev pub after_unhealthy : {A : Type 0} → Runner → Call A → Bool → Call A
  after_unhealthy runner go_on true w = (err context_done, w)
  after_unhealthy runner go_on false w =
      next (raised delete_unhealthy (repo.delete runner.runner_id w)) (λ _. go_on)

  -- What follows the health check of a runner that createSession acquired; `go_on` is the next round.
  abbrev pub after_check :
      Text
      → Text
      → Runner
      → Call CreateSessionResult
      → Bool × World
      → Outcome ServiceError CreateSessionResult × World
  after_check session_id session_hex runner go_on (true, w) =
      (ok (record { session_id = session_id; session_hex = session_hex; runner = runner }), w)
  after_check session_id session_hex runner go_on (false, w) =
      after_unhealthy runner go_on (context_err w) w

  -- The `for` of createSession.
  unfoldable pub create_from : ℕ → Text → Text → Call CreateSessionResult
  create_from zero session_id session_hex w = (out_of_fuel, w)
  create_from (suc fuel) session_id session_hex w =
      next (raised store_error (repo.acquire_idle session_id w)) λ runner w1.
        after_check session_id session_hex runner (create_from fuel session_id session_hex)
          (check runner.private_host w1)

  abbrev pub with_session :
      ℕ → Option Text × World → Outcome ServiceError CreateSessionResult × World
  with_session fuel (none, w) = (err session_id_failed, w)
  with_session fuel (some session_hex, w) =
      create_from fuel (namespaced_session_id session_hex) session_hex w

  unfoldable pub create_session : ℕ → Call CreateSessionResult
  create_session fuel w = with_session fuel (session_fn w)

  unfoldable pub close_session : Text → Call (Unit {0})
  close_session session_id w =
      next (raised store_error (repo.find_by_session_id session_id w))
        λ runner w1. raised store_error (repo.delete runner.runner_id w1)

  abbrev pub created_result : Bool → CreateSessionResult → ResolveResult
  created_result reassigned result = record {
    session_id = result.session_id;
    session_hex = result.session_hex;
    runner_host = result.runner.private_host;
    created = true;
    reassigned = reassigned;
  }

  unfoldable pub create_resolved : ℕ → Bool → Call ResolveResult
  create_resolved fuel reassigned w =
      next (create_session fuel w) λ result w1. (ok (created_result reassigned result), w1)

  -- The session of a healthy runner, unless the id cannot be taken apart.
  abbrev pub kept_session : Text → Runner → Text → Bool → Outcome ServiceError ResolveResult
  kept_session session_id runner session_hex true = ok (record {
    session_id = session_id;
    session_hex = session_hex;
    runner_host = runner.private_host;
    created = false;
    reassigned = false;
  })
  kept_session session_id runner session_hex false = err missing_prefix

  abbrev pub after_recheck :
      ℕ → Text → Runner → Bool × World → Outcome ServiceError ResolveResult × World
  after_recheck fuel session_id runner (true, w) =
      let parts = split_namespaced_session_id session_id in
      (kept_session session_id runner parts.after parts.found, w)
  after_recheck fuel session_id runner (false, w) =
      after_unhealthy runner (create_resolved fuel true) (context_err w) w

  abbrev pub after_find :
      ℕ → Text → Outcome StoreError Runner × World → Outcome ServiceError ResolveResult × World
  after_find fuel session_id (ok runner, w) =
      after_recheck fuel session_id runner (check runner.private_host w)
  after_find fuel session_id (err not_found, w) = create_resolved fuel false w
  after_find fuel session_id (err e, w) = (err (store_error e), w)
  after_find fuel session_id (out_of_fuel, w) = (out_of_fuel, w)

  unfoldable pub resolve_session : ℕ → Text → Call ResolveResult
  resolve_session fuel session_id w = elim (is_empty session_id) [
    | true ↦ create_resolved fuel false w
    | false ↦ after_find fuel session_id (repo.find_by_session_id session_id w)
  ]

  unfoldable pub register_runner : Text → Text → Call (Unit {0})
  register_runner runner_id private_host w =
      raised store_error (repo.register runner_id private_host w)

  unfoldable pub deregister_runner : Text → Call (Unit {0})
  deregister_runner runner_id w = raised store_error (repo.delete runner_id w)

  unfoldable pub list_busy_runners : Call (List Runner)
  list_busy_runners w = raised store_error (repo.list_busy_runners w)
