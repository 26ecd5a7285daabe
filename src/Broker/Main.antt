-- ===== src/Broker/Main.antt =====
-- broker/main.go: the order in which a broker is put together. Routing, listening and signals are
-- gin, net/http and the operating system.
use hackathon.Common.{
  ℕ, ◌<◌, ◌≤◌, ◌≡◌, ◌≢◌, refl, false, Bool, Option, none, some, List, [], ◌∷◌, arith,
}
use hackathon.Text.{Text, is_empty}
use hackathon.Broker.Config.{
  Checked, valid, invalid, ConfigError, StackConfig, DynamoConfig, max_port, new_stack_from_env,
  new_runner_api_port_from_env, new_repository_from_env,
}
use hackathon.Broker.Config.Ports.{new_runner_api_port_bounds}
use hackathon.Broker.Config.Stacks.{new_stack_from_env_lem}
use hackathon.Broker.Healthcheck.{new_http_checker}
use hackathon.Broker.Service.{BrokerService, Repository, with_checker, new_broker_service}
use hackathon.Broker.Handler.{Handler, Service, new_handler}

-- What is put together: the service and the settings of the handler.
pub record Started : Type 1 where
  pub service : BrokerService
  pub handler : Handler service.World

pub data Init : Type 1 where
  started : Started → Init
  refused : ConfigError → Init
  panicked : Init

abbrev or_panic {ℓ} : {A : Type ℓ} → Option A → (A → Init) → Init
or_panic none f = panicked
or_panic (some a) f = f a

abbrev or_refuse {ℓ} : {A : Type ℓ} → Checked A → (A → Init) → Init
or_refuse (valid a) f = f a
or_refuse (invalid e) f = refused e

-- What the initialisation takes as given: the factory of repositories, a health check through the
-- HTTP client, the session ids, the context, and the handler's view of a service.
pub record Parts : Type 1 where
  pub World : Type 0
  pub new_repo : DynamoConfig → Option (Repository World)
  pub HttpClient : Type 0
  pub client : HttpClient
  pub check_with : HttpClient × ℕ → Text → World → Bool × World
  pub default_session : World → Option Text × World
  pub context_err : World → Bool
  pub service_of : (s : BrokerService) → Service s.World

module _ (p : Parts) where
  open p use {World, new_repo, client, check_with, default_session, context_err, service_of}

  abbrev with_handler : List Text → Text → BrokerService → Init
  with_handler fallbacks self s =
      or_panic (new_handler (service_of s) fallbacks self)
        (λ h. started (record { service = s; handler = h }))

  unfoldable pub default_init_handler : (Text → Text) → Init
  default_init_handler getenv = or_refuse (new_stack_from_env getenv) λ stack.
      or_refuse (new_runner_api_port_from_env getenv) λ port.
        or_refuse (new_repository_from_env new_repo getenv) λ repo.
          or_panic (new_http_checker (some client) port) λ checker.
            or_panic
              (new_broker_service default_session context_err repo stack.self
                (with_checker (some (check_with checker)) ∷ []))
              (with_handler stack.fallbacks stack.self)

  port_accepted :
      (port : ℕ)
      → 0 < port
      → port ≤ max_port
      → new_http_checker (some client) port ≡ some (client, port)
  unfolding new_http_checker
  port_accepted port pos le = ground arith

  built :
      (stack : StackConfig) (port : ℕ) (repo : Checked (Repository World))
      → is_empty stack.self ≡ false
      → 0 < port
      → port ≤ max_port
      → or_refuse repo (λ repo'. or_panic (new_http_checker (some client) port) λ checker.
        or_panic
          (new_broker_service default_session context_err repo' stack.self
            (with_checker (some (check_with checker)) ∷ []))
          (with_handler stack.fallbacks stack.self))
        ≢ panicked
  unfolding new_broker_service new_handler
  built stack port (invalid e) named pos le = cc
  built stack port (valid repo) named pos le = rw (port_accepted port pos le) (rw named (λ e. cc e))

  abbrev after_port : (Text → Text) → StackConfig → ℕ → Init
  after_port getenv stack port = or_refuse (new_repository_from_env new_repo getenv) λ repo.
      or_panic (new_http_checker (some client) port) λ checker.
        or_panic
          (new_broker_service default_session context_err repo stack.self
            (with_checker (some (check_with checker)) ∷ []))
          (with_handler stack.fallbacks stack.self)

  with_port :
      (getenv : Text → Text) (stack : StackConfig) (port : Checked ℕ)
      → new_runner_api_port_from_env getenv ≡ port
      → is_empty stack.self ≡ false
      → or_refuse port (after_port getenv stack) ≢ panicked
  with_port getenv stack (invalid e) h named = cc
  with_port getenv stack (valid port) h named =
      let (pos, le) = new_runner_api_port_bounds getenv port h in
      built stack port (new_repository_from_env new_repo getenv) named pos le

  with_stack :
      (getenv : Text → Text) (stack : Checked StackConfig)
      → new_stack_from_env getenv ≡ stack
      → or_refuse stack (λ s. or_refuse (new_runner_api_port_from_env getenv) (after_port getenv s))
        ≢ panicked
  with_stack getenv (invalid e) h = cc
  with_stack getenv (valid stack) h =
      with_port getenv stack (new_runner_api_port_from_env getenv) refl
        ((new_stack_from_env_lem getenv).1 stack h).2

  -- Whatever the environment holds, the broker starts or refuses a setting with an error: none of
  -- the constructors that panic on a bad port, an empty stack name or a missing checker does so.
  pub default_init_handler-ne-panicked :
      (getenv : Text → Text) → default_init_handler getenv ≢ panicked
  unfolding default_init_handler
  default_init_handler-ne-panicked getenv = with_stack getenv (new_stack_from_env getenv) refl
