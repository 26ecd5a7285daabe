-- ===== src/Examples/Processes.antt =====
-- Whole processes of the runner and of the broker, and the parts that they start from.
use hackathon.Common.{
  ℕ, suc, ◌≡◌, ◌≢◌, refl, Bool, true, false, none, some, List, [], if◌then◌else◌,
}
use hackathon.Text.{Text, codes, text_eq, hex_encode}
use hackathon.Broker.Model.{Runner}
use hackathon.Broker.Store.{is_runner_id}
use hackathon.Broker.Handler.{bare}
use hackathon.Runner.Identity.{
  IdentityDeps, found, resolve_identity, generate_runner_id, resolve_private_host,
  private_host_from_hostname,
}
use hackathon.Runner.Identity.Ids.{Sized, HostSource, resolve_identity_lem}
use hackathon.Runner.Registration.{registered}
use hackathon.Runner.Registration.Wire.{answered}
use hackathon.Runner.Process.{ProcessDeps, server_error, still_registering, main, start}
use hackathon.Runner.Process.Leave.{Host, Apart, process_deps}
use hackathon.Runner.Process.Life.{StartEffect, start-StartEffect}
use hackathon.Runner.Process.Listener.{Listening, main_closed}
use hackathon.Examples.Stores.{table, contract}
use hackathon.Text.{trim_space}
use hackathon.Broker.Config.{valid, new_repository_from_env, new_dynamo_from_env}
use hackathon.Broker.Process
use hackathon.Broker.Process.{Server, RunEffect, main-RunEffect}
use hackathon.Broker.Store.Adapter.{Sdk, new_dynamo_repository_from_env}
use hackathon.Examples.Settings
use hackathon.Examples.Registrations.{wire, wire-WireLaws, broker_url, runner_a}

abbrev getenv : Text → Text
getenv name =
    if text_eq name (codes "BROKER_URL")
    then broker_url
    else if text_eq name (codes "RUNNER_API_PORT")
    then codes "8081"
    else if text_eq name (codes "STACK_NAME")
    then codes "local"
    else []

abbrev host : Host (List Runner)
host = record {
  Judge = Unit;
  getenv = getenv;
  listen = λ addr w. (true, w);
  close_listener = λ w. w;
  resolve_identity = λ w. (some runner_a, w);
  new_validator = some tt;
  serve = λ judge w. (true, w);
  shutdown = λ w. (true, w);
  close_all = λ w. (true, w);
}

pub host-Apart : Apart host table
host-Apart = record {
  listen_law = λ addr w. refl;
  close_law = λ w. refl;
  resolve_law = λ w. refl;
  shutdown_law = λ w. refl;
  close_all_law = λ w. refl;
}

start-StartEffect_example :
    StartEffect
      (wire answered)
      (wire-WireLaws answered)
      contract
      host
      host-Apart
      2
      []
      (start (process_deps (wire answered) host 2) (codes ":8081") [])
start-StartEffect_example =
    start-StartEffect (wire answered) (wire-WireLaws answered) contract host host-Apart 2
      (codes ":8081") []

-- A process whose world is whether the listener is open; the validator is not built.
abbrev unbuilt : ProcessDeps
unbuilt = record {
  World = Bool;
  Judge = Unit;
  getenv = getenv;
  listen = λ addr w. (true, true);
  close_listener = λ w. false;
  resolve_identity = λ w. (some runner_a, w);
  new_validator = none;
  register = λ url i w. (registered, w);
  serve = λ judge w. (true, w);
  deregister = λ url id w. (none, w);
  shutdown = λ w. (true, false);
  close_all = λ w. (true, w);
}

pub unbuilt-Listening : Listening unbuilt (λ w. w)
unbuilt-Listening = record {
  listen_law = λ addr w h. cc h;
  close_law = λ w. refl;
  serve_law = λ judge w h. cc h;
  shutdown_law = λ w. refl;
  close_all_law = λ w. refl;
}

unbuilt_ended : (main unbuilt false).0 ≢ some (server_error still_registering)
unfolding main start text_eq
unbuilt_ended = λ h. cc h

main_closed_example : (main unbuilt false).1 ≡ false
main_closed_example = main_closed unbuilt unbuilt-Listening false refl unbuilt_ended

abbrev sixteen : List ℕ
sixteen = codes "0123456789abcdef"

abbrev identity_deps : IdentityDeps
identity_deps = record {
  World = Unit;
  getenv = getenv;
  hostname = λ w. (some (codes "up"), w);
  exchange = λ url w. (none, w);
  decode = λ body. none;
  rand_read = λ w. (some (16, sixteen), w);
}

pub identity-Sized : Sized identity_deps
identity-Sized = record { sized = λ w w' n buf h. cc h }

identity_found :
    resolve_identity identity_deps tt
    ≡ (found (record { runner_id = hex_encode sixteen; private_host = codes "up" }), tt)
unfolding resolve_identity generate_runner_id resolve_private_host private_host_from_hostname
    text_eq hex_encode
identity_found = refl

resolve_identity_example :
    (is_runner_id (hex_encode sixteen) ≡ true)
    × HostSource identity_deps (generate_runner_id identity_deps tt).1 (codes "up")
resolve_identity_example =
    resolve_identity_lem identity_deps identity-Sized tt tt
      (record { runner_id = hex_encode sixteen; private_host = codes "up" }) identity_found

-- A server that a signal ends.
abbrev server : Server
server = record {
  World = ℕ;
  id_fn = λ W w. (some (codes "r1"), w);
  unrouted = λ W req w. (some (bare 404), w);
  serve = λ W engine w. (true, suc w);
  shutdown = λ w. (true, w);
}

main-RunEffect_example :
    RunEffect server Settings.parts Settings.getenv 0
      (Process.main server Settings.parts Settings.getenv 0)
main-RunEffect_example = main-RunEffect server Settings.parts Settings.getenv 0

abbrev sdk : Sdk
sdk = record {
  AwsConfig = Text;
  SdkClient = Text;
  Repo = Text × Text;
  load = λ region keys. some region;
  new_client = λ aws endpoint. aws;
  new_repository = λ client table_name. (client, table_name);
}

abbrev runners_table : Text × Text
runners_table = (codes "ap-northeast-1", codes "bunshin-runners")

repository_read :
    new_repository_from_env (new_dynamo_repository_from_env sdk) Settings.getenv
    ≡ valid runners_table
unfolding new_repository_from_env new_dynamo_from_env new_dynamo_repository_from_env text_eq
    trim_space
repository_read = refl
