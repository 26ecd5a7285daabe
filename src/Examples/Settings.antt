-- ===== src/Examples/Settings.antt =====
-- The broker's settings at one environment.
use mathlib.Core.List.{Perm}
use hackathon.Common.{◌≡◌, refl, true, false, some, [], In, if◌then◌else◌}
use hackathon.Text.{Text, codes, text_eq, is_empty, trim_space}
use hackathon.Text.Decimal.{atoi}
use hackathon.Broker.Stacklist
use hackathon.Broker.Stacklist.Circuit.{without}
use hackathon.Broker.Config.{valid, StackConfig, new_stack_from_env, new_runner_api_port_from_env}
use hackathon.Broker.Config.Stacks.{stack_config, new_stack_from_env_lem}
use hackathon.Broker.Handler.Responses.{service_api}
use hackathon.Broker.Service.Contract.{dynamo_repository}
use hackathon.Broker.Main.{Parts}
use hackathon.Examples.Memory.{memory_repository}

abbrev pub getenv : Text → Text
getenv name =
    if text_eq name (codes "STACK_NAME")
    then codes " tokyo "
    else if text_eq name (codes "BUNSHIN_STACKS")
    then codes "osaka, tokyo"
    else if text_eq name (codes "RUNNER_API_PORT")
    then codes "8081"
    else if text_eq name (codes "BUNSHIN_STORE")
    then codes "dynamodb"
    else if text_eq name (codes "AWS_REGION")
    then codes "ap-northeast-1"
    else []

new_stack_from_env_example :
    let own = trim_space (getenv (codes "STACK_NAME")) in
    let stacks = Stacklist.split (getenv (codes "BUNSHIN_STACKS")) in
    (In own stacks → new_stack_from_env getenv ≡ valid (stack_config getenv))
    × ((c : StackConfig)
        → new_stack_from_env getenv ≡ valid c
        → In own stacks
          × (c.self ≡ own)
          × (is_empty c.self ≡ false)
          × Perm c.fallbacks (without own stacks))
new_stack_from_env_example = new_stack_from_env_lem getenv

port_read : new_runner_api_port_from_env getenv ≡ valid 8081
unfolding new_runner_api_port_from_env text_eq trim_space atoi
port_read = refl

abbrev pub parts : Parts
parts = record {
  World = memory_repository.client.World;
  new_repo = λ c. some (dynamo_repository memory_repository 1);
  HttpClient = Unit;
  client = tt;
  check_with = λ checker host w. (true, w);
  default_session = λ w. (some (codes "ab"), w);
  context_err = λ w. false;
  service_of = λ s. service_api s 3;
}
