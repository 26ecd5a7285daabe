-- ===== src/Broker/Store/Adapter.antt =====
-- broker/store/dynamo_adapter.go: the repository over the client of the SDK. The SDK is a parameter.
pub mod Settings
use hackathon.Common.{Option, none, some, Bool, true, false, if◌then◌else◌}
use hackathon.Text.{Text, codes, is_empty}
use hackathon.Broker.Config.{DynamoConfig}

-- `load` is LoadDefaultConfig with the region and the static credentials, if they are given;
-- `new_client` is NewFromConfig with the endpoint, if it is given.
pub record Sdk : Type 1 where
  pub AwsConfig : Type 0
  pub SdkClient : Type 0
  pub Repo : Type 0
  pub load : Text → Option (Text × Text) → Option AwsConfig
  pub new_client : AwsConfig → Option Text → SdkClient
  pub new_repository : SdkClient → Text → Repo

abbrev pub static_credentials : DynamoConfig → Option (Text × Text)
static_credentials cfg =
    if is_empty cfg.access_key then none else some (cfg.access_key, cfg.secret_key)

abbrev pub base_endpoint : DynamoConfig → Option Text
base_endpoint cfg = if is_empty cfg.endpoint then none else some cfg.endpoint

module _ (sdk : Sdk) where
  open sdk use {AwsConfig, Repo, load, new_client, new_repository}

  abbrev pub with_config : DynamoConfig → Option AwsConfig → Option Repo
  with_config cfg none = none
  with_config cfg (some aws) =
      some (new_repository (new_client aws (base_endpoint cfg)) (codes "bunshin-runners"))

  unfoldable pub new_dynamo_repository_from_env : DynamoConfig → Option Repo
  new_dynamo_repository_from_env cfg = with_config cfg (load cfg.region (static_credentials cfg))
