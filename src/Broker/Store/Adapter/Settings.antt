-- ===== src/Broker/Store/Adapter/Settings.antt =====
-- broker/store/dynamo_adapter.go behind broker/config/repository.go: what reaches the SDK.
use hackathon.Common.{◌≡◌, refl, sym, ◌∙◌, false, Option, none, some, Bool-cases, inl, inr}
use hackathon.Text.{Text, codes, is_empty}
use hackathon.Broker.Config.{valid, DynamoConfig, new_repository_from_env}
use hackathon.Broker.Config.Backend.{new_repository_settings}
use hackathon.Broker.Store.Adapter.{
  Sdk, static_credentials, base_endpoint, with_config, new_dynamo_repository_from_env,
}

-- No static credentials, or a key and a secret, both filled.
abbrev pub Complete : Option (Text × Text) → Type 0
Complete none = Unit
Complete (some (key, secret)) = (is_empty key ≡ false) × (is_empty secret ≡ false)

static-Complete :
    (cfg : DynamoConfig)
    → is_empty cfg.access_key ≡ is_empty cfg.secret_key
    → Complete (static_credentials cfg)
static-Complete cfg both = elim (Bool-cases (is_empty cfg.access_key)) [
  | inl empty ↦ rw empty tt
  | inr filled ↦ rw filled (filled, sym both ∙ filled)
]

module _ (sdk : Sdk) where
  open sdk use {AwsConfig, Repo, load, new_client, new_repository}

  abbrev pub Connected : Repo → Type 0
  Connected repo =
      (region : Text) × (keys : Option (Text × Text)) × (endpoint : Option Text) × (aws : AwsConfig)
      × (is_empty region ≡ false)
      × Complete keys
      × (load region keys ≡ some aws)
      × (repo ≡ new_repository (new_client aws endpoint) (codes "bunshin-runners"))

  connected :
      (cfg : DynamoConfig) (aws : Option AwsConfig) (repo : Repo)
      → is_empty cfg.region ≡ false
      → is_empty cfg.access_key ≡ is_empty cfg.secret_key
      → load cfg.region (static_credentials cfg) ≡ aws
      → with_config sdk cfg aws ≡ some repo
      → Connected repo
  connected cfg none repo region both e h = cc
  connected cfg (some aws) repo region both e h = (
    cfg.region,
    static_credentials cfg,
    base_endpoint cfg,
    aws,
    region,
    static-Complete cfg both,
    e,
    cc,
  )

  -- A repository that the settings give stands on the table bunshin-runners of a client that was made
  -- with a region, and with no static credentials or with a key and a secret that are both filled.
  pub new_repository-Connected :
      (getenv : Text → Text) (repo : Repo)
      → new_repository_from_env (new_dynamo_repository_from_env sdk) getenv ≡ valid repo
      → Connected repo
  unfolding new_dynamo_repository_from_env
  new_repository-Connected getenv repo h =
      let (kind, (cfg, made, region, both)) =
        new_repository_settings (new_dynamo_repository_from_env sdk) getenv repo h in
      connected cfg (load cfg.region (static_credentials cfg)) repo region both refl made
