-- ===== src/Broker/Config.antt =====
-- broker/config: the settings from the environment. `getenv` is os.Getenv; an unset variable reads
-- as the empty text.
pub mod Ports
pub mod Stacks
pub mod Backend
use hackathon.Common.{
  ℕ, ◌^◌, Bool, true, false, not, ◌||◌, ◌&&◌, Option, none, some, List, [], ltb, leb, ◌==◌,
  if◌then◌else◌,
}
use hackathon.Text.{Text, codes, is_empty, trim_space, text_eq}
use hackathon.Text.Decimal.{Integer, atoi}
use hackathon.Broker.Stacklist

pub data ConfigError : Type 0 where
  missing_variable : Text → ConfigError
  not_listed : Text → Text → ConfigError
  not_integer : Text → ConfigError
  port_range : Integer → ConfigError
  unsupported_store : Text → ConfigError
  half_credentials : ConfigError
  backend_failed : ConfigError

pub data Checked {ℓ} (A : Type ℓ) : Type ℓ where
  valid : A → Checked A
  invalid : ConfigError → Checked A

infixl 5 ◌>>=◌
abbrev pub ◌>>=◌ {ℓ κ} : {A : Type ℓ} {B : Type κ} → Checked A → (A → Checked B) → Checked B
valid a >>= f = f a
invalid e >>= f = invalid e

pub record StackConfig : Type 0 where
  pub self : Text
  pub fallbacks : List Text

-- A value that may not be empty.
abbrev pub required : Text → Text → Checked Text
required name value = if is_empty value then invalid (missing_variable name) else valid value

abbrev pub listed : Text → Text → List Text × Bool → Checked StackConfig
listed self raw (fallbacks, true) = valid (record { self = self; fallbacks = fallbacks })
listed self raw (fallbacks, false) = invalid (not_listed self raw)

unfoldable pub new_stack_from_env : (Text → Text) → Checked StackConfig
new_stack_from_env getenv = do
  self ← required (codes "STACK_NAME") (trim_space (getenv (codes "STACK_NAME")))
  let raw_list = getenv (codes "BUNSHIN_STACKS")
  _ ← required (codes "BUNSHIN_STACKS") (trim_space raw_list)
  listed self raw_list (Stacklist.parse raw_list self)

abbrev pub max_port : ℕ
max_port = 65535

-- `port <= 0 || port > 65535`
abbrev pub in_range : Integer → Checked ℕ
in_range port =
    if port.negative || (port.magnitude == 0) || ltb max_port port.magnitude
    then invalid (port_range port)
    else valid port.magnitude

abbrev pub read_port : Text → Option Integer → Checked ℕ
read_port raw none = invalid (not_integer raw)
read_port raw (some port) = in_range port

unfoldable pub new_runner_api_port_from_env : (Text → Text) → Checked ℕ
new_runner_api_port_from_env getenv = do
  raw ← required (codes "RUNNER_API_PORT") (trim_space (getenv (codes "RUNNER_API_PORT")))
  read_port raw (atoi raw)

pub record DynamoConfig : Type 0 where
  pub region : Text
  pub access_key : Text
  pub secret_key : Text
  pub endpoint : Text

abbrev pub same_test : Bool → Bool → Bool
same_test true b = b
same_test false b = not b

abbrev pub credentials : DynamoConfig → Checked DynamoConfig
credentials c =
    if same_test (is_empty c.access_key) (is_empty c.secret_key)
    then valid c
    else invalid half_credentials

abbrev pub built : {Repo : Type 0} → Option Repo → Checked Repo
built none = invalid backend_failed
built (some repo) = valid repo

-- `new_repo` is NewDynamoRepositoryFn.
unfoldable pub new_dynamo_from_env :
    {Repo : Type 0} → (DynamoConfig → Option Repo) → (Text → Text) → Checked Repo
new_dynamo_from_env new_repo getenv = do
  region ← required (codes "AWS_REGION") (getenv (codes "AWS_REGION"))
  c ← credentials (record {
    region = region;
    access_key = getenv (codes "AWS_ACCESS_KEY_ID");
    secret_key = getenv (codes "AWS_SECRET_ACCESS_KEY");
    endpoint = getenv (codes "DYNAMODB_ENDPOINT");
  })
  built (new_repo c)

unfoldable pub new_repository_from_env :
    {Repo : Type 0} → (DynamoConfig → Option Repo) → (Text → Text) → Checked Repo
unfolding new_dynamo_from_env
new_repository_from_env new_repo getenv =
    let kind = trim_space (getenv (codes "BUNSHIN_STORE")) in
    if text_eq kind (codes "dynamodb")
    then new_dynamo_from_env new_repo getenv
    else if is_empty kind
    then invalid (missing_variable (codes "BUNSHIN_STORE"))
    else invalid (unsupported_store kind)
