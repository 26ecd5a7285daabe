-- ===== src/Runner/Identity.antt =====
-- runner/identity.go: who a runner is and where the broker reaches it. The environment, the host's
-- name, the metadata endpoint, its JSON and the random source are parameters.
pub mod Ids
use hackathon.Common.{
  ℕ, Bool, true, false, ◌||◌, not, Option, none, some, List, [], ◌∷◌, ◌==◌, if◌then◌else◌,
}
use hackathon.Text.{Text, codes, text_eq, is_empty, hex_encode}

pub record Identity : Type 0 where
  pub runner_id : Text
  pub private_host : Text

pub data IdentityError : Type 0 where
  random_failed hostname_failed metadata_failed decode_failed no_address : IdentityError
  short_read : ℕ → IdentityError
  unsupported_stack : Text → IdentityError
  missing_metadata_uri : IdentityError

pub data Resolved {ℓ} (A : Type ℓ) : Type ℓ where
  found : A → Resolved A
  lost : IdentityError → Resolved A

abbrev pub after {ℓ κ} :
    {W : Type 0} {A : Type ℓ} {B : Type κ}
    → Resolved A × W
    → (A → W → Resolved B × W)
    → Resolved B × W
after (found a, w) f = f a w
after (lost e, w) f = (lost e, w)

pub record EcsNetwork : Type 0 where
  pub ipv4_addresses : List Text

pub record EcsContainerMeta : Type 0 where
  pub networks : List EcsNetwork

-- `rand_read` gives the count it returns and the array of 16 bytes afterwards; `get_body` is the
-- exchange of defaultHTTPGet, as the status and the body, each none where it failed.
pub record IdentityDeps : Type 1 where
  pub World : Type 0
  pub getenv : Text → Text
  pub hostname : World → Option Text × World
  pub exchange : Text → World → Option (ℕ × Option Text) × World
  pub decode : Text → Option EcsContainerMeta
  pub rand_read : World → Option (ℕ × List ℕ) × World

abbrev pub id_bytes : ℕ
id_bytes = 16

abbrev pub read_all : {W : Type 0} → Option (ℕ × Option Text) × W → Option Text × W
read_all (none, w) = (none, w)
read_all (some (status, body), w) = ((if status == 200 then body else none), w)

abbrev pub of_read : {W : Type 0} → Option (ℕ × List ℕ) × W → Resolved Text × W
of_read (none, w) = (lost random_failed, w)
of_read (some (n, buf), w) =
    ((if n == id_bytes then found (hex_encode buf) else lost (short_read n)), w)

abbrev pub first_address : List EcsNetwork → Resolved Text
first_address [] = lost no_address
first_address (network ∷ networks) = elim network.ipv4_addresses [
  | [] ↦ lost no_address
  | address ∷ more ↦ found address
]

abbrev pub of_meta : Option EcsContainerMeta → Resolved Text
of_meta none = lost decode_failed
of_meta (some container) = first_address container.networks

module _ (d : IdentityDeps) where
  open d use {World, getenv, hostname, exchange, decode, rand_read}

  unfoldable pub generate_runner_id : World → Resolved Text × World
  generate_runner_id w = of_read (rand_read w)

  unfoldable pub default_http_get : Text → World → Option Text × World
  default_http_get url w = read_all (exchange url w)

  abbrev pub of_body : Option Text × World → Resolved Text × World
  of_body (none, w) = (lost metadata_failed, w)
  of_body (some body, w) = (of_meta (decode body), w)

  unfoldable pub private_host_from_ecs : World → Resolved Text × World
  unfolding default_http_get
  private_host_from_ecs w =
      let ecs_uri = getenv (codes "ECS_CONTAINER_METADATA_URI_V4") in
      if is_empty ecs_uri
      then (lost missing_metadata_uri, w)
      else of_body (default_http_get ecs_uri w)

  abbrev pub of_hostname : Option Text × World → Resolved Text × World
  of_hostname (none, w) = (lost hostname_failed, w)
  of_hostname (some host, w) = (found host, w)

  unfoldable pub private_host_from_hostname : World → Resolved Text × World
  private_host_from_hostname w = of_hostname (hostname w)

  unfoldable pub resolve_private_host : World → Resolved Text × World
  resolve_private_host w =
      let stack_name = getenv (codes "STACK_NAME") in
      if text_eq stack_name (codes "ap-northeast-1") || text_eq stack_name (codes "ap-northeast-3")
      then private_host_from_ecs w
      else if text_eq stack_name (codes "local")
      then private_host_from_hostname w
      else (lost (unsupported_stack stack_name), w)

  unfoldable pub resolve_identity : World → Resolved Identity × World
  resolve_identity w = after (generate_runner_id w) λ runner_id w1.
      after (resolve_private_host w1) λ private_host w2.
        (found (record { runner_id = runner_id; private_host = private_host }), w2)
