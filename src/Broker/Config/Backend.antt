-- ===== src/Broker/Config/Backend.antt =====
-- Which repository is built, and with which settings.
use hackathon.Common.{◌≡◌, refl, false, Option, none, some, Bool-cases, inl, inr}
use hackathon.Text.{Text, codes, is_empty, text_eq, trim_space}
use hackathon.Text.Laws.{text_eq_sound}
use hackathon.Broker.Config.{
  Checked, valid, invalid, DynamoConfig, built, credentials, ◌>>=◌, new_dynamo_from_env,
  new_repository_from_env,
}

built_valid : {Repo : Type 0} (o : Option Repo) (repo : Repo) → built o ≡ valid repo → o ≡ some repo
built_valid none repo h = cc
built_valid (some r) repo h = cc

credentials_valid :
    (c c' : DynamoConfig)
    → credentials c ≡ valid c'
    → (c' ≡ c) × (is_empty c.access_key ≡ is_empty c.secret_key)
credentials_valid c c' h = elim (Bool-cases (is_empty c.access_key)) [
  | inl a ↦ elim (Bool-cases (is_empty c.secret_key)) [
    | inl b ↦ cc_pair (rw (a, b) at h) (rw (a, b))
    | inr b ↦ absurd (cc (rw (a, b) at h))
  ]
  | inr a ↦ elim (Bool-cases (is_empty c.secret_key)) [
    | inl b ↦ absurd (cc (rw (a, b) at h))
    | inr b ↦ cc_pair (rw (a, b) at h) (rw (a, b))
  ]
]
  where
    cc_pair :
        valid c ≡ valid c'
        → is_empty c.access_key ≡ is_empty c.secret_key
        → (c' ≡ c) × (is_empty c.access_key ≡ is_empty c.secret_key)
    cc_pair e same = (cc e, same)

abbrev Backed : {Repo : Type 0} → (DynamoConfig → Option Repo) → Repo → Type 0
Backed new_repo repo =
    (c : DynamoConfig) × (new_repo c ≡ some repo)
    × (is_empty c.region ≡ false)
    × (is_empty c.access_key ≡ is_empty c.secret_key)

checked_credentials :
    {Repo : Type 0} (new_repo : DynamoConfig → Option Repo) (repo : Repo) (c : DynamoConfig)
    (checked : Checked DynamoConfig)
    → credentials c ≡ checked
    → is_empty c.region ≡ false
    → (checked >>= λ c'. built (new_repo c')) ≡ valid repo
    → Backed new_repo repo
checked_credentials new_repo repo c (invalid e) h f b = cc
checked_credentials new_repo repo c (valid c') h f b =
    let (same, both) = credentials_valid c c' h in
    (c, built_valid (new_repo c) repo (rw (← same) b), f, both)

new_dynamo_settings :
    {Repo : Type 0} (new_repo : DynamoConfig → Option Repo) (getenv : Text → Text) (repo : Repo)
    → new_dynamo_from_env new_repo getenv ≡ valid repo
    → Backed new_repo repo
unfolding new_dynamo_from_env
new_dynamo_settings new_repo getenv repo h =
    elim (Bool-cases (is_empty (getenv (codes "AWS_REGION")))) [
      | inl empty ↦ cc (rw empty at h)
      | inr filled ↦ checked_credentials new_repo repo _ _ refl filled (rw filled at h)
    ]

-- A repository is built only for the kind dynamodb, with a region, and with both halves of the
-- credentials or with neither.
pub new_repository_settings :
    {Repo : Type 0} (new_repo : DynamoConfig → Option Repo) (getenv : Text → Text) (repo : Repo)
    → new_repository_from_env new_repo getenv ≡ valid repo
    → (trim_space (getenv (codes "BUNSHIN_STORE")) ≡ codes "dynamodb")
      × ((c : DynamoConfig) × (new_repo c ≡ some repo)
          × (is_empty c.region ≡ false)
          × (is_empty c.access_key ≡ is_empty c.secret_key))
unfolding new_repository_from_env
new_repository_settings new_repo getenv repo h =
    elim (Bool-cases (text_eq (trim_space (getenv (codes "BUNSHIN_STORE"))) (codes "dynamodb"))) [
      | inl kind ↦ (text_eq_sound _ _ kind, new_dynamo_settings new_repo getenv repo (rw kind at h))
      | inr other ↦ elim (Bool-cases (is_empty (trim_space (getenv (codes "BUNSHIN_STORE"))))) [
        | inl empty ↦ cc (rw (other, empty) at h)
        | inr filled ↦ cc (rw (other, filled) at h)
      ]
    ]
