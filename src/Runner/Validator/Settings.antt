-- ===== src/Runner/Validator/Settings.antt =====
-- runner/main.go, newJevValidatorFromEnv, and runner/validator.go, NewJevValidator. A float is a value
-- with the comparisons that the code makes; a value that is no number compares false with all.
use hackathon.Common.{
  ℕ, ◌≡◌, refl, subst, Bool, false, ◌||◌, Option, none, some, if◌then◌else◌, Bool-cases, inl, inr,
}
use hackathon.Text.{Text, codes, is_empty}
use hackathon.Broker.Outcome.{ok}
use hackathon.Runner.Validator.{Validator, Exchange, Answer, ValidationResult, validate}
use hackathon.Runner.Validator.Verdicts.{ValidateEffect, validate-ValidateEffect}

-- float64, with strconv.ParseFloat
pub record Floats : Type 1 where
  pub Float : Type 0
  pub zero_float : Float
  pub one_float : Float
  pub less : Float → Float → Bool
  pub at_least : Float → Float → Bool
  pub parse_float : Text → Option Float

pub data SettingsError : Type 0 where
  missing_variable : Text → SettingsError
  bad_threshold : Text → SettingsError

pub record JevSettings (Float : Type 0) : Type 0 where
  pub api_key : Text
  pub model : Text
  pub threshold : Float

pub data Loaded (A : Type 0) : Type 0 where
  loaded : A → Loaded A
  refused : SettingsError → Loaded A

infixl 5 ◌>>=◌
abbrev pub ◌>>=◌ : {A B : Type 0} → Loaded A → (A → Loaded B) → Loaded B
loaded a >>= f = f a
refused e >>= f = refused e

-- What NewJevValidator does not get from the settings: the exchange over HTTP, the clock and JSON.
pub record JevClient (Float : Type 0) : Type 1 where
  pub World : Type 0
  pub Payload : Type 0
  pub exchange : Text → Text → Text → World → Exchange Payload × World
  pub sleep : ℕ → World → World
  pub decode : Payload → Option (Option (Answer Float))
  pub reason_of : Float → Float → Text

module _ (f : Floats) where
  open f use {Float, zero_float, one_float, less, at_least, parse_float}

  abbrev pub required : (Text → Text) → Text → Loaded Text
  required getenv name =
      let value = getenv name in
      if is_empty value then refused (missing_variable name) else loaded value

  abbrev pub in_range : Text → Option Float → Loaded Float
  in_range raw none = refused (bad_threshold raw)
  in_range raw (some threshold) =
      if less threshold zero_float || less one_float threshold
      then refused (bad_threshold raw)
      else loaded threshold

  unfoldable pub new_jev_validator_from_env : (Text → Text) → Loaded (JevSettings Float)
  new_jev_validator_from_env getenv = do
    api_key ← required getenv (codes "JEV_API_KEY")
    model ← required getenv (codes "JEV_MODEL")
    raw_threshold ← required getenv (codes "JEV_SAFE_THRESHOLD")
    threshold ← in_range raw_threshold (parse_float raw_threshold)
    loaded (record { api_key = api_key; model = model; threshold = threshold })

  -- The key, the model and the command make the request.
  abbrev pub new_jev_validator : JevClient Float → JevSettings Float → Validator
  new_jev_validator client settings = record {
    World = client.World;
    Payload = client.Payload;
    Float = Float;
    exchange = client.exchange settings.api_key settings.model;
    sleep = client.sleep;
    decode = client.decode;
    below_zero = λ p. less p zero_float;
    above_one = less one_float;
    reaches_threshold = λ p. at_least p settings.threshold;
    reason_of = λ p. client.reason_of p settings.threshold;
  }

  -- Not a number: every comparison with it is false.
  abbrev pub IsNan : Float → Type 0
  IsNan x = (y : Float) → (less x y ≡ false) × (less y x ≡ false) × (at_least y x ≡ false)

  unsafe_nan :
      (client : JevClient Float) (settings : JevSettings Float) (command : Text) (w : client.World)
      (r : ValidationResult)
      → IsNan settings.threshold
      → (validate (new_jev_validator client settings) command w).0 ≡ ok r
      → r.safe ≡ false
  unsafe_nan client settings command w r nan h = elim (Bool-cases r.safe) [
    | inr no_verdict ↦ no_verdict
    | inl safe ↦
        let (w0, payload, answered, judge) =
          subst (ValidateEffect (new_jev_validator client settings) command) h
            (validate-ValidateEffect (new_jev_validator client settings) command w) in
        absurd (cc ((judge safe).reached, (nan (judge safe).probability).2))
  ]

  -- A threshold that parses as "not a number" passes the check of the range, and the validator that
  -- is built with it finds no command safe, whatever the model answers.
  pub nan_threshold :
      (getenv : Text → Text) (x : Float)
      → is_empty (getenv (codes "JEV_API_KEY")) ≡ false
      → is_empty (getenv (codes "JEV_MODEL")) ≡ false
      → is_empty (getenv (codes "JEV_SAFE_THRESHOLD")) ≡ false
      → parse_float (getenv (codes "JEV_SAFE_THRESHOLD")) ≡ some x
      → IsNan x
      → (settings : JevSettings Float) × (new_jev_validator_from_env getenv ≡ loaded settings)
        × ((client : JevClient Float) (command : Text) (w : client.World) (r : ValidationResult)
            → (validate (new_jev_validator client settings) command w).0 ≡ ok r
            → r.safe ≡ false)
  unfolding new_jev_validator_from_env
  nan_threshold getenv x key model raw parsed nan = (
    record {
      api_key = getenv (codes "JEV_API_KEY");
      model = getenv (codes "JEV_MODEL");
      threshold = x;
    },
    rw (key, model, raw, parsed, (nan zero_float).0, (nan one_float).1) refl,
    λ client command w r h.
        unsafe_nan client
          (record {
            api_key = getenv (codes "JEV_API_KEY");
            model = getenv (codes "JEV_MODEL");
            threshold = x;
          })
          command w r nan h,
  )
