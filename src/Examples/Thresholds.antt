-- ===== src/Examples/Thresholds.antt =====
-- The settings of the validator at a threshold that is no number.
use hackathon.Common.{ℕ, suc, ◌≡◌, refl, Bool, false, Option, none, some, if◌then◌else◌}
use hackathon.Text.{Text, codes, is_empty, text_eq}
use hackathon.Common.{ltb}
use hackathon.Broker.Outcome.{ok}
use hackathon.Runner.Validator.{ValidationResult, validate}
use hackathon.Runner.Validator.Settings.{
  Floats, JevSettings, JevClient, loaded, new_jev_validator_from_env, new_jev_validator,
  nan_threshold,
}

-- Floats are natural numbers of halves, or no number.
abbrev compare : (ℕ → ℕ → Bool) → Option ℕ → Option ℕ → Bool
compare test none y = false
compare test (some m) none = false
compare test (some m) (some n) = test m n

abbrev halves : Floats
halves = record {
  Float = Option ℕ;
  zero_float = some 0;
  one_float = some 2;
  less = compare ltb;
  at_least = compare (λ m n. ltb n (suc m));
  parse_float = λ t. if text_eq t (codes "NaN") then some none else none;
}

abbrev jev_env : Text → Text
jev_env name = if text_eq name (codes "JEV_SAFE_THRESHOLD") then codes "NaN" else codes "given"

no_number :
    (y : Option ℕ)
    → (halves.less none y ≡ false) × (halves.less y none ≡ false) × (halves.at_least y none ≡ false)
no_number none = (refl, refl, refl)
no_number (some n) = (refl, refl, refl)

nan_filled :
    (is_empty (jev_env (codes "JEV_API_KEY")) ≡ false)
    × (is_empty (jev_env (codes "JEV_MODEL")) ≡ false)
    × (is_empty (jev_env (codes "JEV_SAFE_THRESHOLD")) ≡ false)
    × (halves.parse_float (jev_env (codes "JEV_SAFE_THRESHOLD")) ≡ some none)
unfolding text_eq
nan_filled = (refl, refl, refl, refl)

nan_threshold_example :
    (settings : JevSettings (Option ℕ)) × (new_jev_validator_from_env halves jev_env
      ≡ loaded settings)
    × ((client : JevClient (Option ℕ)) (command : Text) (w : client.World) (r : ValidationResult)
        → (validate (new_jev_validator halves client settings) command w).0 ≡ ok r
        → r.safe ≡ false)
nan_threshold_example =
    nan_threshold halves jev_env none nan_filled.0 nan_filled.1 nan_filled.2 nan_filled.3 no_number
