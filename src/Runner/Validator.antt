-- ===== src/Runner/Validator.antt =====
-- runner/validator.go: whether a command may run, asked of a remote model. The HTTP client, the JSON
-- decoder, floats and the clock are parameters.
pub mod Verdicts
pub mod Attempts
pub mod Settings
use hackathon.Common.{
  ℕ, zero, suc, ◌+◌, ◌*◌, ◌^◌, Bool, true, false, not, ◌||◌, Option, none, some, List, [], ◌∷◌, leb,
  ◌==◌, if◌then◌else◌,
}
use hackathon.Text.{Text, codes, text_eq}
use hackathon.Broker.Outcome.{Outcome, ok, err, out_of_fuel}

-- What the error of a failed exchange tells.
pub data Cause : Type 0 where
  request_failed read_failed : Cause
  bad_status : ℕ → Cause

-- `unavailable` is ValidationUnavailableError.
pub data ValidateError : Type 0 where
  unavailable : Cause → ValidateError
  build_request decode_failed no_answer not_noul out_of_range : ValidateError
  refused_status : ℕ → ValidateError

-- What one request came to.
pub data Exchange (Payload : Type 0) : Type 0 where
  not_built no_response no_body : Exchange Payload
  responded : ℕ → Payload → Exchange Payload

pub data Posted (Payload : Type 0) : Type 0 where
  answered : Payload → Posted Payload
  failed : Bool → ValidateError → Posted Payload

pub record Answer (Float : Type 0) : Type 0 where
  pub type_name : Text
  pub noul : Option Float

-- `answer` is the entry of the key "safe" in what json.Unmarshal read.
pub record Validator : Type 1 where
  pub World : Type 0
  pub Payload : Type 0
  pub Float : Type 0
  pub exchange : Text → World → Exchange Payload × World
  pub sleep : ℕ → World → World
  pub decode : Payload → Option (Option (Answer Float))
  pub below_zero : Float → Bool
  pub above_one : Float → Bool
  pub reaches_threshold : Float → Bool
  pub reason_of : Float → Text

pub record ValidationResult : Type 0 where
  pub safe : Bool
  pub reason : Text

abbrev pub jev_max_retries : ℕ
jev_max_retries = 2

-- in milliseconds
abbrev pub jev_retry_base_delay : ℕ
jev_retry_base_delay = 200

-- The switch over the status.
abbrev pub of_status : {Payload : Type 0} → ℕ → Payload → Posted Payload
of_status status payload =
    if status == 200
    then answered payload
    else if (status == 429) || (status == 529)
    then failed true (unavailable (bad_status status))
    else if leb 500 status || (status == 401)
    then failed false (unavailable (bad_status status))
    else failed false (refused_status status)

abbrev pub posted : {Payload : Type 0} → Exchange Payload → Posted Payload
posted not_built = failed false build_request
posted no_response = failed true (unavailable request_failed)
posted no_body = failed true (unavailable read_failed)
posted (responded status payload) = of_status status payload

module _ (v : Validator) where
  open v use {
    World, Payload, Float, exchange, sleep, decode, below_zero, above_one, reaches_threshold,
    reason_of,
  }

  unfoldable pub post : Text → World → Posted Payload × World
  post command w = let (e, w') = exchange command w in (posted e, w')

  abbrev pub of_noul : Float → Outcome ValidateError ValidationResult
  of_noul p =
      if below_zero p || above_one p
      then err out_of_range
      else ok (record { safe = reaches_threshold p; reason = reason_of p })

  abbrev pub of_answer : Bool → Option Float → Outcome ValidateError ValidationResult
  of_answer true (some p) = of_noul p
  of_answer true none = err not_noul
  of_answer false noul = err not_noul

  abbrev pub of_decoded : Option (Option (Answer Float)) → Outcome ValidateError ValidationResult
  of_decoded none = err decode_failed
  of_decoded (some none) = err no_answer
  of_decoded (some (some answer)) = of_answer (text_eq answer.type_name (codes "noul")) answer.noul

  unfoldable pub verdict : Payload → Outcome ValidateError ValidationResult
  verdict payload = of_decoded (decode payload)

  -- After a request; `go_on` is the next attempt.
  abbrev pub after_post :
      ℕ
      → (World → Outcome ValidateError ValidationResult × World)
      → Posted Payload × World
      → Outcome ValidateError ValidationResult × World
  after_post attempt go_on (answered payload, w) = (verdict payload, w)
  after_post attempt go_on (failed retryable e, w) =
      let later = go_on (sleep (jev_retry_base_delay * 2 ^ attempt) w) in
      if not retryable || (attempt == jev_max_retries) then (err e, w) else later

  -- The `for` over the attempts.
  unfoldable pub validate_from :
      ℕ → ℕ → Text → World → Outcome ValidateError ValidationResult × World
  validate_from zero attempt command w = (out_of_fuel, w)
  validate_from (suc fuel) attempt command w =
      after_post attempt (validate_from fuel (attempt + 1) command) (post command w)

  -- Validate: three attempts are all that there are.
  unfoldable pub validate : Text → World → Outcome ValidateError ValidationResult × World
  unfolding validate_from
  validate command w = validate_from 3 0 command w
