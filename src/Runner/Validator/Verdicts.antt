-- ===== src/Runner/Validator/Verdicts.antt =====
-- runner/validator.go: what a verdict rests on.
use hackathon.Common.{
  ℕ, suc, ◌+◌, ◌≡◌, refl, inl, inr, Bool, true, false, ◌||◌, Option, none, some, arith, Bool-cases,
  leb, ◌==◌,
}
use hackathon.Text.{Text, codes, text_eq}
use hackathon.Text.Laws.{text_eq_sound}
use hackathon.Broker.Outcome.{Outcome, ok, err, out_of_fuel}
use hackathon.Runner.Validator.{
  Cause, bad_status, request_failed, read_failed, ValidateError, unavailable, Exchange, not_built,
  no_response, no_body, responded, Posted, answered, failed, Answer, Validator, ValidationResult,
  jev_max_retries, of_status, posted, post, of_noul, of_answer, of_decoded, verdict, after_post,
  validate_from, validate,
}

-- The exchange behind an outage: nothing came back, or a status that says the service cannot judge.
abbrev pub Outage : {Payload : Type 0} → Exchange Payload → Cause → Type 0
Outage no_response request_failed = Unit
Outage no_body read_failed = Unit
Outage (responded status payload) (bad_status n) =
    (n ≡ status)
    × (((status == 429) || (status == 529) || leb 500 status || (status == 401)) ≡ true)
Outage e c = ⊥

-- What a request came to, by its exchange.
abbrev PostedOf : {Payload : Type 0} → Exchange Payload → Posted Payload → Type 0
PostedOf e (answered payload) = e ≡ responded 200 payload
PostedOf e (failed retryable (unavailable c)) = Outage e c
PostedOf e (failed retryable x) = Unit

of_status-PostedOf :
    {Payload : Type 0} (status : ℕ) (payload : Payload)
    → PostedOf (responded status payload) (of_status status payload)
of_status-PostedOf status payload = ground arith

posted-PostedOf : {Payload : Type 0} (e : Exchange Payload) → PostedOf e (posted e)
posted-PostedOf not_built = tt
posted-PostedOf no_response = tt
posted-PostedOf no_body = tt
posted-PostedOf (responded status payload) = of_status-PostedOf status payload

module _ (v : Validator) where
  open v use {World, Payload, Float, exchange, decode, below_zero, above_one, reaches_threshold}

  -- A payload whose answer is a probability that reaches the threshold.
  pub record Judged (payload : Payload) : Type 0 where
    pub answer : Answer Float
    pub probability : Float
    pub decoded : decode payload ≡ some (some answer)
    pub typed : answer.type_name ≡ codes "noul"
    pub given : answer.noul ≡ some probability
    pub at_least_zero : below_zero probability ≡ false
    pub at_most_one : above_one probability ≡ false
    pub reached : reaches_threshold probability ≡ true

  abbrev Safe : Payload → Outcome ValidateError ValidationResult → Type 0
  Safe payload (ok r) = r.safe ≡ true → Judged payload
  Safe payload (err (unavailable c)) = ⊥
  Safe payload (err e) = Unit
  Safe payload out_of_fuel = ⊥

  of_noul-Safe :
      (payload : Payload) (a : Answer Float) (p : Float)
      → decode payload ≡ some (some a)
      → a.type_name ≡ codes "noul"
      → a.noul ≡ some p
      → (low high : Bool) → below_zero p ≡ low
      → above_one p ≡ high
      → Safe payload (of_noul v p)
  of_noul-Safe payload a p d t n true high lo hi = rw lo tt
  of_noul-Safe payload a p d t n false true lo hi = rw (lo, hi) tt
  of_noul-Safe payload a p d t n false false lo hi =
      rw (lo, hi)
        λ s. record {
          answer = a;
          probability = p;
          decoded = d;
          typed = t;
          given = n;
          at_least_zero = lo;
          at_most_one = hi;
          reached = s;
        }

  of_answer-Safe :
      (payload : Payload) (a : Answer Float) (typed : Bool) (noul : Option Float)
      → decode payload ≡ some (some a)
      → text_eq a.type_name (codes "noul") ≡ typed
      → a.noul ≡ noul
      → Safe payload (of_answer v typed noul)
  of_answer-Safe payload a false noul d t n = tt
  of_answer-Safe payload a true none d t n = tt
  of_answer-Safe payload a true (some p) d t n =
      of_noul-Safe payload a p d (text_eq_sound _ _ t) n (below_zero p) (above_one p) refl refl

  of_decoded-Safe :
      (payload : Payload) (o : Option (Option (Answer Float)))
      → decode payload ≡ o
      → Safe payload (of_decoded v o)
  of_decoded-Safe payload none d = tt
  of_decoded-Safe payload (some none) d = tt
  of_decoded-Safe payload (some (some a)) d =
      of_answer-Safe payload a (text_eq a.type_name (codes "noul")) a.noul d refl refl

  verdict-Safe : (payload : Payload) → Safe payload (verdict v payload)
  unfolding verdict
  verdict-Safe payload = of_decoded-Safe payload (decode payload) refl

  -- What a result says of some request that was made.
  abbrev pub ValidateEffect : Text → Outcome ValidateError ValidationResult → Type 0
  ValidateEffect command (ok r) =
      (w : World) × (payload : Payload) × ((exchange command w).0 ≡ responded 200 payload)
      × (r.safe ≡ true → Judged payload)
  ValidateEffect command (err (unavailable c)) = (w : World) × Outage (exchange command w).0 c
  ValidateEffect command (err e) = Unit
  ValidateEffect command out_of_fuel = ⊥

  answered_lem :
      (command : Text) (w : World) (payload : Payload) (o : Outcome ValidateError ValidationResult)
      → (exchange command w).0 ≡ responded 200 payload
      → Safe payload o
      → ValidateEffect command o
  answered_lem command w payload (ok r) e s = (w, payload, e, s)
  answered_lem command w payload (err (unavailable c)) e s = elim s [ ]
  answered_lem command w payload (err x) e s = tt
  answered_lem command w payload out_of_fuel e s = s

  failed_lem :
      (command : Text) (w : World) (retryable : Bool) (x : ValidateError)
      → PostedOf (exchange command w).0 (failed retryable x)
      → ValidateEffect command (err x)
  failed_lem command w retryable (unavailable c) p = (w, p)
  failed_lem command w retryable x p = tt

  after_post_lem :
      (command : Text) (attempt : ℕ)
      (go_on : World → Outcome ValidateError ValidationResult × World) (w : World)
      (reply : Posted Payload × World)
      → PostedOf (exchange command w).0 reply.0
      → ((attempt == jev_max_retries) ≡ false → (w' : World) → ValidateEffect command (go_on w').0)
      → ValidateEffect command (after_post v attempt go_on reply).0
  after_post_lem command attempt go_on w (answered payload, w') p more =
      answered_lem command w payload (verdict v payload) p (verdict-Safe payload)
  after_post_lem command attempt go_on w (failed false x, w') p more =
      failed_lem command w false x p
  after_post_lem command attempt go_on w (failed true x, w') p more =
      elim (Bool-cases (attempt == jev_max_retries)) [
        | inl last ↦ rw last (failed_lem command w true x p)
        | inr early ↦ rw early (more early _)
      ]

  round_lem :
      (command : Text) (fuel attempt : ℕ) (w : World)
      → ((attempt == jev_max_retries) ≡ false
          → (w' : World) → ValidateEffect command (validate_from v fuel (attempt + 1) command w').0)
      → ValidateEffect command (validate_from v (suc fuel) attempt command w).0
  unfolding validate_from post
  round_lem command fuel attempt w more =
      after_post_lem command attempt (validate_from v fuel (attempt + 1) command) w
        (post v command w) (posted-PostedOf (exchange command w).0) more

  pub validate-ValidateEffect :
      (command : Text) (w : World) → ValidateEffect command (validate v command w).0
  unfolding validate
  validate-ValidateEffect command w =
      round_lem command 2 0 w
        λ e1 w1. round_lem command 1 1 w1 λ e2 w2. round_lem command 0 2 w2 λ e3. absurd (cc e3)
