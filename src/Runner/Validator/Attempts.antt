-- ===== src/Runner/Validator/Attempts.antt =====
-- runner/validator.go: the retries.
use hackathon.Common.{◌≡◌, refl, true}
use hackathon.Text.{Text}
use hackathon.Broker.Outcome.{err}
use hackathon.Runner.Validator.{
  ValidateError, failed, posted, Validator, post, validate_from, validate,
}

module _ (v : Validator) where
  open v use {World, Payload, exchange, sleep}

  -- The world after one request.
  abbrev after : Text → World → World
  after command w = (exchange command w).1

  -- If the first request and the next two fail in a way that may pass, Validate makes no fourth: it
  -- waits 200 and then 400 milliseconds between them and returns the error of the third.
  pub validate_exhausted :
      (command : Text) (w : World) (e1 e2 e3 : ValidateError)
      → let w1 = (exchange command w).1 in
        let w2 = (exchange command (sleep 200 w1)).1 in
        posted (exchange command w).0 ≡ failed true e1
        → posted (exchange command (sleep 200 w1)).0 ≡ failed true e2
        → posted (exchange command (sleep 400 w2)).0 ≡ failed true e3
        → validate v command w ≡ (err e3, (exchange command (sleep 400 w2)).1)
  unfolding validate validate_from post
  validate_exhausted command w e1 e2 e3 h1 h2 h3 = rw h1 (rw h2 (rw h3 refl))
