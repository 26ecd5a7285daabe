-- ===== src/Runner/Registration/Rounds.antt =====
-- runner/register.go: the rounds of the registration loop.
use hackathon.Common.{
  ℕ, zero, suc, ◌<◌, ◌≡◌, refl, sym, ◌∙◌, ap, subst, inl, inr, Bool, true, false, arith, Bool-cases,
}
use hackathon.Runner.Registration.{
  RegisterDeps, Registered, registered, cancelled, cut_off, is_created, post_once, after_wait,
  register,
}

module _ (d : RegisterDeps) where
  open d use {World, wait}

  -- `n` attempts without a 201, each with its wait to the end, lead from one world to the other.
  abbrev pub Rounds : ℕ → World → World → Type 0
  Rounds zero w w' = w' ≡ w
  Rounds (suc n) w w' =
      (is_created (post_once d w).0 ≡ false)
      × ((wait (post_once d w).1).0 ≡ true)
      × Rounds n (wait (post_once d w).1).1 w'

  -- How the loop ends: by a 201, by the end of the context during a wait, or by the end of the fuel.
  abbrev pub Exit : ℕ → World → Registered × World → Type 0
  Exit fuel w (registered, w') =
      (n : ℕ) × (last : World) × (n < fuel)
      × Rounds n w last
      × (is_created (post_once d last).0 ≡ true)
      × (w' ≡ (post_once d last).1)
  Exit fuel w (cancelled, w') =
      (n : ℕ) × (last : World) × (n < fuel)
      × Rounds n w last
      × (is_created (post_once d last).0 ≡ false)
      × (wait (post_once d last).1 ≡ (false, w'))
  Exit fuel w (cut_off, w') = Rounds fuel w w'

  one_more :
      (fuel : ℕ) (w w1 : World) (final : Registered × World)
      → is_created (post_once d w).0 ≡ false
      → wait (post_once d w).1 ≡ (true, w1)
      → Exit fuel w1 final
      → Exit (suc fuel) w final
  one_more fuel w w1 (registered, w') failed waited (n, last, lt, rounds, created, e) = (
    suc n,
    last,
    omega arith,
    (failed, ap (λ (x : Bool × World). x.0) waited, rw waited rounds),
    created,
    e,
  )
  one_more fuel w w1 (cancelled, w') failed waited (n, last, lt, rounds, created, e) = (
    suc n,
    last,
    omega arith,
    (failed, ap (λ (x : Bool × World). x.0) waited, rw waited rounds),
    created,
    e,
  )
  one_more fuel w w1 (cut_off, w') failed waited rounds =
      (failed, ap (λ (x : Bool × World). x.0) waited, rw waited rounds)

  after_wait_lem :
      (fuel : ℕ) (w : World) (waited : Bool × World)
      → is_created (post_once d w).0 ≡ false
      → wait (post_once d w).1 ≡ waited
      → ((w1 : World) → Exit fuel w1 (register d fuel w1))
      → Exit (suc fuel) w (after_wait d (register d fuel) waited)
  after_wait_lem fuel w (true, w1) failed e go_on =
      one_more fuel w w1 (register d fuel w1) failed e (go_on w1)
  after_wait_lem fuel w (false, w1) failed e go_on = (0, w, omega arith, refl, failed, e)

  attempt_created :
      (fuel : ℕ) (w : World)
      → is_created (post_once d w).0 ≡ true
      → register d (suc fuel) w ≡ (registered, (post_once d w).1)
  unfolding register
  attempt_created fuel w h = rw (h, register) refl

  attempt_failed :
      (fuel : ℕ) (w : World)
      → is_created (post_once d w).0 ≡ false
      → register d (suc fuel) w ≡ after_wait d (register d fuel) (wait (post_once d w).1)
  unfolding register
  attempt_failed fuel w h = rw (h, register) refl

  -- Every run of the loop is some rounds without a 201 and then one of the ends; a 201 ends it at
  -- once, as does a context that ends during a wait.
  pub register-Exit : (fuel : ℕ) (w : World) → Exit fuel w (register d fuel w)
  unfolding register
  register-Exit zero w = refl
  register-Exit (suc fuel) w = elim (Bool-cases (is_created (post_once d w).0)) [
    | inl created ↦
        subst (Exit (suc fuel) w) (sym (attempt_created fuel w created))
          (0, w, omega arith, refl, created, refl)
    | inr failed ↦
        subst (Exit (suc fuel) w) (sym (attempt_failed fuel w failed))
          (after_wait_lem fuel w (wait (post_once d w).1) failed refl (register-Exit fuel))
  ]

  waited_on :
      (go_on : World → Registered × World) (waited : Bool × World)
      → waited.0 ≡ true
      → after_wait d go_on waited ≡ go_on waited.1
  waited_on go_on (true, w) h = refl
  waited_on go_on (false, w) h = cc

  -- If some rounds fail, the context does not end meanwhile, and then an attempt is answered by 201,
  -- the loop returns there, for every bound above the rounds.
  pub register_returns :
      (n fuel : ℕ) (w last : World)
      → n < fuel
      → Rounds n w last
      → is_created (post_once d last).0 ≡ true
      → register d fuel w ≡ (registered, (post_once d last).1)
  register_returns n zero w last lt rounds created = elim lt [ ]
  register_returns zero (suc fuel) w last lt rounds created =
      subst (λ (x : World). register d (suc fuel) w ≡ (registered, (post_once d x).1)) (sym rounds)
        (attempt_created fuel w (rw rounds at created))
  register_returns (suc n) (suc fuel) w last lt (failed, waited, rounds) created =
      attempt_failed fuel w failed
      ∙ waited_on (register d fuel) (wait (post_once d w).1) waited
      ∙ register_returns n fuel (wait (post_once d w).1).1 last (omega arith) rounds created
