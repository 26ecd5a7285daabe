-- ===== src/Broker/Outcome.antt =====
-- Calls that change the world and may fail.

-- `out_of_fuel` is no result of the code: it marks a loop that was cut off.
pub data Outcome (E A : Type 0) : Type 0 where
  ok : A → Outcome E A
  err : E → Outcome E A
  out_of_fuel : Outcome E A

abbrev pub Act : Type 0 → Type 0 → Type 0 → Type 0
Act W E A = W → Outcome E A × W

abbrev pub next : {W E A B : Type 0} → Outcome E A × W → (A → Act W E B) → Outcome E B × W
next (ok a, w) f = f a w
next (err e, w) f = (err e, w)
next (out_of_fuel, w) f = (out_of_fuel, w)

infixl 5 ◌>>=◌ ◌>>◌
abbrev pub ◌>>=◌ : {W E A B : Type 0} → Act W E A → (A → Act W E B) → Act W E B
◌>>=◌ m f w = next (m w) f

abbrev pub ◌>>◌ : {W E B : Type 0} → Act W E (Unit {0}) → Act W E B → Act W E B
◌>>◌ m k w = next (m w) (λ _. k)
