-- ===== src/Text/Laws.antt =====
-- Equality of texts, trimming and hexadecimal.
use hackathon.Common.{
  ℕ, ◌/◌, ◌%◌, ◌*◌, ◌<◌, ◌≡◌, refl, ◌↔◌, true, false, [], ◌∷◌, ◌++◌, List, ◌==◌, arith, length, All,
}
use hackathon.Common.{Bool-cases, inl, inr}
use hackathon.Text.{
  is_empty, is_space, Text, text_eq, trim_left, trim_right, trim_space, cut, hex_digit, hex_encode,
  is_lower_hex, all_test,
}

pub text_eq_refl : (s : Text) → text_eq s s ≡ true
unfolding text_eq
text_eq_refl [] = refl
text_eq_refl (c ∷ s) = ground (arith, text_eq_refl s)

pub text_eq_sound : (s t : Text) → text_eq s t ≡ true → s ≡ t
unfolding text_eq
text_eq_sound [] [] h = refl
text_eq_sound [] (b ∷ t) h = cc
text_eq_sound (a ∷ s) [] h = cc
text_eq_sound (a ∷ s) (b ∷ t) h = ground (arith, text_eq_sound s t)

pub text_eq_iff : (s t : Text) → (text_eq s t ≡ true) ↔ (s ≡ t)
text_eq_iff s t = (text_eq_sound s t, λ e. rw e (text_eq_refl t))

-- The texts that strings.TrimSpace leaves as they are.
abbrev pub IsTrimmed : Text → Type 0
IsTrimmed s = trim_space s ≡ s

trim_right_idem : (s : Text) → trim_right (trim_right s) ≡ trim_right s
unfolding trim_right
trim_right_idem [] = refl
trim_right_idem (c ∷ s) = ground (arith, trim_right_idem s)

trim_left_shape : (s : Text) → trim_left (trim_right (trim_left s)) ≡ trim_right (trim_left s)
unfolding trim_left trim_right
trim_left_shape [] = refl
trim_left_shape (c ∷ s) = ground (arith, trim_left_shape s)

-- Trimming twice is trimming once.
pub trim_space-IsTrimmed : (s : Text) → IsTrimmed (trim_space s)
unfolding trim_space
trim_space-IsTrimmed s = rw (trim_left_shape s) (trim_right_idem (trim_left s))

module _ {ℓ} (P : ℕ → Type ℓ) where
  All-trim_left : (s : Text) → All P s → All P (trim_left s)
  unfolding trim_left
  All-trim_left [] h = h
  All-trim_left (c ∷ s) h = ground (arith, All-trim_left s h.1)

  All-trim_right : (s : Text) → All P s → All P (trim_right s)
  unfolding trim_right
  All-trim_right [] h = h
  All-trim_right (c ∷ s) h = ground (arith, All-trim_right s h.1)

  pub All-trim_space : (s : Text) → All P s → All P (trim_space s)
  unfolding trim_space
  All-trim_space s h = All-trim_right (trim_left s) (All-trim_left s h)

-- Cutting at the first separator gives both sides.
pub cut-append :
    (sep : ℕ) (p s : Text)
    → All (λ c. (c == sep) ≡ false) p
    → cut sep (p ++ (sep ∷ s)) ≡ record { before = p; after = s; found = true }
unfolding cut
cut-append sep [] s h = ground arith
cut-append sep (c ∷ p) s h = ground (arith, cut-append sep p s h.1)

hex_digit_lower : (n : ℕ) → n < 16 → is_lower_hex (hex_digit n) ≡ true
unfolding hex_digit
hex_digit_lower n h = ground arith

pub hex_encode_lower : (bs : List ℕ) → all_test is_lower_hex (hex_encode bs) ≡ true
unfolding hex_encode
hex_encode_lower [] = refl
hex_encode_lower (b ∷ bs) = ground (
  arith,
  hex_digit_lower (b / 16 % 16) (omega arith),
  hex_digit_lower (b % 16) (omega arith),
  hex_encode_lower bs,
)

pub length-hex_encode : (bs : List ℕ) → length (hex_encode bs) ≡ 2 * length bs
unfolding hex_encode
length-hex_encode [] = refl
length-hex_encode (b ∷ bs) = omega (arith, length-hex_encode bs)

blank_right : (c : ℕ) (s : Text) → is_empty (trim_right (c ∷ s)) ≡ true → is_space c ≡ true
unfolding trim_right
blank_right c s h = ground arith

blank_left :
    (s : Text) → is_empty (trim_right (trim_left s)) ≡ true → All (λ c. is_space c ≡ true) s
unfolding trim_left
blank_left [] h = tt
blank_left (c ∷ s) h = elim (Bool-cases (is_space c)) [
  | inl space ↦ (space, blank_left s (rw space at h))
  | inr solid ↦ absurd (cc (blank_right c s (rw solid at h), solid))
]

-- A text that trims to nothing holds spaces alone.
pub trim_space_blank : (s : Text) → is_empty (trim_space s) ≡ true → All (λ c. is_space c ≡ true) s
unfolding trim_space
trim_space_blank s h = blank_left s h

space_no_comma : (c : ℕ) → is_space c ≡ true → (c == b',') ≡ false
unfolding is_space
space_no_comma c h = ground arith

pub spaces_no_comma : (s : Text) → All (λ c. is_space c ≡ true) s → All (λ c. (c == b',') ≡ false) s
spaces_no_comma [] h = tt
spaces_no_comma (c ∷ s) h = (space_no_comma c h.0, spaces_no_comma s h.1)
