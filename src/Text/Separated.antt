-- ===== src/Text/Separated.antt =====
-- Split and Join are inverse where no part holds the separator.
use hackathon.Common.{
  ℕ, ◌≡◌, refl, true, false, ap, inl, inr, Bool-cases, List, [], ◌∷◌, ◌++◌, ◌==◌, arith, All,
}
use hackathon.Text.{Text, cons_head, split, join}

abbrev pub Lacks : ℕ → Text → Type 0
Lacks sep = All (λ c. (c == sep) ≡ false)

cons_head-Lacks :
    (sep c : ℕ) (ps : List Text)
    → (c == sep) ≡ false
    → All (Lacks sep) ps
    → All (Lacks sep) (cons_head c ps)
unfolding cons_head
cons_head-Lacks sep c [] e h = ((e, tt), tt)
cons_head-Lacks sep c (p ∷ ps) e h = ((e, h.0), h.1)

-- No part of a split holds the separator.
pub split-Lacks : (sep : ℕ) (s : Text) → All (Lacks sep) (split sep s)
unfolding split
split-Lacks sep [] = (tt, tt)
split-Lacks sep (c ∷ s) = ground (arith, split-Lacks sep s, cons_head-Lacks sep c (split sep s))

pub split_whole : (sep : ℕ) (p : Text) → Lacks sep p → split sep p ≡ p ∷ []
unfolding split cons_head
split_whole sep [] h = refl
split_whole sep (c ∷ p) h = ground (arith, split_whole sep p h.1)

pub split-append :
    (sep : ℕ) (p s : Text) → Lacks sep p → split sep (p ++ (sep ∷ s)) ≡ p ∷ split sep s
unfolding split cons_head
split-append sep [] s h = ground arith
split-append sep (c ∷ p) s h = ground (arith, split-append sep p s h.1)

-- A list of at least one part is read back from its join.
pub split-join :
    (sep : ℕ) (p : Text) (ps : List Text)
    → All (Lacks sep) (p ∷ ps)
    → split sep (join sep (p ∷ ps)) ≡ p ∷ ps
unfolding join
split-join sep p [] h = split_whole sep p h.0
split-join sep p (q ∷ ps) h = rw (split-append sep p _ h.0, split-join sep q ps h.1)

pub split_some : (sep : ℕ) (s : Text) → (p : Text) × (ps : List Text) × (split sep s ≡ p ∷ ps)
unfolding split cons_head
split_some sep [] = ([], [], refl)
split_some sep (c ∷ s) = elim (Bool-cases (c == sep)) [
  | inl cut ↦ ([], split sep s, rw cut refl)
  | inr inner ↦ let (p, ps, e) = split_some sep s in (c ∷ p, ps, rw (inner, e) refl)
]

pub split_cut : (sep c : ℕ) (s : Text) → (c == sep) ≡ true → split sep (c ∷ s) ≡ [] ∷ split sep s
unfolding split
split_cut sep c s h = rw h refl

pub split_inner :
    (sep c : ℕ) (s p : Text) (ps : List Text)
    → (c == sep) ≡ false
    → split sep s ≡ p ∷ ps
    → split sep (c ∷ s) ≡ (c ∷ p) ∷ ps
unfolding split cons_head
split_inner sep c s p ps h e = rw (h, e) refl

-- The parts before and behind one separator.
pub split_both : (sep : ℕ) (p s : Text) → split sep (p ++ (sep ∷ s)) ≡ split sep p ++ split sep s
unfolding split cons_head
split_both sep [] s = ground arith
split_both sep (c ∷ p) s = elim (Bool-cases (c == sep)) [
  | inl cut ↦ rw cut (ap (◌∷◌ []) (split_both sep p s))
  | inr inner ↦ let (q, qs, e) = split_some sep p in rw (inner, split_both sep p s) (rw e refl)
]
