-- ===== src/Broker/Stacklist/Circuit.antt =====
-- The order of the fallback stacks.
use Prim.Native.Nat.add
use mathlib.Core.List.{Perm, perm_append_comm}
use mathlib.Core.List.Perm
use hackathon.Common.{
  ℕ, suc, ◌+◌, ◌≡◌, ◌↔◌, ◌⊎◌, inl, inr, refl, ap, true, false, not, none, some, List, [], ◌∷◌, ◌++◌,
  arith, All, In, keep, length, Bool-cases,
}
use hackathon.Common.{All-append, All-append_left, All-append_right, All-keep}
use hackathon.Text.{Text, text_eq}
use hackathon.Text.Laws.{text_eq_refl, text_eq_sound}
use hackathon.Broker.Stacklist.{split, pivot_from, drop, take, others, circuit, parse}

abbrev pub Differs : Text → Text → Type 0
Differs self s = text_eq s self ≡ false

-- the stacks other than `self`, in their order
abbrev pub without : Text → List Text → List Text
without self = keep (λ s. not (text_eq s self))

others-without : (self : Text) (all : List Text) → others self all ≡ without self all
unfolding others
others-without self [] = refl
others-without self (s ∷ all) = ground (arith, others-without self all)

without_absent : (self : Text) (all : List Text) → All (Differs self) all → without self all ≡ all
without_absent self [] h = refl
without_absent self (s ∷ all) h = ground (arith, without_absent self all h.1)

pivot_unlisted :
    (self : Text) (all : List Text) (i : ℕ) → All (Differs self) all → pivot_from self all i ≡ none
unfolding pivot_from
pivot_unlisted self [] i h = refl
pivot_unlisted self (s ∷ all) i h = ground (arith, pivot_unlisted self all (i + 1) h.1)

pivot_listed :
    (self : Text) (pre post : List Text) (i : ℕ)
    → All (Differs self) pre
    → pivot_from self (pre ++ (self ∷ post)) i ≡ some (i + length pre)
unfolding pivot_from
pivot_listed self [] post i h = ground (arith, text_eq_refl self)
pivot_listed self (s ∷ pre) post i h = ground (arith, pivot_listed self pre post (i + 1) h.1)

drop-append :
    (self : Text) (pre post : List Text) → drop (suc (length pre)) (pre ++ (self ∷ post)) ≡ post
unfolding drop
drop-append self [] post = refl
drop-append self (s ∷ pre) post = drop-append self pre post

take-append : (self : Text) (pre post : List Text) → take (length pre) (pre ++ (self ∷ post)) ≡ pre
unfolding take
take-append self [] post = refl
take-append self (s ∷ pre) post = ap (◌∷◌ s) (take-append self pre post)

-- A list either lacks a name, or splits at its first occurrence.
first_occurrence :
    (self : Text) (all : List Text)
    → All (Differs self) all
      ⊎ ((pre : List Text) × (post : List Text) × (all ≡ pre ++ (self ∷ post))
          × All (Differs self) pre)
first_occurrence self [] = inl tt
first_occurrence self (s ∷ all) = elim (Bool-cases (text_eq s self)) [
  | inl same ↦ inr ([], all, ap (λ t. t ∷ all) (text_eq_sound s self same), tt)
  | inr differs ↦ elim (first_occurrence self all) [
    | inl absent ↦ inl (differs, absent)
    | inr (pre, post, e, h) ↦ inr (s ∷ pre, post, ap (◌∷◌ s) e, (differs, h))
  ]
]

-- If the stack is not listed, the list comes back as it is, with false.
parse_unlisted :
    (raw self : Text) → All (Differs self) (split raw) → parse raw self ≡ (split raw, false)
unfolding parse
parse_unlisted raw self h = rw (pivot_unlisted self (split raw) 0 h)

-- If the list has the stack, first between `pre` and `post`, the fallbacks are those of `post`
-- without further mentions of the stack, then those of `pre`.
pub parse_listed :
    (raw self : Text) (pre post : List Text)
    → split raw ≡ pre ++ (self ∷ post)
    → All (Differs self) pre
    → parse raw self ≡ (without self post ++ pre, true)
unfolding parse
parse_listed raw self pre post e h =
    rw (e, pivot_listed self pre post 0 h)
      (unfold circuit in
        rw (
          add.zero (length pre),
          drop-append self pre post,
          take-append self pre post,
          others-without self post,
        ))

without_listed :
    (self : Text) (pre post : List Text)
    → All (Differs self) pre
    → without self (pre ++ (self ∷ post)) ≡ pre ++ without self post
without_listed self [] post h = ground (arith, text_eq_refl self)
without_listed self (s ∷ pre) post h = ground (arith, without_listed self pre post h.1)

-- Whether or not the stack is listed, the fallbacks are the listed stacks other than the stack
-- itself, each as often as it is listed, up to the order.
pub parse-perm : (raw self : Text) → Perm (parse raw self).0 (without self (split raw))
parse-perm raw self = elim (first_occurrence self (split raw)) [
  | inl absent ↦
      rw (parse_unlisted raw self absent, without_absent self (split raw) absent) (Perm.refl _)
  | inr (pre, post, e, h) ↦
      rw (parse_listed raw self pre post e h, e, without_listed self pre post h)
        (perm_append_comm (without self post) pre)
]

In-middle : (self : Text) (pre post : List Text) → In self (pre ++ (self ∷ post))
In-middle self [] post = inl refl
In-middle self (s ∷ pre) post = inr (In-middle self pre post)

not_In : (self : Text) (all : List Text) → All (Differs self) all → ¬ In self all
not_In self [] h m = m
not_In self (s ∷ all) h (inl e) = cc (h.0, text_eq_refl self, e)
not_In self (s ∷ all) h (inr m) = not_In self all h.1 m

-- The flag is true exactly when the stack is among the listed ones.
pub parse_flag : (raw self : Text) → ((parse raw self).1 ≡ true) ↔ In self (split raw)
parse_flag raw self = elim (first_occurrence self (split raw)) [
  | inl absent ↦
      (λ t. cc (t, parse_unlisted raw self absent), λ m. absurd (not_In self (split raw) absent m))
  | inr (pre, post, e, h) ↦
      (λ t. rw e (In-middle self pre post), λ m. rw (parse_listed raw self pre post e h))
]

-- What holds of every listed stack holds of every fallback.
pub parse-All : (P : Text → Type 0) (raw self : Text) → All P (split raw) → All P (parse raw self).0
parse-All P raw self h = elim (first_occurrence self (split raw)) [
  | inl absent ↦ rw (parse_unlisted raw self absent) h
  | inr (pre, post, e, d) ↦ rw (parse_listed raw self pre post e d) (
      All-append P (without self post) pre
        (All-keep P _ post (All-append_right P pre (self ∷ post) (rw e at h)).1)
        (All-append_left P pre (self ∷ post) (rw e at h)))
]
