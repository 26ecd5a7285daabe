-- ===== src/Runner/Shell/Scanner.antt =====
-- runner/shell.go: bufio.Scanner over the bytes of stdout, and what the channel gets of them.
use hackathon.Common.{
  ℕ, ◌+◌, ltb, Bool, true, All, ◌≡◌, refl, ap, inl, inr, false, List, [], ◌∷◌, ◌++◌, map, arith,
  ◌==◌, if◌then◌else◌, Bool-cases,
}
use hackathon.Text.{Text, is_empty}
use hackathon.Text
use hackathon.Text.Separated.{split_some, split_cut, split_inner}
use hackathon.Runner.Shell.{newline}
use hackathon.Runner.Shell.Stream.{ended, own_lines}

-- the carriage return that ends a line goes with its newline
unfoldable pub drop_cr : Text → Text
drop_cr [] = []
drop_cr (c ∷ []) = if c == b'\r' then [] else c ∷ []
drop_cr (c ∷ d ∷ s) = c ∷ drop_cr (d ∷ s)

-- behind the last newline there is a line only if there is text
unfoldable pub drop_open : List Text → List Text
drop_open [] = []
drop_open ([] ∷ []) = []
drop_open ((c ∷ s) ∷ []) = (c ∷ s) ∷ []
drop_open (s ∷ t ∷ lines) = s ∷ drop_open (t ∷ lines)

-- The bytes of a rune in UTF-8; a byte that is no UTF-8 stands as a rune beyond the last one.
abbrev width : ℕ → ℕ
width c =
    if ltb c 128
    then 1
    else if ltb c 2048
    then 2
    else if ltb c 65536
    then 3
    else if ltb c 1114112
    then 4
    else 1

unfoldable pub byte_length : Text → ℕ
byte_length [] = 0
byte_length (c ∷ s) = width c + byte_length s

-- The buffer of the scanner, 1 MiB, has room for a line and one byte more.
abbrev pub max_line : ℕ
max_line = 1048576

abbrev pub fits : Text → Bool
fits line = ltb (byte_length line) max_line

-- The lines in front of the first one that does not fit, and whether there is such a one.
unfoldable pub within : List Text → List Text × Bool
within [] = ([], false)
within (line ∷ lines) =
    let (rest, too_long) = within lines in if fits line then (line ∷ rest, too_long) else ([], true)

-- bufio.Scanner: the lines that it gives, and whether it ends by ErrTooLong
unfoldable pub scan : Text → List Text × Bool
unfolding drop_cr drop_open within
scan out =
    let (lines, too_long) = within (drop_open (Text.split newline out)) in
    (map drop_cr lines, too_long)

-- What comes behind lines that fit does not matter for them.
pub within-append :
    (xs : List Text) (y : Text) (ys : List Text)
    → All (λ t. fits t ≡ true) xs
    → fits y ≡ true
    → (rest : List Text) × ((within (xs ++ (y ∷ ys))).0 ≡ xs ++ (y ∷ rest))
unfolding within
within-append [] y ys h e = ((within ys).0, rw e refl)
within-append (x ∷ xs) y ys h e =
    let (rest, same) = within-append xs y ys h.1 e in
    (rest, rw h.0 (ap (λ (l : List Text). x ∷ l) same))

abbrev pub joined_lines : List Text → Text
joined_lines [] = []
joined_lines (line ∷ lines) = line ++ joined_lines lines

-- A text with a newline at its end, if there is any text.
unfoldable pub completed : Text → Text
completed [] = []
completed (c ∷ []) = if c == newline then c ∷ [] else c ∷ newline ∷ []
completed (c ∷ d ∷ s) = c ∷ completed (d ∷ s)

-- Only the last of the parts may be open.
pub drop_open_inner :
    (xs : List Text) (y z : Text) (zs : List Text)
    → drop_open (xs ++ (y ∷ z ∷ zs)) ≡ xs ++ (y ∷ drop_open (z ∷ zs))
unfolding drop_open
drop_open_inner [] [] z zs = refl
drop_open_inner [] (c ∷ y) z zs = refl
drop_open_inner ([] ∷ []) y z zs = ap (◌∷◌ []) (drop_open_inner [] y z zs)
drop_open_inner ((c ∷ x) ∷ []) y z zs = ap (◌∷◌ (c ∷ x)) (drop_open_inner [] y z zs)
drop_open_inner ([] ∷ x' ∷ xs) y z zs = ap (◌∷◌ []) (drop_open_inner (x' ∷ xs) y z zs)
drop_open_inner ((c ∷ x) ∷ x' ∷ xs) y z zs = ap (◌∷◌ (c ∷ x)) (drop_open_inner (x' ∷ xs) y z zs)

completed_filled :
    (c : ℕ) (s p : Text) (ps : List Text)
    → Text.split newline s ≡ p ∷ ps
    → joined_lines (map ended (own_lines (p ∷ ps))) ≡ completed s
    → (c == newline) ≡ false
    → joined_lines (map ended (own_lines ((c ∷ p) ∷ ps))) ≡ completed (c ∷ s)
unfolding completed Text.split
completed_filled c [] [] [] e ih inner = rw inner refl
completed_filled c [] (x ∷ p) ps e ih inner = cc
completed_filled c [] [] (q ∷ qs) e ih inner = cc
completed_filled c (d ∷ []) [] [] e ih inner = ground arith
completed_filled c (d ∷ d' ∷ s) [] [] e ih inner = cc
completed_filled c (d ∷ s) (x ∷ p) [] e ih inner = ap (◌∷◌ c) ih
completed_filled c (d ∷ s) [] (q ∷ qs) e ih inner = ap (◌∷◌ c) ih
completed_filled c (d ∷ s) (x ∷ p) (q ∷ qs) e ih inner = ap (◌∷◌ c) ih

own_lines_blank : (p : Text) (ps : List Text) → own_lines ([] ∷ p ∷ ps) ≡ [] ∷ own_lines (p ∷ ps)
own_lines_blank p ps = refl

completed-newline : (s : Text) → completed (newline ∷ s) ≡ newline ∷ completed s
unfolding completed
completed-newline [] = refl
completed-newline (c ∷ s) = refl

completed_empty : joined_lines (map ended (own_lines (Text.split newline []))) ≡ completed []
unfolding completed Text.split
completed_empty = refl

-- The lines of the command, each with its newline, are its text with a newline at its end.
pub own_lines-completed :
    (out : Text) → joined_lines (map ended (own_lines (Text.split newline out))) ≡ completed out
own_lines-completed [] = completed_empty
own_lines-completed (c ∷ s) = elim (Bool-cases (c == newline)) [
  | inl cut ↦
      let (p, ps, e) = split_some newline s in
      let same : c ≡ newline = ground arith in
      rw (split_cut newline c s cut, e)
        (rw same (rw (completed-newline s) (ap (◌∷◌ newline) (rw e at (own_lines-completed s)))))
  | inr inner ↦
      let (p, ps, e) = split_some newline s in
      rw (split_inner newline c s p ps inner e)
        (completed_filled c s p ps e (rw e at (own_lines-completed s)) inner)
]
