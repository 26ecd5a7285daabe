-- ===== src/Broker/Stacklist.antt =====
-- broker/stacklist/stacklist.go: comma-separated lists of stack names, and the circular order in
-- which a stack falls back on the others.
pub mod Names
pub mod Circuit
use hackathon.Common.{
  ℕ, zero, suc, ◌+◌, Bool, true, false, not, Option, none, some, List, [], ◌∷◌, ◌++◌, if◌then◌else◌,
  refl, ◌≡◌,
}
use hackathon.Text
use hackathon.Text.{Text, text_eq, is_empty, trim_space, codes}

abbrev pub comma : ℕ
comma = b','

-- the loop of Split over the parts
collect : List Text → List Text
collect [] = []
collect (s ∷ parts) =
    let stack = trim_space s in
    let stacks = collect parts in if is_empty stack then stacks else stack ∷ stacks

unfoldable pub split : Text → List Text
unfolding collect
split raw = collect (Text.split comma raw)

-- the loop that looks for self; `i` is the index of the first stack left
pivot_from : Text → List Text → ℕ → Option ℕ
pivot_from self [] i = none
pivot_from self (s ∷ all) i =
    let next = pivot_from self all (i + 1) in if text_eq s self then some i else next

-- all[i:]
drop : ℕ → List Text → List Text
drop zero all = all
drop (suc n) [] = []
drop (suc n) (s ∷ all) = drop n all

-- all[:i]
take : ℕ → List Text → List Text
take zero all = []
take (suc n) [] = []
take (suc n) (s ∷ all) = s ∷ take n all

-- the loop over the stacks behind the pivot
others : Text → List Text → List Text
others self [] = []
others self (s ∷ all) = let rest = others self all in if text_eq s self then rest else s ∷ rest

circuit : Text → List Text → Option ℕ → List Text × Bool
circuit self all none = (all, false)
circuit self all (some pivot) = (others self (drop (suc pivot) all) ++ take pivot all, true)

unfoldable pub parse : Text → Text → List Text × Bool
unfolding pivot_from drop take others circuit
parse raw self = let all = split raw in circuit self all (pivot_from self all 0)

parse_runs : parse (codes "a, b,,c ,d") (codes "b") ≡ (codes "c" ∷ codes "d" ∷ codes "a" ∷ [], true)
unfolding parse split Text.split trim_space text_eq
parse_runs = refl
