-- ===== src/Broker/Store/Table.antt =====
-- The rows of the table, as what its documented operations do to them.
use hackathon.Common.{
  ℕ, suc, ◌≤◌, ◌<◌, ◌≡◌, refl, Bool, true, false, Option, none, some, List, [], ◌∷◌, if◌then◌else◌,
  arith, Bool-cases, inl, inr,
}
use hackathon.Text.{Text, text_eq}
use hackathon.Text.Laws.{text_eq_sound}
use hackathon.Broker.Model.{Runner, is_idle, state_busy}

unfoldable pub find_row : Text → List Runner → Option Runner
find_row id [] = none
find_row id (x ∷ rows) =
    let rest = find_row id rows in if text_eq x.runner_id id then some x else rest

-- The row is there and idle: the condition of UpdateItem.
abbrev idle_option : Option Runner → Bool
idle_option none = false
idle_option (some x) = is_idle x

unfoldable pub idle_row : Text → List Runner → Bool
unfolding find_row
idle_row id rows = idle_option (find_row id rows)

unfoldable pub assign_row : Text → Text → List Runner → List Runner
assign_row id session_id [] = []
assign_row id session_id (x ∷ rows) =
    let rest = assign_row id session_id rows in
    if text_eq x.runner_id id
    then record x { state = state_busy; current_session_id = session_id } ∷ rest
    else x ∷ rest

unfoldable pub remove_row : Text → List Runner → List Runner
remove_row id [] = []
remove_row id (x ∷ rows) =
    let rest = remove_row id rows in if text_eq x.runner_id id then rest else x ∷ rest

unfoldable pub count_idle : List Runner → ℕ
count_idle [] = 0
count_idle (x ∷ rows) = let n = count_idle rows in if is_idle x then suc n else n

pub find-remove_self : (id : Text) (rows : List Runner) → find_row id (remove_row id rows) ≡ none
unfolding find_row remove_row
find-remove_self id [] = refl
find-remove_self id (x ∷ rows) = ground (arith, find-remove_self id rows)

pub find-remove_ne :
    (id other : Text) (rows : List Runner)
    → text_eq id other ≡ false
    → find_row other (remove_row id rows) ≡ find_row other rows
unfolding find_row remove_row
find-remove_ne id other [] h = refl
find-remove_ne id other (x ∷ rows) h =
    ground (arith, find-remove_ne id other rows h, text_eq_sound x.runner_id id)

pub find-assign_ne :
    (id other session_id : Text) (rows : List Runner)
    → text_eq id other ≡ false
    → find_row other (assign_row id session_id rows) ≡ find_row other rows
unfolding find_row assign_row
find-assign_ne id other session_id [] h = refl
find-assign_ne id other session_id (x ∷ rows) h =
    ground (arith, find-assign_ne id other session_id rows h, text_eq_sound x.runner_id id)

pub find-assign_self :
    (id session_id : Text) (rows : List Runner) (x : Runner)
    → find_row id rows ≡ some x
    → find_row id (assign_row id session_id rows)
      ≡ some (record x { state = state_busy; current_session_id = session_id })
unfolding find_row assign_row
find-assign_self id session_id [] x h = cc
find-assign_self id session_id (y ∷ rows) x h =
    ground (arith, find-assign_self id session_id rows x)

pub find_row_id :
    (id : Text) (rows : List Runner) (x : Runner) → find_row id rows ≡ some x → x.runner_id ≡ id
unfolding find_row
find_row_id id [] x h = cc
find_row_id id (y ∷ rows) x h = ground (arith, find_row_id id rows x, text_eq_sound y.runner_id id)

pub count_idle-remove :
    (id : Text) (rows : List Runner) → count_idle (remove_row id rows) ≤ count_idle rows
unfolding count_idle remove_row
count_idle-remove id [] = omega arith
count_idle-remove id (x ∷ rows) = ground (arith, count_idle-remove id rows)

count_idle-assign_le :
    (id session_id : Text) (rows : List Runner)
    → count_idle (assign_row id session_id rows) ≤ count_idle rows
unfolding count_idle assign_row text_eq
count_idle-assign_le id session_id [] = omega arith
count_idle-assign_le id session_id (x ∷ rows) =
    ground (arith, count_idle-assign_le id session_id rows)

-- Assigning an idle row leaves one idle row less, at least.
pub count_idle-assign :
    (id session_id : Text) (rows : List Runner)
    → idle_row id rows ≡ true
    → count_idle (assign_row id session_id rows) < count_idle rows
unfolding idle_row count_idle assign_row text_eq
count_idle-assign id session_id [] h = cc
count_idle-assign id session_id (x ∷ rows) h =
    ground (arith, count_idle-assign id session_id rows, count_idle-assign_le id session_id rows)

pub find_assign_none :
    (id other session_id : Text) (rows : List Runner)
    → find_row other rows ≡ none
    → find_row other (assign_row id session_id rows) ≡ none
unfolding find_row assign_row
find_assign_none id other session_id [] h = refl
find_assign_none id other session_id (x ∷ rows) h =
    ground (arith, find_assign_none id other session_id rows)

pub find_remove_none :
    (id other : Text) (rows : List Runner)
    → find_row other rows ≡ none
    → find_row other (remove_row id rows) ≡ none
unfolding find_row remove_row
find_remove_none id other [] h = refl
find_remove_none id other (x ∷ rows) h = ground (arith, find_remove_none id other rows)

-- A new row does not hide the row of another id.
pub find_row_cons :
    (x y : Runner) (rows : List Runner)
    → find_row y.runner_id rows ≡ none
    → find_row x.runner_id rows ≡ some x
    → find_row x.runner_id (y ∷ rows) ≡ some x
unfolding find_row
find_row_cons x y rows absent present = elim (Bool-cases (text_eq y.runner_id x.runner_id)) [
  | inr differs ↦ rw differs present
  | inl equal ↦ cc (absent, present, text_eq_sound y.runner_id x.runner_id equal)
]

-- Assigning a row and removing it is removing it.
pub remove-assign :
    (id session_id : Text) (rows : List Runner)
    → remove_row id (assign_row id session_id rows) ≡ remove_row id rows
unfolding remove_row assign_row
remove-assign id session_id [] = refl
remove-assign id session_id (x ∷ rows) = ground (arith, remove-assign id session_id rows)
