-- ===== src/Broker/Store/Changes.antt =====
-- The transitions of the table, and what each of them keeps.
use hackathon.Common.{◌≡◌, refl, ◌⊎◌, inl, inr, true, false, none, some, List, [], ◌∷◌, Bool-cases}
use hackathon.Text.{Text, text_eq, is_empty}
use hackathon.Text.Laws.{text_eq_sound}
use hackathon.Broker.Model.{Runner, state_idle, state_busy, is_idle}
use hackathon.Broker.Store.{is_runner_id}
use hackathon.Broker.Store.Table.{
  find_row, idle_row, assign_row, remove_row, find-remove_self, find-remove_ne, find-assign_ne,
  find_assign_none, find_remove_none, find_row_cons,
}

-- The transitions of the table that the repository makes.
pub data Change (before after : List Runner) : Type 0 where
  same : after ≡ before → Change before after
  added :
      (x : Runner)
      → is_runner_id x.runner_id ≡ true
      → is_empty x.private_host ≡ false
      → x.state ≡ state_idle
      → x.current_session_id ≡ []
      → find_row x.runner_id before ≡ none
      → after ≡ x ∷ before
      → Change before after
  assigned :
      (id session_id : Text)
      → idle_row id before ≡ true
      → after ≡ assign_row id session_id before
      → Change before after
  removed : (id : Text) → after ≡ remove_row id before → Change before after

-- A row that the code can have written.
pub record IsRow (x : Runner) : Type 0 where
  pub named : is_runner_id x.runner_id ≡ true
  pub hosted : is_empty x.private_host ≡ false
  pub phase : ((x.state ≡ state_idle) × (x.current_session_id ≡ [])) ⊎ (x.state ≡ state_busy)

-- The ids are distinct, and each row is one that the code can have written.
abbrev pub IsTable : List Runner → Type 0
IsTable [] = Unit
IsTable (x ∷ rows) = IsRow x × (find_row x.runner_id rows ≡ none) × IsTable rows

assign-IsTable :
    (id session_id : Text) (rows : List Runner)
    → IsTable rows
    → IsTable (assign_row id session_id rows)
unfolding assign_row
assign-IsTable id session_id [] h = h
assign-IsTable id session_id (x ∷ rows) h = elim (Bool-cases (text_eq x.runner_id id)) [
  | inl hit ↦ rw hit (
    record { named = h.0.named; hosted = h.0.hosted; phase = inr refl },
    find_assign_none id x.runner_id session_id rows h.1,
    assign-IsTable id session_id rows h.2,
  )
  | inr miss ↦ rw miss (
    h.0,
    find_assign_none id x.runner_id session_id rows h.1,
    assign-IsTable id session_id rows h.2,
  )
]

remove-IsTable : (id : Text) (rows : List Runner) → IsTable rows → IsTable (remove_row id rows)
unfolding remove_row
remove-IsTable id [] h = h
remove-IsTable id (x ∷ rows) h = elim (Bool-cases (text_eq x.runner_id id)) [
  | inl hit ↦ rw hit (remove-IsTable id rows h.2)
  | inr miss ↦ rw miss (h.0, find_remove_none id x.runner_id rows h.1, remove-IsTable id rows h.2)
]

pub Change-IsTable :
    {before after : List Runner} → Change before after → IsTable before → IsTable after
Change-IsTable (same e) h = rw e h
Change-IsTable (added x v f idle fresh absent e) h =
    rw e (record { named = v; hosted = f; phase = inl (idle, fresh) }, absent, h)
Change-IsTable {before} (assigned id session_id idle e) h =
    rw e (assign-IsTable id session_id before h)
Change-IsTable {before} (removed id e) h = rw e (remove-IsTable id before h)

-- The runner is busy, and its row is the given one.
pub record Holds (x : Runner) (rows : List Runner) : Type 0 where
  pub present : find_row x.runner_id rows ≡ some x
  pub busy : x.state ≡ state_busy

busy_not_idle : (x : Runner) → x.state ≡ state_busy → is_idle x ≡ false
unfolding text_eq
busy_not_idle x e = rw e refl

pub other_id :
    (x : Runner) (id : Text) (rows : List Runner)
    → Holds x rows
    → idle_row id rows ≡ true
    → text_eq id x.runner_id ≡ false
unfolding idle_row
other_id x id rows h idle = elim (Bool-cases (text_eq id x.runner_id)) [
  | inr differs ↦ differs
  | inl equal ↦ cc (idle, text_eq_sound id x.runner_id equal, h.present, busy_not_idle x h.busy)
]

-- A transition leaves a busy row alone, or removes it.
pub Change-Holds :
    (x : Runner) {before after : List Runner}
    → Change before after
    → Holds x before
    → Holds x after ⊎ (find_row x.runner_id after ≡ none)
Change-Holds x (same e) h = inl (rw e h)
Change-Holds x {before} (added y v f idle fresh absent e) h =
    inl (record { present = rw e (find_row_cons x y before absent h.present); busy = h.busy })
Change-Holds x {before} (assigned id session_id idle e) h = inl (record {
  present =
      rw (e, find-assign_ne id x.runner_id session_id before (other_id x id before h idle))
        h.present;
  busy = h.busy;
})
Change-Holds x {before} (removed id e) h = elim (Bool-cases (text_eq id x.runner_id)) [
  | inl equal ↦
      inr (rw (e, text_eq_sound id x.runner_id equal) (find-remove_self x.runner_id before))
  | inr differs ↦ inl (record {
    present = rw (e, find-remove_ne id x.runner_id before differs) h.present;
    busy = h.busy;
  })
]
