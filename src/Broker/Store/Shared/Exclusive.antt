-- ===== src/Broker/Store/Shared/Exclusive.antt =====
-- broker/store/dynamo.go: the claims of several brokers to one runner.
use hackathon.Common.{ℕ, ◌≡◌, refl, sym, ◌∙◌, subst, ◌⊎◌, inl, inr, true, none, some, List, [], ◌∷◌}
use hackathon.Text.{Text, text_eq}
use hackathon.Text.Laws.{text_eq_refl}
use hackathon.Broker.Model.{Runner, state_busy}
use hackathon.Broker.Outcome.{Outcome, ok}
use hackathon.Broker.Store.{DynamoRepository, StoreError}
use hackathon.Broker.Store.Table.{find_row, idle_row, assign_row}
use hackathon.Broker.Store.Acquire.{Assigns}
use hackathon.Broker.Store.Operations.{acquire_idle}
use hackathon.Broker.Store.Table.{find-assign_self, find_row_id}
use hackathon.Common.{Option-cases}
use hackathon.Broker.Store.Changes.{Holds, Change-Holds, other_id}
use hackathon.Broker.Store.Shared.{Steps, Claims, AcquireShared, Shared}
use hackathon.Broker.Store.Shared.Acquire.{acquire_idle-AcquireShared}

-- One of the tables has no row of the id.
abbrev pub Gone : Text → List (List Runner) → Type 0
Gone id [] = ⊥
Gone id (table ∷ tables) = (find_row id table ≡ none) ⊎ Gone id tables

pub Steps-Holds :
    (x : Runner) (before : List Runner) (tables : List (List Runner)) (after : List Runner)
    → Steps before tables after
    → Holds x before
    → Holds x after ⊎ Gone x.runner_id tables
Steps-Holds x before [] after e h = inl (rw e h)
Steps-Holds x before (table ∷ tables) after (first, rest) h = elim (Change-Holds x first h) [
  | inr gone ↦ inr (inl gone)
  | inl kept ↦ elim (Steps-Holds x table tables after rest kept) [
    | inl still ↦ inl still
    | inr gone ↦ inr (inr gone)
  ]
]

idle_found :
    (id : Text) (rows : List Runner)
    → idle_row id rows ≡ true
    → (y : Runner) × (find_row id rows ≡ some y)
unfolding idle_row
idle_found id rows h = elim (Option-cases (find_row id rows)) [
  | inl missing ↦ absurd (cc (rw missing at h))
  | inr (y, found) ↦ (y, found)
]

-- The row that an assignment leaves.
pub claimed :
    (session_id : Text) (before after : List Runner) (x : Runner)
    → Assigns session_id before after x
    → (y : Runner) × (y.runner_id ≡ x.runner_id)
      × (y.current_session_id ≡ session_id)
      × Holds y after
claimed session_id before after x a =
    let (y, found) = idle_found x.runner_id before a.was_idle in
    let same = find_row_id x.runner_id before y found in
    (
      record y { state = state_busy; current_session_id = session_id },
      same,
      refl,
      record {
        present = rw a.one_row (
            subst
              (λ (id : Text).
                find_row id (assign_row x.runner_id session_id before)
                ≡ some (record y { state = state_busy; current_session_id = session_id }))
              (sym same) (find-assign_self x.runner_id session_id before y found));
        busy = refl;
      },
    )

no_claim :
    (x y : Runner) (session_id : Text) (before after : List Runner)
    → Holds x before
    → Assigns session_id before after y
    → y.runner_id ≡ x.runner_id
    → ⊥
no_claim x y session_id before after h a same =
    let hit : text_eq y.runner_id x.runner_id ≡ true = rw same (text_eq_refl x.runner_id) in
    absurd (cc (other_id x y.runner_id before h a.was_idle, hit))

module _ (r : DynamoRepository) (d : Shared r) where
  open r use {World}
  open d use {rows}

  claim_of :
      (fuel : ℕ) (session_id : Text) (w w' : World) (x : Runner)
      → acquire_idle r fuel session_id w ≡ (ok x, w')
      → Claims session_id (rows w) (rows w') x
  claim_of fuel session_id w w' x e =
      subst
        (λ (final : Outcome StoreError Runner × World).
          AcquireShared session_id (rows w) (rows final.1) final.0)
        e (acquire_idle-AcquireShared r d fuel session_id w)

  -- If AcquireIdle has returned a runner to one broker, and later any broker assigns the row of the
  -- same runner, to the same session or to another, then the row was removed in between, however the
  -- requests of the brokers interleave.
  pub acquire_idle-Gone :
      (fuel : ℕ) (session_id other_session : Text) (w w' : World) (x y : Runner)
      (between : List (List Runner)) (moment after : List Runner)
      → acquire_idle r fuel session_id w ≡ (ok x, w')
      → Steps (rows w') between moment
      → Assigns other_session moment after y
      → y.runner_id ≡ x.runner_id
      → Gone x.runner_id between
  acquire_idle-Gone fuel session_id other_session w w' x y between moment after e steps again same =
      let (start, reach, a) = claim_of fuel session_id w w' x e in
      let (z, named, session, held) = claimed session_id start (rows w') x a in
      elim (Steps-Holds z (rows w') between moment steps held) [
        | inr gone ↦ rw (← named) gone
        | inl still ↦
            absurd (no_claim z y other_session moment after still again (same ∙ sym named))
      ]
