-- ===== src/Broker/Store/Current/Exact.antt =====
-- AcquireIdle over an index in step with the table.
use hackathon.Common.{
  ℕ, ◌<◌, ◌≡◌, ◌≢◌, refl, sym, subst, inl, inr, true, none, some, List, [], ◌∷◌, ◌++◌,
  All-append_left, All-append_right, Bool-cases, Option-cases, In,
}
use hackathon.Text.{Text}
use hackathon.Broker.Model.{Runner, state_idle, is_idle}
use hackathon.Broker.Outcome.{Outcome, ok, err, out_of_fuel, next}
use hackathon.Broker.Store.{
  DynamoRepository, state_after, state_up_to, StoreError, no_idle_runner, seg_first, Assigned,
  none_left, assigned,
}
use hackathon.Broker.Store.Table.{find_row, idle_row, find_row_id}
use hackathon.Broker.Store.Documented.{Documented}
use hackathon.Broker.Store.Operations.{or_exhausted, acquire_from, acquire_idle}
use hackathon.Broker.Store.Acquire.{AcquireEffect, acquire_idle-AcquireEffect}
use hackathon.Broker.Store.Current.{IsIn, Indexed, NotIdle, NoneIdle, Exact}
use hackathon.Broker.Store.Current.Scanning.{Searched, scan_lem, second_lem}

module _ (r : DynamoRepository) (d : Documented r) (i : Indexed r d) where
  open r use {World}
  open d use {rows, rand_law, most}
  open i use {behind, later, after_law, up_to_law}

  element-NotIdle :
      (table list : List Runner) (x : Runner)
      → NoneIdle table list
      → In x list
      → NotIdle table x.runner_id
  element-NotIdle table [] x n h = elim h [ ]
  element-NotIdle table (y ∷ list) x n (inl same) =
      subst (λ (z : Runner). NotIdle table z.runner_id) same n.0
  element-NotIdle table (y ∷ list) x n (inr more) = element-NotIdle table list x n.1 more

  covered :
      (table : List Runner) (start : Text) (y : Runner)
      → IsIn table y
      → is_idle y ≡ true
      → NoneIdle table (
          behind (state_after state_idle start) none table
          ++ behind (state_up_to state_idle start) none table)
      → NotIdle table y.runner_id
  covered table start y there idle n = elim (Bool-cases (later start y.runner_id)) [
    | inl above ↦
        element-NotIdle table _ y (All-append_left (λ x. NotIdle table x.runner_id) _ _ n)
          (after_law start y table there idle above)
    | inr below ↦
        element-NotIdle table _ y
          (All-append_right (λ x. NotIdle table x.runner_id)
            (behind (state_after state_idle start) none table) _ n)
          (up_to_law start y table there idle below)
  ]

  nobody :
      (table : List Runner) (start id : Text)
      → NoneIdle table (
          behind (state_after state_idle start) none table
          ++ behind (state_up_to state_idle start) none table)
      → NotIdle table id
  unfolding idle_row
  nobody table start id n = elim (Option-cases (find_row id table)) [
    | inl missing ↦ rw missing refl
    | inr (y, found) ↦ by_state y found
  ]
    where
      by_state : (y : Runner) → find_row id table ≡ some y → NotIdle table id
      by_state y found = elim (Bool-cases (is_idle y)) [
        | inr busy ↦ rw found busy
        | inl idle ↦
            let same = find_row_id id table y found in
            subst (NotIdle table) same (
              covered table start y
                (subst (λ (t : Text). find_row t table ≡ some y) (sym same) found) idle n)
      ]

  exhausted_lem :
      (table : List Runner) (start : Text) (o : Outcome StoreError Assigned × World)
      → Searched rows table
          (behind (state_after state_idle start) none table
            ++ behind (state_up_to state_idle start) none table)
          o
      → (next o (or_exhausted r)).0 ≢ out_of_fuel
      → Exact table (next o (or_exhausted r)).0
  exhausted_lem table start (ok (assigned x), w) h ends = h
  exhausted_lem table start (ok (none_left tried), w) h ends = λ id. nobody table start id h.2
  exhausted_lem table start (err no_idle_runner, w) h ends = absurd h
  exhausted_lem table start (err _, w) h ends = tt
  exhausted_lem table start (out_of_fuel, w) h ends = ends refl

  ended :
      (session_id : Text) (before after : List Runner) (out : Outcome StoreError Runner)
      → AcquireEffect session_id before after out
      → out ≢ out_of_fuel
  ended session_id before after (ok x) h = cc
  ended session_id before after (err e) h = cc
  ended session_id before after out_of_fuel h = absurd h

  -- If the index shows the table as it is, AcquireIdle decides whether there is an idle runner: with
  -- more fuel than the pages of a segment it returns; a runner that it returns had an idle row, of the
  -- same id and host; and if it says that no runner is idle, then no row of the table is, wherever the
  -- scan started.
  pub acquire_idle-Exact :
      (fuel : ℕ) (session_id : Text) (w : World)
      → most < fuel
      → Exact (rows w) (acquire_idle r fuel session_id w).0
  unfolding acquire_idle acquire_from
  acquire_idle-Exact fuel session_id w lt =
      let (start, w1) = r.rand_hex_fn w in
      exhausted_lem (rows w) start _
        (second_lem r d i fuel session_id start (rows w) _ _
          (scan_lem r d i fuel session_id start seg_first none [] w1 (rows w) (rand_law w) tt))
        (ended session_id (rows w) _ _ (acquire_idle-AcquireEffect r d fuel session_id w lt))
