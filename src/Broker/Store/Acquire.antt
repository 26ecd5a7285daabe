-- ===== src/Broker/Store/Acquire.antt =====
-- AcquireIdle against the table: who gets which runner, and that the scan ends.
use mathlib.Core.Option.{some-injective}
use hackathon.Common.{
  subst, ℕ, zero, suc, ◌<◌, ◌≡◌, ◌≢◌, refl, ◌⊎◌, inl, inr, true, Option, none, some, List, [], ◌∷◌,
  arith, Bool-cases,
}
use hackathon.Text.{Text}
use hackathon.Broker.Model.{Runner, state_busy}
use hackathon.Broker.Outcome.{Outcome, ok, err, out_of_fuel, next}
use hackathon.Broker.Store.{
  DynamoRepository, Response, done, conditional_check_failed, failed, StoreError, no_idle_runner,
  condition_failed, update_failed, settle, Segment, seg_first, seg_second, mem_text, Assigned,
  none_left, assigned,
}
use hackathon.Broker.Store.Table.{idle_row, assign_row}
use hackathon.Broker.Store.Documented.{Documented, AssignEffect, start_rank}
use hackathon.Broker.Store.Pages.{PageRead, query_page_at}
use hackathon.Broker.Store.Operations.{
  assign_session, assign_first, after_assign, after_page, scan_segment, query_idle_page,
  or_exhausted, then_second, acquire_from, acquire_idle,
}

-- The row of the runner was idle, and is the one row that changed: it is busy with the session.
pub record Assigns (session_id : Text) (before after : List Runner) (x : Runner) : Type 0 where
  pub was_idle : idle_row x.runner_id before ≡ true
  pub one_row : after ≡ assign_row x.runner_id session_id before
  pub is_busy : x.state ≡ state_busy
  pub has_session : x.current_session_id ≡ session_id

-- Nothing changed, or one idle row was assigned.
abbrev pub AtMostOne : Text → List Runner → List Runner → Type 0
AtMostOne session_id before after =
    (after ≡ before)
    ⊎ ((id : Text) × (idle_row id before ≡ true) × (after ≡ assign_row id session_id before))

abbrev ScanEffect : Text → List Runner → List Runner → Outcome StoreError Assigned → Type 0
ScanEffect session_id before after (ok (assigned x)) = Assigns session_id before after x
ScanEffect session_id before after (ok (none_left tried)) = after ≡ before
ScanEffect session_id before after (err e) =
    (e ≢ no_idle_runner) × AtMostOne session_id before after
ScanEffect session_id before after out_of_fuel = ⊥

abbrev pub AcquireEffect : Text → List Runner → List Runner → Outcome StoreError Runner → Type 0
AcquireEffect session_id before after (ok x) = Assigns session_id before after x
AcquireEffect session_id before after (err e) =
    (e ≡ no_idle_runner → after ≡ before) × AtMostOne session_id before after
AcquireEffect session_id before after out_of_fuel = ⊥

module _ (r : DynamoRepository) (d : Documented r) where
  open r use {World, Item, Key}
  open d use {rows, rank, most, assign_law, query_law, rand_law}

  abbrev Scanned : Text → List Runner → Outcome StoreError Assigned × World → Type 0
  Scanned session_id before (out, w) = ScanEffect session_id before (rows w) out

  after_assign_lem :
      (x : Runner) (session_id : Text) (tried : List Text) (before : List Runner)
      (go_on : List Text → World → Outcome StoreError Assigned × World)
      (reply : Response (Unit {0}) × World)
      → AssignEffect x.runner_id session_id before (rows reply.1) reply.0
      → ((tried' : List Text) (w : World)
          → rows w ≡ before
          → Scanned session_id before (go_on tried' w))
      → Scanned session_id before
          (after_assign r x session_id tried go_on (settle condition_failed update_failed reply))
  after_assign_lem x session_id tried before go_on (done _, w) h more = record {
    was_idle = h.0;
    one_row = h.1;
    is_busy = refl;
    has_session = refl;
  }
  after_assign_lem x session_id tried before go_on (conditional_check_failed, w) h more =
      more (x.runner_id ∷ tried) w h.1
  after_assign_lem x session_id tried before go_on (failed, w) (inl same) more = (cc, inl same)
  after_assign_lem x session_id tried before go_on (failed, w) (inr wrote) more =
      (cc, inr (x.runner_id, wrote.0, wrote.1))

  assign_first_lem :
      (session_id : Text) (candidates : List Runner) (tried : List Text) (w : World)
      (before : List Runner)
      → rows w ≡ before
      → Scanned session_id before (assign_first r session_id candidates tried w)
  unfolding assign_first assign_session
  assign_first_lem session_id [] tried w before e = e
  assign_first_lem session_id (x ∷ candidates) tried w before e =
      elim (Bool-cases (mem_text x.runner_id tried)) [
        | inl old ↦ rw (old, assign_first) (assign_first_lem session_id candidates tried w before e)
        | inr new ↦
            rw (new, assign_first)
              (after_assign_lem x session_id tried before _ _
                (rw (← e) (assign_law x.runner_id session_id w))
                (λ tried' w' e'. assign_first_lem session_id candidates tried' w' before e'))
      ]

  after_page_lem :
      (session_id : Text) (before : List Runner) (last : Option Key)
      (go_on : Option Key → List Text → World → Outcome StoreError Assigned × World)
      (out : Outcome StoreError Assigned) (w : World)
      → ScanEffect session_id before (rows w) out
      → ((k : Key) (tried : List Text) (w' : World)
          → last ≡ some k
          → rows w' ≡ before
          → Scanned session_id before (go_on (some k) tried w'))
      → Scanned session_id before (next (out, w) (after_page r last go_on))
  after_page_lem session_id before last go_on (err e) w h more = h
  after_page_lem session_id before last go_on out_of_fuel w h more = h
  after_page_lem session_id before last go_on (ok (assigned x)) w h more = h
  after_page_lem session_id before none go_on (ok (none_left tried)) w h more = h
  after_page_lem session_id before (some k) go_on (ok (none_left tried)) w h more =
      more k tried w refl h

  -- One round of the loop over the pages, whatever the page was.
  round_lem :
      (session_id : Text) (before : List Runner) (n : ℕ)
      (go_on : Option Key → List Text → World → Outcome StoreError Assigned × World)
      (tried : List Text) (page : Outcome StoreError (List Runner × Option Key) × World)
      → PageRead r d n before page
      → ((k : Key) (tried' : List Text) (w : World)
          → rank k < n
          → rows w ≡ before
          → Scanned session_id before (go_on (some k) tried' w))
      → Scanned session_id before (
          next page λ read w1.
            next (assign_first r session_id (read.0) tried w1) (after_page r (read.1) go_on))
  round_lem session_id before n go_on tried (err e, w) h more = (h.0, inl h.1)
  round_lem session_id before n go_on tried (out_of_fuel, w) h more = elim h [ ]
  round_lem session_id before n go_on tried (ok (page, none), w) h more =
      after_page_lem session_id before none go_on (assign_first r session_id page tried w).0 _
        (assign_first_lem session_id page tried w before h) (λ k tried' w' e e'. cc)
  round_lem session_id before n go_on tried (ok (page, some k), w) h more =
      after_page_lem session_id before (some k) go_on (assign_first r session_id page tried w).0 _
        (assign_first_lem session_id page tried w before h.0)
        (λ k' tried' w' e e'.
          more k' tried' w' (subst (λ (x : Key). rank x < n) (some-injective k k' e) h.1) e')

  scan_lem :
      (fuel : ℕ) (session_id start : Text) (cond : Segment) (excl : Option Key) (tried : List Text)
      (w : World) (before : List Runner)
      → start_rank rank most excl < fuel
      → rows w ≡ before
      → Scanned session_id before (scan_segment r fuel session_id start cond excl tried w)
  unfolding scan_segment query_idle_page
  scan_lem zero session_id start cond excl tried w before lt e = elim lt [ ]
  scan_lem (suc fuel) session_id start cond excl tried w before lt e =
      round_lem session_id before (start_rank rank most excl) _ tried _
        (query_page_at r d _ w before e)
        (λ k tried' w' lt' e'.
          scan_lem fuel session_id start cond (some k) tried' w' before (omega arith) e')

  second_lem :
      (fuel : ℕ) (session_id start : Text) (before : List Runner)
      (out : Outcome StoreError Assigned) (w : World)
      → most < fuel
      → ScanEffect session_id before (rows w) out
      → Scanned session_id before (next (out, w) (then_second r fuel session_id start))
  second_lem fuel session_id start before (err e) w lt h = h
  second_lem fuel session_id start before out_of_fuel w lt h = h
  second_lem fuel session_id start before (ok (assigned x)) w lt h = h
  second_lem fuel session_id start before (ok (none_left tried)) w lt h =
      scan_lem fuel session_id start seg_second none tried w before lt h

  exhausted_lem :
      (session_id : Text) (before : List Runner) (out : Outcome StoreError Assigned) (w : World)
      → ScanEffect session_id before (rows w) out
      → let final = next (out, w) (or_exhausted r) in
        AcquireEffect session_id before (rows final.1) final.0
  exhausted_lem session_id before (err e) w h = (λ same. absurd (h.0 same), h.1)
  exhausted_lem session_id before out_of_fuel w h = h
  exhausted_lem session_id before (ok (assigned x)) w h = h
  exhausted_lem session_id before (ok (none_left tried)) w h = (λ same. h, inl h)

  acquire_from_lem :
      (fuel : ℕ) (session_id start : Text) (w : World) (before : List Runner)
      → most < fuel
      → rows w ≡ before
      → let final = acquire_from r fuel session_id start w in
        AcquireEffect session_id before (rows final.1) final.0
  unfolding acquire_from
  acquire_from_lem fuel session_id start w before lt e =
      let first = scan_segment r fuel session_id start seg_first none [] w in
      let both = next first (then_second r fuel session_id start) in
      exhausted_lem session_id before both.0 both.1 (
        second_lem fuel session_id start before first.0 first.1 lt
          (scan_lem fuel session_id start seg_first none [] w before lt e))

  -- With more fuel than the pages of a segment, AcquireIdle returns. If it returns a runner, the
  -- runner's row was idle, it is now busy with the session, and no other row changed. If it says
  -- that no runner is idle, no row changed. Under any other error at most one idle row was assigned.
  pub acquire_idle-AcquireEffect :
      (fuel : ℕ) (session_id : Text) (w : World)
      → most < fuel
      → let final = acquire_idle r fuel session_id w in
        AcquireEffect session_id (rows w) (rows final.1) final.0
  unfolding acquire_idle
  acquire_idle-AcquireEffect fuel session_id w lt =
      acquire_from_lem fuel session_id (r.rand_hex_fn w).0 (r.rand_hex_fn w).1 (rows w) lt
        (rand_law w)
