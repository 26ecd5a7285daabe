-- ===== src/Broker/Store/Shared/Acquire.antt =====
-- AcquireIdle where several brokers share the table.
use hackathon.Common.{
  ℕ, zero, suc, ◌≡◌, refl, inl, inr, Option, none, some, List, [], ◌∷◌, Bool-cases,
}
use hackathon.Text.{Text}
use hackathon.Broker.Model.{Runner}
use hackathon.Broker.Outcome.{Outcome, ok, err, out_of_fuel, next}
use hackathon.Broker.Store.{
  DynamoRepository, or_fail, unmarshal_failed, query_failed, QueryOutput, Response, done,
  conditional_check_failed, failed, StoreError, condition_failed, update_failed, settle, Segment,
  seg_first, seg_second, mem_text, Assigned, none_left, assigned, QueryInput,
}
use hackathon.Broker.Store.Changes
use hackathon.Broker.Store.Changes.{Change}
use hackathon.Broker.Store.Documented.{AssignEffect}
use hackathon.Broker.Store.Operations.{
  assign_session, assign_first, after_assign, after_page, scan_segment, query_idle_page, query_page,
  read_page, or_exhausted, then_second, acquire_from, acquire_idle,
}
use hackathon.Broker.Store.Shared.{
  Reaches, trans-Reaches, Change-Reaches, ScanShared, AcquireShared, Shared,
}

module _ (r : DynamoRepository) (d : Shared r) where
  open r use {World, Item, Key, query, unmarshal_list_of_maps}
  open d use {rows, assign_law, query_law, rand_law}

  abbrev Scanned : Text → List Runner → Outcome StoreError Assigned × World → Type 0
  Scanned session_id before (out, w) = ScanShared session_id before (rows w) out

  after_assign_lem :
      (x : Runner) (session_id : Text) (tried : List Text) (before moment : List Runner)
      (go_on : List Text → World → Outcome StoreError Assigned × World)
      (reply : Response (Unit {0}) × World)
      → Reaches before moment
      → AssignEffect x.runner_id session_id moment (rows reply.1) reply.0
      → ((tried' : List Text) (w : World)
          → Reaches before (rows w)
          → Scanned session_id before (go_on tried' w))
      → Scanned session_id before
          (after_assign r x session_id tried go_on (settle condition_failed update_failed reply))
  after_assign_lem x session_id tried before moment go_on (done _, w) reach h more =
      (moment, reach, record { was_idle = h.0; one_row = h.1; is_busy = refl; has_session = refl })
  after_assign_lem x session_id tried before moment go_on (conditional_check_failed, w) reach h
        more =
      more (x.runner_id ∷ tried) w (rw h.1 reach)
  after_assign_lem x session_id tried before moment go_on (failed, w) reach (inl same) more =
      rw same reach
  after_assign_lem x session_id tried before moment go_on (failed, w) reach (inr wrote) more =
      trans-Reaches reach (Change-Reaches (Changes.assigned x.runner_id session_id wrote.0 wrote.1))

  assign_first_lem :
      (session_id : Text) (candidates : List Runner) (tried : List Text) (w : World)
      (before : List Runner)
      → Reaches before (rows w)
      → Scanned session_id before (assign_first r session_id candidates tried w)
  unfolding assign_first assign_session
  assign_first_lem session_id [] tried w before e = e
  assign_first_lem session_id (x ∷ candidates) tried w before e =
      let (moment, reach, wrote) = assign_law x.runner_id session_id w in
      elim (Bool-cases (mem_text x.runner_id tried)) [
        | inl old ↦ rw (old, assign_first) (assign_first_lem session_id candidates tried w before e)
        | inr new ↦
            rw (new, assign_first)
              (after_assign_lem x session_id tried before moment _ _ (trans-Reaches e reach) wrote
                (λ tried' w' e'. assign_first_lem session_id candidates tried' w' before e'))
      ]

  after_page_lem :
      (session_id : Text) (before : List Runner) (last : Option Key)
      (go_on : Option Key → List Text → World → Outcome StoreError Assigned × World)
      (out : Outcome StoreError Assigned) (w : World)
      → ScanShared session_id before (rows w) out
      → ((k : Key) (tried : List Text) (w' : World)
          → Reaches before (rows w')
          → Scanned session_id before (go_on (some k) tried w'))
      → Scanned session_id before (next (out, w) (after_page r last go_on))
  after_page_lem session_id before last go_on (err e) w h more = h
  after_page_lem session_id before last go_on out_of_fuel w h more = h
  after_page_lem session_id before last go_on (ok (assigned x)) w h more = h
  after_page_lem session_id before none go_on (ok (none_left tried)) w h more = h
  after_page_lem session_id before (some k) go_on (ok (none_left tried)) w h more = more k tried w h

  round_lem :
      (session_id : Text) (before : List Runner)
      (go_on : Option Key → List Text → World → Outcome StoreError Assigned × World)
      (tried : List Text) (page : Outcome StoreError (List Runner × Option Key)) (w : World)
      → Reaches before (rows w)
      → ((k : Key) (tried' : List Text) (w' : World)
          → Reaches before (rows w')
          → Scanned session_id before (go_on (some k) tried' w'))
      → Scanned session_id before (
          next
            (page, w)
            λ read w1.
              next (assign_first r session_id (read.0) tried w1) (after_page r (read.1) go_on))
  round_lem session_id before go_on tried (err e) w h more = h
  round_lem session_id before go_on tried out_of_fuel w h more = h
  round_lem session_id before go_on tried (ok (page, last)) w h more =
      after_page_lem session_id before last go_on (assign_first r session_id page tried w).0 _
        (assign_first_lem session_id page tried w before h) more

  or_fail_world :
      (decoded : Option (List Runner)) (last : Option Key) (w : World)
      → (next {B = List Runner × Option Key}
          (or_fail decoded unmarshal_failed w)
          (λ runners w'. (ok (runners, last), w'))).1
        ≡ w
  or_fail_world none last w = refl
  or_fail_world (some runners) last w = refl

  reply_world :
      (reply : Response (QueryOutput Item Key) × World)
      → (next (settle query_failed query_failed reply) (read_page r)).1 ≡ reply.1
  reply_world (done out, w) =
      or_fail_world (unmarshal_list_of_maps out.items) out.last_evaluated_key w
  reply_world (conditional_check_failed, w) = refl
  reply_world (failed, w) = refl

  query_page-Reaches :
      (before : List Runner) (input : QueryInput Key) (w : World)
      → Reaches before (rows w)
      → Reaches before (rows (query_page r input w).1)
  unfolding query_page
  query_page-Reaches before input w h =
      rw (reply_world (query input w)) (trans-Reaches h (query_law input w))

  scan_lem :
      (fuel : ℕ) (session_id start : Text) (cond : Segment) (excl : Option Key) (tried : List Text)
      (w : World) (before : List Runner)
      → Reaches before (rows w)
      → Scanned session_id before (scan_segment r fuel session_id start cond excl tried w)
  unfolding scan_segment query_idle_page
  scan_lem zero session_id start cond excl tried w before e = e
  scan_lem (suc fuel) session_id start cond excl tried w before e =
      round_lem session_id before _ tried _ _ (query_page-Reaches before _ w e)
        (λ k tried' w' e'. scan_lem fuel session_id start cond (some k) tried' w' before e')

  second_lem :
      (fuel : ℕ) (session_id start : Text) (before : List Runner)
      (out : Outcome StoreError Assigned) (w : World)
      → ScanShared session_id before (rows w) out
      → Scanned session_id before (next (out, w) (then_second r fuel session_id start))
  second_lem fuel session_id start before (err e) w h = h
  second_lem fuel session_id start before out_of_fuel w h = h
  second_lem fuel session_id start before (ok (assigned x)) w h = h
  second_lem fuel session_id start before (ok (none_left tried)) w h =
      scan_lem fuel session_id start seg_second none tried w before h

  exhausted_lem :
      (session_id : Text) (before : List Runner) (out : Outcome StoreError Assigned) (w : World)
      → ScanShared session_id before (rows w) out
      → let final = next (out, w) (or_exhausted r) in
        AcquireShared session_id before (rows final.1) final.0
  exhausted_lem session_id before (err e) w h = h
  exhausted_lem session_id before out_of_fuel w h = h
  exhausted_lem session_id before (ok (assigned x)) w h = h
  exhausted_lem session_id before (ok (none_left tried)) w h = h

  acquire_from_lem :
      (fuel : ℕ) (session_id start : Text) (w : World) (before : List Runner)
      → Reaches before (rows w)
      → let final = acquire_from r fuel session_id start w in
        AcquireShared session_id before (rows final.1) final.0
  unfolding acquire_from
  acquire_from_lem fuel session_id start w before e =
      let first = scan_segment r fuel session_id start seg_first none [] w in
      let both = next first (then_second r fuel session_id start) in
      exhausted_lem session_id before both.0 both.1 (
        second_lem fuel session_id start before first.0 first.1
          (scan_lem fuel session_id start seg_first none [] w before e))

  -- AcquireIdle among other brokers, whatever they do between its requests: if it returns a runner,
  -- then at some moment since the call that runner's row was idle, and the write made at that moment
  -- made it busy with the session; under every other result the table went on by transitions.
  pub acquire_idle-AcquireShared :
      (fuel : ℕ) (session_id : Text) (w : World)
      → let final = acquire_idle r fuel session_id w in
        AcquireShared session_id (rows w) (rows final.1) final.0
  unfolding acquire_idle
  acquire_idle-AcquireShared fuel session_id w =
      acquire_from_lem fuel session_id (r.rand_hex_fn w).0 (r.rand_hex_fn w).1 (rows w) (rand_law w)
