-- ===== src/Broker/Store/Current/Scanning.antt =====
-- AcquireIdle over an index in step with the table: what the two scans have seen.
use hackathon.Common.{
  ℕ, zero, suc, ◌≡◌, refl, ◌∙◌, subst, inl, inr, true, Option, none, some, List, [], ◌∷◌, ◌++◌, All,
  All-append, Bool-cases,
}
use hackathon.Text.{Text, text_eq}
use hackathon.Text.Laws.{text_eq_sound}
use hackathon.Broker.Model.{Runner, state_idle, is_idle}
use hackathon.Broker.Outcome.{Outcome, ok, err, out_of_fuel, next}
use hackathon.Broker.Store.{
  DynamoRepository, Response, done, conditional_check_failed, failed, QueryInput, QueryOutput,
  state_up_to, StoreError, no_idle_runner, condition_failed, update_failed, query_failed, settle,
  Segment, seg_second, seg_cond, mem_text, Assigned, none_left, assigned, acquire_query_limit,
  state_index,
}
use hackathon.Broker.Store.Table.{idle_row}
use hackathon.Broker.Store.Documented.{Documented, AssignEffect}
use hackathon.Broker.Store.Operations.{
  assign_session, assign_first, after_assign, after_page, scan_segment, query_idle_page, query_page,
  read_page, then_second,
}
use hackathon.Broker.Store.Current.{IsIn, rest_of, PageOf, Indexed, NotIdle, NoneIdle}

-- The runner that comes back stands for an idle row.
abbrev Serves : List Runner → Runner → Type 0
Serves table x =
    (y : Runner) × IsIn table y
    × (is_idle y ≡ true)
    × (x.runner_id ≡ y.runner_id)
    × (x.private_host ≡ y.private_host)

-- No entry of the list, and none of the tried ids, is idle, unless a runner or an error comes back.
abbrev pub Searched :
    {W : Type 0}
    → (W → List Runner)
    → List Runner
    → List Runner
    → Outcome StoreError Assigned × W
    → Type 0
Searched rows table list (ok (assigned x), w) = Serves table x
Searched rows table list (ok (none_left tried), w) =
    (rows w ≡ table) × All (NotIdle table) tried × NoneIdle table list
Searched rows table list (err no_idle_runner, w) = ⊥
Searched rows table list (err e, w) = Unit
Searched rows table list (out_of_fuel, w) = Unit

widen :
    {W : Type 0} (rows : W → List Runner) (table more list : List Runner)
    (o : Outcome StoreError Assigned × W)
    → NoneIdle table more
    → Searched rows table list o
    → Searched rows table (more ++ list) o
widen rows table more list (ok (assigned x), w) n h = h
widen rows table more list (ok (none_left tried), w) n h =
    (h.0, h.1, All-append (λ x. NotIdle table x.runner_id) more list n h.2)
widen rows table more list (err no_idle_runner, w) n h = h
widen rows table more list (err _, w) n h = tt
widen rows table more list (out_of_fuel, w) n h = h

tried-NotIdle :
    (table : List Runner) (id : Text) (tried : List Text)
    → All (NotIdle table) tried
    → mem_text id tried ≡ true
    → NotIdle table id
tried-NotIdle table id [] h m = cc
tried-NotIdle table id (t ∷ tried) h m = elim (Bool-cases (text_eq t id)) [
  | inl same ↦ subst (NotIdle table) (text_eq_sound t id same) h.0
  | inr differs ↦ tried-NotIdle table id tried h.1 (rw differs at m)
]

idle_is :
    (table : List Runner) (x : Runner)
    → IsIn table x
    → idle_row x.runner_id table ≡ true
    → is_idle x ≡ true
unfolding idle_row
idle_is table x there idle = rw there at idle

module _ (r : DynamoRepository) (d : Documented r) (i : Indexed r d) where
  open r use {World, Item, Key, query, unmarshal_list_of_maps}
  open d use {rows, assign_law, rand_law, most}
  open i use {behind, later, page_law, after_law, up_to_law}

  abbrev Found : List Runner → List Runner → Outcome StoreError Assigned × World → Type 0
  Found = Searched rows

  after_assign_lem :
      (x : Runner) (session_id : Text) (tried : List Text) (table candidates : List Runner)
      (go_on : List Text → World → Outcome StoreError Assigned × World)
      (reply : Response (Unit {0}) × World)
      → IsIn table x
      → All (NotIdle table) tried
      → AssignEffect x.runner_id session_id table (rows reply.1) reply.0
      → ((tried' : List Text) (w : World)
          → rows w ≡ table
          → All (NotIdle table) tried'
          → Found table candidates (go_on tried' w))
      → Found table
          (x ∷ candidates)
          (after_assign r x session_id tried go_on (settle condition_failed update_failed reply))
  after_assign_lem x session_id tried table candidates go_on (done _, w) there n h more =
      (x, there, idle_is table x there h.0, refl, refl)
  after_assign_lem x session_id tried table candidates go_on (conditional_check_failed, w) there n h
        more =
      widen rows table (x ∷ []) candidates _ (h.0, tt) (more (x.runner_id ∷ tried) w h.1 (h.0, n))
  after_assign_lem x session_id tried table candidates go_on (failed, w) there n h more = tt

  assign_first_lem :
      (session_id : Text) (candidates : List Runner) (tried : List Text) (w : World)
      (table : List Runner)
      → rows w ≡ table
      → All (IsIn table) candidates
      → All (NotIdle table) tried
      → Found table candidates (assign_first r session_id candidates tried w)
  unfolding assign_first assign_session
  assign_first_lem session_id [] tried w table e there n = (e, n, tt)
  assign_first_lem session_id (x ∷ candidates) tried w table e there n =
      elim (Bool-cases (mem_text x.runner_id tried)) [
        | inl old ↦
            rw (old, assign_first)
              (widen rows table (x ∷ []) candidates _
                (tried-NotIdle table x.runner_id tried n old, tt)
                (assign_first_lem session_id candidates tried w table e there.1 n))
        | inr new ↦
            rw (new, assign_first)
              (after_assign_lem x session_id tried table candidates _ _ there.0 n
                (rw (← e) (assign_law x.runner_id session_id w))
                (λ tried' w' e' n'.
                  assign_first_lem session_id candidates tried' w' table e' there.1 n'))
      ]

  after_page_lem :
      (table page : List Runner) (entries : Option Key → List Runner) (last : Option Key)
      (go_on : Option Key → List Text → World → Outcome StoreError Assigned × World)
      (o : Outcome StoreError Assigned × World)
      → Found table page o
      → ((k : Key) (tried : List Text) (w : World)
          → rows w ≡ table
          → All (NotIdle table) tried
          → Found table (entries (some k)) (go_on (some k) tried w))
      → Found table (page ++ rest_of entries last) (next o (after_page r last go_on))
  after_page_lem table page entries last go_on (err no_idle_runner, w) h more = h
  after_page_lem table page entries last go_on (err _, w) h more = tt
  after_page_lem table page entries last go_on (out_of_fuel, w) h more = tt
  after_page_lem table page entries last go_on (ok (assigned x), w) h more = h
  after_page_lem table page entries none go_on (ok (none_left tried), w) h more =
      (h.0, h.1, All-append (λ x. NotIdle table x.runner_id) page [] h.2 tt)
  after_page_lem table page entries (some k) go_on (ok (none_left tried), w) h more =
      widen rows table page (entries (some k)) _ h.2 (more k tried w h.0 h.1)

  round_lem :
      (table : List Runner) (session_id : Text) (entries : Option Key → List Runner)
      (start : Option Key) (tried : List Text)
      (go_on : Option Key → List Text → World → Outcome StoreError Assigned × World)
      (reply : Response (QueryOutput Item Key) × World)
      → rows reply.1 ≡ table
      → PageOf unmarshal_list_of_maps table entries start reply.0
      → All (NotIdle table) tried
      → ((k : Key) (tried' : List Text) (w : World)
          → rows w ≡ table
          → All (NotIdle table) tried'
          → Found table (entries (some k)) (go_on (some k) tried' w))
      → Found table (entries start) (
          next (next (settle query_failed query_failed reply) (read_page r)) λ read w1.
            next (assign_first r session_id (read.0) tried w1) (after_page r (read.1) go_on))
  round_lem table session_id entries start tried go_on (done out, w) e (page, decoded, there, cut) n
        more =
      rw (decoded, cut)
        (after_page_lem table page entries out.last_evaluated_key go_on
          (assign_first r session_id page tried w)
          (assign_first_lem session_id page tried w table e there n) more)
  round_lem table session_id entries start tried go_on (conditional_check_failed, w) e p n more = tt
  round_lem table session_id entries start tried go_on (failed, w) e p n more = tt

  pub scan_lem :
      (fuel : ℕ) (session_id start : Text) (cond : Segment) (excl : Option Key) (tried : List Text)
      (w : World) (table : List Runner)
      → rows w ≡ table
      → All (NotIdle table) tried
      → Found table
          (behind (seg_cond cond start) excl table)
          (scan_segment r fuel session_id start cond excl tried w)
  unfolding scan_segment query_idle_page query_page
  scan_lem zero session_id start cond excl tried w table e n = tt
  scan_lem (suc fuel) session_id start cond excl tried w table e n =
      let input : QueryInput Key = record {
        table_name = r.table_name;
        index_name = state_index;
        key_condition = seg_cond cond start;
        limit = some acquire_query_limit;
        exclusive_start_key = excl;
      } in
      round_lem table session_id (λ k. behind (seg_cond cond start) k table) excl tried _
        (query input w) ((d.query_law input w).0 ∙ e) (rw (← e) (page_law input w)) n
        (λ k tried' w' e' n'. scan_lem fuel session_id start cond (some k) tried' w' table e' n')

  pub second_lem :
      (fuel : ℕ) (session_id start : Text) (table first : List Runner)
      (o : Outcome StoreError Assigned × World)
      → Found table first o
      → Found table
          (first ++ behind (state_up_to state_idle start) none table)
          (next o (then_second r fuel session_id start))
  second_lem fuel session_id start table first (err no_idle_runner, w) h = h
  second_lem fuel session_id start table first (err _, w) h = tt
  second_lem fuel session_id start table first (out_of_fuel, w) h = tt
  second_lem fuel session_id start table first (ok (assigned x), w) h = h
  second_lem fuel session_id start table first (ok (none_left tried), w) h =
      widen rows table first _ _ h.2
        (scan_lem fuel session_id start seg_second none tried w table h.0 h.1)
