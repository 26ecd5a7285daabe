-- ===== src/Broker/Store/Operations.antt =====
-- The methods of DynamoRepository (broker/store/dynamo.go).
use hackathon.Common.{
  ℕ, zero, suc, true, false, not, Option, none, some, List, [], ◌∷◌, ◌++◌, if◌then◌else◌,
}
use hackathon.Text.{Text, is_empty}
use hackathon.Broker.Model.{Runner, state_idle, state_busy}
use hackathon.Broker.Outcome.{Outcome, ok, err, out_of_fuel, Act, next}
use hackathon.Broker.Store.{
  DynamoRepository, QueryInput, idle_runner, QueryOutput, state_index, session_index, state_only,
  session_only, StoreError, not_found, no_idle_runner, condition_failed, conflict,
  invalid_runner_id, invalid_private_host, marshal_failed, put_failed, query_failed,
  unmarshal_failed, update_failed, get_failed, delete_failed, runner_id_not_exists, state_is,
  set_state_session, acquire_query_limit, is_runner_id, or_fail, settle, Segment, seg_first,
  seg_second, seg_cond, mem_text, Assigned, none_left, assigned,
}

module _ (r : DynamoRepository) where
  open r use {
    World, Item, Key, put_item, update_item, get_item, delete_item, query, unmarshal_map,
    unmarshal_list_of_maps, table_name, rand_hex_fn, marshal_fn,
  }

  abbrev pub Call : Type 0 → Type 0
  Call A = Act World StoreError A

  abbrev pub put_new : Item → Call (Unit {0})
  put_new item w = settle conflict put_failed (
      put_item (record { table_name = table_name; item = item; condition = runner_id_not_exists })
        w)

  unfoldable pub register : Text → Text → Call (Unit {0})
  unfolding is_runner_id
  register runner_id private_host w =
      if not (is_runner_id runner_id)
      then (err invalid_runner_id, w)
      else if is_empty private_host
      then (err invalid_private_host, w)
      else next (or_fail (marshal_fn (idle_runner runner_id private_host)) marshal_failed w) put_new

  unfoldable pub assign_session : Text → Text → Call (Unit {0})
  assign_session runner_id session_id w = settle condition_failed update_failed (
      update_item
        (record {
          table_name = table_name;
          key = runner_id;
          update = set_state_session state_busy session_id;
          condition = state_is state_idle;
        })
        w)

  abbrev pub read_page : QueryOutput Item Key → Call (List Runner × Option Key)
  read_page out w =
      next (or_fail (unmarshal_list_of_maps out.items) unmarshal_failed w)
        λ runners w'. (ok (runners, out.last_evaluated_key), w')

  unfoldable pub query_page : QueryInput Key → Call (List Runner × Option Key)
  query_page input w = next (settle query_failed query_failed (query input w)) read_page

  unfoldable pub query_idle_page : Segment → Text → Option Key → Call (List Runner × Option Key)
  unfolding query_page
  query_idle_page cond value exclusive_start = query_page (record {
    table_name = table_name;
    index_name = state_index;
    key_condition = seg_cond cond value;
    limit = some acquire_query_limit;
    exclusive_start_key = exclusive_start;
  })

  abbrev pub busy_with : Text → Runner → Runner
  busy_with session_id runner = record runner {
    state = state_busy;
    current_session_id = session_id;
  }

  -- `go_on` is the rest of the loop, with the set of tried ids.
  abbrev pub after_assign :
      Runner
      → Text
      → List Text
      → (List Text → Call Assigned)
      → Outcome StoreError (Unit {0}) × World
      → Outcome StoreError Assigned × World
  after_assign runner session_id tried go_on (ok _, w) =
      (ok (assigned (busy_with session_id runner)), w)
  after_assign runner session_id tried go_on (err condition_failed, w) =
      go_on (runner.runner_id ∷ tried) w
  after_assign runner session_id tried go_on (err e, w) = (err e, w)
  after_assign runner session_id tried go_on (out_of_fuel, w) = (out_of_fuel, w)

  unfoldable pub assign_first : Text → List Runner → List Text → Call Assigned
  assign_first session_id [] tried w = (ok (none_left tried), w)
  assign_first session_id (runner ∷ candidates) tried w = elim (mem_text runner.runner_id tried) [
    | true ↦ assign_first session_id candidates tried w
    | false ↦
        after_assign runner session_id tried (assign_first session_id candidates)
          (assign_session runner.runner_id session_id w)
  ]

  -- The `for` over the pages of one segment: `go_on` is the next round, `leave` what follows the loop.
  abbrev pub after_page :
      Option Key → (Option Key → List Text → Call Assigned) → Assigned → Call Assigned
  after_page last go_on (assigned runner) w = (ok (assigned runner), w)
  after_page none go_on (none_left tried) w = (ok (none_left tried), w)
  after_page (some key) go_on (none_left tried) w = go_on (some key) tried w

  unfoldable pub scan_segment : ℕ → Text → Text → Segment → Option Key → List Text → Call Assigned
  scan_segment zero session_id start cond exclusive_start tried w = (out_of_fuel, w)
  scan_segment (suc fuel) session_id start cond exclusive_start tried w =
      next (query_idle_page cond start exclusive_start w) λ page w1.
        next (assign_first session_id (page.0) tried w1)
          (after_page (page.1) (scan_segment fuel session_id start cond))

  abbrev pub or_exhausted : Assigned → Call Runner
  or_exhausted (assigned runner) w = (ok runner, w)
  or_exhausted (none_left tried) w = (err no_idle_runner, w)

  abbrev pub then_second : ℕ → Text → Text → Assigned → Call Assigned
  then_second fuel session_id start (assigned runner) w = (ok (assigned runner), w)
  then_second fuel session_id start (none_left tried) w =
      scan_segment fuel session_id start seg_second none tried w

  -- The two segments in turn, each with its own fuel.
  unfoldable pub acquire_from : ℕ → Text → Text → Call Runner
  acquire_from fuel session_id start w =
      next
        (next (scan_segment fuel session_id start seg_first none [] w)
          (then_second fuel session_id start))
        or_exhausted

  unfoldable pub acquire_idle : ℕ → Text → Call Runner
  unfolding acquire_from
  acquire_idle fuel session_id w =
      let (start, w1) = rand_hex_fn w in acquire_from fuel session_id start w1

  abbrev pub after_busy_page :
      List Runner
      → (Option Key → List Runner → Call (List Runner))
      → List Runner × Option Key
      → Call (List Runner)
  after_busy_page all go_on (page, none) w = (ok (all ++ page), w)
  after_busy_page all go_on (page, some key) w = go_on (some key) (all ++ page) w

  unfoldable pub list_busy_from : ℕ → Option Key → List Runner → Call (List Runner)
  unfolding query_page
  list_busy_from zero exclusive_start all w = (out_of_fuel, w)
  list_busy_from (suc fuel) exclusive_start all w =
      next
        (query_page
          (record {
            table_name = table_name;
            index_name = state_index;
            key_condition = state_only state_busy;
            limit = none;
            exclusive_start_key = exclusive_start;
          })
          w)
        (after_busy_page all (list_busy_from fuel))

  unfoldable pub list_busy_runners : ℕ → Call (List Runner)
  unfolding list_busy_from
  list_busy_runners fuel = list_busy_from fuel none []

  abbrev pub first_item : QueryOutput Item Key → Option Item
  first_item out = elim out.items [ [] ↦ none | item ∷ items ↦ some item ]

  -- The end of both finders: no item, or the item that the codec reads.
  abbrev pub read_item : Option Item → Call Runner
  read_item none w = (err not_found, w)
  read_item (some item) w = or_fail (unmarshal_map item) unmarshal_failed w

  unfoldable pub find_by_session_id : Text → Call Runner
  find_by_session_id session_id w =
      next
        (settle query_failed query_failed (
          query
            (record {
              table_name = table_name;
              index_name = session_index;
              key_condition = session_only session_id;
              limit = some 1;
              exclusive_start_key = none;
            })
            w))
        λ out. read_item (first_item out)

  unfoldable pub find_by_id : Text → Call Runner
  find_by_id runner_id w =
      next
        (settle get_failed get_failed (
          get_item (record { table_name = table_name; key = runner_id; consistent_read = true }) w))
        read_item

  unfoldable pub delete : Text → Call (Unit {0})
  delete runner_id w =
      settle delete_failed delete_failed
        (delete_item (record { table_name = table_name; key = runner_id }) w)
