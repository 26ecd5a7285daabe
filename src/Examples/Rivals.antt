-- ===== src/Examples/Rivals.antt =====
-- Two brokers at one table in memory.
use hackathon.Common.{◌≡◌, refl, inl, inr, some, List, [], ◌∷◌, if◌then◌else◌, Bool-cases}
use hackathon.Text.{Text, codes, text_eq}
use hackathon.Broker.Model.{Runner, state_busy}
use hackathon.Broker.Outcome.{ok}
use hackathon.Broker.Store.{DynamoRepository, idle_runner, is_runner_id}
use hackathon.Broker.Store.Table.{find_row, idle_row, assign_row, remove_row}
use hackathon.Broker.Store.Changes.{added, assigned, removed}
use hackathon.Broker.Store.Operations
use hackathon.Broker.Store.Operations.{acquire_idle}
use hackathon.Broker.Store.Acquire.{Assigns}
use hackathon.Broker.Store.Shared.{Reaches, refl-Reaches, Change-Reaches, Shared, Steps}
use hackathon.Broker.Store.Shared.Exclusive.{Gone, acquire_idle-Gone}
use hackathon.Examples.Memory.{memory_client, memory_documented}
use hackathon.Examples.Stores.{id_a, id_b, rows, sid}

-- The other broker takes the first runner behind each query.
abbrev pub rival : List Runner → List Runner
rival w = if idle_row id_a w then assign_row id_a (codes "tokyo_xy") w else w

abbrev pub disturbed : DynamoRepository
disturbed = record {
  client = record {
    World = List Runner;
    Item = Runner;
    Key = Text;
    put_item = memory_client.put_item;
    update_item = memory_client.update_item;
    get_item = memory_client.get_item;
    delete_item = memory_client.delete_item;
    query = λ input w. ((memory_client.query input w).0, rival w);
    unmarshal_map = some;
    unmarshal_list_of_maps = some;
  };
  table_name = codes "bunshin-runners";
  rand_hex_fn = λ w. (codes "8", w);
  marshal_fn = some;
}

pub rival-Reaches : (w : List Runner) → Reaches w (rival w)
rival-Reaches w = elim (Bool-cases (idle_row id_a w)) [
  | inl idle ↦ rw idle (Change-Reaches (assigned id_a (codes "tokyo_xy") idle refl))
  | inr other ↦ rw other (refl-Reaches w)
]

abbrev pub shared : Shared disturbed
shared = record {
  rows = λ w. w;
  assign_law = λ id session_id w. (w, refl-Reaches w, memory_documented.assign_law id session_id w);
  query_law = λ input w. rival-Reaches w;
  delete_law = λ id w. (w, refl-Reaches w, refl);
  rand_law = λ w. refl-Reaches w;
}

-- The second runner is left.
abbrev got : Runner
got = record (idle_runner id_b (codes "down")) { state = state_busy; current_session_id = sid }

abbrev taken : Runner
taken = record (idle_runner id_a (codes "up")) {
  state = state_busy;
  current_session_id = codes "tokyo_xy";
}

gets_second : acquire_idle disturbed 1 sid rows ≡ (ok got, taken ∷ got ∷ [])
unfolding acquire_idle Operations.acquire_from Operations.scan_segment Operations.query_idle_page
    Operations.query_page Operations.assign_first Operations.assign_session idle_row find_row
    assign_row text_eq
gets_second = refl

-- Then the runner leaves and comes back, and the other broker takes it.
abbrev back : List Runner
back = idle_runner id_b (codes "down") ∷ taken ∷ []

back-Steps : Steps (taken ∷ got ∷ []) ((taken ∷ []) ∷ back ∷ []) back
unfolding remove_row find_row text_eq is_runner_id
back-Steps = (
  removed id_b refl,
  (added (idle_runner id_b (codes "down")) refl refl refl refl refl refl, refl),
)

again :
    Assigns
      (codes "tokyo_zz")
      back
      (assign_row id_b (codes "tokyo_zz") back)
      (record got { current_session_id = codes "tokyo_zz" })
unfolding idle_row find_row text_eq
again = record { was_idle = refl; one_row = refl; is_busy = refl; has_session = refl }

acquire_idle-Gone_example : Gone id_b ((taken ∷ []) ∷ back ∷ [])
acquire_idle-Gone_example =
    acquire_idle-Gone disturbed shared 1 sid (codes "tokyo_zz") rows (taken ∷ got ∷ []) got
      (record got { current_session_id = codes "tokyo_zz" }) ((taken ∷ []) ∷ back ∷ []) back
      (assign_row id_b (codes "tokyo_zz") back) gets_second back-Steps again refl
