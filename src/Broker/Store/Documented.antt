-- ===== src/Broker/Store/Documented.antt =====
-- What the repository relies on of DynamoDB and of the attribute codec, as DynamoDB documents it:
-- conditional writes are atomic, an error of the transport may hide a write that was made, reads
-- change nothing, a consistent read returns the row, and a query of an index pages forward. A query
-- of an index is eventually consistent: nothing is said of the items that it returns.
use hackathon.Common.{ℕ, ◌<◌, ◌≡◌, ◌⊎◌, true, false, Option, none, some, List, ◌∷◌}
use hackathon.Text.{Text}
use hackathon.Broker.Model.{Runner, state_idle, state_busy}
use hackathon.Broker.Store.{
  DynamoRepository, Response, done, conditional_check_failed, failed, runner_id_not_exists,
  state_is, set_state_session, QueryInput, QueryOutput,
}
use hackathon.Broker.Store.Table.{find_row, idle_row, assign_row, remove_row}

abbrev pub PutEffect : Runner → List Runner → List Runner → Response (Unit {0}) → Type 0
PutEffect x before after (done _) = (find_row x.runner_id before ≡ none) × (after ≡ x ∷ before)
PutEffect x before after conditional_check_failed =
    ((y : Runner) × (find_row x.runner_id before ≡ some y)) × (after ≡ before)
PutEffect x before after failed =
    (after ≡ before) ⊎ ((find_row x.runner_id before ≡ none) × (after ≡ x ∷ before))

abbrev pub AssignEffect : Text → Text → List Runner → List Runner → Response (Unit {0}) → Type 0
AssignEffect id session_id before after (done _) =
    (idle_row id before ≡ true) × (after ≡ assign_row id session_id before)
AssignEffect id session_id before after conditional_check_failed =
    (idle_row id before ≡ false) × (after ≡ before)
AssignEffect id session_id before after failed =
    (after ≡ before) ⊎ ((idle_row id before ≡ true) × (after ≡ assign_row id session_id before))

abbrev pub DeleteEffect : Text → List Runner → List Runner → Response (Unit {0}) → Type 0
DeleteEffect id before after (done _) = after ≡ remove_row id before
DeleteEffect id before after conditional_check_failed = after ≡ before
DeleteEffect id before after failed = (after ≡ before) ⊎ (after ≡ remove_row id before)

abbrev pub GetEffect :
    {Item : Type 0} → (Item → Option Runner) → Option Runner → Response (Option Item) → Type 0
GetEffect decode row (done none) = row ≡ none
GetEffect decode row (done (some item)) = ((y : Runner) × (row ≡ some y)) × (decode item ≡ row)
GetEffect decode row _ = Unit

-- Behind a start key of rank n the next key has a smaller rank.
abbrev pub PageEffect :
    {Item Key : Type 0} → (Key → ℕ) → ℕ → Response (QueryOutput Item Key) → Type 0
PageEffect rank n (done out) = (k : _) → out.last_evaluated_key ≡ some k → rank k < n
PageEffect rank n _ = Unit

abbrev pub start_rank : {Key : Type 0} → (Key → ℕ) → ℕ → Option Key → ℕ
start_rank rank most none = most
start_rank rank most (some k) = rank k

module _ (r : DynamoRepository) where
  open r use {
    World, Item, Key, put_item, update_item, get_item, delete_item, query, unmarshal_map,
    table_name, rand_hex_fn, marshal_fn,
  }

  pub record Documented : Type 0 where
    pub rows : World → List Runner
    pub put_law :
        (x : Runner) (item : Item) (w : World)
        → marshal_fn x ≡ some item
        → let reply =
            put_item
              (record { table_name = table_name; item = item; condition = runner_id_not_exists })
              w in
          PutEffect x (rows w) (rows reply.1) reply.0
    pub assign_law :
        (id session_id : Text) (w : World)
        → let reply =
            update_item
              (record {
                table_name = table_name;
                key = id;
                update = set_state_session state_busy session_id;
                condition = state_is state_idle;
              })
              w in
          AssignEffect id session_id (rows w) (rows reply.1) reply.0
    pub delete_law :
        (id : Text) (w : World)
        → let reply = delete_item (record { table_name = table_name; key = id }) w in
          DeleteEffect id (rows w) (rows reply.1) reply.0
    pub get_law :
        (id : Text) (w : World)
        → let reply =
            get_item (record { table_name = table_name; key = id; consistent_read = true }) w in
          (rows reply.1 ≡ rows w) × GetEffect unmarshal_map (find_row id (rows w)) reply.0
    pub rand_law : (w : World) → rows (rand_hex_fn w).1 ≡ rows w
    pub rank : Key → ℕ
    pub most : ℕ
    pub query_law :
        (input : QueryInput Key) (w : World)
        → (rows (query input w).1 ≡ rows w)
          × PageEffect rank (start_rank rank most input.exclusive_start_key) (query input w).0
