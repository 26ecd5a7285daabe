-- ===== src/Broker/Store.antt =====
-- broker/store: the repository of runners over DynamoDB. The DynamoDB client and the attribute
-- codec are parameters: `Client` has the calls that dynamo.go makes, with the requests it sends.
pub mod Operations
pub mod Table
pub mod Documented
pub mod Pages
pub mod Acquire
pub mod Effects
pub mod Reads
pub mod Changes
pub mod History
pub mod Adapter
pub mod Shared
pub mod Current
use hackathon.Common.{
  ℕ, Bool, true, false, ◌&&◌, ◌||◌, Option, none, some, List, [], ◌∷◌, ◌==◌, length,
}
use hackathon.Text.{Text, text_eq, is_lower_hex, all_test}
use hackathon.Broker.Model.{State, Runner, state_idle}
use hackathon.Broker.Outcome.{Outcome, ok, err, Act}

-- The sentinel errors of repository.go, and the wrapped errors of the SDK and the codec.
pub data StoreError : Type 0 where
  not_found no_idle_runner condition_failed conflict : StoreError
  invalid_runner_id invalid_private_host : StoreError
  marshal_failed put_failed query_failed unmarshal_failed : StoreError
  update_failed get_failed delete_failed : StoreError

-- How a call of the SDK ends; `isConditionalCheckFailed` tells the two errors apart.
pub data Response (A : Type 0) : Type 0 where
  done : A → Response A
  conditional_check_failed failed : Response A

-- The condition expressions, with their attribute values put in.
pub data Condition : Type 0 where
  runner_id_not_exists : Condition
  state_is : State → Condition

pub data Update : Type 0 where
  set_state_session : State → Text → Update

pub data KeyCondition : Type 0 where
  state_only : State → KeyCondition
  state_after : State → Text → KeyCondition
  state_up_to : State → Text → KeyCondition
  session_only : Text → KeyCondition

pub data Index : Type 0 where
  state_index session_index : Index

pub record PutItemInput (Item : Type 0) : Type 0 where
  pub table_name : Text
  pub item : Item
  pub condition : Condition

pub record UpdateItemInput : Type 0 where
  pub table_name : Text
  pub key : Text
  pub update : Update
  pub condition : Condition

pub record GetItemInput : Type 0 where
  pub table_name : Text
  pub key : Text
  pub consistent_read : Bool

pub record DeleteItemInput : Type 0 where
  pub table_name : Text
  pub key : Text

pub record QueryInput (Key : Type 0) : Type 0 where
  pub table_name : Text
  pub index_name : Index
  pub key_condition : KeyCondition
  pub limit : Option ℕ
  pub exclusive_start_key : Option Key

-- `last_evaluated_key` is none for an empty map.
pub record QueryOutput (Item Key : Type 0) : Type 0 where
  pub items : List Item
  pub last_evaluated_key : Option Key

pub record Client : Type 1 where
  pub World : Type 0
  pub Item : Type 0
  pub Key : Type 0
  pub put_item : PutItemInput Item → World → Response (Unit {0}) × World
  pub update_item : UpdateItemInput → World → Response (Unit {0}) × World
  pub get_item : GetItemInput → World → Response (Option Item) × World
  pub delete_item : DeleteItemInput → World → Response (Unit {0}) × World
  pub query : QueryInput Key → World → Response (QueryOutput Item Key) × World
  pub unmarshal_map : Item → Option Runner
  pub unmarshal_list_of_maps : List Item → Option (List Runner)

pub record DynamoRepository : Type 1 where
  pub client : Client
  pub open client use *
  pub table_name : Text
  pub rand_hex_fn : World → Text × World
  pub marshal_fn : Runner → Option Item

abbrev pub acquire_query_limit : ℕ
acquire_query_limit = 5

-- ^[0-9a-f]{32}$
unfoldable pub is_runner_id : Text → Bool
is_runner_id s = (length s == 32) && all_test is_lower_hex s

abbrev pub or_fail : {W A : Type 0} → Option A → StoreError → Act W StoreError A
or_fail none e w = (err e, w)
or_fail (some a) e w = (ok a, w)

-- The error mapping after a call: of a failed condition, and of any other error.
abbrev pub settle :
    {W A : Type 0} → StoreError → StoreError → Response A × W → Outcome StoreError A × W
settle refused broken (done a, w) = (ok a, w)
settle refused broken (conditional_check_failed, w) = (err refused, w)
settle refused broken (failed, w) = (err broken, w)

pub data Segment : Type 0 where
  seg_first seg_second : Segment

abbrev pub seg_cond : Segment → Text → KeyCondition
seg_cond seg_first v = state_after state_idle v
seg_cond seg_second v = state_up_to state_idle v

abbrev pub mem_text : Text → List Text → Bool
mem_text id [] = false
mem_text id (t ∷ tried) = text_eq t id || mem_text id tried

-- What assignFirst returns: no runner, or the one it assigned; `tried` is its map afterwards.
pub data Assigned : Type 0 where
  none_left : List Text → Assigned
  assigned : Runner → Assigned

-- The item that Register writes.
abbrev pub idle_runner : Text → Text → Runner
idle_runner runner_id private_host = record {
  runner_id = runner_id;
  state = state_idle;
  current_session_id = [];
  private_host = private_host;
}
