-- ===== src/Broker/Store/Current.antt =====
-- broker/store/dynamo.go over an index that is in step with the table: AcquireIdle as a decision.
pub mod Scanning
pub mod Exact
pub mod Finding
use hackathon.Common.{
  ℕ, zero, suc, ◌<◌, ◌≡◌, ◌≢◌, refl, sym, ◌∙◌, ap, subst, ◌⊎◌, inl, inr, Bool, true, false, Option,
  none, some, List, [], ◌∷◌, ◌++◌, All, All-append, Bool-cases, Option-cases, In,
}
use hackathon.Text.{Text, text_eq}
use hackathon.Text.Laws.{text_eq_sound}
use hackathon.Broker.Model.{Runner, state_idle, is_idle}
use hackathon.Broker.Outcome.{Outcome, ok, err, out_of_fuel, next}
use hackathon.Broker.Store.{
  DynamoRepository, Response, done, conditional_check_failed, failed, QueryInput, QueryOutput,
  KeyCondition, state_after, state_up_to, StoreError, no_idle_runner, condition_failed,
  update_failed, query_failed, unmarshal_failed, settle, or_fail, Segment, seg_first, seg_second,
  seg_cond, mem_text, Assigned, none_left, assigned, acquire_query_limit, state_index,
}
use hackathon.Broker.Store.Table.{find_row, idle_row, assign_row}
use hackathon.Broker.Store.Documented.{Documented, AssignEffect}
use hackathon.Broker.Store.Operations.{
  assign_session, assign_first, after_assign, after_page, scan_segment, query_idle_page, query_page,
  read_page, or_exhausted, then_second, acquire_from, acquire_idle,
}

-- The runner is a row of the table, as the index shows it.
abbrev pub IsIn : List Runner → Runner → Type 0
IsIn table x = find_row x.runner_id table ≡ some x

abbrev pub rest_of : {Key : Type 0} → (Option Key → List Runner) → Option Key → List Runner
rest_of behind none = []
rest_of behind (some k) = behind (some k)

-- What a page is of the rows behind its start key; `decode` is the codec.
abbrev pub PageOf :
    {Item Key : Type 0}
    → (List Item → Option (List Runner))
    → List Runner
    → (Option Key → List Runner)
    → Option Key
    → Response (QueryOutput Item Key)
    → Type 0
PageOf decode table behind start (done out) =
    (page : List Runner) × (decode out.items ≡ some page)
    × All (IsIn table) page
    × (behind start ≡ page ++ rest_of behind out.last_evaluated_key)
PageOf decode table behind start conditional_check_failed = Unit
PageOf decode table behind start failed = Unit

-- Each item is a row of the table, where the codec reads it.
abbrev pub ItemsOf :
    {Item Key : Type 0}
    → (Item → Option Runner)
    → List Runner
    → Response (QueryOutput Item Key)
    → Type 0
ItemsOf decode table (done out) =
    All (λ item. (x : Runner) → decode item ≡ some x → IsIn table x) out.items
ItemsOf decode table _ = Unit

module _ (r : DynamoRepository) (d : Documented r) where
  open r use {World, Item, Key, query, unmarshal_map, unmarshal_list_of_maps}
  open d use {rows}

  -- An index that shows the table as it is. `behind c k t` are the entries of the table `t` for the
  -- condition `c` behind the key `k`, and `later` is DynamoDB's order of the ids: the entries of a state
  -- are cut in two by a position.
  pub record Indexed : Type 0 where
    pub behind : KeyCondition → Option Key → List Runner → List Runner
    pub later : Text → Text → Bool
    pub page_law :
        (input : QueryInput Key) (w : World)
        → PageOf unmarshal_list_of_maps
            (rows w)
            (λ k. behind input.key_condition k (rows w))
            input.exclusive_start_key
            (query input w).0
    pub item_law :
        (input : QueryInput Key) (w : World) → ItemsOf unmarshal_map (rows w) (query input w).0
    pub after_law :
        (v : Text) (x : Runner) (table : List Runner)
        → IsIn table x
        → is_idle x ≡ true
        → later v x.runner_id ≡ true
        → In x (behind (state_after state_idle v) none table)
    pub up_to_law :
        (v : Text) (x : Runner) (table : List Runner)
        → IsIn table x
        → is_idle x ≡ true
        → later v x.runner_id ≡ false
        → In x (behind (state_up_to state_idle v) none table)

-- There is no idle row under the id.
abbrev pub NotIdle : List Runner → Text → Type 0
NotIdle table id = idle_row id table ≡ false

abbrev pub NoneIdle : List Runner → List Runner → Type 0
NoneIdle table = All (λ x. NotIdle table x.runner_id)

-- AcquireIdle as a decision on the table: a runner that is returned had an idle row, of the same host;
-- "no idle runner" says that no row is idle.
abbrev pub Exact : List Runner → Outcome StoreError Runner → Type 0
Exact before (ok x) =
    (y : Runner) × IsIn before y
    × (is_idle y ≡ true)
    × (x.runner_id ≡ y.runner_id)
    × (x.private_host ≡ y.private_host)
Exact before (err no_idle_runner) = (id : Text) → NotIdle before id
Exact before (err e) = Unit
Exact before out_of_fuel = ⊥
