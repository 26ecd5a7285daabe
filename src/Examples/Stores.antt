-- ===== src/Examples/Stores.antt =====
-- The repository and the service at a table in memory.
use hackathon.Common.{◌≡◌, refl, inl, ◌⊎◌, ◌++◌, true, false, none, some, List, [], ◌∷◌, arith}
use hackathon.Text.{Text, cut, codes, text_eq, is_empty}
use hackathon.Text.Separated.{Lacks}
use hackathon.Broker.Model.{Runner, state_busy}
use hackathon.Broker.Outcome.{ok}
use hackathon.Broker.Store.{idle_runner, is_runner_id}
use hackathon.Broker.Store.Table
use hackathon.Broker.Store.Operations
use hackathon.Broker.Store.Acquire.{AcquireEffect, acquire_idle-AcquireEffect}
use hackathon.Broker.Store.Effects.{RegisterEffect, Blames, register-Reported}
use hackathon.Broker.Store.Changes.{Change, IsRow, IsTable, Holds}
use hackathon.Broker.Store.History.{
  Op, registers, acquires, deletes, step, run, step-Change, run-IsTable, run-Holds,
}
use hackathon.Broker.Service.{
  BrokerService, ResolveResult, namespaced_session_id, split_namespaced_session_id,
  session_id_separator, resolve_session, create_session, create_resolved, create_from,
}
use hackathon.Broker.Service.Contract.{
  Contract, Ambient, dynamo_repository, dynamo_repository-Contract,
}
use hackathon.Broker.Service.Create.{SessionEffect, create_session-SessionEffect}
use hackathon.Broker.Service.Resolve.{ResolveEffect, resolve_session-ResolveEffect}
use hackathon.Broker.Service.SessionIds.{split-namespaced_underscore, resolve_session_hex}
use hackathon.Examples.Memory.{memory_repository, memory_documented}

abbrev pub id_a : Text
id_a = codes "0123456789abcdef0123456789abcdef"

abbrev pub id_b : Text
id_b = codes "a123456789abcdef0123456789abcdef"

-- One idle runner that is up, and one that is down.
abbrev pub rows : List Runner
rows = idle_runner id_a (codes "up") ∷ idle_runner id_b (codes "down") ∷ []

abbrev pub sid : Text
sid = codes "tokyo_ab"

acquire_idle_example :
    let final = Operations.acquire_idle memory_repository 1 sid rows in
    AcquireEffect sid rows final.1 final.0
acquire_idle_example =
    acquire_idle-AcquireEffect memory_repository memory_documented 1 sid rows (omega arith)

register-Reported_example :
    let final = Operations.register memory_repository id_a (codes "up") rows in
    RegisterEffect id_a (codes "up") rows final.1 final.0
    × Blames memory_repository memory_documented id_a (codes "up") rows final.0
register-Reported_example =
    register-Reported memory_repository memory_documented id_a (codes "up") rows

abbrev history : List Op
history = acquires sid ∷ deletes id_a ∷ registers id_a (codes "up") ∷ []

step_example : Change rows (step memory_repository memory_documented 1 (acquires sid) rows)
step_example = step-Change memory_repository memory_documented 1 (acquires sid) rows (omega arith)

rows-IsTable : IsTable rows
unfolding text_eq Table.find_row is_runner_id
rows-IsTable =
    (row id_a (codes "up") refl refl, refl, (row id_b (codes "down") refl refl, refl, tt))
  where
    row :
        (id host : Text)
        → is_runner_id id ≡ true
        → is_empty host ≡ false
        → IsRow (idle_runner id host)
    row id host v f = record { named = v; hosted = f; phase = inl (refl, refl) }

run-IsTable_example : IsTable (run memory_repository memory_documented 1 history rows)
run-IsTable_example =
    run-IsTable memory_repository memory_documented 1 history rows (omega arith) rows-IsTable

abbrev pub busy_a : Runner
busy_a = record (idle_runner id_a (codes "up")) { state = state_busy; current_session_id = sid }

busy_a-Holds : Holds busy_a (busy_a ∷ [])
unfolding text_eq Table.find_row
busy_a-Holds = record { present = refl; busy = refl }

run-Holds_example :
    Holds busy_a (run memory_repository memory_documented 1 history (busy_a ∷ []))
    ⊎ ((pre : List Op) × (op : Op) × (post : List Op) × (history ≡ pre ++ (op ∷ post))
        × Holds busy_a (run memory_repository memory_documented 1 pre (busy_a ∷ []))
        × (Table.find_row id_a
              (run memory_repository memory_documented 1 (pre ++ (op ∷ [])) (busy_a ∷ []))
            ≡ none))
run-Holds_example =
    run-Holds memory_repository memory_documented 1 history (busy_a ∷ []) busy_a (omega arith)
      busy_a-Holds

-- A host is up if it is called so; the session ids are all the same.
abbrev pub service : BrokerService
service = record {
  World = List Runner;
  repo = dynamo_repository memory_repository 1;
  stack_prefix = codes "tokyo";
  check = λ host w. (text_eq host (codes "up"), w);
  session_fn = λ w. (some (codes "ab"), w);
  context_err = λ w. false;
}

abbrev pub table : service.World → List Runner
table w = w

pub contract : Contract service.repo table
contract = dynamo_repository-Contract memory_repository memory_documented 1 (omega arith)

pub ambient : Ambient service table
ambient = record { check_law = λ host w. refl; session_law = λ w. refl }

create_session_example : SessionEffect service contract ambient rows (create_session service 3 rows)
unfolding Table.count_idle text_eq
create_session_example = create_session-SessionEffect service contract ambient 3 rows (omega arith)

resolve_session_example :
    ResolveEffect service contract ambient
      (codes "x_y")
      rows
      (resolve_session service 3 (codes "x_y") rows)
unfolding Table.count_idle text_eq
resolve_session_example =
    resolve_session-ResolveEffect service contract ambient 3 (codes "x_y") rows (omega arith)

abbrev first_result : ResolveResult
first_result = record {
  session_id = sid;
  session_hex = codes "ab";
  runner_host = codes "up";
  created = true;
  reassigned = false;
}

abbrev second_result : ResolveResult
second_result = record first_result { created = false }

resolve_first : resolve_session service 3 [] rows ≡ (ok first_result, busy_a ∷ [])
unfolding resolve_session create_resolved create_session create_from namespaced_session_id
    Operations.acquire_idle Operations.scan_segment Operations.query_idle_page
    Operations.assign_first Operations.assign_session Operations.delete Table.idle_row
    Table.assign_row Table.remove_row text_eq
resolve_first = refl

resolve_second : resolve_session service 3 sid (busy_a ∷ []) ≡ (ok second_result, busy_a ∷ [])
unfolding resolve_session split_namespaced_session_id cut Operations.find_by_session_id text_eq
resolve_second = refl

tokyo-Lacks : Lacks session_id_separator (codes "tokyo")
tokyo-Lacks = (refl, (refl, (refl, (refl, (refl, tt)))))

resolve_hex_example : second_result.session_hex ≡ first_result.session_hex
unfolding Table.count_idle text_eq
resolve_hex_example =
    resolve_session_hex service contract ambient 3 [] rows (busy_a ∷ []) (busy_a ∷ []) (busy_a ∷ [])
      first_result second_result tokyo-Lacks (omega arith) (omega arith) resolve_first
      resolve_second refl

underscore_example :
    (split_namespaced_session_id
      (namespaced_session_id (record service { stack_prefix = codes "a_b" }) (codes "ff"))).after
    ≡ codes "b_ff"
underscore_example =
    split-namespaced_underscore (record service { stack_prefix = codes "a_b" }) (codes "a")
      (codes "b") (codes "ff") refl (refl, tt)
