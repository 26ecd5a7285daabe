-- ===== src/Broker/Store/Shared.antt =====
-- broker/store/dynamo.go where several brokers share the table: between two requests of AcquireIdle the
-- others may make any transitions of the table, and each request of DynamoDB is atomic.
pub mod Acquire
pub mod Exclusive
use hackathon.Common.{
  ℕ, zero, suc, ◌≡◌, refl, sym, ◌∙◌, ap, subst, ◌⊎◌, inl, inr, true, false, Option, none, some,
  List, [], ◌∷◌, ◌++◌, Bool-cases,
}
use hackathon.Text.{Text, text_eq}
use hackathon.Text.Laws.{text_eq_refl}
use hackathon.Broker.Model.{Runner, state_busy}
use hackathon.Broker.Outcome.{Outcome, ok, err, out_of_fuel, next}
use hackathon.Broker.Store.{
  DynamoRepository, Response, done, conditional_check_failed, failed, StoreError, condition_failed,
  update_failed, settle, Segment, seg_first, seg_second, mem_text, Assigned, none_left, assigned,
  QueryInput, state_is, set_state_session,
}
use hackathon.Broker.Model.{state_idle}
use hackathon.Broker.Store.Table.{find_row, idle_row, assign_row}
use hackathon.Broker.Store.Changes
use hackathon.Broker.Store.Changes.{Change}
use hackathon.Broker.Store.Documented.{AssignEffect, DeleteEffect}
use hackathon.Broker.Store.Acquire.{Assigns}
use hackathon.Broker.Store.Operations.{
  assign_session, assign_first, after_assign, after_page, scan_segment, query_idle_page, query_page,
  read_page, or_exhausted, then_second, acquire_from, acquire_idle,
}

-- The table goes through `tables` and ends as `after`.
abbrev pub Steps : List Runner → List (List Runner) → List Runner → Type 0
Steps before [] after = after ≡ before
Steps before (table ∷ tables) after = Change before table × Steps table tables after

abbrev pub Reaches : List Runner → List Runner → Type 0
Reaches before after = (tables : List (List Runner)) × Steps before tables after

pub refl-Reaches : (t : List Runner) → Reaches t t
refl-Reaches t = ([], refl)

Steps-append :
    (a : List Runner) (ts : List (List Runner)) (b : List Runner) (us : List (List Runner))
    (c : List Runner)
    → Steps a ts b
    → Steps b us c
    → Steps a (ts ++ us) c
Steps-append a [] b us c e h = rw (← e) h
Steps-append a (t ∷ ts) b us c (first, rest) h = (first, Steps-append t ts b us c rest h)

pub trans-Reaches : {a b c : List Runner} → Reaches a b → Reaches b c → Reaches a c
trans-Reaches {a} {b} {c} (ts, h) (us, k) = (ts ++ us, Steps-append a ts b us c h k)

pub Change-Reaches : {a b : List Runner} → Change a b → Reaches a b
Change-Reaches {a} {b} h = (b ∷ [], (h, refl))

-- At some moment since `before` the runner's row was idle, and the write made at that moment is the
-- last thing that happened.
abbrev pub Claims : Text → List Runner → List Runner → Runner → Type 0
Claims session_id before after x =
    (moment : List Runner) × Reaches before moment × Assigns session_id moment after x

abbrev pub ScanShared : Text → List Runner → List Runner → Outcome StoreError Assigned → Type 0
ScanShared session_id before after (ok (assigned x)) = Claims session_id before after x
ScanShared session_id before after (ok (none_left tried)) = Reaches before after
ScanShared session_id before after (err e) = Reaches before after
ScanShared session_id before after out_of_fuel = Reaches before after

abbrev pub AcquireShared : Text → List Runner → List Runner → Outcome StoreError Runner → Type 0
AcquireShared session_id before after (ok x) = Claims session_id before after x
AcquireShared session_id before after (err e) = Reaches before after
AcquireShared session_id before after out_of_fuel = Reaches before after

-- What is assumed of DynamoDB where others write to the table too: a conditional write sees the table
-- at one moment and nothing comes between its test and its write; while a request is on the way, or the
-- start position is drawn, the others make transitions.
pub record Shared (r : DynamoRepository) : Type 0 where
  pub rows : r.World → List Runner
  pub assign_law :
      (id session_id : Text) (w : r.World)
      → let reply =
          r.update_item
            (record {
              table_name = r.table_name;
              key = id;
              update = set_state_session state_busy session_id;
              condition = state_is state_idle;
            })
            w in
        (moment : List Runner) × Reaches (rows w) moment
        × AssignEffect id session_id moment (rows reply.1) reply.0
  pub query_law :
      (input : QueryInput r.Key) (w : r.World) → Reaches (rows w) (rows (r.query input w).1)
  pub delete_law :
      (id : Text) (w : r.World)
      → let reply = r.delete_item (record { table_name = r.table_name; key = id }) w in
        (moment : List Runner) × Reaches (rows w) moment
        × DeleteEffect id moment (rows reply.1) reply.0
  pub rand_law : (w : r.World) → Reaches (rows w) (rows (r.rand_hex_fn w).1)
