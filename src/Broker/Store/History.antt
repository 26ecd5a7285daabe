-- ===== src/Broker/Store/History.antt =====
-- Histories of calls of the repository, and what they keep true of the table.
use hackathon.Common.{ℕ, ◌<◌, ◌≡◌, refl, ◌⊎◌, inl, inr, none, List, [], ◌∷◌, ◌++◌, ap}
use hackathon.Broker.Store.{put_failed, marshal_failed}
use hackathon.Text.{Text}
use hackathon.Broker.Model.{Runner}
use hackathon.Broker.Outcome.{Outcome, ok, err, out_of_fuel}
use hackathon.Broker.Store.{
  idle_runner, DynamoRepository, StoreError, conflict, invalid_runner_id, invalid_private_host,
}
use hackathon.Broker.Store.Table.{find_row}
use hackathon.Broker.Store.Changes.{
  Change, same, added, assigned, removed, IsTable, Change-IsTable, Holds, Change-Holds,
}
use hackathon.Broker.Store.Documented.{Documented}
use hackathon.Broker.Store.Operations.{
  register, acquire_idle, list_busy_runners, find_by_session_id, find_by_id, delete,
}
use hackathon.Broker.Store.Acquire.{AcquireEffect, AtMostOne, acquire_idle-AcquireEffect}
use hackathon.Broker.Store.Effects.{
  Registers, RegisterEffect, register-RegisterEffect, DeleteDone, delete-DeleteDone,
}
use hackathon.Broker.Store.Reads.{
  find_by_id_rows, find_by_session_id_rows, list_busy_runners-Listed,
}

pub data Op : Type 0 where
  registers : Text → Text → Op
  acquires : Text → Op
  lists_busy : Op
  finds_session finds_runner deletes : Text → Op

module _ (r : DynamoRepository) (d : Documented r) where
  open r use {World}
  open d use {rows, most}

  -- The world after one call.
  pub step : ℕ → Op → World → World
  step fuel (registers id host) w = (register r id host w).1
  step fuel (acquires session_id) w = (acquire_idle r fuel session_id w).1
  step fuel lists_busy w = (list_busy_runners r fuel w).1
  step fuel (finds_session session_id) w = (find_by_session_id r session_id w).1
  step fuel (finds_runner id) w = (find_by_id r id w).1
  step fuel (deletes id) w = (delete r id w).1

  pub run : ℕ → List Op → World → World
  run fuel [] w = w
  run fuel (op ∷ ops) w = run fuel ops (step fuel op w)

  Registers-Change :
      (id host : Text) (before after : List Runner)
      → Registers id host before after
      → Change before after
  Registers-Change id host before after (v, f, absent, e) =
      added (idle_runner id host) v f refl refl absent e

  hidden_put-Change :
      (id host : Text) (before after : List Runner)
      → (after ≡ before) ⊎ Registers id host before after
      → Change before after
  hidden_put-Change id host before after (inl e) = same e
  hidden_put-Change id host before after (inr h) = Registers-Change id host before after h

  register-Change :
      (id host : Text) (before after : List Runner) (out : Outcome StoreError (Unit {0}))
      → RegisterEffect id host before after out
      → Change before after
  register-Change id host before after (ok _) h = Registers-Change id host before after h
  register-Change id host before after (err invalid_runner_id) h = same h.1
  register-Change id host before after (err invalid_private_host) h = same h.2
  register-Change id host before after (err conflict) h = same h.3
  register-Change id host before after (err put_failed) h = hidden_put-Change id host before after h
  register-Change id host before after (err marshal_failed) h = same h.2
  register-Change id host before after (err _) h = absurd h
  register-Change id host before after out_of_fuel h = elim h [ ]

  AtMostOne-Change :
      (session_id : Text) (before after : List Runner)
      → AtMostOne session_id before after
      → Change before after
  AtMostOne-Change session_id before after (inl e) = same e
  AtMostOne-Change session_id before after (inr (id, idle, e)) = assigned id session_id idle e

  acquire-Change :
      (session_id : Text) (before after : List Runner) (out : Outcome StoreError Runner)
      → AcquireEffect session_id before after out
      → Change before after
  acquire-Change session_id before after (ok x) h =
      assigned x.runner_id session_id h.was_idle h.one_row
  acquire-Change session_id before after (err e) h = AtMostOne-Change session_id before after h.1
  acquire-Change session_id before after out_of_fuel h = elim h [ ]

  delete-Change :
      (id : Text) (before after : List Runner) (out : Outcome StoreError (Unit {0}))
      → DeleteDone id before after out
      → Change before after
  delete-Change id before after (ok _) h = removed id h
  delete-Change id before after (err e) (_, inl h) = same h
  delete-Change id before after (err e) (_, inr h) = removed id h
  delete-Change id before after out_of_fuel h = elim h [ ]

  -- Every call of the repository, whatever it returns, makes one of the transitions: the methods
  -- refine the abstract table.
  pub step-Change :
      (fuel : ℕ) (op : Op) (w : World) → most < fuel → Change (rows w) (rows (step fuel op w))
  unfolding step
  step-Change fuel (registers id host) w lt =
      register-Change id host _ _ _ (register-RegisterEffect r d id host w)
  step-Change fuel (acquires session_id) w lt =
      acquire-Change session_id _ _ _ (acquire_idle-AcquireEffect r d fuel session_id w lt)
  step-Change fuel lists_busy w lt = same (list_busy_runners-Listed r d fuel w lt).0
  step-Change fuel (finds_session session_id) w lt = same (find_by_session_id_rows r d session_id w)
  step-Change fuel (finds_runner id) w lt = same (find_by_id_rows r d id w)
  step-Change fuel (deletes id) w lt = delete-Change id _ _ _ (delete-DeleteDone r d id w)

  -- In a table whose ids are distinct and well-formed, and whose rows are idle without a session or
  -- busy, all of that still holds after any calls.
  pub run-IsTable :
      (fuel : ℕ) (ops : List Op) (w : World)
      → most < fuel
      → IsTable (rows w)
      → IsTable (rows (run fuel ops w))
  unfolding run
  run-IsTable fuel [] w lt h = h
  run-IsTable fuel (op ∷ ops) w lt h =
      run-IsTable fuel ops (step fuel op w) lt (Change-IsTable (step-Change fuel op w lt) h)

  -- However the calls go, a runner that is busy with a session keeps that session until a call
  -- has deleted its row: at each point of a history its row is as before, or was removed by then.
  pub run-Holds :
      (fuel : ℕ) (ops : List Op) (w : World) (x : Runner)
      → most < fuel
      → Holds x (rows w)
      → Holds x (rows (run fuel ops w))
        ⊎ ((pre : List Op) × (op : Op) × (post : List Op) × (ops ≡ pre ++ (op ∷ post))
            × Holds x (rows (run fuel pre w))
            × (find_row x.runner_id (rows (run fuel (pre ++ (op ∷ [])) w)) ≡ none))
  unfolding run
  run-Holds fuel [] w x lt h = inl h
  run-Holds fuel (op ∷ ops) w x lt h = elim (Change-Holds x (step-Change fuel op w lt) h) [
    | inr gone ↦ inr ([], op, ops, refl, h, gone)
    | inl kept ↦ elim (run-Holds fuel ops (step fuel op w) x lt kept) [
      | inl still ↦ inl still
      | inr (pre, last, post, e, held, gone) ↦ inr (op ∷ pre, last, post, ap (◌∷◌ op) e, held, gone)
    ]
  ]
