-- ===== src/Broker/Service/Contract.antt =====
-- What the service relies on of a repository, and that the DynamoDB repository provides it.
use hackathon.Common.{ℕ, ◌<◌, ◌≡◌, ◌≢◌, List}
use hackathon.Text.{Text}
use hackathon.Broker.Model.{Runner}
use hackathon.Broker.Outcome.{out_of_fuel}
use hackathon.Broker.Service.{Repository, BrokerService}
use hackathon.Broker.Store.{DynamoRepository}
use hackathon.Broker.Store.Documented.{Documented}
use hackathon.Broker.Store.Operations
use hackathon.Broker.Store.Acquire.{AcquireEffect, acquire_idle-AcquireEffect}
use hackathon.Broker.Store.Effects.{
  RegisterEffect, register-RegisterEffect, DeleteDone, delete-DeleteDone,
}
use hackathon.Broker.Store.Reads.{
  find_by_session_id_rows, find_by_session_id_returns, list_busy_runners-Listed,
}

-- `rows` is the table as the repository's world has it.
pub record Contract {World : Type 0} (repo : Repository World) (rows : World → List Runner)
    : Type 0 where
  pub acquire_law :
      (session_id : Text) (w : World)
      → let final = repo.acquire_idle session_id w in
        AcquireEffect session_id (rows w) (rows final.1) final.0
  pub delete_law :
      (id : Text) (w : World)
      → let final = repo.delete id w in DeleteDone id (rows w) (rows final.1) final.0
  pub find_law :
      (session_id : Text) (w : World)
      → let final = repo.find_by_session_id session_id w in
        (rows final.1 ≡ rows w) × (final.0 ≢ out_of_fuel)
  pub register_law :
      (id host : Text) (w : World)
      → let final = repo.register id host w in
        RegisterEffect id host (rows w) (rows final.1) final.0
  pub list_law :
      (w : World)
      → let final = repo.list_busy_runners w in (rows final.1 ≡ rows w) × (final.0 ≢ out_of_fuel)

-- A health check and the making of a session id write nothing to the table.
pub record Ambient (s : BrokerService) (rows : s.World → List Runner) : Type 0 where
  pub check_law : (host : Text) (w : s.World) → rows (s.check host w).1 ≡ rows w
  pub session_law : (w : s.World) → rows (s.session_fn w).1 ≡ rows w

-- The DynamoDB repository as a store.Repository, with the fuel of its page loops.
abbrev pub dynamo_repository : (r : DynamoRepository) → ℕ → Repository r.World
dynamo_repository r fuel = record {
  register = Operations.register r;
  acquire_idle = Operations.acquire_idle r fuel;
  list_busy_runners = Operations.list_busy_runners r fuel;
  find_by_session_id = Operations.find_by_session_id r;
  find_by_id = Operations.find_by_id r;
  delete = Operations.delete r;
}

-- With fuel for the pages of an index, the DynamoDB repository keeps the contract that the service
-- relies on.
pub dynamo_repository-Contract :
    (r : DynamoRepository) (d : Documented r) (fuel : ℕ)
    → d.most < fuel
    → Contract (dynamo_repository r fuel) d.rows
dynamo_repository-Contract r d fuel lt = record {
  acquire_law = λ session_id w. acquire_idle-AcquireEffect r d fuel session_id w lt;
  delete_law = delete-DeleteDone r d;
  find_law = λ session_id w.
      (find_by_session_id_rows r d session_id w, find_by_session_id_returns r d session_id w);
  register_law = register-RegisterEffect r d;
  list_law = λ w. list_busy_runners-Listed r d fuel w lt;
}
