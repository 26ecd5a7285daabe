-- ===== src/Examples/Crowds.antt =====
-- The service at a table that another broker writes to.
use hackathon.Common.{true, false, some, List, []}
use hackathon.Text.{codes}
use hackathon.Broker.Model.{Runner}
use hackathon.Broker.Store.Shared.{refl-Reaches}
use hackathon.Broker.Service.{BrokerService, resolve_session}
use hackathon.Broker.Service.Contract.{dynamo_repository}
use hackathon.Broker.Service.Shared.{
  SharedContract, SharedAmbient, ResolveServed, dynamo_repository-SharedContract,
}
use hackathon.Broker.Service.Shared.Resolving.{resolve_session-ResolveServed}
use hackathon.Examples.Rivals.{disturbed, shared, rival, rival-Reaches}
use hackathon.Examples.Stores.{rows}

-- The other broker also writes while a health check goes on.
abbrev service : BrokerService
service = record {
  World = List Runner;
  repo = dynamo_repository disturbed 1;
  stack_prefix = codes "tokyo";
  check = λ host w. (true, rival w);
  session_fn = λ w. (some (codes "ab"), w);
  context_err = λ w. false;
}

abbrev table : List Runner → List Runner
table w = w

contract : SharedContract service.repo table
contract = dynamo_repository-SharedContract disturbed shared 1

ambient : SharedAmbient service table
ambient = record { check_law = λ host w. rival-Reaches w; session_law = λ w. refl-Reaches w }

resolve_session-ResolveServed_example :
    ResolveServed service contract ambient rows (resolve_session service 3 [] rows)
resolve_session-ResolveServed_example =
    resolve_session-ResolveServed service contract ambient 3 [] rows
