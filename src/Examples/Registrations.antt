-- ===== src/Examples/Registrations.antt =====
-- Runners that enter themselves at a broker with a table in memory.
use hackathon.Common.{
  ℕ, zero, suc, ◌||◌, ◌≡◌, ◌≢◌, refl, true, false, Option, none, some, [], if◌then◌else◌,
}
use hackathon.Text.{Text, codes, is_empty, text_eq, hex_encode}
use hackathon.Text
use hackathon.Broker.Store.{is_runner_id}
use hackathon.Broker.Store.Table
use hackathon.Broker.Store.Operations
use hackathon.Broker.Store.Effects.{Registers}
use hackathon.Broker.Service
use hackathon.Broker.Service.{BrokerService}
use hackathon.Broker.Handler.{bare, post_register, validate_runner_host}
use hackathon.Broker.Handler.Middleware.{request_id_middleware}
use hackathon.Broker.Router.{handle, match, route_of}
use hackathon.Runner.Shell.{strip_prefix}
use hackathon.Runner.Identity.{Identity}
use hackathon.Runner.Registration
use hackathon.Runner.Registration.{
  RegisterDeps, Registered, registered, is_created, post_once, register,
}
use hackathon.Runner.Registration.Rounds.{Rounds}
use hackathon.Runner.Registration.Wire.{
  Wire, WireLaws, Fate, answer_lost, answered, register_deps, deregister_deps,
}
use hackathon.Runner.Registration.Wire.Entering.{Listed}
use hackathon.Runner.Registration.Wire.Looping.{register_lost_answer}
use hackathon.Runner.Registration.Wire.Leaving.{LeaveEffect, deregister-LeaveEffect}
use hackathon.Examples.Stores.{id_a, service, table, contract}
use hackathon.Examples.Stores

-- A server that answers 201 to the third attempt; the world counts the attempts.
abbrev patient : RegisterDeps
patient = record {
  World = ℕ;
  Payload = Registration.RegisterRequest;
  broker_url = codes "http://broker";
  identity = record { runner_id = id_a; private_host = codes "up" };
  marshal = λ body. body;
  http_post = λ url body w. (reply w, suc w);
  wait = λ w. (true, w);
}
  where
    reply : ℕ → Option ℕ
    reply (suc (suc zero)) = some 201
    reply w = none

patient-Rounds : Rounds patient 2 0 2
unfolding post_once
patient-Rounds = (refl, refl, (refl, refl, refl))

patient_created : is_created (post_once patient 2).0 ≡ true
unfolding post_once
patient_created = refl

-- A network that does the same to every exchange.
abbrev pub wire : Fate → Wire
wire fate = record {
  service = service;
  fuel = 3;
  fallback_stacks = [];
  stack_self = codes "tokyo";
  id_fn = λ w. (some (codes "r1"), w);
  unrouted = λ req w. (some (bare 404), w);
  Payload = Registration.RegisterRequest;
  marshal = λ body. body;
  bind = λ body.
      if is_empty body.runner_id || is_empty body.private_host
      then none
      else some (record { runner_id = body.runner_id; private_host = body.private_host });
  fate = λ w. (fate, w);
  wait = λ w. (true, w);
}

pub wire-WireLaws : (fate : Fate) → WireLaws (wire fate) table
wire-WireLaws fate = record { bind_law = λ body. refl; id_law = λ w. refl; fate_law = λ w. refl }

abbrev pub broker_url : Text
broker_url = codes "http://broker"

abbrev pub runner_a : Identity
runner_a = record { runner_id = id_a; private_host = codes "up" }

abbrev lossy : RegisterDeps
lossy = register_deps (wire answer_lost) broker_url runner_a

lossy_unanswered : is_created (post_once lossy []).0 ≡ false
unfolding post_once strip_prefix
lossy_unanswered = refl

lossy_wrote : Registers id_a (codes "up") [] (post_once lossy []).1
unfolding post_once strip_prefix handle match route_of request_id_middleware post_register
    validate_runner_host Service.register_runner Operations.register is_runner_id Table.find_row
    text_eq Text.split
lossy_wrote = (refl, refl, refl, refl)

register_lost_answer_example :
    ((register lossy 5 []).0 ≢ registered)
    × Listed
        (wire answer_lost)
        (wire-WireLaws answer_lost)
        contract
        broker_url
        runner_a
        (register lossy 5 []).1
register_lost_answer_example =
    register_lost_answer (wire answer_lost) (wire-WireLaws answer_lost) contract broker_url runner_a
      4 [] (λ w there. there) lossy_unanswered lossy_wrote

deregister-LeaveEffect_example :
    LeaveEffect (wire answered) (wire-WireLaws answered) contract (codes "a1") Stores.rows (
      Registration.deregister (deregister_deps (wire answered) broker_url (codes "a1")) Stores.rows)
deregister-LeaveEffect_example =
    deregister-LeaveEffect (wire answered) (wire-WireLaws answered) contract broker_url (codes "a1")
      Stores.rows (refl, (refl, tt)) refl
