-- ===== src/Runner/Registration/Wire.antt =====
-- runner/register.go over a network to the broker of broker/main.go: a request or an answer may get
-- lost on the way. Between two attempts anything may happen to the table.
pub mod Entering
pub mod Looping
pub mod Leaving
use hackathon.Common.{ℕ, Bool, ◌||◌, if◌then◌else◌, Option, none, some, List, [], ◌≡◌}
use hackathon.Text.{Text, is_empty}
use hackathon.Broker.Model.{Runner}
use hackathon.Broker.Service.{BrokerService}
use hackathon.Broker.Handler.{Handler, Response}
use hackathon.Broker.Handler
use hackathon.Broker.Handler.Responses.{service_api}
use hackathon.Broker.Router.{HttpRequest, post, delete, handle}
use hackathon.Runner.Shell.{strip_prefix}
use hackathon.Runner.Identity.{Identity}
use hackathon.Runner.Registration.{RegisterRequest, RegisterDeps, DeregisterDeps}

-- What becomes of one exchange.
pub data Fate : Type 0 where
  request_lost answer_lost answered : Fate

-- The broker behind the network: its service and handler, JSON, and what the network does. `wait` is
-- the select of the runner's loop, with all that others do to the table meanwhile.
pub record Wire : Type 1 where
  pub service : BrokerService
  pub fuel : ℕ
  pub fallback_stacks : List Text
  pub stack_self : Text
  pub id_fn : service.World → Option Text × service.World
  pub unrouted : HttpRequest → service.World → Option Response × service.World
  pub Payload : Type 0
  pub marshal : RegisterRequest → Payload
  pub bind : Payload → Option Handler.RegisterRequest
  pub fate : service.World → Fate × service.World
  pub wait : service.World → Bool × service.World

abbrev pub status_option : Option Response → Option ℕ
status_option none = none
status_option (some r) = some r.status

abbrev pub carry : {W : Type 0} → (W → Option Response × W) → Fate × W → Option ℕ × W
carry serve (request_lost, w) = (none, w)
carry serve (answer_lost, w) = (none, (serve w).1)
carry serve (answered, w) = let (answer, w') = serve w in (status_option answer, w')

module _ (n : Wire) where
  open n use {
    service, fuel, fallback_stacks, stack_self, id_fn, unrouted, Payload, marshal, bind, fate, wait,
  }
  open service use {World}

  abbrev pub handler : Handler World
  handler = record {
    svc = service_api service fuel;
    fallback_stacks = fallback_stacks;
    stack_self = stack_self;
  }

  abbrev pub exchange : HttpRequest → World → Option ℕ × World
  exchange req w = carry (handle handler id_fn unrouted req) (fate w)

  abbrev pub post_request : Text → Payload → HttpRequest
  post_request path payload = record {
    method = post;
    path = path;
    session_cookie = [];
    fallback_stack = [];
    fallback_remaining = [];
    bound = bind payload;
  }

  abbrev pub delete_request : Text → HttpRequest
  delete_request path = record {
    method = delete;
    path = path;
    session_cookie = [];
    fallback_stack = [];
    fallback_remaining = [];
    bound = none;
  }

  -- A URL that begins with the broker's reaches it with the rest as its path.
  abbrev pub post_to : Payload → World → Option Text → Option ℕ × World
  post_to payload w none = (none, w)
  post_to payload w (some path) = exchange (post_request path payload) w

  abbrev pub register_deps : Text → Identity → RegisterDeps
  register_deps broker_url identity = record {
    World = World;
    Payload = Payload;
    broker_url = broker_url;
    identity = identity;
    marshal = marshal;
    http_post = λ url payload w. post_to payload w (strip_prefix broker_url url);
    wait = wait;
  }

  abbrev pub deregister_deps : Text → Text → DeregisterDeps
  deregister_deps broker_url runner_id = record {
    World = World;
    Req = Text;
    broker_url = broker_url;
    runner_id = runner_id;
    new_delete = strip_prefix broker_url;
    http_do = λ path w. exchange (delete_request path) w;
  }

  -- encoding/json reads back what it wrote, and gin's binding wants both members filled; making a
  -- request id and losing a message write nothing to the table.
  pub record WireLaws (rows : World → List Runner) : Type 0 where
    pub bind_law :
        (body : RegisterRequest)
        → bind (marshal body) ≡ (
            if is_empty body.runner_id || is_empty body.private_host
            then none
            else some (record { runner_id = body.runner_id; private_host = body.private_host }))
    pub id_law : (w : World) → rows (id_fn w).1 ≡ rows w
    pub fate_law : (w : World) → rows (fate w).1 ≡ rows w
