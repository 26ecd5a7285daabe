-- ===== src/Runner/Registration.antt =====
-- runner/register.go: a runner enters itself at the broker and takes itself out again. The HTTP client,
-- JSON and the clock are parameters; the log lines are not modelled.
pub mod Rounds
pub mod Wire
use hackathon.Common.{
  ℕ, zero, suc, Bool, true, false, Option, none, some, List, [], ◌∷◌, ◌++◌, ◌==◌, if◌then◌else◌,
}
use hackathon.Text.{Text, codes}
use hackathon.Runner.Identity.{Identity}

-- The body of the request: runnerId and privateHost.
pub record RegisterRequest : Type 0 where
  pub runner_id : Text
  pub private_host : Text

-- `http_post` gives the status of the response, or none for an error; `wait` is the select: true if
-- the interval is over, false if the context has ended.
pub record RegisterDeps : Type 1 where
  pub World : Type 0
  pub Payload : Type 0
  pub broker_url : Text
  pub identity : Identity
  pub marshal : RegisterRequest → Payload
  pub http_post : Text → Payload → World → Option ℕ × World
  pub wait : World → Bool × World

-- `cut_off` is no result of the code: the loop has no bound, and the fuel ran out.
pub data Registered : Type 0 where
  registered cancelled cut_off : Registered

abbrev pub is_created : Option ℕ → Bool
is_created none = false
is_created (some status) = status == 201

module _ (d : RegisterDeps) where
  open d use {World, Payload, broker_url, identity, marshal, http_post, wait}

  abbrev pub req_body : RegisterRequest
  req_body = record { runner_id = identity.runner_id; private_host = identity.private_host }

  abbrev pub register_url : Text
  register_url = broker_url ++ codes "/internal/runners/register"

  unfoldable pub post_once : World → Option ℕ × World
  post_once w = http_post register_url (marshal req_body) w

  abbrev pub after_wait : (World → Registered × World) → Bool × World → Registered × World
  after_wait go_on (true, w) = go_on w
  after_wait go_on (false, w) = (cancelled, w)

  abbrev pub unless_created : (World → Registered × World) → World → Bool → Registered × World
  unless_created go_on w true = (registered, w)
  unless_created go_on w false = after_wait go_on (wait w)

  -- After an attempt; `go_on` is the next round.
  abbrev pub after_attempt : (World → Registered × World) → Option ℕ × World → Registered × World
  after_attempt go_on (reply, w) = unless_created go_on w (is_created reply)

  unfoldable pub register : ℕ → World → Registered × World
  register zero w = (cut_off, w)
  register (suc fuel) w = after_attempt (register fuel) (post_once w)

pub data DeregisterError : Type 0 where
  request_refused request_failed : DeregisterError
  unexpected_status : ℕ → DeregisterError

pub record DeregisterDeps : Type 1 where
  pub World : Type 0
  pub Req : Type 0
  pub broker_url : Text
  pub runner_id : Text
  pub new_delete : Text → Option Req
  pub http_do : Req → World → Option ℕ × World

module _ (d : DeregisterDeps) where
  open d use {World, Req, broker_url, runner_id, new_delete, http_do}

  abbrev pub deregister_url : Text
  deregister_url = broker_url ++ (codes "/internal/runners/" ++ runner_id)

  -- none is success
  abbrev pub of_status : Option ℕ × World → Option DeregisterError × World
  of_status (none, w) = (some request_failed, w)
  of_status (some status, w) =
      ((if status == 204 then none else some (unexpected_status status)), w)

  abbrev pub send : Option Req → World → Option DeregisterError × World
  send none w = (some request_refused, w)
  send (some req) w = of_status (http_do req w)

  unfoldable pub deregister : World → Option DeregisterError × World
  deregister w = send (new_delete deregister_url) w
