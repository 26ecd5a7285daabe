-- ===== src/Examples/Handlers.antt =====
-- The handlers over the service of Stores.
use hackathon.Text
use hackathon.Common.{Option, ◌≡◌, refl, true, false, none, some, List, [], ◌∷◌, arith}
use hackathon.Text.{Text, codes, text_eq}
use hackathon.Broker.Model.{Runner, state_busy}
use hackathon.Broker.Store.{idle_runner, is_runner_id}
use hackathon.Broker.Store.Table
use hackathon.Broker.Store.Table.{find_row}
use hackathon.Broker.Store.Operations
use hackathon.Broker.Service
use hackathon.Broker.Router.{HttpRequest, resolve_route, match, route_of, handle, get}
use hackathon.Broker.Router.Answers.{Answers}
use hackathon.Broker.Router.Answers.Served.{handle-Answers}
use hackathon.Broker.Handler.{
  Handler, Request, Response, RegisterRequest, SessionCookie, is_host_char, get_resolve_session,
  post_register, get_list_busy_runners, bare, resolved,
}
use hackathon.Broker.Handler
use hackathon.Broker.Handler.Responses.{service_api, get_resolve_session_cookie}
use hackathon.Examples.Stores.{id_a, rows, sid, busy_a, service, contract, ambient}

abbrev handler : Handler (List Runner)
handler = record {
  svc = service_api service 3;
  fallback_stacks = codes "osaka" ∷ [];
  stack_self = codes "tokyo";
}

abbrev pub empty_request : Request
empty_request = record {
  session_cookie = [];
  path_param = [];
  fallback_stack = [];
  fallback_remaining = [];
  bound = none;
  request_id = codes "r";
}

abbrev cookie : SessionCookie
cookie = record { value = sid }

abbrev created : Response
created = resolved handler empty_request (record {
  session_id = sid;
  session_hex = codes "ab";
  runner_host = codes "up";
  created = true;
  reassigned = false;
})

resolve_answer : get_resolve_session handler empty_request rows ≡ (some created, busy_a ∷ [])
unfolding get_resolve_session Service.resolve_session Service.create_resolved Service.create_session
    Service.create_from Service.namespaced_session_id Operations.acquire_idle
    Operations.scan_segment Operations.query_idle_page Operations.assign_first
    Operations.assign_session Operations.delete Table.idle_row Table.assign_row Table.remove_row
    text_eq
resolve_answer = refl

get_resolve_session_cookie_example :
    (id : Text) × (y : Runner) × (find_row id (busy_a ∷ []) ≡ some y)
    × (y.state ≡ state_busy)
    × (y.current_session_id ≡ sid)
unfolding Table.count_idle text_eq
get_resolve_session_cookie_example =
    get_resolve_session_cookie service contract ambient handler empty_request 3 rows (busy_a ∷ [])
      created cookie refl (omega arith) resolve_answer refl

abbrev registration : Request
registration = record empty_request {
  bound = some (record { runner_id = id_a; private_host = codes "10.0.0.7" });
}

post_answer :
    post_register handler registration []
    ≡ (some (bare 201), idle_runner id_a (codes "10.0.0.7") ∷ [])
unfolding post_register Handler.validate_runner_host Service.register_runner Operations.register
    is_runner_id Table.find_row text_eq
post_answer = refl

abbrev asking : HttpRequest
asking = record {
  method = get;
  path = codes "/resolve/session";
  session_cookie = [];
  fallback_stack = [];
  fallback_remaining = [];
  bound = none;
}

asks : match asking ≡ some resolve_route
unfolding match route_of Text.split text_eq
asks = refl

abbrev next_id : List Runner → Option Text × List Runner
next_id w = (some (codes "r"), w)

abbrev missing : HttpRequest → List Runner → Option Response × List Runner
missing req w = (some (bare 404), w)

handle-Answers_example : Answers resolve_route (handle handler next_id missing asking rows)
handle-Answers_example = handle-Answers handler next_id missing asking rows resolve_route asks
