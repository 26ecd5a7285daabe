-- ===== src/Broker/Router.antt =====
-- broker/main.go, newRouter: which handler answers which request. The matching of paths is gin's: a
-- parameter takes one segment that is not empty. What gin answers itself, where no route fits, is a
-- parameter.
pub mod Answers
use hackathon.Common.{
  Bool, true, false, not, ◌&&◌, Option, none, some, List, [], ◌∷◌, ◌≡◌, refl, if◌then◌else◌,
}
use hackathon.Text.{Text, codes, text_eq, is_empty}
use hackathon.Text
use hackathon.Broker.Handler.{
  Handler, Request, Response, RegisterRequest, bare, text_body, delete_session, get_resolve_session,
  post_register, delete_runner, get_list_busy_runners,
}
use hackathon.Broker.Handler.Middleware.{request_id_middleware}

pub data Method : Type 0 where
  get post delete other_method : Method

-- An absent cookie or header is the empty text.
pub record HttpRequest : Type 0 where
  pub method : Method
  pub path : Text
  pub session_cookie : Text
  pub fallback_stack : Text
  pub fallback_remaining : Text
  pub bound : Option RegisterRequest

pub data Route : Type 0 where
  health_route resolve_route register_route busy_route : Route
  session_route runner_route : Text → Route

abbrev pub when : Bool → Route → Option Route
when true route = some route
when false route = none

unfoldable pub route_of : Method → List Text → Option Route
route_of get ([] ∷ a ∷ []) = when (text_eq a (codes "health")) health_route
route_of get ([] ∷ a ∷ b ∷ []) =
    if text_eq a (codes "resolve") && text_eq b (codes "session")
    then some resolve_route
    else when (text_eq a (codes "runners") && text_eq b (codes "busy")) busy_route
route_of post ([] ∷ a ∷ b ∷ c ∷ []) =
    when
      (text_eq a (codes "internal") && text_eq b (codes "runners") && text_eq c (codes "register"))
      register_route
route_of delete ([] ∷ a ∷ b ∷ []) =
    when (text_eq a (codes "sessions") && not (is_empty b)) (session_route b)
route_of delete ([] ∷ a ∷ b ∷ c ∷ []) =
    when (text_eq a (codes "internal") && text_eq b (codes "runners") && not (is_empty c))
      (runner_route c)
route_of method segments = none

unfoldable pub match : HttpRequest → Option Route
unfolding route_of
match req = route_of req.method (Text.split b'/' req.path)

-- What the handlers read of a request.
abbrev pub to_handler : HttpRequest → Text → Text → Request
to_handler req param id = record {
  session_cookie = req.session_cookie;
  path_param = param;
  fallback_stack = req.fallback_stack;
  fallback_remaining = req.fallback_remaining;
  bound = req.bound;
  request_id = id;
}

module _ {World : Type 0} (h : Handler World) (id_fn : World → Option Text × World)
    (unrouted : HttpRequest → World → Option Response × World) where
  abbrev pub Answer : Type 0
  Answer = Option Response × World

  -- The routes behind the middleware, and /health in front of it.
  abbrev pub serve : HttpRequest → World → Option Route → Answer
  serve req w (some health_route) =
      (some (record (bare 200) { body = text_body (codes "ok\n") }), w)
  serve req w (some (session_route id)) =
      request_id_middleware id_fn (λ x. delete_session h (to_handler req id x)) w
  serve req w (some resolve_route) =
      request_id_middleware id_fn (λ x. get_resolve_session h (to_handler req [] x)) w
  serve req w (some register_route) =
      request_id_middleware id_fn (λ x. post_register h (to_handler req [] x)) w
  serve req w (some (runner_route id)) =
      request_id_middleware id_fn (λ x. delete_runner h (to_handler req id x)) w
  serve req w (some busy_route) =
      request_id_middleware id_fn (λ x. get_list_busy_runners h (to_handler req [] x)) w
  serve req w none = unrouted req w

  unfoldable pub handle : HttpRequest → World → Answer
  unfolding match
  handle req w = serve req w (match req)

register_path :
    Text.split b'/' (codes "/internal/runners/register")
    ≡ [] ∷ codes "internal" ∷ codes "runners" ∷ codes "register" ∷ []
unfolding Text.split
register_path = refl
