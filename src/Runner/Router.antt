-- ===== src/Runner/Router.antt =====
-- runner/handler.go, newHandler: which handler answers which request, over the map of shells. What gin
-- answers where no route fits is a parameter.
pub mod History
use hackathon.Common.{ℕ, Bool, true, false, Option, none, some, List, [], ◌∷◌, if◌then◌else◌}
use hackathon.Text.{Text, codes, text_eq}
use hackathon.Broker.Outcome.{Outcome}
use hackathon.Broker.Router.{Method, get, post, delete, other_method}
use hackathon.Runner.Shell.{Result}
use hackathon.Runner.Validator.{ValidateError, ValidationResult}
use hackathon.Runner.Manager.{Shells, Table}
use hackathon.Runner.Sessions.{ShellAnswer, handle_create_shell, handle_delete_shell}
use hackathon.Runner.Execute.{Netip, Answer, AuditLine, Request, Surroundings, handle_execute}

-- An absent cookie or header is the empty text.
pub record ApiRequest : Type 0 where
  pub method : Method
  pub path : Text
  pub request : Request

pub data ApiRoute : Type 0 where
  health_route create_shell_route delete_shell_route execute_route : ApiRoute

abbrev pub routed : Bool → ApiRoute → Option ApiRoute
routed true route = some route
routed false route = none

unfoldable pub api_route : Method → Text → Option ApiRoute
api_route get path = routed (text_eq path (codes "/health")) health_route
api_route post path =
    if text_eq path (codes "/api/shell")
    then some create_shell_route
    else routed (text_eq path (codes "/api/execute")) execute_route
api_route delete path = routed (text_eq path (codes "/api/shell")) delete_shell_route
api_route other_method path = none

pub data ApiAnswer : Type 0 where
  healthy : ApiAnswer
  shell_answer : ShellAnswer → ApiAnswer
  execute_answer : Answer → List AuditLine → ApiAnswer
  not_routed : ℕ → ApiAnswer

-- What the engine is made of: the shell manager's parameters, the validator and the shells' streams.
pub record Parts : Type 1 where
  pub shells : Shells
  pub netip : Netip
  pub validate : Text → shells.World → Outcome ValidateError ValidationResult × shells.World
  pub execute_stream :
      shells.Shell → Text → shells.World → (Option Result × List Text) × shells.World
  pub unrouted : ApiRequest → ℕ

module _ (p : Parts) where
  open p use {shells, netip, validate, execute_stream, unrouted}
  open shells use {World, Shell}

  abbrev pub surroundings : Surroundings
  surroundings = record {
    World = World;
    Shell = Shell;
    netip = netip;
    validate = validate;
    execute_stream = execute_stream;
  }

  abbrev pub Engine : Type 0
  Engine = Table Shell × World

  abbrev pub of_shells : ShellAnswer × Table Shell × World → ApiAnswer × Engine
  of_shells (answer, table, w) = (shell_answer answer, (table, w))

  -- The map stays as it is.
  abbrev pub of_execute : Table Shell → Answer × List AuditLine × World → ApiAnswer × Engine
  of_execute table (answer, audit, w) = (execute_answer answer audit, (table, w))

  abbrev pub serve : ApiRequest → Engine → Option ApiRoute → ApiAnswer × Engine
  serve req (table, w) none = (not_routed (unrouted req), (table, w))
  serve req (table, w) (some health_route) = (healthy, (table, w))
  serve req (table, w) (some create_shell_route) = of_shells (handle_create_shell shells table w)
  serve req (table, w) (some delete_shell_route) =
      of_shells (handle_delete_shell shells req.request.shell_cookie table w)
  serve req (table, w) (some execute_route) =
      of_execute table (handle_execute surroundings table req.request w)

  unfoldable pub handle : ApiRequest → Engine → ApiAnswer × Engine
  unfolding api_route
  handle req engine = serve req engine (api_route req.method req.path)
