-- ===== src/Runner/Process.antt =====
-- runner/main.go: main, start and run, the life of the runner's process. The listener, the HTTP server,
-- the signals and the shells are parameters; the log lines are not modelled.
pub mod Listener
pub mod Leave
pub mod Life
use hackathon.Common.{ℕ, Bool, true, false, ◌||◌, Option, none, some, List, [], ◌∷◌, if◌then◌else◌}
use hackathon.Text.{Text, codes, is_empty}
use hackathon.Runner.Identity.{Identity}
use hackathon.Runner.Registration.{Registered, registered, cancelled, cut_off, DeregisterError}

-- `still_registering` is no result of the code: the fuel of the registration loop ran out.
pub data ProcessError : Type 0 where
  listen_failed identity_unresolved missing_broker_url validator_unbuilt not_registered :
      ProcessError
  serve_failed shutdown_failed shells_unclosed : ProcessError
  still_registering : ProcessError

-- `serve` is the select of run: true for a signal, false if the server ended first. `shutdown` and
-- `close_all` give true if there was no error.
pub record ProcessDeps : Type 1 where
  pub World : Type 0
  pub Judge : Type 0
  pub getenv : Text → Text
  pub listen : Text → World → Bool × World
  pub close_listener : World → World
  pub resolve_identity : World → Option Identity × World
  pub new_validator : Option Judge
  pub register : Text → Identity → World → Registered × World
  pub serve : Judge → World → Bool × World
  pub deregister : Text → Text → World → Option DeregisterError × World
  pub shutdown : World → Bool × World
  pub close_all : World → Bool × World

abbrev pub Ended : Type 0 → Type 0
Ended World = Option ProcessError × World

abbrev pub first_of : Bool → Bool → Option ProcessError
first_of false closed = some shutdown_failed
first_of true false = some shells_unclosed
first_of true true = none

pub data MainError : Type 0 where
  missing_port : MainError
  server_error : ProcessError → MainError

module _ (d : ProcessDeps) where
  open d use {
    World, Judge, getenv, listen, close_listener, resolve_identity, new_validator, register, serve,
    deregister, shutdown, close_all,
  }

  -- A failure to deregister is logged and otherwise ignored.
  abbrev pub leave : Text → Text → World → World
  leave broker_url runner_id w =
      if is_empty broker_url || is_empty runner_id then w else (deregister broker_url runner_id w).1

  abbrev pub after_close : Bool → Bool × World → Ended World
  after_close shut (closed, w) = (first_of shut closed, w)

  abbrev pub after_shutdown : Bool × World → Ended World
  after_shutdown (shut, w) = after_close shut (close_all w)

  abbrev pub after_serve : Text → Text → Bool × World → Ended World
  after_serve broker_url runner_id (false, w) = (some serve_failed, w)
  after_serve broker_url runner_id (true, w) =
      after_shutdown (shutdown (leave broker_url runner_id w))

  unfoldable pub run : Judge → Text → Text → World → Ended World
  run judge broker_url runner_id w = after_serve broker_url runner_id (serve judge w)

  abbrev pub after_register : Judge → Text → Text → Registered × World → Ended World
  after_register judge broker_url runner_id (registered, w) = run judge broker_url runner_id w
  after_register judge broker_url runner_id (cancelled, w) = (some not_registered, close_listener w)
  after_register judge broker_url runner_id (cut_off, w) = (some still_registering, w)

  abbrev pub with_validator : Text → Identity → World → Option Judge → Ended World
  with_validator broker_url i w none = (some validator_unbuilt, close_listener w)
  with_validator broker_url i w (some judge) =
      after_register judge broker_url i.runner_id (register broker_url i w)

  abbrev pub with_identity : Text → Option Identity × World → Ended World
  with_identity broker_url (none, w) = (some identity_unresolved, close_listener w)
  with_identity broker_url (some i, w) =
      if is_empty broker_url
      then (some missing_broker_url, close_listener w)
      else with_validator broker_url i w new_validator

  abbrev pub after_listen : Bool × World → Ended World
  after_listen (false, w) = (some listen_failed, w)
  after_listen (true, w) = with_identity (getenv (codes "BROKER_URL")) (resolve_identity w)

  unfoldable pub start : Text → World → Ended World
  start addr w = after_listen (listen addr w)

  abbrev pub reported : Ended World → Option MainError × World
  reported (none, w) = (none, w)
  reported (some e, w) = (some (server_error e), w)

  -- `none` if nothing was fatal.
  unfoldable pub main : World → Option MainError × World
  main w =
      let port = getenv (codes "RUNNER_API_PORT") in
      if is_empty port then (some missing_port, w) else reported (start (b':' ∷ port) w)
