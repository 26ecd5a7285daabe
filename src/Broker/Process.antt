-- ===== src/Broker/Process.antt =====
-- broker/main.go, run and main: the life of the broker's process. net/http, the signals and what gin
-- answers itself are parameters; the lines that it prints are not modelled.
use hackathon.Common.{◌≡◌, refl, ap, Bool, true, false, Option, none, some}
use hackathon.Text.{Text}
use hackathon.Broker.Config.{ConfigError}
use hackathon.Broker.Handler.{Response}
use hackathon.Broker.Router.{HttpRequest, handle}
use hackathon.Broker.Main.{
  Started, Init, Parts, started, refused, panicked, default_init_handler,
  default_init_handler-ne-panicked,
}

-- `panic` is the panic of a constructor.
pub data RunError : Type 0 where
  init_handler : ConfigError → RunError
  serve_failed shutdown_failed panic : RunError

-- A router answers a request in the world of its handler.
abbrev pub Engine : Type 0 → Type 0
Engine W = HttpRequest → W → Option Response × W

-- `serve` is the server with the select of run: true for a signal, false if it could not go on.
pub record Server : Type 1 where
  pub World : Type 0
  pub id_fn : (W : Type 0) → W → Option Text × W
  pub unrouted : (W : Type 0) → Engine W
  pub serve : (W : Type 0) → Engine W → World → Bool × World
  pub shutdown : World → Bool × World

module _ (v : Server) where
  open v use {World, id_fn, unrouted, serve, shutdown}

  abbrev pub engine : (s : Started) → Engine s.service.World
  engine s = handle s.handler (id_fn s.service.World) (unrouted s.service.World)

  abbrev pub shut : Bool × World → Option RunError × World
  shut (true, w) = (none, w)
  shut (false, w) = (some shutdown_failed, w)

  abbrev pub after_serve : Bool × World → Option RunError × World
  after_serve (false, w) = (some serve_failed, w)
  after_serve (true, w) = shut (shutdown w)

  unfoldable pub run : Init → World → Option RunError × World
  run (started s) w = after_serve (serve s.service.World (engine s) w)
  run (refused e) w = (some (init_handler e), w)
  run panicked w = (some panic, w)

  -- `none` if nothing was fatal.
  unfoldable pub main : Parts → (Text → Text) → World → Option RunError × World
  main p getenv w = run (default_init_handler p getenv) w

  module _ (p : Parts) (getenv : Text → Text) where
    -- The handler that the settings give.
    abbrev Configured : Started → Type 1
    Configured s = default_init_handler p getenv ≡ started s

    abbrev pub RunEffect : World → Option RunError × World → Type 1
    RunEffect w (none, w') =
        (s : Started) × Configured s
        × ((serve s.service.World (engine s) w).0 ≡ true)
        × (shutdown (serve s.service.World (engine s) w).1 ≡ (true, w'))
    RunEffect w (some shutdown_failed, w') =
        (s : Started) × Configured s
        × ((serve s.service.World (engine s) w).0 ≡ true)
        × (shutdown (serve s.service.World (engine s) w).1 ≡ (false, w'))
    RunEffect w (some serve_failed, w') =
        (s : Started) × Configured s × (serve s.service.World (engine s) w ≡ (false, w'))
    RunEffect w (some (init_handler e), w') = (default_init_handler p getenv ≡ refused e) × (w' ≡ w)
    RunEffect w (some panic, w') = (default_init_handler p getenv ≡ panicked) × ⊥

    shut-RunEffect :
        (s : Started) (w : World) (o : Bool × World)
        → Configured s
        → (serve s.service.World (engine s) w).0 ≡ true
        → shutdown (serve s.service.World (engine s) w).1 ≡ o
        → RunEffect w (shut o)
    shut-RunEffect s w (true, w') c served e = (s, c, served, e)
    shut-RunEffect s w (false, w') c served e = (s, c, served, e)

    after_serve-RunEffect :
        (s : Started) (w : World) (o : Bool × World)
        → Configured s
        → serve s.service.World (engine s) w ≡ o
        → RunEffect w (after_serve o)
    after_serve-RunEffect s w (false, w') c e = (s, c, e)
    after_serve-RunEffect s w (true, w') c e =
        shut-RunEffect s w (shutdown w') c (ap (λ (x : Bool × World). x.0) e)
          (ap (λ (x : Bool × World). shutdown x.1) e)

    run-RunEffect :
        (init : Init) (w : World) → default_init_handler p getenv ≡ init → RunEffect w (run init w)
    unfolding run
    run-RunEffect (started s) w e =
        after_serve-RunEffect s w (serve s.service.World (engine s) w) e refl
    run-RunEffect (refused x) w e = (e, refl)
    run-RunEffect panicked w e = absurd (default_init_handler-ne-panicked p getenv e)

    -- The process refuses its settings before it serves anything, or it serves the router of the
    -- handler that the settings give, until a signal or a failure; it shuts down only on a signal, and
    -- never panics.
    pub main-RunEffect : (w : World) → RunEffect w (main p getenv w)
    unfolding main
    main-RunEffect w = run-RunEffect (default_init_handler p getenv) w refl
