-- ===== src/Runner/Process/Listener.antt =====
-- runner/main.go: what becomes of the listener.
use hackathon.Common.{
  ◌≡◌, ◌≢◌, refl, sym, ◌∙◌, ap, Bool, true, false, Option, none, some, ◌∷◌, inl, inr, Bool-cases,
}
use hackathon.Text.{Text, codes, is_empty}
use hackathon.Runner.Identity.{Identity}
use hackathon.Runner.Registration.{Registered, registered, cancelled, cut_off}
use hackathon.Runner.Process.{
  ProcessDeps, still_registering, server_error, Ended, after_close, after_shutdown, leave,
  after_serve, run, after_register, with_validator, with_identity, after_listen, start, reported,
  main,
}

-- net/http closes the listener that it serves, when Serve ends and in Shutdown, also where either
-- reports an error; a failed Listen opens none, and the shells have no part in it.
pub record Listening (d : ProcessDeps) (is_open : d.World → Bool) : Type 0 where
  pub listen_law :
      (addr : Text) (w : d.World)
      → (d.listen addr w).0 ≡ false
      → is_open (d.listen addr w).1 ≡ is_open w
  pub close_law : (w : d.World) → is_open (d.close_listener w) ≡ false
  pub serve_law :
      (judge : d.Judge) (w : d.World)
      → (d.serve judge w).0 ≡ false
      → is_open (d.serve judge w).1 ≡ false
  pub shutdown_law : (w : d.World) → is_open (d.shutdown w).1 ≡ false
  pub close_all_law : (w : d.World) → is_open (d.close_all w).1 ≡ is_open w

module _ (d : ProcessDeps) {is_open : d.World → Bool} (l : Listening d is_open) where
  open d use {
    World, Judge, getenv, listen, close_listener, resolve_identity, new_validator, register, serve,
    shutdown, close_all,
  }
  open l use {listen_law, close_law, serve_law, shutdown_law, close_all_law}

  abbrev Shut : Ended World → Type 0
  Shut (error, w) = error ≢ some still_registering → is_open w ≡ false

  closed_all : (shut : Bool) (o : Bool × World) → is_open o.1 ≡ false → Shut (after_close d shut o)
  closed_all shut (closed, w) e h = e

  stopped-Shut : (o : Bool × World) → is_open o.1 ≡ false → Shut (after_shutdown d o)
  stopped-Shut (shut, w) e h = closed_all shut (close_all w) (close_all_law w ∙ e) h

  served :
      (judge : Judge) (broker_url id : Text) (w : World) (o : Bool × World)
      → serve judge w ≡ o
      → Shut (after_serve d broker_url id o)
  served judge broker_url id w (false, w1) e h =
      ap (λ (x : Bool × World). is_open x.1) (sym e)
      ∙ serve_law judge w (ap (λ (x : Bool × World). x.0) e)
  served judge broker_url id w (true, w1) e h =
      stopped-Shut (shutdown (leave d broker_url id w1)) (shutdown_law (leave d broker_url id w1)) h

  ran : (judge : Judge) (broker_url id : Text) (w : World) → Shut (run d judge broker_url id w)
  unfolding run
  ran judge broker_url id w = served judge broker_url id w (serve judge w) refl

  registered_or_not :
      (judge : Judge) (broker_url id : Text) (o : Registered × World)
      → Shut (after_register d judge broker_url id o)
  registered_or_not judge broker_url id (registered, w) = ran judge broker_url id w
  registered_or_not judge broker_url id (cancelled, w) = λ h. close_law w
  registered_or_not judge broker_url id (cut_off, w) = λ h. absurd (h refl)

  validated :
      (broker_url : Text) (i : Identity) (w : World) (v : Option Judge)
      → Shut (with_validator d broker_url i w v)
  validated broker_url i w none = λ h. close_law w
  validated broker_url i w (some judge) =
      registered_or_not judge broker_url i.runner_id (register broker_url i w)

  identified :
      (broker_url : Text) (o : Option Identity × World) → Shut (with_identity d broker_url o)
  identified broker_url (none, w) = λ h. close_law w
  identified broker_url (some i, w) = elim (Bool-cases (is_empty broker_url)) [
    | inl no_url ↦ rw no_url (λ h. close_law w)
    | inr has_url ↦ rw has_url (validated broker_url i w new_validator)
  ]

  listened :
      (addr : Text) (w : World) (o : Bool × World)
      → is_open w ≡ false
      → listen addr w ≡ o
      → Shut (after_listen d o)
  listened addr w (false, w1) none_open e h =
      ap (λ (x : Bool × World). is_open x.1) (sym e)
      ∙ (listen_law addr w (ap (λ (x : Bool × World). x.0) e) ∙ none_open)
  listened addr w (true, w1) none_open e h =
      identified (getenv (codes "BROKER_URL")) (resolve_identity w1) h

  started : (addr : Text) (w : World) → is_open w ≡ false → Shut (start d addr w)
  unfolding start
  started addr w none_open = listened addr w (listen addr w) none_open refl

  over :
      (o : Ended World)
      → Shut o
      → (reported d o).0 ≢ some (server_error still_registering)
      → is_open (reported d o).1 ≡ false
  over (none, w) s h = s cc
  over (some e, w) s h = s (λ same. h (cc same))

  -- A process that starts without a listener leaves none open when it ends, whichever step failed,
  -- unless it is still registering.
  pub main_closed :
      (w : World)
      → is_open w ≡ false
      → (main d w).0 ≢ some (server_error still_registering)
      → is_open (main d w).1 ≡ false
  unfolding main
  main_closed w none_open = elim (Bool-cases (is_empty (getenv (codes "RUNNER_API_PORT")))) [
    | inl no_port ↦ rw no_port (λ h. none_open)
    | inr port ↦
        rw port (over (start d (b':' ∷ getenv (codes "RUNNER_API_PORT")) w) (started _ w none_open))
  ]
