-- ===== src/Runner/Process/Leave.antt =====
-- runner/main.go over the network of runner/register.go: what run leaves of the runner's row.
use hackathon.Common.{ℕ, ◌≡◌, refl, ◌∙◌, ap, ◌⊎◌, Bool, true, false, Option, none, List}
use hackathon.Text.{Text, is_empty}
use hackathon.Text.Separated.{Lacks}
use hackathon.Broker.Model.{Runner}
use hackathon.Broker.Store.Table.{find_row, remove_row}
use hackathon.Broker.Service.Contract.{Contract}
use hackathon.Runner.Identity.{Identity}
use hackathon.Runner.Registration.{DeregisterError, deregister}
use hackathon.Runner.Registration
use hackathon.Runner.Registration.Wire.{Wire, WireLaws, register_deps, deregister_deps}
use hackathon.Runner.Registration.Wire.Leaving.{deregister-LeaveEffect}
use hackathon.Runner.Process.{ProcessDeps, after_close, after_shutdown, leave, after_serve}

-- The operations of a process other than the two requests.
pub record Host (World : Type 0) : Type 1 where
  pub Judge : Type 0
  pub getenv : Text → Text
  pub listen : Text → World → Bool × World
  pub close_listener : World → World
  pub resolve_identity : World → Option Identity × World
  pub new_validator : Option Judge
  pub serve : Judge → World → Bool × World
  pub shutdown : World → Bool × World
  pub close_all : World → Bool × World

abbrev pub process_deps : (n : Wire) → Host n.service.World → ℕ → ProcessDeps
process_deps n h fuel = record {
  World = n.service.World;
  Judge = h.Judge;
  getenv = h.getenv;
  listen = h.listen;
  close_listener = h.close_listener;
  resolve_identity = h.resolve_identity;
  new_validator = h.new_validator;
  register = λ broker_url i w. Registration.register (register_deps n broker_url i) fuel w;
  serve = h.serve;
  deregister = λ broker_url id w. deregister (deregister_deps n broker_url id) w;
  shutdown = h.shutdown;
  close_all = h.close_all;
}

-- What a process does to itself while it starts and stops writes nothing to the table of the broker,
-- and nobody else does meanwhile.
pub record Apart {World : Type 0} (h : Host World) (rows : World → List Runner) : Type 0 where
  pub listen_law : (addr : Text) (w : World) → rows (h.listen addr w).1 ≡ rows w
  pub close_law : (w : World) → rows (h.close_listener w) ≡ rows w
  pub resolve_law : (w : World) → rows (h.resolve_identity w).1 ≡ rows w
  pub shutdown_law : (w : World) → rows (h.shutdown w).1 ≡ rows w
  pub close_all_law : (w : World) → rows (h.close_all w).1 ≡ rows w

module _ (n : Wire) {rows : n.service.World → List Runner} (l : WireLaws n rows)
    (c : Contract n.service.repo rows) (h : Host n.service.World) (a : Apart h rows)
    (fuel : ℕ) where
  open n use {service}
  open service use {World}
  open h use {shutdown, close_all}
  open a use {shutdown_law, close_all_law}

  abbrev process : ProcessDeps
  process = process_deps n h fuel

  -- The row is gone or was left alone, and is gone if the broker said so.
  abbrev pub Left : Text → Text → World → World → Type 0
  Left broker_url id w w' =
      ((rows w' ≡ rows w) ⊎ (rows w' ≡ remove_row id (rows w)))
      × ((deregister (deregister_deps n broker_url id) w).0 ≡ none → find_row id (rows w') ≡ none)

  leave-Left :
      (broker_url id : Text) (w : World)
      → is_empty broker_url ≡ false
      → is_empty id ≡ false
      → Lacks b'/' id
      → Left broker_url id w (leave process broker_url id w)
  leave-Left broker_url id w url filled no_slash =
      rw (url, filled) (deregister-LeaveEffect n l c broker_url id w no_slash filled)

  close_rows : (shut : Bool) (o : Bool × World) → (after_close process shut o).1 ≡ o.1
  close_rows shut (closed, w) = refl

  shutdown_rows : (o : Bool × World) → rows (after_shutdown process o).1 ≡ rows o.1
  shutdown_rows (shut, w) = ap rows (close_rows shut (close_all w)) ∙ close_all_law w

  -- After a signal.
  pub signalled-Left :
      (broker_url id : Text) (w : World)
      → is_empty broker_url ≡ false
      → is_empty id ≡ false
      → Lacks b'/' id
      → Left broker_url id w (after_serve process broker_url id (true, w)).1
  signalled-Left broker_url id w url filled no_slash =
      let gone = leave-Left broker_url id w url filled no_slash in
      rw
        (shutdown_rows (shutdown (leave process broker_url id w))
          ∙ shutdown_law (leave process broker_url id w))
        gone
