-- ===== src/Runner/Registration/Wire/Looping.antt =====
-- The registration loop over the network: what a success means, and when there is none.
use hackathon.Common.{ℕ, zero, suc, ◌<◌, ◌≡◌, ◌≢◌, refl, subst, Bool, true, false, some, List}
use hackathon.Text.{Text}
use hackathon.Text.Laws.{text_eq_refl}
use hackathon.Broker.Model.{Runner}
use hackathon.Broker.Store.{idle_runner}
use hackathon.Broker.Store.Table.{find_row}
use hackathon.Broker.Store.Effects.{Registers}
use hackathon.Broker.Service.Contract.{Contract}
use hackathon.Runner.Identity.{Identity}
use hackathon.Runner.Registration.{
  Registered, registered, cancelled, cut_off, is_created, post_once, after_wait, register,
}
use hackathon.Runner.Registration.Rounds.{Rounds, Exit, register-Exit}
use hackathon.Runner.Registration.Wire.{Wire, WireLaws, register_deps}
use hackathon.Runner.Registration.Wire.Entering.{Listed, attempt_created, attempt_taken}

module _ (n : Wire) {rows : n.service.World → List Runner} (l : WireLaws n rows)
    (c : Contract n.service.repo rows) (broker_url : Text) (i : Identity) where
  open n use {service, fate, wait}
  open service use {World}

  abbrev try_register : ℕ → World → Registered × World
  try_register = register (register_deps n broker_url i)

  entered_by :
      (fuel : ℕ) (w w' : World)
      → Exit (register_deps n broker_url i) fuel w (registered, w')
      → (k : ℕ) × (last : World) × (k < fuel)
        × Rounds (register_deps n broker_url i) k w last
        × Registers i.runner_id i.private_host (rows last) (rows w')
  entered_by fuel w w' (k, last, lt, rounds, created, e) =
      (k, last, lt, rounds, rw e (attempt_created n l c broker_url i last created))

  -- If the loop says that the runner is registered, then its last attempt wrote the runner's row: the
  -- id was free until then and is well formed, the host is not empty, and the table has one more row
  -- than before that attempt, idle.
  pub register_entered :
      (fuel : ℕ) (w w' : World)
      → register (register_deps n broker_url i) fuel w ≡ (registered, w')
      → (k : ℕ) × (last : World) × (k < fuel)
        × Rounds (register_deps n broker_url i) k w last
        × Registers i.runner_id i.private_host (rows last) (rows w')
  register_entered fuel w w' h = entered_by fuel w w' (
      subst (Exit (register_deps n broker_url i) fuel w) h
        (register-Exit (register_deps n broker_url i) fuel w))

  -- Nobody else takes the runner's row away during a wait.
  abbrev pub Undisturbed : Type 0
  Undisturbed = (w : World) → Listed n l c broker_url i w → Listed n l c broker_url i (wait w).1

  still-Listed :
      (w : World)
      → Listed n l c broker_url i w
      → Listed n l c broker_url i (post_once (register_deps n broker_url i) w).1
  still-Listed w (y, there) = (y, rw (attempt_taken n l c broker_url i w (y, there)).0 there)

  Rounds-Listed :
      (k : ℕ) (w last : World)
      → Undisturbed
      → Listed n l c broker_url i w
      → Rounds (register_deps n broker_url i) k w last
      → Listed n l c broker_url i last
  Rounds-Listed zero w last u h e = rw e h
  Rounds-Listed (suc k) w last u h (failed, waited, rounds) =
      Rounds-Listed k _ last u (u _ (still-Listed w h)) rounds

  -- No success, and the runner's row is there.
  abbrev pub Stuck : Registered × World → Type 0
  Stuck final = (final.0 ≢ registered) × Listed n l c broker_url i final.1

  stops-Listed :
      (last w' : World)
      → Undisturbed
      → Listed n l c broker_url i last
      → wait (post_once (register_deps n broker_url i) last).1 ≡ (false, w')
      → Listed n l c broker_url i w'
  stops-Listed last w' u h e =
      subst (λ (o : Bool × World). Listed n l c broker_url i o.1) e (u _ (still-Listed last h))

  Exit-Stuck :
      (fuel : ℕ) (w : World) (final : Registered × World)
      → Undisturbed
      → Listed n l c broker_url i w
      → Exit (register_deps n broker_url i) fuel w final
      → Stuck final
  Exit-Stuck fuel w (registered, w') u h (k, last, lt, rounds, created, e) =
      absurd (
        cc (created, (attempt_taken n l c broker_url i last (Rounds-Listed k w last u h rounds)).1))
  Exit-Stuck fuel w (cancelled, w') u h (k, last, lt, rounds, failed, e) =
      (cc, stops-Listed last w' u (Rounds-Listed k w last u h rounds) e)
  Exit-Stuck fuel w (cut_off, w') u h rounds = (cc, Rounds-Listed fuel w w' u h rounds)

  -- If the table has a row of the runner's id and nobody takes it away, then the loop never reports
  -- success, however long it goes on, and the row stays.
  pub register_never :
      (fuel : ℕ) (w : World)
      → Undisturbed
      → Listed n l c broker_url i w
      → Stuck (register (register_deps n broker_url i) fuel w)
  register_never fuel w u h =
      Exit-Stuck fuel w _ u h (register-Exit (register_deps n broker_url i) fuel w)

  registered_row :
      (id host : Text) (before after : List Runner)
      → Registers id host before after
      → find_row id after ≡ some (idle_runner id host)
  unfolding find_row
  registered_row id host before after (v, f, absent, wrote) = rw (wrote, text_eq_refl id) refl

  after_wait-Stuck :
      (fuel : ℕ) (o : Bool × World)
      → Undisturbed
      → Listed n l c broker_url i o.1
      → Stuck (
          after_wait
            (register_deps n broker_url i)
            (register (register_deps n broker_url i) fuel)
            o)
  after_wait-Stuck fuel (true, w) u h = register_never fuel w u h
  after_wait-Stuck fuel (false, w) u h = (cc, h)

  -- If the first attempt wrote the runner's row but was not answered by 201, because the answer was
  -- lost on the way, and nobody takes the row away meanwhile, then the loop never reports success,
  -- however long it goes on, and the row stays, also where the loop is cancelled.
  pub register_lost_answer :
      (fuel : ℕ) (w : World)
      → ((w1 : World) → Listed n l c broker_url i w1 → Listed n l c broker_url i (wait w1).1)
      → is_created (post_once (register_deps n broker_url i) w).0 ≡ false
      → Registers i.runner_id i.private_host
          (rows w)
          (rows (post_once (register_deps n broker_url i) w).1)
      → ((register (register_deps n broker_url i) (suc fuel) w).0 ≢ registered)
        × Listed n l c broker_url i (register (register_deps n broker_url i) (suc fuel) w).1
  unfolding register
  register_lost_answer fuel w u lost wrote = rw lost (
      after_wait-Stuck fuel (wait (post_once (register_deps n broker_url i) w).1) u
        (u _ (idle_runner i.runner_id i.private_host, registered_row _ _ _ _ wrote)))
