-- ===== src/Runner/Process/Life.antt =====
-- runner/main.go over the network of runner/register.go: a process from its start to its end.
use hackathon.Common.{
  ℕ, ◌≡◌, refl, ◌∙◌, ap, inl, inr, Bool, true, false, Option, none, some, List, [], ◌∷◌, arith,
  Bool-cases,
}
use hackathon.Text.{Text, codes, is_empty, is_lower_hex, all_test}
use hackathon.Text.Separated.{Lacks}
use hackathon.Broker.Model.{Runner}
use hackathon.Broker.Store.{is_runner_id}
use hackathon.Broker.Store.Effects.{Registers}
use hackathon.Broker.Service.Contract.{Contract}
use hackathon.Runner.Identity.{Identity}
use hackathon.Runner.Registration.{Registered, registered, cancelled, cut_off, register}
use hackathon.Runner.Registration.Rounds.{Rounds}
use hackathon.Runner.Registration.Wire.{Wire, WireLaws, register_deps}
use hackathon.Runner.Registration.Wire.Looping.{register_entered}
use hackathon.Runner.Process.{
  ProcessDeps, listen_failed, identity_unresolved, missing_broker_url, validator_unbuilt,
  not_registered, serve_failed, shutdown_failed, shells_unclosed, still_registering, Ended,
  after_close, after_shutdown, after_serve, run, after_register, with_validator, with_identity,
  after_listen, start,
}
use hackathon.Runner.Process.Leave.{Host, Apart, process_deps, Left, signalled-Left}

hex_no_slash : (s : Text) → all_test is_lower_hex s ≡ true → Lacks b'/' s
hex_no_slash [] h = tt
hex_no_slash (c ∷ s) h = ground (arith, hex_no_slash s)

id_no_slash : (id : Text) → is_runner_id id ≡ true → Lacks b'/' id
unfolding is_runner_id
id_no_slash id h = hex_no_slash id (ground arith)

id_filled : (id : Text) → is_runner_id id ≡ true → is_empty id ≡ false
unfolding is_runner_id
id_filled [] h = ground arith
id_filled (c ∷ id) h = refl

module _ (n : Wire) {rows : n.service.World → List Runner} (l : WireLaws n rows)
    (c : Contract n.service.repo rows) (h : Host n.service.World) (a : Apart h rows)
    (fuel : ℕ) where
  open n use {service}
  open service use {World}
  open h use {
    Judge, getenv, listen, close_listener, resolve_identity, new_validator, serve, shutdown,
    close_all,
  }
  open a use {listen_law, close_law, resolve_law}

  abbrev url : Text
  url = getenv (codes "BROKER_URL")

  -- The loop began at the table that the process found, and its last attempt wrote the row.
  abbrev pub Entered : Identity → World → World → Type 0
  Entered i w w2 =
      (w1 : World) × (k : ℕ) × (last : World) × (rows w1 ≡ rows w)
      × Rounds (register_deps n url i) k w1 last
      × Registers i.runner_id i.private_host (rows last) (rows w2)

  -- The loop began at the table that the process found, and ended in `result`.
  abbrev pub GaveUp : Registered → World → World → Type 0
  GaveUp result w w' =
      (i : Identity) × (w1 : World) × (w2 : World) × (rows w1 ≡ rows w)
      × (register (register_deps n url i) fuel w1 ≡ (result, w2))
      × (rows w' ≡ rows w2)

  abbrev pub Stopped : World → World → Type 0
  Stopped w w' =
      (i : Identity) × (judge : Judge) × (w2 : World) × Entered i w w2
      × ((serve judge w2).0 ≡ true)
      × Left n l c h a fuel url i.runner_id (serve judge w2).1 w'

  abbrev pub Crashed : World → World → Type 0
  Crashed w w' =
      (i : Identity) × (judge : Judge) × (w2 : World) × Entered i w w2
      × ((serve judge w2).0 ≡ false)
      × (rows w' ≡ rows (serve judge w2).1)

  abbrev pub StartEffect : World → Ended World → Type 0
  StartEffect w (none, w') = Stopped w w'
  StartEffect w (some shutdown_failed, w') = Stopped w w'
  StartEffect w (some shells_unclosed, w') = Stopped w w'
  StartEffect w (some serve_failed, w') = Crashed w w'
  StartEffect w (some not_registered, w') = GaveUp cancelled w w'
  StartEffect w (some still_registering, w') = GaveUp cut_off w w'
  StartEffect w (some listen_failed, w') = rows w' ≡ rows w
  StartEffect w (some identity_unresolved, w') = rows w' ≡ rows w
  StartEffect w (some missing_broker_url, w') = rows w' ≡ rows w
  StartEffect w (some validator_unbuilt, w') = rows w' ≡ rows w

  abbrev process : ProcessDeps
  process = process_deps n h fuel

  closed_all :
      (w : World) (shut : Bool) (o : Bool × World)
      → Stopped w (after_close process shut o).1
      → StartEffect w (after_close process shut o)
  closed_all w false (closed, w') s = s
  closed_all w true (false, w') s = s
  closed_all w true (true, w') s = s

  shut_down :
      (w : World) (o : Bool × World)
      → Stopped w (after_shutdown process o).1
      → StartEffect w (after_shutdown process o)
  shut_down w (shut, w') s = closed_all w shut (close_all w') s

  served :
      (i : Identity) (judge : Judge) (w w2 : World) (o : Bool × World)
      → is_empty url ≡ false
      → Entered i w w2
      → is_runner_id i.runner_id ≡ true
      → serve judge w2 ≡ o
      → StartEffect w (after_serve process url i.runner_id o)
  served i judge w w2 (false, w3) filled e v s =
      (i, judge, w2, e, ap (λ (x : Bool × World). x.0) s, rw s refl)
  served i judge w w2 (true, w3) filled e v s = shut_down w _ (
    i,
    judge,
    w2,
    e,
    ap (λ (x : Bool × World). x.0) s,
    rw s (
        signalled-Left n l c h a fuel url i.runner_id w3 filled (id_filled i.runner_id v)
          (id_no_slash i.runner_id v)),
  )

  entered :
      (i : Identity) (judge : Judge) (w w1 : World) (o : Registered × World)
      → is_empty url ≡ false
      → rows w1 ≡ rows w
      → register (register_deps n url i) fuel w1 ≡ o
      → StartEffect w (after_register process judge url i.runner_id o)
  unfolding run
  entered i judge w w1 (registered, w2) filled same e =
      let (k, last, lt, rounds, wrote) = register_entered n l c url i fuel w1 w2 e in
      served i judge w w2 (serve judge w2) filled (w1, k, last, same, rounds, wrote) wrote.0 refl
  entered i judge w w1 (cancelled, w2) filled same e = (i, w1, w2, same, e, close_law w2)
  entered i judge w w1 (cut_off, w2) filled same e = (i, w1, w2, same, e, refl)

  validated :
      (i : Identity) (w w1 : World) (v : Option Judge)
      → is_empty url ≡ false
      → rows w1 ≡ rows w
      → StartEffect w (with_validator process url i w1 v)
  validated i w w1 none filled same = close_law w1 ∙ same
  validated i w w1 (some judge) filled same = entered i judge w w1 _ filled same refl

  identified :
      (w : World) (o : Option Identity × World)
      → rows o.1 ≡ rows w
      → StartEffect w (with_identity process url o)
  identified w (none, w1) same = close_law w1 ∙ same
  identified w (some i, w1) same = elim (Bool-cases (is_empty url)) [
    | inl no_url ↦ rw no_url (close_law w1 ∙ same)
    | inr filled ↦ rw filled (validated i w w1 new_validator filled same)
  ]

  listened :
      (w : World) (o : Bool × World) → rows o.1 ≡ rows w → StartEffect w (after_listen process o)
  listened w (false, w1) same = same
  listened w (true, w1) same = identified w (resolve_identity w1) (resolve_law w1 ∙ same)

  -- A process that starts, over the network to the broker. If it stops on a signal, then it had
  -- written its own row, and afterwards it left the table as it found it or took that row out of it;
  -- the row is gone if the broker confirmed it. If the server failed, its row was written and the
  -- process did nothing about it. If it was cancelled while it registered, the table is what the last
  -- attempt left. If it failed before it registered, the table did not change.
  pub start-StartEffect : (addr : Text) (w : World) → StartEffect w (start process addr w)
  unfolding start
  start-StartEffect addr w = listened w (listen addr w) (listen_law addr w)
