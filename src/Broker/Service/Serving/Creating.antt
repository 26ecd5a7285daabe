-- ===== src/Broker/Service/Serving/Creating.antt =====
-- createSession while a healthy runner waits.
use hackathon.Common.{ℕ, zero, suc, ◌≡◌, refl, ◌∙◌, ap, Bool, true, false, Option, none, some, List}
use hackathon.Text.{Text, text_eq}
use hackathon.Broker.Model.{Runner}
use hackathon.Broker.Outcome.{Outcome, ok, err, out_of_fuel, next}
use hackathon.Broker.Store.{StoreError, no_idle_runner}
use hackathon.Broker.Store.Table.{assign_row, find-assign_ne}
use hackathon.Broker.Store.Acquire.{AcquireEffect}
use hackathon.Broker.Store.Current.{Exact}
use hackathon.Broker.Service.{
  BrokerService, ServiceError, store_error, CreateSessionResult, raised, after_check, create_from,
  with_session, create_session, namespaced_session_id,
}
use hackathon.Broker.Service.Serving.{
  Prompt, Waits, NotExhausted, other_runner, unhealthy_lem, idle-Waits,
}
use hackathon.Broker.Service.Contract.{Contract, Ambient}

module _ (s : BrokerService) {rows : s.World → List Runner} (c : Contract s.repo rows)
    (m : Ambient s rows) (p : Prompt s.repo rows) (x : Runner)
    (steady : (w : s.World) → (s.check x.private_host w).0 ≡ true) where
  open s use {World, repo, check, context_err, session_fn}
  open c use {acquire_law, delete_law, find_law}
  open m use {check_law, session_law}
  open p use {acquire_exact, find_exact, find_error}

  after_check_lem :
      (session_id session_hex : Text) (table : List Runner) (y : Runner) (w : World)
      (go_on : World → Outcome ServiceError CreateSessionResult × World) (verdict : Bool × World)
      → check y.private_host w ≡ verdict
      → rows verdict.1 ≡ table
      → ((check y.private_host w).0 ≡ false → text_eq y.runner_id x.runner_id ≡ false)
      → (text_eq y.runner_id x.runner_id ≡ false → Waits x table)
      → ((w' : World) → Waits x (rows w') → NotExhausted (go_on w').0)
      → NotExhausted (after_check s session_id session_hex y go_on verdict).0
  after_check_lem session_id session_hex table y w go_on (true, w1) e same differs h more = tt
  after_check_lem session_id session_hex table y w go_on (false, w1) e same differs h more =
      let apart = differs (ap (λ (v : Bool × World). v.0) e) in
      unhealthy_lem s c m p x steady table y go_on (context_err w1) w1 same (h apart) apart more

  round_lem :
      (session_id session_hex : Text) (table : List Runner)
      (go_on : World → Outcome ServiceError CreateSessionResult × World)
      (reply : Outcome StoreError Runner × World)
      → Waits x table
      → Exact table reply.0
      → AcquireEffect session_id table (rows reply.1) reply.0
      → ((w' : World) → Waits x (rows w') → NotExhausted (go_on w').0)
      → NotExhausted
          (next
            (raised store_error reply)
            λ y w1. after_check s session_id session_hex y go_on (check y.private_host w1)).0
  round_lem session_id session_hex table go_on (ok y, w) h (z, mine, idle, same_id, host) a more =
      after_check_lem session_id session_hex (assign_row y.runner_id session_id table) y w go_on
        (check y.private_host w) refl (check_law y.private_host w ∙ a.one_row)
        (other_runner s c m p x steady table y.runner_id y.private_host w z h mine same_id host)
        (λ apart. (find-assign_ne y.runner_id x.runner_id session_id table apart ∙ h.0, h.1)) more
  round_lem session_id session_hex table go_on (err no_idle_runner, w) h none_idle a more =
      absurd (cc (idle-Waits x table h, none_idle x.runner_id))
  round_lem session_id session_hex table go_on (err _, w) h e a more = tt
  round_lem session_id session_hex table go_on (out_of_fuel, w) h e a more = tt

  create_from_lem :
      (fuel : ℕ) (session_id session_hex : Text) (w : World)
      → Waits x (rows w)
      → NotExhausted (create_from s fuel session_id session_hex w).0
  unfolding create_from
  create_from_lem zero session_id session_hex w h = tt
  create_from_lem (suc fuel) session_id session_hex w h =
      round_lem session_id session_hex (rows w) (create_from s fuel session_id session_hex)
        (repo.acquire_idle session_id w) h (acquire_exact session_id w) (acquire_law session_id w)
        (λ w' h'. create_from_lem fuel session_id session_hex w' h')

  with_session_lem :
      (fuel : ℕ) (reply : Option Text × World)
      → Waits x (rows reply.1)
      → NotExhausted (with_session s fuel reply).0
  with_session_lem fuel (none, w) h = tt
  with_session_lem fuel (some session_hex, w) h =
      create_from_lem fuel (namespaced_session_id s session_hex) session_hex w h

  pub create_session_lem :
      (fuel : ℕ) (w : World) → Waits x (rows w) → NotExhausted (create_session s fuel w).0
  unfolding create_session
  create_session_lem fuel w h = with_session_lem fuel (session_fn w) (rw (session_law w) h)
