-- ===== src/Broker/Handler/Staying.antt =====
-- GET /resolve/session while a healthy runner waits in the stack's own pool.
use hackathon.Common.{
  ℕ, ◌<◌, ◌≡◌, ◌≢◌, refl, subst, true, Option, none, some, List, [], Bool-cases, inl, inr,
}
use hackathon.Text.{Text}
use hackathon.Broker.Model.{Runner}
use hackathon.Broker.Outcome.{Outcome, ok, err, out_of_fuel}
use hackathon.Broker.Store.{no_idle_runner}
use hackathon.Broker.Store.Table.{count_idle}
use hackathon.Broker.Store.Current.{IsIn}
use hackathon.Broker.Store.Current.Exact.{acquire_idle-Exact}
use hackathon.Broker.Store.Current.Finding.{FindExact, find_by_session_id-FindExact}
use hackathon.Broker.Store.Current.{Indexed}
use hackathon.Broker.Store.{DynamoRepository, StoreError}
use hackathon.Broker.Store.Documented.{Documented}
use hackathon.Broker.Service.{
  BrokerService, ServiceError, store_error, delete_unhealthy, ResolveResult,
}
use hackathon.Broker.Service.Contract.{Contract, Ambient, dynamo_repository}
use hackathon.Broker.Service.Resolve.{ResolveEffect, resolve_session-ResolveEffect}
use hackathon.Broker.Service.Serving.{Prompt, Waits, NotExhausted}
use hackathon.Broker.Service.Serving.Resolving.{resolve_session-NotExhausted}
use hackathon.Broker.Handler.{
  Handler, Request, Response, resolved, after_resolve, get_resolve_session,
}
use hackathon.Broker.Handler.Responses.{service_api}
use hackathon.Broker.Handler.Fallback.{next_stack}

exact_found :
    (r : DynamoRepository) (d : Documented r) (table : List Runner)
    (out : Outcome StoreError Runner)
    → FindExact r d table out
    → ((x : Runner) → out ≡ ok x → IsIn table x) × (out ≢ err no_idle_runner)
exact_found r d table (ok y) h = (λ x e. subst (IsIn table) (cc e) h, cc)
exact_found r d table (err e) h = (λ x f. cc f, λ f. h (cc f))
exact_found r d table out_of_fuel h = (λ x f. cc f, cc)

-- The DynamoDB repository promises this as long as its index is in step.
pub dynamo_repository-Prompt :
    (r : DynamoRepository) (d : Documented r) (i : Indexed r d) (fuel : ℕ)
    → d.most < fuel
    → Prompt (dynamo_repository r fuel) d.rows
dynamo_repository-Prompt r d i fuel lt = record {
  acquire_exact = λ session_id w. acquire_idle-Exact r d i fuel session_id w lt;
  find_exact = λ session_id w.
      (exact_found r d (d.rows w) _ (find_by_session_id-FindExact r d i session_id w)).0;
  find_error = λ session_id w.
      (exact_found r d (d.rows w) _ (find_by_session_id-FindExact r d i session_id w)).1;
}

module _ {World : Type 0} (h : Handler World) (req : Request) where
  -- There is an answer, and it does not send the request on to another stack.
  abbrev pub Stays : Option Response × World → Type 0
  Stays (none, w) = ⊥
  Stays (some r, w) = next_stack r ≡ []

  resolved_stays : (result : ResolveResult) → next_stack (resolved h req result) ≡ []
  resolved_stays result = elim (Bool-cases result.reassigned) [
    | inl yes_new ↦ rw yes_new refl
    | inr same ↦ rw same refl
  ]

  after_resolve-Stays :
      (o : Outcome ServiceError ResolveResult × World)
      → NotExhausted o.0
      → o.0 ≢ out_of_fuel
      → Stays (after_resolve h req o)
  after_resolve-Stays (ok result, w) n e = resolved_stays result
  after_resolve-Stays (err (store_error no_idle_runner), w) n e = absurd n
  after_resolve-Stays (err (store_error _), w) n e = refl
  after_resolve-Stays (err (delete_unhealthy no_idle_runner), w) n e = absurd n
  after_resolve-Stays (err (delete_unhealthy _), w) n e = refl
  after_resolve-Stays (err _, w) n e = refl
  after_resolve-Stays (out_of_fuel, w) n e = e refl

module _ (s : BrokerService) {rows : s.World → List Runner} (c : Contract s.repo rows)
    (m : Ambient s rows) (p : Prompt s.repo rows) (x : Runner)
    (steady : (w : s.World) → (s.check x.private_host w).0 ≡ true) where
  open s use {World}

  returned :
      (session_id : Text) (before : List Runner) (o : Outcome ServiceError ResolveResult × World)
      → ResolveEffect s c m session_id before o
      → o.0 ≢ out_of_fuel
  returned session_id before (ok result, w) h = cc
  returned session_id before (err e, w) h = cc
  returned session_id before (out_of_fuel, w) h = absurd h

  -- While a runner with an idle row passes every health check and the index shows the table as it is,
  -- GET /resolve/session answers, and its answer names no other stack.
  pub get_resolve_session-Stays :
      (h : Handler World) (req : Request) (fuel : ℕ) (w : World)
      → h.svc ≡ service_api s fuel
      → count_idle (rows w) < fuel
      → Waits x (rows w)
      → Stays h req (get_resolve_session h req w)
  unfolding get_resolve_session
  get_resolve_session-Stays h req fuel w same lt waits =
      after_resolve-Stays h req _
        (rw same (resolve_session-NotExhausted s c m p x steady fuel req.session_cookie w waits))
        (rw same (
          returned req.session_cookie (rows w) _
            (resolve_session-ResolveEffect s c m fuel req.session_cookie w lt)))
