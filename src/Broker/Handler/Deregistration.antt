-- ===== src/Broker/Handler/Deregistration.antt =====
-- DELETE /internal/runners/:runnerId, down to the table of runners.
use hackathon.Common.{ℕ, ◌≡◌, sym, ap, subst, ◌⊎◌, inr, List, arith}
use hackathon.Text.{Text}
use hackathon.Broker.Model.{Runner}
use hackathon.Broker.Outcome.{Outcome, ok, err, out_of_fuel}
use hackathon.Broker.Store.{StoreError}
use hackathon.Broker.Store.Table.{remove_row}
use hackathon.Broker.Store.Effects.{DeleteDone}
use hackathon.Broker.Service.{BrokerService, ServiceError, store_error, raised, deregister_runner}
use hackathon.Broker.Service.Contract.{Contract}
use hackathon.Broker.Handler.{Handler, Request, after_deregister, delete_runner}
use hackathon.Broker.Handler.Responses.{service_api}
use hackathon.Broker.Handler.Registration.{status_of}

-- The row is gone, or an answer other than 204 left it.
abbrev pub RunnerDeleted : Text → List Runner → List Runner → ℕ → Type 0
RunnerDeleted id before after status =
    ((after ≡ before) ⊎ (after ≡ remove_row id before))
    × (status ≡ 204 → after ≡ remove_row id before)

module _ (s : BrokerService) {rows : s.World → List Runner} (c : Contract s.repo rows) where
  open s use {World, repo}
  open c use {delete_law}

  deleted_reply :
      (h : Handler World) (req : Request) (id : Text) (before : List Runner)
      (reply : Outcome StoreError (Unit {0}) × World)
      → DeleteDone id before (rows reply.1) reply.0
      → let answer = after_deregister h req (raised store_error reply) in
        RunnerDeleted id before (rows answer.1) (status_of answer.0)
  deleted_reply h req id before (ok _, w) e = (inr e, λ st. e)
  deleted_reply h req id before (err x, w) e = (e.1, λ st. absurd (omega arith))
  deleted_reply h req id before (out_of_fuel, w) e = elim e [ ]

  -- Deleting a runner removes its row or leaves the table as it was, and a 204 means that it is gone.
  pub delete_runner-RunnerDeleted :
      (h : Handler World) (req : Request) (fuel : ℕ) (w : World)
      → h.svc ≡ service_api s fuel
      → RunnerDeleted req.path_param
          (rows w)
          (rows (delete_runner h req w).1)
          (status_of (delete_runner h req w).0)
  unfolding delete_runner deregister_runner
  delete_runner-RunnerDeleted h req fuel w same =
      subst
        (λ (f : Text → World → Outcome ServiceError (Unit {0}) × World).
          let answer = after_deregister h req (f req.path_param w) in
          RunnerDeleted req.path_param (rows w) (rows answer.1) (status_of answer.0))
        (sym (ap (λ (a : _). a.deregister_runner) same))
        (deleted_reply h req req.path_param (rows w) (repo.delete req.path_param w)
          (delete_law req.path_param w))
