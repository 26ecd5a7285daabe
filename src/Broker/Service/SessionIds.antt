-- ===== src/Broker/Service/SessionIds.antt =====
-- The hex part of a session id survives the way through the cookie.
use hackathon.Common.{
  ℕ, ◌<◌, ◌≡◌, sym, ◌∙◌, ap, subst, inl, inr, ◌⊎◌, false, List, ◌∷◌, ◌++◌, append_assoc,
}
use hackathon.Text.{Text, Cut}
use hackathon.Text.Laws.{cut-append}
use hackathon.Text.Separated.{Lacks}
use hackathon.Broker.Model.{Runner}
use hackathon.Broker.Outcome.{ok}
use hackathon.Broker.Store.Table.{count_idle}
use hackathon.Broker.Service.{
  BrokerService, ResolveResult, session_id_separator, namespaced_session_id,
  split_namespaced_session_id, resolve_session,
}
use hackathon.Broker.Service.Contract.{Contract, Ambient}
use hackathon.Broker.Service.Resolve.{Kept, Renewed, ResolveEffect, resolve_session-ResolveEffect}

split-namespaced :
    (s : BrokerService) (session_hex : Text)
    → Lacks session_id_separator s.stack_prefix
    → (split_namespaced_session_id (namespaced_session_id s session_hex)).after ≡ session_hex
unfolding split_namespaced_session_id namespaced_session_id
split-namespaced s session_hex h =
    ap (λ (r : Cut). r.after) (cut-append session_id_separator s.stack_prefix session_hex h)

-- With an underscore in the stack's name, an id is taken apart at the wrong place: what comes back
-- is not the hex that the session was made with, whatever it is.
pub split-namespaced_underscore :
    (s : BrokerService) (p q session_hex : Text)
    → s.stack_prefix ≡ p ++ (session_id_separator ∷ q)
    → Lacks session_id_separator p
    → (split_namespaced_session_id (namespaced_session_id s session_hex)).after
      ≡ q ++ (session_id_separator ∷ session_hex)
unfolding split_namespaced_session_id namespaced_session_id
split-namespaced_underscore s p q session_hex e h =
    rw (e, append_assoc p (session_id_separator ∷ q) (session_id_separator ∷ session_hex))
      (ap (λ (r : Cut). r.after)
        (cut-append session_id_separator p (q ++ (session_id_separator ∷ session_hex)) h))

module _ (s : BrokerService) {rows : s.World → List Runner} (c : Contract s.repo rows)
    (m : Ambient s rows) where
  open s use {World}

  hex_of_id :
      (session_id : Text) (before : List Runner) (result : ResolveResult) (w : World)
      → Lacks session_id_separator s.stack_prefix
      → Kept s c m session_id before result w ⊎ Renewed s c m session_id before result w
      → (split_namespaced_session_id result.session_id).after ≡ result.session_hex
  hex_of_id session_id before result w lacks (inl kept) = rw kept.same_id (sym kept.hex_part)
  hex_of_id session_id before result w lacks (inr fresh) =
      rw (fresh.same_id, fresh.made.4) (split-namespaced s result.session_hex lacks)

  unchanged_hex :
      (session_id : Text) (before : List Runner) (result : ResolveResult) (w : World)
      → result.created ≡ false
      → Kept s c m session_id before result w ⊎ Renewed s c m session_id before result w
      → result.session_hex ≡ (split_namespaced_session_id session_id).after
  unchanged_hex session_id before result w old (inl kept) = kept.hex_part
  unchanged_hex session_id before result w old (inr fresh) = cc (old, fresh.is_created)

  -- If the stack's name has no underscore, then resolving a session again by the id that an earlier
  -- resolution returned gives the same hex, as long as the session is kept; the state in between may
  -- have changed in any way.
  pub resolve_session_hex :
      (fuel : ℕ) (session_id : Text) (w w1 w2 w3 : World) (first second : ResolveResult)
      → Lacks session_id_separator s.stack_prefix
      → count_idle (rows w) < fuel
      → count_idle (rows w2) < fuel
      → resolve_session s fuel session_id w ≡ (ok first, w1)
      → resolve_session s fuel first.session_id w2 ≡ (ok second, w3)
      → second.created ≡ false
      → second.session_hex ≡ first.session_hex
  resolve_session_hex fuel session_id w w1 w2 w3 first second lacks lt lt2 e e2 old =
      unchanged_hex first.session_id (rows w2) second w3 old (
        subst (ResolveEffect s c m first.session_id (rows w2)) e2
          (resolve_session-ResolveEffect s c m fuel first.session_id w2 lt2))
      ∙ hex_of_id session_id (rows w) first w1 lacks (
          subst (ResolveEffect s c m session_id (rows w)) e
            (resolve_session-ResolveEffect s c m fuel session_id w lt))
