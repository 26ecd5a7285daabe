-- ===== src/Broker/Handler/Fallback.antt =====
-- The two headers by which a broker without an idle runner names the stacks that are left, and what
-- the broker of the next stack reads of them (broker/handler/handler.go, signalFallback).
use hackathon.Common.{
  ◌≡◌, refl, ◌∙◌, inl, inr, Bool, Bool-cases, true, false, List, [], ◌∷◌, All, if◌then◌else◌,
}
use hackathon.Text.{Text, is_empty, join}
use hackathon.Broker.Stacklist
use hackathon.Broker.Stacklist.{comma}
use hackathon.Broker.Stacklist.Names.{IsStackName, split-IsStackName, split-join_names}
use hackathon.Broker.Stacklist.Circuit.{parse-All}
use hackathon.Broker.Handler.{
  HeaderName, fallback_stack_header, fallback_remaining_header, Request, Response, bare,
  signal_pool, signal_fallback,
}

abbrev is_stack_header : HeaderName → Bool
is_stack_header fallback_stack_header = true
is_stack_header _ = false

abbrev is_remaining_header : HeaderName → Bool
is_remaining_header fallback_remaining_header = true
is_remaining_header _ = false

-- The value of a header, empty if it is absent.
abbrev pub value_of : (HeaderName → Bool) → List (HeaderName × Text) → Text
value_of p [] = []
value_of p ((name, value) ∷ headers) = if p name then value else value_of p headers

abbrev pub next_stack : Response → Text
next_stack r = value_of is_stack_header r.headers

abbrev pub remaining : Response → Text
remaining r = value_of is_remaining_header r.headers

-- The request has the headers of the answer.
abbrev pub Carries : Request → Response → Type 0
Carries next r = (next.fallback_stack ≡ next_stack r) × (next.fallback_remaining ≡ remaining r)

signalled :
    (fallbacks : List Text) (req : Request) (p : Text) (ps : List Text)
    → signal_pool fallbacks req ≡ p ∷ ps
    → let r = signal_fallback fallbacks req (bare 503) in
      (next_stack r ≡ p) × (remaining r ≡ join comma ps)
unfolding signal_fallback join
signalled fallbacks req p [] e = (rw e, rw e)
signalled fallbacks req p (q ∷ ps) e = (rw e, rw e)

pool-IsStackName :
    (raw self : Text) (req : Request)
    → All IsStackName (signal_pool (Stacklist.parse raw self).0 req)
pool-IsStackName raw self req = elim (Bool-cases (is_empty req.fallback_stack)) [
  | inl first ↦ rw first (parse-All IsStackName raw self (split-IsStackName raw))
  | inr later ↦ rw later (split-IsStackName req.fallback_remaining)
]

-- What the answer says of the pool: nothing is left, or its first stack, and then the stacks behind
-- it for a request that carries the answer's headers to a broker with any fallbacks of its own.
abbrev pub Signals : List Text → Response → Type 0
Signals [] r = is_empty (next_stack r) ≡ true
Signals (p ∷ ps) r =
    (next_stack r ≡ p)
    × (is_empty p ≡ false)
    × ((own : List Text) (next : Request) → Carries next r → signal_pool own next ≡ ps)

pool-Signals :
    (fallbacks : List Text) (req : Request) (pool : List Text)
    → signal_pool fallbacks req ≡ pool
    → All IsStackName pool
    → Signals pool (signal_fallback fallbacks req (bare 503))
pool-Signals fallbacks req [] e h = unfold signal_fallback in rw e refl
pool-Signals fallbacks req (p ∷ ps) e h =
    let (first, rest) = signalled fallbacks req p ps e in
    (
      first,
      h.0.filled,
      λ own next (stack, list).
          rw (stack ∙ first, list ∙ rest) (rw h.0.filled (split-join_names ps h.1)),
    )

-- Let the fallbacks of a stack come from its stack list. The pool of a request are these fallbacks,
-- or what the header with the remaining stacks lists if the request has the header of a fallback. If
-- the pool is empty, the answer names no stack; else it names the first stack of the pool, which is
-- not empty, and a request that carries the two headers of the answer to any stack has the rest of
-- the pool as its pool there, in order, whatever that stack's own fallbacks are.
pub signal_fallback-Signals :
    (raw self : Text) (req : Request)
    → let fallbacks = (Stacklist.parse raw self).0 in
      Signals (signal_pool fallbacks req) (signal_fallback fallbacks req (bare 503))
signal_fallback-Signals raw self req =
    pool-Signals (Stacklist.parse raw self).0 req (signal_pool (Stacklist.parse raw self).0 req)
      refl (pool-IsStackName raw self req)
