-- ===== src/Examples/Fallbacks.antt =====
-- The stack list and the fallback headers at three stacks.
use hackathon.Common.{ℕ, ◌≡◌, refl, ◌++◌, none, List, [], ◌∷◌, All}
use hackathon.Text.{Text, text_eq, codes, is_empty, join, trim_space}
use hackathon.Text
use hackathon.Common.{◌==◌, false}
use hackathon.Broker.Stacklist.{comma}
use hackathon.Broker.Stacklist
use hackathon.Broker.Stacklist.Names.{IsStackName}
use hackathon.Broker.Handler.{Request, bare, signal_pool, signal_fallback}
use hackathon.Broker.Handler.Fallback.{Signals, signal_fallback-Signals}

abbrev raw : Text
raw = codes "a, b,c"

name : (c : ℕ) → trim_space (c ∷ []) ≡ c ∷ [] → (c == comma) ≡ false → IsStackName (c ∷ [])
name c t n = record { filled = refl; trimmed = t; plain = (n, tt) }

abbrev names : List Text
names = codes "b" ∷ codes "c" ∷ []

names-IsStackName : All IsStackName names
unfolding trim_space
names-IsStackName = (name b'b' refl refl, (name b'c' refl refl, tt))

split-raw : Stacklist.split raw ≡ (codes "a" ∷ []) ++ (codes "b" ∷ (codes "c" ∷ []))
unfolding Stacklist.split Text.split trim_space
split-raw = refl

abbrev arriving : Request
arriving = record {
  session_cookie = [];
  path_param = [];
  fallback_stack = [];
  fallback_remaining = [];
  bound = none;
  request_id = codes "r";
}

signal_fallback-Signals_example :
    let fallbacks = (Stacklist.parse raw (codes "a")).0 in
    Signals (signal_pool fallbacks arriving) (signal_fallback fallbacks arriving (bare 503))
signal_fallback-Signals_example = signal_fallback-Signals raw (codes "a") arriving
