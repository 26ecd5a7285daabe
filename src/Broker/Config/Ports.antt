-- ===== src/Broker/Config/Ports.antt =====
-- The port of the runners' API.
use hackathon.Common.{ℕ, ◌≤◌, ◌<◌, ◌≡◌, Option, none, some, arith, Bool-cases, inl, inr}
use hackathon.Text.{Text, codes, is_empty, trim_space}
use hackathon.Text.Decimal.{Integer, decimal, atoi, atoi-decimal, trim-decimal, filled-decimal}
use hackathon.Broker.Config.{
  valid, required, ◌>>=◌, in_range, read_port, max_port, new_runner_api_port_from_env,
}

in_range_sound : (port : Integer) (p : ℕ) → in_range port ≡ valid p → (0 < p) × (p ≤ max_port)
in_range_sound port p h = ground arith

read_port_sound :
    (raw : Text) (o : Option Integer) (p : ℕ) → read_port raw o ≡ valid p → (0 < p) × (p ≤ max_port)
read_port_sound raw none p h = cc
read_port_sound raw (some port) p h = in_range_sound port p h

port_sound :
    (raw : Text) (p : ℕ)
    → (required (codes "RUNNER_API_PORT") raw >>= λ r. read_port r (atoi r)) ≡ valid p
    → (0 < p) × (p ≤ max_port)
port_sound raw p h = elim (Bool-cases (is_empty raw)) [
  | inl empty ↦ absurd (cc (rw empty at h))
  | inr filled ↦ read_port_sound raw (atoi raw) p (rw filled at h)
]

-- A port that is accepted lies between 1 and 65535.
pub new_runner_api_port_bounds :
    (getenv : Text → Text) (p : ℕ)
    → new_runner_api_port_from_env getenv ≡ valid p
    → (0 < p) × (p ≤ max_port)
unfolding new_runner_api_port_from_env
new_runner_api_port_bounds getenv p h =
    port_sound (trim_space (getenv (codes "RUNNER_API_PORT"))) p h

-- Every port from 1 to 65535 is accepted in its decimal form.
pub new_runner_api_port-decimal :
    (getenv : Text → Text) (p : ℕ)
    → getenv (codes "RUNNER_API_PORT") ≡ decimal p
    → 0 < p
    → p ≤ max_port
    → new_runner_api_port_from_env getenv ≡ valid p
unfolding new_runner_api_port_from_env
new_runner_api_port-decimal getenv p e pos le =
    rw (e, trim-decimal p, filled-decimal p) (rw (atoi-decimal p (omega arith)) (ground arith))
