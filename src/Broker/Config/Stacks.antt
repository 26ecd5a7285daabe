-- ===== src/Broker/Config/Stacks.antt =====
-- The stack's own name and its fallbacks.
use mathlib.Core.List.{Perm}
use hackathon.Common.{
  ◌≡◌, ap, refl, true, false, List, [], ◌∷◌, inl, inr, All, In, Bool, Bool-cases,
}
use hackathon.Text.{Text, codes, is_empty, trim_space}
use hackathon.Broker.Stacklist
use hackathon.Broker.Stacklist.Names.{IsStackName, split-IsStackName, split_blank}
use hackathon.Broker.Stacklist.Circuit.{parse_flag, parse-perm, without}
use hackathon.Broker.Config.{valid, listed, StackConfig, new_stack_from_env}

abbrev own_name : (Text → Text) → Text
own_name getenv = trim_space (getenv (codes "STACK_NAME"))

abbrev raw_list : (Text → Text) → Text
raw_list getenv = getenv (codes "BUNSHIN_STACKS")

abbrev pub stack_config : (Text → Text) → StackConfig
stack_config getenv = record {
  self = trim_space (getenv (codes "STACK_NAME"));
  fallbacks =
      (Stacklist.parse (getenv (codes "BUNSHIN_STACKS"))
        (trim_space (getenv (codes "STACK_NAME")))).0;
}

In-filled : (s : Text) (all : List Text) → All IsStackName all → In s all → is_empty s ≡ false
In-filled s [] h m = elim m [ ]
In-filled s (t ∷ all) h (inl e) = rw (← e) h.0.filled
In-filled s (t ∷ all) h (inr m) = In-filled s all h.1 m

listed_flag :
    (self raw : Text) (parsed : List Text × Bool) (c : StackConfig)
    → listed self raw parsed ≡ valid c
    → (parsed.1 ≡ true) × (c ≡ record { self = self; fallbacks = parsed.0 })
listed_flag self raw (fallbacks, true) c h = (refl, cc h)
listed_flag self raw (fallbacks, false) c h = cc

accepted :
    (getenv : Text → Text)
    → In (own_name getenv) (Stacklist.split (raw_list getenv))
    → new_stack_from_env getenv ≡ valid (stack_config getenv)
unfolding new_stack_from_env
accepted getenv m = elim (Bool-cases (is_empty (trim_space (raw_list getenv)))) [
  | inl blank ↦ absurd (rw (split_blank (raw_list getenv) blank) at m)
  | inr filled ↦
      rw (In-filled (own_name getenv) _ (split-IsStackName (raw_list getenv)) m)
        (rw filled (rw ((parse_flag (raw_list getenv) (own_name getenv)).1 m, listed) refl))
]

needed :
    (getenv : Text → Text) (c : StackConfig)
    → new_stack_from_env getenv ≡ valid c
    → In (own_name getenv) (Stacklist.split (raw_list getenv)) × (c ≡ stack_config getenv)
unfolding new_stack_from_env
needed getenv c h = elim (Bool-cases (is_empty (own_name getenv))) [
  | inl empty ↦ absurd (cc (rw empty at h))
  | inr named ↦ elim (Bool-cases (is_empty (trim_space (raw_list getenv)))) [
    | inl blank ↦ absurd (cc (rw (named, blank) at h))
    | inr filled ↦
        let both =
          listed_flag (own_name getenv) (raw_list getenv)
            (Stacklist.parse (raw_list getenv) (own_name getenv)) c (rw (named, filled) at h) in
        ((parse_flag (raw_list getenv) (own_name getenv)).0 both.0, both.1)
  ]
]

-- The settings are accepted exactly if the trimmed name is among the listed stacks; the fallbacks
-- are then the listed stacks other than it, up to the order, and the name is not empty.
pub new_stack_from_env_lem :
    (getenv : Text → Text)
    → let own = trim_space (getenv (codes "STACK_NAME")) in
      let stacks = Stacklist.split (getenv (codes "BUNSHIN_STACKS")) in
      (In own stacks → new_stack_from_env getenv ≡ valid (stack_config getenv))
      × ((c : StackConfig)
          → new_stack_from_env getenv ≡ valid c
          → In own stacks
            × (c.self ≡ own)
            × (is_empty c.self ≡ false)
            × Perm c.fallbacks (without own stacks))
new_stack_from_env_lem getenv = (accepted getenv, λ c h. facts c (needed getenv c h))
  where
    facts :
        (c : StackConfig)
        → In (own_name getenv) (Stacklist.split (raw_list getenv)) × (c ≡ stack_config getenv)
        → In (own_name getenv) (Stacklist.split (raw_list getenv))
          × (c.self ≡ own_name getenv)
          × (is_empty c.self ≡ false)
          × Perm c.fallbacks (without (own_name getenv) (Stacklist.split (raw_list getenv)))
    facts c (m, e) = (
      m,
      ap (λ (x : StackConfig). x.self) e,
      rw e (In-filled (own_name getenv) _ (split-IsStackName (raw_list getenv)) m),
      rw e (parse-perm (raw_list getenv) (own_name getenv)),
    )
