-- ===== src/Broker/Stacklist/Names.antt =====
-- What Split returns, and that it reads back what Join writes.
use hackathon.Common.{◌≡◌, refl, true, false, List, [], ◌∷◌, ◌==◌, arith, All}
use hackathon.Text
use hackathon.Text.{Text, is_empty, trim_space, join}
use hackathon.Text.Laws.{
  IsTrimmed, trim_space-IsTrimmed, All-trim_space, trim_space_blank, spaces_no_comma,
}
use hackathon.Text.Separated.{Lacks, split_whole, split-Lacks, split-join}
use hackathon.Broker.Stacklist.{comma, collect, split}

pub record IsStackName (s : Text) : Type 0 where
  pub filled : is_empty s ≡ false
  pub trimmed : IsTrimmed s
  pub plain : Lacks comma s

collect-IsStackName :
    (parts : List Text) → All (Lacks comma) parts → All IsStackName (collect parts)
unfolding collect
collect-IsStackName [] h = tt
collect-IsStackName (s ∷ parts) h = ground (
  arith,
  collect-IsStackName parts h.1,
  trim_space-IsTrimmed s,
  All-trim_space (λ c. (c == comma) ≡ false) s h.0,
)

-- Every name that Split returns is non-empty, has no space around it and holds no comma.
pub split-IsStackName : (raw : Text) → All IsStackName (split raw)
unfolding split
split-IsStackName raw = collect-IsStackName (Text.split comma raw) (split-Lacks comma raw)

collect_names : (names : List Text) → All IsStackName names → collect names ≡ names
unfolding collect
collect_names [] h = refl
collect_names (s ∷ names) h = rw (h.0.trimmed, collect) (rw (h.0.filled, collect_names names h.1))

names-Lacks : (names : List Text) → All IsStackName names → All (Lacks comma) names
names-Lacks [] h = tt
names-Lacks (s ∷ names) h = (h.0.plain, names-Lacks names h.1)

-- Any list of stack names, the empty one too, is read back by Split from its comma-separated join.
pub split-join_names :
    (names : List Text) → All IsStackName names → split (join comma names) ≡ names
unfolding split
split-join_names [] h = unfold join Text.split collect trim_space in refl
split-join_names (s ∷ names) h =
    rw (split-join comma s names (names-Lacks (s ∷ names) h)) (collect_names (s ∷ names) h)

-- A value of spaces alone lists no stack.
pub split_blank : (raw : Text) → is_empty (trim_space raw) ≡ true → split raw ≡ []
unfolding split collect
split_blank raw h = rw (split_whole comma raw (spaces_no_comma raw (trim_space_blank raw h))) (rw h)
