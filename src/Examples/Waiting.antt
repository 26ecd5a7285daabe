-- ===== src/Examples/Waiting.antt =====
-- A table in memory whose index shows each row once, and a runner that waits in it.
use mathlib.Core.Option.{some-injective}
use hackathon.Common.{
  subst, All-keep, ◌≡◌, refl, sym, ◌∙◌, ap, Bool, true, false, none, some, List, [], ◌∷◌, All, In,
  keep, arith, inl, inr, Bool-cases, append-nil,
}
use hackathon.Text.{Text, codes, text_eq}
use hackathon.Text.Laws.{text_eq_refl, text_eq_iff}
use hackathon.Broker.Model.{Runner, state_idle}
use hackathon.Broker.Store.{
  DynamoRepository, KeyCondition, state_after, state_up_to, idle_runner, done,
}
use hackathon.Broker.Store.Table.{find_row, remove_row, count_idle, find-remove_ne}
use hackathon.Broker.Store.Documented.{Documented}
use hackathon.Broker.Store.Operations.{acquire_idle}
use hackathon.Broker.Store.Current.{IsIn, Indexed, Exact}
use hackathon.Broker.Store.Current.Exact.{acquire_idle-Exact}
use hackathon.Broker.Service.{BrokerService}
use hackathon.Broker.Service.Contract.{
  Contract, Ambient, dynamo_repository, dynamo_repository-Contract,
}
use hackathon.Broker.Service.Serving.{Waits}
use hackathon.Broker.Handler.{Handler, get_resolve_session}
use hackathon.Broker.Handler.Responses.{service_api}
use hackathon.Broker.Handler.Staying.{dynamo_repository-Prompt, Stays, get_resolve_session-Stays}
use hackathon.Examples.Memory.{
  memory_client, memory_repository, memory_documented, matches, text_lt, no_next,
}
use hackathon.Examples.Stores.{id_a, rows, sid}
use hackathon.Examples.Stores
use hackathon.Examples.Handlers.{empty_request}

-- the first row of each id
unfoldable shown : List Runner → List Runner
shown [] = []
shown (x ∷ table) = let rest = shown table in x ∷ remove_row x.runner_id rest

abbrev entries : KeyCondition → List Runner → List Runner
entries c table = keep (matches c) (shown table)

abbrev repository : DynamoRepository
repository = record memory_repository {
  client = record memory_client {
    query = λ input w.
        (done (record { items = entries input.key_condition w; last_evaluated_key = none }), w);
  };
}

abbrev documented : Documented repository
documented = record {
  rows = λ w. w;
  put_law = memory_documented.put_law;
  assign_law = memory_documented.assign_law;
  delete_law = memory_documented.delete_law;
  get_law = memory_documented.get_law;
  rand_law = memory_documented.rand_law;
  rank = λ k. 0;
  most = 0;
  query_law = λ input w. (refl, no_next _);
}

find-shown : (id : Text) (table : List Runner) → find_row id (shown table) ≡ find_row id table
unfolding shown find_row
find-shown id [] = refl
find-shown id (x ∷ table) = elim (Bool-cases (text_eq x.runner_id id)) [
  | inl same ↦ rw same refl
  | inr differs ↦
      rw differs (find-remove_ne x.runner_id id (shown table) differs ∙ find-shown id table)
]

text_eq-false : (s t : Text) → text_eq s t ≡ false → text_eq t s ≡ false
text_eq-false s t h = elim (Bool-cases (text_eq t s)) [
  | inr differs ↦ differs
  | inl same ↦ absurd (true_or (sym ((text_eq_iff s t).1 (sym ((text_eq_iff t s).0 same))) ∙ h))
]
  where
    true_or : true ≡ false → ⊥
    true_or e = cc

removed-All :
    (P : Runner → Type 0) (id : Text) (list : List Runner)
    → All P list
    → All (λ y. P y × (text_eq id y.runner_id ≡ false)) (remove_row id list)
unfolding remove_row
removed-All P id [] h = tt
removed-All P id (x ∷ list) h = elim (Bool-cases (text_eq x.runner_id id)) [
  | inl same ↦ rw same (removed-All P id list h.1)
  | inr differs ↦
      rw differs ((h.0, text_eq-false x.runner_id id differs), removed-All P id list h.1)
]

All-map :
    (P Q : Runner → Type 0) (list : List Runner)
    → ((x : Runner) → P x → Q x)
    → All P list
    → All Q list
All-map P Q [] f h = tt
All-map P Q (x ∷ list) f h = (f x h.0, All-map P Q list f h.1)

shown-IsIn : (table : List Runner) → All (IsIn table) (shown table)
unfolding shown find_row
shown-IsIn [] = tt
shown-IsIn (x ∷ table) = (
  rw (text_eq_refl x.runner_id) refl,
  All-map _ (IsIn (x ∷ table)) _ (λ y h. rw (h.1) (h.0))
      (removed-All (IsIn table) x.runner_id (shown table) (shown-IsIn table)),
)

find-In : (id : Text) (list : List Runner) (x : Runner) → find_row id list ≡ some x → In x list
unfolding find_row
find-In id [] x h = cc
find-In id (y ∷ list) x h = elim (Bool-cases (text_eq y.runner_id id)) [
  | inl same ↦ inl (some-injective y x (rw same at h))
  | inr differs ↦ inr (find-In id list x (rw differs at h))
]

In-keep :
    (p : Runner → Bool) (list : List Runner) (x : Runner)
    → In x list
    → p x ≡ true
    → In x (keep p list)
In-keep p [] x h e = elim h [ ]
In-keep p (y ∷ list) x (inl same) e = rw (ap p same ∙ e) (inl same)
In-keep p (y ∷ list) x (inr more) e = elim (Bool-cases (p y)) [
  | inl yes_kept ↦ rw yes_kept (inr (In-keep p list x more e))
  | inr dropped ↦ rw dropped (In-keep p list x more e)
]

In-entries :
    (c : KeyCondition) (table : List Runner) (x : Runner)
    → IsIn table x
    → matches c x ≡ true
    → In x (entries c table)
In-entries c table x there =
    In-keep (matches c) (shown table) x
      (find-In x.runner_id (shown table) x (find-shown x.runner_id table ∙ there))

indexed : Indexed repository documented
indexed = record {
  behind = λ c k. entries c;
  later = text_lt;
  page_law = λ input w. (
    entries input.key_condition w,
    refl,
    All-keep (IsIn w) (matches input.key_condition) (shown w) (shown-IsIn w),
    sym (append-nil _),
  );
  item_law = λ input w.
      All-map (IsIn w) _ _ (λ y h x e. subst (IsIn w) (some-injective y x e) h)
        (All-keep (IsIn w) (matches input.key_condition) (shown w) (shown-IsIn w));
  after_law = λ v x table there idle above.
      In-entries (state_after state_idle v) table x there (rw (idle, above) refl);
  up_to_law = λ v x table there idle below.
      In-entries (state_up_to state_idle v) table x there (rw (idle, below) refl);
}

acquire_idle-Exact_example : Exact rows (acquire_idle repository 1 sid rows).0
acquire_idle-Exact_example =
    acquire_idle-Exact repository documented indexed 1 sid rows (omega arith)

abbrev service : BrokerService
service = record Stores.service { repo = dynamo_repository repository 1 }

contract : Contract service.repo Stores.table
contract = dynamo_repository-Contract repository documented 1 (omega arith)

ambient : Ambient service Stores.table
ambient = record { check_law = λ host w. refl; session_law = λ w. refl }

abbrev waiting : Runner
waiting = idle_runner id_a (codes "up")

waiting-Waits : Waits waiting rows
unfolding find_row text_eq
waiting-Waits = (refl, refl)

steady : (w : List Runner) → (service.check waiting.private_host w).0 ≡ true
unfolding text_eq
steady w = refl

abbrev handler : Handler (List Runner)
handler = record {
  svc = service_api service 3;
  fallback_stacks = codes "osaka" ∷ [];
  stack_self = codes "tokyo";
}

get_resolve_session-Stays_example :
    Stays handler empty_request (get_resolve_session handler empty_request rows)
unfolding count_idle text_eq
get_resolve_session-Stays_example =
    get_resolve_session-Stays service contract ambient
      (dynamo_repository-Prompt repository documented indexed 1 (omega arith)) waiting steady
      handler empty_request 3 rows refl (omega arith) waiting-Waits
