-- ===== src/Examples/Memory.antt =====
-- A table in memory, as one way to meet what is assumed of DynamoDB, and a service over it.
use mathlib.Core.Option.{some-injective}
use hackathon.Common.{
  subst, ℕ, ◌≡◌, ◌<◌, refl, Bool, true, false, not, ◌&&◌, ◌||◌, Option, none, some, List, [], ◌∷◌,
  ltb, ◌==◌, keep,
}
use hackathon.Text.{Text, codes, text_eq}
use hackathon.Broker.Model.{Runner, state_busy}
use hackathon.Broker.Store.{
  Client, DynamoRepository, Response, done, conditional_check_failed, Update, set_state_session,
  KeyCondition, state_only, state_after, state_up_to, session_only,
}
use hackathon.Broker.Store.Table.{find_row, idle_row, assign_row, remove_row}
use hackathon.Broker.Store.Documented.{Documented, PutEffect, AssignEffect, GetEffect}

-- the order of DynamoDB's keys
abbrev pub text_lt : Text → Text → Bool
text_lt [] [] = false
text_lt [] (b ∷ t) = true
text_lt (a ∷ s) [] = false
text_lt (a ∷ s) (b ∷ t) = ltb a b || ((a == b) && text_lt s t)

abbrev pub matches : KeyCondition → Runner → Bool
matches (state_only state) x = text_eq x.state state
matches (state_after state v) x = text_eq x.state state && text_lt v x.runner_id
matches (state_up_to state v) x = text_eq x.state state && not (text_lt v x.runner_id)
matches (session_only session_id) x = text_eq x.current_session_id session_id

abbrev put_row : Runner → List Runner → Option Runner → Response (Unit {0}) × List Runner
put_row x w none = (done tt, x ∷ w)
put_row x w (some y) = (conditional_check_failed, w)

abbrev update_row : Text → Update → List Runner → Bool → Response (Unit {0}) × List Runner
update_row id (set_state_session state session_id) w true = (done tt, assign_row id session_id w)
update_row id (set_state_session state session_id) w false = (conditional_check_failed, w)

abbrev pub memory_client : Client
memory_client = record {
  World = List Runner;
  Item = Runner;
  Key = Text;
  put_item = λ input w. put_row input.item w (find_row input.item.runner_id w);
  update_item = λ input w. update_row input.key input.update w (idle_row input.key w);
  get_item = λ input w. (done (find_row input.key w), w);
  delete_item = λ input w. (done tt, remove_row input.key w);
  query = λ input w. (
    done (record { items = keep (matches input.key_condition) w; last_evaluated_key = none }),
    w,
  );
  unmarshal_map = some;
  unmarshal_list_of_maps = some;
}

abbrev pub memory_repository : DynamoRepository
memory_repository = record {
  client = memory_client;
  table_name = codes "bunshin-runners";
  rand_hex_fn = λ w. (codes "8", w);
  marshal_fn = some;
}

pub put_row-PutEffect :
    (x : Runner) (w : List Runner) (o : Option Runner)
    → find_row x.runner_id w ≡ o
    → PutEffect x w (put_row x w o).1 (put_row x w o).0
put_row-PutEffect x w none e = (e, refl)
put_row-PutEffect x w (some y) e = ((y, e), refl)

pub update_row-AssignEffect :
    (id session_id : Text) (w : List Runner) (b : Bool)
    → idle_row id w ≡ b
    → let reply = update_row id (set_state_session state_busy session_id) w b in
      AssignEffect id session_id w reply.1 reply.0
update_row-AssignEffect id session_id w true e = (e, refl)
update_row-AssignEffect id session_id w false e = (e, refl)

pub got : (o : Option Runner) → GetEffect {Item = Runner} some o (done o)
got none = refl
got (some y) = ((y, refl), refl)

pub no_next : (n : ℕ) (k : Text) → none ≡ some k → 0 < n
no_next n k e = cc

abbrev pub memory_documented : Documented memory_repository
memory_documented = record {
  rows = λ w. w;
  put_law = λ x item w e.
      subst
        (λ (y : Runner).
          PutEffect x w (put_row y w (find_row y.runner_id w)).1
            (put_row y w (find_row y.runner_id w)).0)
        (some-injective x item e) (put_row-PutEffect x w _ refl);
  assign_law = λ id session_id w. update_row-AssignEffect id session_id w _ refl;
  delete_law = λ id w. refl;
  get_law = λ id w. (refl, got (find_row id w));
  rand_law = λ w. refl;
  rank = λ k. 0;
  most = 0;
  query_law = λ input w. (refl, no_next _);
}
