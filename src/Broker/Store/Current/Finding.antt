-- ===== src/Broker/Store/Current/Finding.antt =====
-- FindBySessionID over an index in step with the table.
use hackathon.Common.{◌≡◌, ◌≢◌, refl, All, Option, none, some, List, [], ◌∷◌}
use hackathon.Text.{Text}
use hackathon.Broker.Model.{Runner}
use hackathon.Broker.Outcome.{Outcome, ok, err, out_of_fuel, next}
use hackathon.Broker.Store.{
  DynamoRepository, Response, done, conditional_check_failed, failed, QueryOutput, StoreError,
  no_idle_runner, query_failed, unmarshal_failed, settle, or_fail,
}
use hackathon.Broker.Store.Documented.{Documented}
use hackathon.Broker.Store.Operations.{find_by_session_id, read_item, first_item}
use hackathon.Broker.Store.Current.{IsIn, ItemsOf, Indexed}

module _ (r : DynamoRepository) (d : Documented r) where
  open r use {World, Item, Key, unmarshal_map}
  open d use {rows}

  abbrev pub FindExact : List Runner → Outcome StoreError Runner → Type 0
  FindExact table (ok x) = IsIn table x
  FindExact table (err e) = e ≢ no_idle_runner
  FindExact table out_of_fuel = Unit

  decoded :
      (table : List Runner) (o : Option Runner) (w : World)
      → ((x : Runner) → o ≡ some x → IsIn table x)
      → FindExact table (or_fail o unmarshal_failed w).0
  decoded table none w h = cc
  decoded table (some x) w h = h x refl

  first_lem :
      (table : List Runner) (items : List Item) (last : Option Key) (w : World)
      → All (λ item. (x : Runner) → unmarshal_map item ≡ some x → IsIn table x) items
      → FindExact table
          (read_item r (first_item r (record { items = items; last_evaluated_key = last })) w).0
  first_lem table [] last w h = cc
  first_lem table (item ∷ items) last w h = decoded table (unmarshal_map item) w h.0

  reply_lem :
      (table : List Runner) (reply : Response (QueryOutput Item Key) × World)
      → ItemsOf unmarshal_map table reply.0
      → FindExact table
          (next (settle query_failed query_failed reply) (λ out. read_item r (first_item r out))).0
  reply_lem table (done out, w) h = first_lem table out.items out.last_evaluated_key w h
  reply_lem table (conditional_check_failed, w) h = cc
  reply_lem table (failed, w) h = cc

  pub find_by_session_id-FindExact :
      (i : Indexed r d) (session_id : Text) (w : World)
      → FindExact (rows w) (find_by_session_id r session_id w).0
  unfolding find_by_session_id
  find_by_session_id-FindExact i session_id w = reply_lem (rows w) _ (i.item_law _ w)
