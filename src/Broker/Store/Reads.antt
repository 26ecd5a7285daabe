-- ===== src/Broker/Store/Reads.antt =====
-- The reads of the repository change no row, and listing the busy runners ends.
use hackathon.Common.{ℕ, zero, suc, ◌<◌, ◌≡◌, ◌≢◌, refl, Option, none, some, List, [], ◌++◌, arith}
use hackathon.Text.{Text}
use hackathon.Broker.Model.{Runner}
use hackathon.Broker.Outcome.{Outcome, ok, err, out_of_fuel, next}
use hackathon.Broker.Store.{
  DynamoRepository, Response, done, conditional_check_failed, failed, StoreError, get_failed,
  query_failed, settle, unmarshal_failed, or_fail,
}
use hackathon.Broker.Store.Documented.{Documented, start_rank}
use hackathon.Broker.Store.Pages.{PageRead, query_page_at}
use hackathon.Broker.Store.Operations.{
  find_by_id, find_by_session_id, read_item, first_item, list_busy_from, list_busy_runners,
  after_busy_page,
}

module _ (r : DynamoRepository) where
  open r use {World, Item}

  read_item_world : (item : Option Item) (w : World) → (read_item r item w).1 ≡ w
  read_item_world none w = refl
  read_item_world (some item) w = decode_world (r.unmarshal_map item)
    where
      decode_world : (x : Option Runner) → (or_fail x unmarshal_failed w).1 ≡ w
      decode_world none = refl
      decode_world (some x) = refl

  -- A finder leaves the world as its request left it.
  pub reply_world :
      {A : Type 0} (e : StoreError) (f : A → Option Item) (reply : Response A × World)
      → (next (settle e e reply) (λ a. read_item r (f a))).1 ≡ reply.1
  reply_world e f (done a, w) = read_item_world (f a) w
  reply_world e f (conditional_check_failed, w) = refl
  reply_world e f (failed, w) = refl

module _ (r : DynamoRepository) (d : Documented r) where
  open r use {World, Item, Key}
  open d use {rows, rank, most, get_law, query_law}

  reply_rows :
      {A : Type 0} (e : StoreError) (f : A → Option Item) (before : List Runner)
      (reply : Response A × World)
      → rows reply.1 ≡ before
      → rows (next (settle e e reply) (λ a. read_item r (f a))).1 ≡ before
  reply_rows e f before reply h = rw (reply_world r e f reply) h

  pub find_by_id_rows : (id : Text) (w : World) → rows (find_by_id r id w).1 ≡ rows w
  unfolding find_by_id
  find_by_id_rows id w = reply_rows get_failed (λ item. item) (rows w) _ (get_law id w).0

  pub find_by_session_id_rows :
      (id : Text) (w : World) → rows (find_by_session_id r id w).1 ≡ rows w
  unfolding find_by_session_id
  find_by_session_id_rows id w = reply_rows query_failed (first_item r) (rows w) _ (query_law _ w).0

  -- Listing ends with a list or an error other than running out of fuel, and the rows are the same.
  abbrev pub Listed : List Runner → Outcome StoreError (List Runner) × World → Type 0
  Listed before (out, w) = (rows w ≡ before) × (out ≢ out_of_fuel)

  busy_page :
      (n : ℕ) (before all : List Runner)
      (go_on : Option Key → List Runner → World → Outcome StoreError (List Runner) × World)
      (page : Outcome StoreError (List Runner × Option Key) × World)
      → PageRead r d n before page
      → ((k : Key) (all' : List Runner) (w : World)
          → rank k < n
          → rows w ≡ before
          → Listed before (go_on (some k) all' w))
      → Listed before (next page (after_busy_page r all go_on))
  busy_page n before all go_on (err e, w) h more = (h.1, cc)
  busy_page n before all go_on (out_of_fuel, w) h more = elim h [ ]
  busy_page n before all go_on (ok (page, none), w) h more = (h, cc)
  busy_page n before all go_on (ok (page, some k), w) h more = more k (all ++ page) w h.1 h.0

  list_busy_lem :
      (fuel : ℕ) (excl : Option Key) (all : List Runner) (w : World) (before : List Runner)
      → start_rank rank most excl < fuel
      → rows w ≡ before
      → Listed before (list_busy_from r fuel excl all w)
  unfolding list_busy_from
  list_busy_lem zero excl all w before lt e = elim lt [ ]
  list_busy_lem (suc fuel) excl all w before lt e =
      busy_page (start_rank rank most excl) before all (list_busy_from r fuel) _
        (query_page_at r d _ w before e)
        λ k all' w' lt' e'. list_busy_lem fuel (some k) all' w' before (omega arith) e'

  -- With more fuel than the pages of the index, ListBusyRunners returns, and leaves the rows.
  pub list_busy_runners-Listed :
      (fuel : ℕ) (w : World) → most < fuel → Listed (rows w) (list_busy_runners r fuel w)
  unfolding list_busy_runners
  list_busy_runners-Listed fuel w lt = list_busy_lem fuel none [] w (rows w) lt refl

  read_item_returns : (item : Option Item) (w : World) → (read_item r item w).0 ≢ out_of_fuel
  read_item_returns none w = cc
  read_item_returns (some item) w = decode_returns (r.unmarshal_map item)
    where
      decode_returns : (x : Option Runner) → (or_fail x unmarshal_failed w).0 ≢ out_of_fuel
      decode_returns none = cc
      decode_returns (some x) = cc

  reply_returns :
      {A : Type 0} (e : StoreError) (f : A → Option Item) (reply : Response A × World)
      → (next (settle e e reply) (λ a. read_item r (f a))).0 ≢ out_of_fuel
  reply_returns e f (done a, w) = read_item_returns (f a) w
  reply_returns e f (conditional_check_failed, w) = cc
  reply_returns e f (failed, w) = cc

  pub find_by_session_id_returns :
      (id : Text) (w : World) → (find_by_session_id r id w).0 ≢ out_of_fuel
  unfolding find_by_session_id
  find_by_session_id_returns id w = reply_returns query_failed (first_item r) _
