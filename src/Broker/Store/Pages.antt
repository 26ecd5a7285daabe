-- ===== src/Broker/Store/Pages.antt =====
-- Reading a page of an index (queryIdlePage, and the query of ListBusyRunners).
use hackathon.Common.{ℕ, ◌<◌, ◌≡◌, ◌≢◌, refl, Option, none, some, List}
use hackathon.Broker.Model.{Runner}
use hackathon.Broker.Outcome.{Outcome, ok, err, out_of_fuel, next}
use hackathon.Broker.Store.{
  DynamoRepository, Response, done, conditional_check_failed, failed, StoreError, no_idle_runner,
  query_failed, unmarshal_failed, settle, or_fail, QueryOutput, QueryInput,
}
use hackathon.Broker.Store.Documented.{Documented, PageEffect, start_rank}
use hackathon.Broker.Store.Operations.{query_page, read_page}

module _ (r : DynamoRepository) (d : Documented r) where
  open r use {World, Item, Key}
  open d use {rows, rank, most, query_law}

  -- A page read leaves the rows, and its next key is further on.
  abbrev pub PageRead :
      ℕ → List Runner → Outcome StoreError (List Runner × Option Key) × World → Type 0
  PageRead n before (ok (page, none), w) = rows w ≡ before
  PageRead n before (ok (page, some k), w) = (rows w ≡ before) × (rank k < n)
  PageRead n before (err e, w) = (e ≢ no_idle_runner) × (rows w ≡ before)
  PageRead n before (out_of_fuel, w) = ⊥

  page_read :
      (n : ℕ) (before : List Runner) (decoded : Option (List Runner)) (last : Option Key)
      (w : World)
      → rows w ≡ before
      → ((k : Key) → last ≡ some k → rank k < n)
      → PageRead n before
          (next (or_fail decoded unmarshal_failed w) (λ runners w'. (ok (runners, last), w')))
  page_read n before none last w e h = (cc, e)
  page_read n before (some page) none w e h = e
  page_read n before (some page) (some k) w e h = (e, h k refl)

  query_reply :
      (n : ℕ) (before : List Runner) (reply : Response (QueryOutput Item Key) × World)
      → rows reply.1 ≡ before
      → PageEffect rank n reply.0
      → PageRead n before (next (settle query_failed query_failed reply) (read_page r))
  query_reply n before (done out, w) e h =
      page_read n before (r.unmarshal_list_of_maps out.items) out.last_evaluated_key w e h
  query_reply n before (conditional_check_failed, w) e h = (cc, e)
  query_reply n before (failed, w) e h = (cc, e)

  query_page-PageRead :
      (input : QueryInput Key) (w : World)
      → PageRead (start_rank rank most input.exclusive_start_key) (rows w) (query_page r input w)
  unfolding query_page
  query_page-PageRead input w = query_reply _ (rows w) _ (query_law input w).0 (query_law input w).1

  pub query_page_at :
      (input : QueryInput Key) (w : World) (before : List Runner)
      → rows w ≡ before
      → PageRead (start_rank rank most input.exclusive_start_key) before (query_page r input w)
  query_page_at input w before e = rw (← e) (query_page-PageRead input w)
