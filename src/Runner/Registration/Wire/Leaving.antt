-- ===== src/Runner/Registration/Wire/Leaving.antt =====
-- Deregistration over the network, down to the table of runners.
use hackathon.Common.{
  ℕ, ◌≡◌, refl, sym, ap, subst, ◌⊎◌, inl, inr, false, Option, none, some, List, [], ◌∷◌, ◌++◌,
  arith,
}
use hackathon.Text.{Text, codes, text_eq, is_empty}
use hackathon.Text
use hackathon.Text.Separated.{Lacks, split_whole}
use hackathon.Broker.Model.{Runner}
use hackathon.Broker.Store.Table.{find_row, remove_row, find-remove_self}
use hackathon.Broker.Service.Contract.{Contract}
use hackathon.Broker.Handler.{Response, delete_runner}
use hackathon.Broker.Handler.Deregistration.{RunnerDeleted, delete_runner-RunnerDeleted}
use hackathon.Broker.Handler.Registration.{status_of}
use hackathon.Broker.Router.{Route, runner_route, handle, serve, match, route_of, to_handler}
use hackathon.Runner.Shell.Stream.{strip_prefix-append}
use hackathon.Runner.Registration.{DeregisterError, of_status, deregister}
use hackathon.Runner.Registration.Wire.{
  Wire, WireLaws, Fate, request_lost, answer_lost, answered, status_option, carry, handler,
  delete_request, deregister_deps,
}
use hackathon.Runner.Registration.Wire.Entering.{Through, middleware-Through}

module _ (id : Text) where
  abbrev path : Text
  path = codes "/internal/runners/" ++ id

  runner_path :
      Lacks b'/' id → Text.split b'/' path ≡ [] ∷ codes "internal" ∷ codes "runners" ∷ id ∷ []
  unfolding Text.split
  runner_path h =
      ap (λ (t : List Text). [] ∷ codes "internal" ∷ codes "runners" ∷ t) (split_whole b'/' id h)

module _ (n : Wire) {rows : n.service.World → List Runner} (l : WireLaws n rows)
    (c : Contract n.service.repo rows) where
  open n use {service, fuel, id_fn, unrouted, fate}
  open service use {World}
  open l use {fate_law}

  delete_match :
      (id : Text)
      → Lacks b'/' id
      → is_empty id ≡ false
      → match (delete_request n (codes "/internal/runners/" ++ id)) ≡ some (runner_route id)
  unfolding match route_of text_eq
  delete_match id h filled = rw (runner_path id h, route_of) (rw filled refl)

  abbrev deletes : Text → World → Option Response × World
  deletes id =
      handle (handler n) id_fn unrouted (delete_request n (codes "/internal/runners/" ++ id))

  behind :
      (id : Text) (w : World) (answer : Option Response × World)
      → Through n l c
          (λ x.
            delete_runner
              (handler n)
              (to_handler (delete_request n (codes "/internal/runners/" ++ id)) id x))
          w
          answer
      → RunnerDeleted id (rows w) (rows answer.1) (status_of answer.0)
  behind id w answer (inl (same, failed)) = (inl same, λ st. absurd (omega arith))
  behind id w answer (inr (x, w1, before, status, after)) =
      let done =
        delete_runner-RunnerDeleted service c (handler n)
          (to_handler (delete_request n (codes "/internal/runners/" ++ id)) id x) fuel w1 refl in
      rw (status, after, ← before) done

  served_deleted :
      (id : Text) (w : World)
      → Lacks b'/' id
      → is_empty id ≡ false
      → RunnerDeleted id (rows w) (rows (deletes id w).1) (status_of (deletes id w).0)
  unfolding handle
  served_deleted id w h filled =
      subst
        (λ (r : Option Route).
          let answer =
            serve (handler n) id_fn unrouted (delete_request n (codes "/internal/runners/" ++ id)) w
              r in
          RunnerDeleted id (rows w) (rows answer.1) (status_of answer.0))
        (sym (delete_match id h filled))
        (behind id w
          (serve (handler n) id_fn unrouted (delete_request n (codes "/internal/runners/" ++ id)) w
            (some (runner_route id)))
          (middleware-Through n l c _ w))

  -- What a deregistration leaves of the runner's row.
  abbrev pub LeaveEffect : Text → World → Option DeregisterError × World → Type 0
  LeaveEffect id w (error, w') =
      ((rows w' ≡ rows w) ⊎ (rows w' ≡ remove_row id (rows w)))
      × (error ≡ none → find_row id (rows w') ≡ none)

  removed_gone :
      (id : Text) (before after : List Runner)
      → after ≡ remove_row id before
      → find_row id after ≡ none
  removed_gone id before after e = rw e (find-remove_self id before)

  module _ (broker_url id : Text) where
    abbrev result_of : Option ℕ × World → Option DeregisterError × World
    result_of = of_status (deregister_deps n broker_url id)

    rows_of_carry :
        (w : World) (serve_it : World → Option Response × World) (o : Fate × World)
        → rows o.1 ≡ rows w
        → RunnerDeleted id (rows o.1) (rows (serve_it o.1).1) (status_of (serve_it o.1).0)
        → (rows (carry serve_it o).1 ≡ rows w)
          ⊎ (rows (carry serve_it o).1 ≡ remove_row id (rows w))
    rows_of_carry w serve_it (request_lost, w1) e done = inl e
    rows_of_carry w serve_it (answer_lost, w1) e done = rw (← e) done.0
    rows_of_carry w serve_it (answered, w1) e done = rw (← e) done.0

    gone_of_carry :
        (w : World) (serve_it : World → Option Response × World) (o : Fate × World)
        → rows o.1 ≡ rows w
        → RunnerDeleted id (rows o.1) (rows (serve_it o.1).1) (status_of (serve_it o.1).0)
        → (result_of (carry serve_it o)).0 ≡ none
        → find_row id (rows (carry serve_it o).1) ≡ none
    gone_of_carry w serve_it (request_lost, w1) e done h = cc
    gone_of_carry w serve_it (answer_lost, w1) e done h = cc
    gone_of_carry w serve_it (answered, w1) e done h =
        removed_gone id (rows w1) _ (done.1 (of_answer (serve_it w1).0 (serve_it w1).1 h))
      where
        of_answer :
            (a : Option Response) (w2 : World)
            → (result_of (status_option a, w2)).0 ≡ none
            → status_of a ≡ 204
        of_answer none w2 h' = cc
        of_answer (some r) w2 h' = ground arith

    same_world : (reply : Option ℕ × World) → (result_of reply).1 ≡ reply.1
    same_world (none, w) = refl
    same_world (some status, w) = refl

    sent :
        (w : World)
        → deregister (deregister_deps n broker_url id) w ≡ result_of (carry (deletes id) (fate w))
    unfolding deregister
    sent w = rw (strip_prefix-append broker_url (codes "/internal/runners/" ++ id)) refl

    -- Deregistering an id without a slash takes its row out of the table or leaves the table as it
    -- was, also where a message was lost; if it reports success, the table has no row of that id.
    pub deregister-LeaveEffect :
        (w : World)
        → Lacks b'/' id
        → is_empty id ≡ false
        → LeaveEffect id w (deregister (deregister_deps n broker_url id) w)
    deregister-LeaveEffect w h filled =
        let done = served_deleted id (fate w).1 h filled in
        let kept = rows_of_carry w (deletes id) (fate w) (fate_law w) done in
        subst (LeaveEffect id w) (sym (sent w)) (
          rw (same_world (carry (deletes id) (fate w))) kept,
          λ none_left.
              rw (same_world (carry (deletes id) (fate w)))
                (gone_of_carry w (deletes id) (fate w) (fate_law w) done none_left),
        )
