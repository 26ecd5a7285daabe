-- ===== src/Runner/Registration/Wire/Entering.antt =====
-- Registration over the network, down to the table of runners.
use hackathon.Common.{
  ℕ, ◌≡◌, ◌≢◌, refl, sym, ◌∙◌, ap, ◌⊎◌, inl, inr, Bool, true, false, Option, none, some, List, [],
  arith,
}
use hackathon.Text.{Text, codes, text_eq, is_empty}
use hackathon.Text
use hackathon.Broker.Model.{Runner}
use hackathon.Broker.Store.Table.{find_row}
use hackathon.Broker.Store.Effects.{Registers}
use hackathon.Broker.Service.Contract.{Contract}
use hackathon.Broker.Handler.{Response, bare, post_register}
use hackathon.Broker.Handler
use hackathon.Broker.Handler.Middleware.{request_id_middleware, after_id, tagged}
use hackathon.Broker.Handler.Registration.{status_of, post_register_status, post_register_taken}
use hackathon.Broker.Router.{handle, match, route_of, to_handler}
use hackathon.Runner.Shell.Stream.{strip_prefix-append}
use hackathon.Runner.Identity.{Identity}
use hackathon.Runner.Registration.{RegisterRequest, is_created, post_once}
use hackathon.Runner.Registration.Wire.{
  Wire, WireLaws, Fate, request_lost, answer_lost, answered, status_option, carry, handler,
  post_request, register_deps,
}

tagged_status : (id : Text) (a : Option Response) → status_of (tagged id a) ≡ status_of a
tagged_status id none = refl
tagged_status id (some r) = refl

created_status : (a : Option Response) → is_created (status_option a) ≡ true → status_of a ≡ 201
created_status none h = cc
created_status (some r) h = ground arith

module _ (n : Wire) {rows : n.service.World → List Runner} (l : WireLaws n rows)
    (c : Contract n.service.repo rows) where
  open n use {service, fuel, id_fn, unrouted, Payload, marshal, bind, fate, wait}
  open service use {World}
  open l use {bind_law, id_law, fate_law}

  -- Behind the middleware: it answers by 500 itself, or the handler's status stands.
  abbrev pub Through :
      (Text → World → Option Response × World) → World → Option Response × World → Type 0
  Through f w answer =
      ((rows answer.1 ≡ rows w) × (status_of answer.0 ≡ 500))
      ⊎ ((id : Text) × (w1 : World) × (rows w1 ≡ rows w)
          × (status_of answer.0 ≡ status_of (f id w1).0)
          × (answer.1 ≡ (f id w1).1))

  after_id-Through :
      (f : Text → World → Option Response × World) (w : World) (reply : Option Text × World)
      → rows reply.1 ≡ rows w
      → Through f w (after_id f reply)
  after_id-Through f w (none, w1) e = inl (e, refl)
  after_id-Through f w (some id, w1) e = inr (id, w1, e, tagged_status id (f id w1).0, refl)

  pub middleware-Through :
      (f : Text → World → Option Response × World) (w : World)
      → Through f w (request_id_middleware id_fn f w)
  unfolding request_id_middleware
  middleware-Through f w = after_id-Through f w (id_fn w) (id_law w)

  abbrev serve_post : Payload → World → Option Response × World
  serve_post payload =
      handle (handler n) id_fn unrouted
        (post_request n (codes "/internal/runners/register") payload)

  serve_post-Through :
      (payload : Payload) (w : World)
      → Through
          (λ x.
            post_register
              (handler n)
              (to_handler (post_request n (codes "/internal/runners/register") payload) [] x))
          w
          (serve_post payload w)
  unfolding handle match route_of Text.split text_eq
  serve_post-Through payload w = middleware-Through _ w

  abbrev inner : Payload → Text → Handler.Request
  inner payload id = to_handler (post_request n (codes "/internal/runners/register") payload) [] id

  -- One delivery of a registration.
  served_created :
      (payload : Payload) (w : World)
      → status_of (serve_post payload w).0 ≡ 201
      → (body : Handler.RegisterRequest) × (bind payload ≡ some body)
        × Registers body.runner_id body.private_host (rows w) (rows (serve_post payload w).1)
  served_created payload w st = elim (serve_post-Through payload w) [
    | inl (same, failed) ↦ absurd (omega arith)
    | inr (id, w1, before, status, after) ↦
        let (body, bound, chars, wrote) =
          post_register_status service c (handler n) (inner payload id) fuel w1 refl
            (sym status ∙ st) in
        (body, bound, rw (after, ← before) wrote)
  ]

  served_taken :
      (payload : Payload) (w : World)
      → ((body : Handler.RegisterRequest)
          → bind payload ≡ some body
          → (y : Runner) × (find_row body.runner_id (rows w) ≡ some y))
      → (rows (serve_post payload w).1 ≡ rows w) × (status_of (serve_post payload w).0 ≢ 201)
  served_taken payload w there = elim (serve_post-Through payload w) [
    | inl (same, failed) ↦ (same, λ st. omega arith)
    | inr (id, w1, before, status, after) ↦
        let (kept, refused) =
          post_register_taken service c (handler n) (inner payload id) fuel w1 refl
            (λ body bound. rw before (there body bound)) in
        (ap rows after ∙ kept ∙ before, λ st. refused (sym status ∙ st))
  ]

  entered :
      (id host id' host' : Text) (before before' after after' : List Runner)
      → id ≡ id'
      → host ≡ host'
      → before' ≡ before
      → after ≡ after'
      → Registers id' host' before' after'
      → Registers id host before after
  entered id host id' host' before before' after after' i h b a wrote = rw (i, h, ← b, a) wrote

  carry_created :
      (serve : World → Option Response × World) (o : Fate × World)
      → is_created (carry serve o).0 ≡ true
      → (status_of (serve o.1).0 ≡ 201) × ((carry serve o).1 ≡ (serve o.1).1)
  carry_created serve (request_lost, w) h = cc
  carry_created serve (answer_lost, w) h = cc
  carry_created serve (answered, w) h = (created_status (serve w).0 h, refl)

  carry_taken :
      (serve : World → Option Response × World) (o : Fate × World)
      → rows (serve o.1).1 ≡ rows o.1
      → status_of (serve o.1).0 ≢ 201
      → (rows (carry serve o).1 ≡ rows o.1) × (is_created (carry serve o).0 ≡ false)
  carry_taken serve (request_lost, w) same refused = (refl, refl)
  carry_taken serve (answer_lost, w) same refused = (same, refl)
  carry_taken serve (answered, w) same refused =
      (same, not_created (is_created (status_option (serve w).0)) refl)
    where
      not_created :
          (b : Bool)
          → is_created (status_option (serve w).0) ≡ b
          → is_created (status_option (serve w).0) ≡ false
      not_created false e = e
      not_created true e = absurd (refused (created_status (serve w).0 e))

  module _ (broker_url : Text) (i : Identity) where
    abbrev body : RegisterRequest
    body = record { runner_id = i.runner_id; private_host = i.private_host }

    delivered :
        (w : World)
        → post_once (register_deps n broker_url i) w ≡ carry (serve_post (marshal body)) (fate w)
    unfolding post_once
    delivered w = rw (strip_prefix-append broker_url (codes "/internal/runners/register")) refl

    bound_identity :
        (b : Handler.RegisterRequest)
        → bind (marshal body) ≡ some b
        → (i.runner_id ≡ b.runner_id) × (i.private_host ≡ b.private_host)
    bound_identity b e = ground (arith, bind_law body)

    pub attempt_created :
        (w : World)
        → is_created (post_once (register_deps n broker_url i) w).0 ≡ true
        → Registers i.runner_id i.private_host
            (rows w)
            (rows (post_once (register_deps n broker_url i) w).1)
    attempt_created w h =
        let (st, after) =
          carry_created (serve_post (marshal body)) (fate w) (rw (delivered w) at h) in
        let (b, bound, wrote) = served_created (marshal body) (fate w).1 st in
        let (same_id, same_host) = bound_identity b bound in
        entered i.runner_id i.private_host b.runner_id b.private_host (rows w) (rows (fate w).1)
          (rows (post_once (register_deps n broker_url i) w).1) _ same_id same_host (fate_law w)
          (ap (λ (x : Option ℕ × World). rows x.1) (delivered w) ∙ ap rows after) wrote

    -- The row of the runner's id is in the table.
    abbrev pub Listed : World → Type 0
    Listed w = (y : Runner) × (find_row i.runner_id (rows w) ≡ some y)

    -- An attempt for an id that has a row fails and changes no row.
    pub attempt_taken :
        (w : World)
        → Listed w
        → (rows (post_once (register_deps n broker_url i) w).1 ≡ rows w)
          × (is_created (post_once (register_deps n broker_url i) w).0 ≡ false)
    attempt_taken w (y, there) =
        let (same, refused) =
          served_taken (marshal body) (fate w).1
            (λ b bound. (y, rw (fate_law w, ← (bound_identity b bound).0) there)) in
        let (kept, failed) = carry_taken (serve_post (marshal body)) (fate w) same refused in
        rw (delivered w) (kept ∙ fate_law w, failed)
