-- ===== src/Broker/Handler/Registration.antt =====
-- POST /internal/runners/register, down to the table of runners.
use hackathon.Common.{
  ℕ, ◌≡◌, ◌≢◌, refl, sym, ◌∙◌, ap, subst, inl, inr, true, Option, none, some, List, arith,
  Bool-cases,
}
use hackathon.Text.{Text, is_empty, all_test}
use hackathon.Broker.Model.{Runner}
use hackathon.Broker.Outcome.{Outcome, ok, err, out_of_fuel}
use hackathon.Broker.Store.{StoreError, conflict, invalid_runner_id, invalid_private_host}
use hackathon.Broker.Store.Table.{find_row}
use hackathon.Broker.Store.{put_failed, marshal_failed}
use hackathon.Broker.Store.Effects.{Registers, RegisterEffect}
use hackathon.Broker.Service.{
  BrokerService, ServiceError, store_error, delete_unhealthy, raised, register_runner,
}
use hackathon.Broker.Service.Contract.{Contract}
use hackathon.Broker.Handler.{
  Handler, Request, Response, RegisterRequest, is_host_char, validate_runner_host, after_register,
  with_valid_host, with_body, post_register,
}
use hackathon.Broker.Handler.Responses.{service_api}

host_chars : (host : Text) → validate_runner_host host ≡ none → all_test is_host_char host ≡ true
unfolding validate_runner_host
host_chars host h = elim (Bool-cases (all_test is_host_char host)) [
  | inl fine ↦ fine
  | inr bad ↦ elim (Bool-cases (is_empty host)) [
    | inl empty ↦ absurd (cc (rw (empty) at h))
    | inr filled ↦ absurd (cc (rw (filled, bad) at h))
  ]
]

abbrev pub status_of : Option Response → ℕ
status_of none = 0
status_of (some r) = r.status

register_failed :
    {World : Type 0} (h : Handler World) (req : Request) (e : ServiceError) (w : World)
    → status_of (after_register h req (err e, w)).0 ≢ 201
register_failed h req (store_error conflict) w = λ x. omega arith
register_failed h req (store_error _) w = λ x. omega arith
register_failed h req (delete_unhealthy conflict) w = λ x. omega arith
register_failed h req (delete_unhealthy _) w = λ x. omega arith
register_failed h req _ w = λ x. omega arith

module _ (s : BrokerService) {rows : s.World → List Runner} (c : Contract s.repo rows) where
  open s use {World, repo}
  open c use {register_law}

  registered :
      (h : Handler World) (req : Request) (id host : Text) (before : List Runner)
      (reply : Outcome StoreError (Unit {0}) × World)
      → RegisterEffect id host before (rows reply.1) reply.0
      → let answer = after_register h req (raised store_error reply) in
        status_of answer.0 ≡ 201 → Registers id host before (rows answer.1)
  registered h req id host before (ok _, w) e st = e
  registered h req id host before (err x, w) e st =
      absurd (register_failed h req (store_error x) w st)
  registered h req id host before (out_of_fuel, w) e st = elim e [ ]

  abbrev Accepted : Request → World → World → Type 0
  Accepted req w w' =
      (body : RegisterRequest) × (req.bound ≡ some body)
      × (all_test is_host_char body.private_host ≡ true)
      × Registers body.runner_id body.private_host (rows w) (rows w')

  of_valid :
      (h : Handler World) (req : Request) (w : World) (body : RegisterRequest) (fuel : ℕ)
      (verdict : Option Text)
      → h.svc ≡ service_api s fuel
      → req.bound ≡ some body
      → validate_runner_host body.private_host ≡ verdict
      → let answer = with_valid_host h req body verdict w in
        status_of answer.0 ≡ 201 → Accepted req w answer.1
  unfolding register_runner
  of_valid h req w body fuel (some reason) same e v st = absurd (omega arith)
  of_valid h req w body fuel none same e v st = (
    body,
    e,
    host_chars body.private_host v,
    subst
        (λ (f : Text → Text → World → Outcome ServiceError (Unit {0}) × World).
          status_of (after_register h req (f body.runner_id body.private_host w)).0 ≡ 201
          → Registers body.runner_id body.private_host (rows w)
              (rows (after_register h req (f body.runner_id body.private_host w)).1))
        (sym (ap (λ (a : _). a.register_runner) same))
        (registered h req body.runner_id body.private_host (rows w)
          (repo.register body.runner_id body.private_host w)
          (register_law body.runner_id body.private_host w))
        st,
  )

  of_body :
      (h : Handler World) (req : Request) (w : World) (fuel : ℕ) (bound : Option RegisterRequest)
      → h.svc ≡ service_api s fuel
      → req.bound ≡ bound
      → let answer = with_body h req bound w in status_of answer.0 ≡ 201 → Accepted req w answer.1
  of_body h req w fuel none same e st = absurd (omega arith)
  of_body h req w fuel (some body) same e st =
      of_valid h req w body fuel (validate_runner_host body.private_host) same e refl st

  pub post_register_status :
      (h : Handler World) (req : Request) (fuel : ℕ) (w : World)
      → h.svc ≡ service_api s fuel
      → status_of (post_register h req w).0 ≡ 201
      → (body : RegisterRequest) × (req.bound ≡ some body)
        × (all_test is_host_char body.private_host ≡ true)
        × Registers body.runner_id body.private_host (rows w) (rows (post_register h req w).1)
  unfolding post_register
  post_register_status h req fuel w same st = of_body h req w fuel req.bound same refl st

  -- If a registration is answered by 201, then the request had a body whose host is made of letters,
  -- digits, dots and hyphens, its id is 32 lowercase hex digits that no row had, and the table has
  -- one more row: that id and host, idle.
  pub post_register_created :
      (h : Handler World) (req : Request) (fuel : ℕ) (w w' : World) (r : Response)
      → h.svc ≡ service_api s fuel
      → post_register h req w ≡ (some r, w')
      → r.status ≡ 201
      → (body : RegisterRequest) × (req.bound ≡ some body)
        × (all_test is_host_char body.private_host ≡ true)
        × Registers body.runner_id body.private_host (rows w) (rows w')
  unfolding post_register
  post_register_created h req fuel w w' r same a st =
      subst (Accepted req w) (ap (λ (t : Option Response × World). t.1) a) (
        of_body h req w fuel req.bound same refl
          (ap (λ (t : Option Response × World). status_of t.0) a ∙ st))

  taken_reply :
      (h : Handler World) (req : Request) (id host : Text) (before : List Runner) (y : Runner)
      (reply : Outcome StoreError (Unit {0}) × World)
      → RegisterEffect id host before (rows reply.1) reply.0
      → find_row id before ≡ some y
      → let answer = after_register h req (raised store_error reply) in
        (rows answer.1 ≡ before) × (status_of answer.0 ≢ 201)
  taken_reply h req id host before y (ok _, w) (v, f, absent, wrote) there =
      absurd (cc (absent, there))
  taken_reply h req id host before y (err invalid_runner_id, w) e there =
      (e.1, register_failed h req (store_error invalid_runner_id) w)
  taken_reply h req id host before y (err invalid_private_host, w) e there =
      (e.2, register_failed h req (store_error invalid_private_host) w)
  taken_reply h req id host before y (err conflict, w) e there =
      (e.3, register_failed h req (store_error conflict) w)
  taken_reply h req id host before y (err marshal_failed, w) e there =
      (e.2, register_failed h req (store_error marshal_failed) w)
  taken_reply h req id host before y (err put_failed, w) (inl same) there =
      (same, register_failed h req (store_error put_failed) w)
  taken_reply h req id host before y (err put_failed, w) (inr (v, f, absent, wrote)) there =
      absurd (cc (absent, there))
  taken_reply h req id host before y (err x, w) e there = absurd e
  taken_reply h req id host before y (out_of_fuel, w) e there = elim e [ ]

  taken_body :
      (h : Handler World) (req : Request) (w : World) (body : RegisterRequest) (fuel : ℕ)
      (y : Runner) (verdict : Option Text)
      → h.svc ≡ service_api s fuel
      → find_row body.runner_id (rows w) ≡ some y
      → let answer = with_valid_host h req body verdict w in
        (rows answer.1 ≡ rows w) × (status_of answer.0 ≢ 201)
  unfolding register_runner
  taken_body h req w body fuel y (some reason) same there = (refl, λ x. omega arith)
  taken_body h req w body fuel y none same there =
      subst
        (λ (f : Text → Text → World → Outcome ServiceError (Unit {0}) × World).
          let answer = after_register h req (f body.runner_id body.private_host w) in
          (rows answer.1 ≡ rows w) × (status_of answer.0 ≢ 201))
        (sym (ap (λ (a : _). a.register_runner) same))
        (taken_reply h req body.runner_id body.private_host (rows w) y
          (repo.register body.runner_id body.private_host w)
          (register_law body.runner_id body.private_host w) there)

  taken_bound :
      (h : Handler World) (req : Request) (fuel : ℕ) (w : World) (bound : Option RegisterRequest)
      → h.svc ≡ service_api s fuel
      → ((body : RegisterRequest)
          → bound ≡ some body
          → (y : Runner) × (find_row body.runner_id (rows w) ≡ some y))
      → let answer = with_body h req bound w in
        (rows answer.1 ≡ rows w) × (status_of answer.0 ≢ 201)
  taken_bound h req fuel w none same there = (refl, λ x. omega arith)
  taken_bound h req fuel w (some body) same there =
      let (y, found) = there body refl in
      taken_body h req w body fuel y (validate_runner_host body.private_host) same found

  -- A registration for an id that has a row, or without a body, changes no row and is not answered
  -- by 201.
  pub post_register_taken :
      (h : Handler World) (req : Request) (fuel : ℕ) (w : World)
      → h.svc ≡ service_api s fuel
      → ((body : RegisterRequest)
          → req.bound ≡ some body
          → (y : Runner) × (find_row body.runner_id (rows w) ≡ some y))
      → (rows (post_register h req w).1 ≡ rows w) × (status_of (post_register h req w).0 ≢ 201)
  unfolding post_register
  post_register_taken h req fuel w same there = taken_bound h req fuel w req.bound same there
