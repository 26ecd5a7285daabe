-- ===== src/Integration/ForwardTarget/Latest.antt =====
-- integration/cmd/forward-target/main.go: what the recorder holds after any steps of its requests.
use hackathon.Common.{
  ℕ, ◌≤◌, ◌≡◌, ◌∙◌, refl, Bool, false, Option, none, some, List, [], ◌∷◌, arith, if◌then◌else◌,
  Bool-cases, inl, inr,
}
use hackathon.Text.{codes, text_eq, is_empty}
use hackathon.Text.Decimal.{Integer, atoi}
use hackathon.Integration.ForwardTarget.{
  RecordedRequest, Recorder, HttpRequest, initial, set, status_of, with_status, set_status, control,
  record_request,
}

-- The steps that come under the lock: a request to the control server, or the recording of one to the
-- target.
pub data Event : Type 0 where
  controlled recorded : HttpRequest → Event

unfoldable pub apply : Event → Recorder → Recorder
apply (controlled req) r = (control req r).1
apply (recorded req) r = record_request req r

-- The last step first.
unfoldable pub after : List Event → Recorder
unfolding apply
after [] = initial
after (e ∷ earlier) = apply e (after earlier)

-- What the recorder should hold, read off the history: the last request since the last reset, and the
-- last status that was accepted since then.
abbrev resets : HttpRequest → Bool
resets req =
    if text_eq req.path (codes "/health") then false else text_eq req.path (codes "/__reset")

abbrev chosen : HttpRequest → Option ℕ
chosen req =
    if text_eq req.path (codes "/health")
    then none
    else if text_eq req.path (codes "/__reset")
    then none
    else if text_eq req.path (codes "/__status")
    then (if is_empty req.code then none else status_of (atoi req.code))
    else none

abbrev seen : HttpRequest → Option RecordedRequest
seen req = elim req.body [ none ↦ none | some body ↦ (set req body initial).req ]

abbrev or_else : {A : Type 0} → Option A → A → A
or_else none a = a
or_else (some b) a = b

abbrev or_before : {A : Type 0} → Option A → Option A → Option A
or_before none o = o
or_before (some a) o = some a

unfoldable pub last_seen : List Event → Option RecordedRequest
last_seen [] = none
last_seen (controlled req ∷ earlier) =
    let before = last_seen earlier in if resets req then none else before
last_seen (recorded req ∷ earlier) = or_before (seen req) (last_seen earlier)

unfoldable pub last_status : List Event → ℕ
last_status [] = 204
last_status (controlled req ∷ earlier) =
    let before = last_status earlier in if resets req then 204 else or_else (chosen req) before
last_status (recorded req ∷ earlier) = last_status earlier

with_status_lem :
    (r : Recorder) (o : Option ℕ) → (with_status r o).1 ≡ record r { status = or_else o r.status }
with_status_lem r none = refl
with_status_lem r (some status) = refl

control_lem :
    (req : HttpRequest) (r : Recorder)
    → (control req r).1
      ≡ (if resets req then initial else record r { status = or_else (chosen req) r.status })
unfolding control set_status
control_lem req r = elim (Bool-cases (text_eq req.path (codes "/health"))) [
  | inl health ↦ rw health refl
  | inr a ↦ elim (Bool-cases (text_eq req.path (codes "/__reset"))) [
    | inl reset_it ↦ rw (a, reset_it) refl
    | inr b ↦ elim (Bool-cases (text_eq req.path (codes "/__status"))) [
      | inl status ↦ elim (Bool-cases (is_empty req.code)) [
        | inl empty ↦ rw (a, b, status, empty) refl
        | inr filled ↦ rw (a, b, status, filled) (with_status_lem r (status_of (atoi req.code)))
      ]
      | inr c ↦ elim (Bool-cases (text_eq req.path (codes "/__last"))) [
        | inl asked ↦ rw (a, b, c, asked) refl
        | inr other ↦ rw (a, b, c, other) refl
      ]
    ]
  ]
]

recorded_lem :
    (req : HttpRequest) (r : Recorder)
    → record_request req r ≡ record r { req = or_before (seen req) r.req }
recorded_lem req r =
    elim req.body
      as (λ o. (elim o [ none ↦ r | some body ↦ set req body r ]) ≡ record r {
        req = or_before (elim o [ none ↦ none | some body ↦ (set req body initial).req ]) r.req;
      }) [ none ↦ refl | some body ↦ refl ]

after_lem :
    (events : List Event)
    → after events ≡ record { req = last_seen events; status = last_status events }
unfolding after apply last_seen last_status
after_lem [] = refl
after_lem (controlled req ∷ earlier) = elim (Bool-cases (resets req)) [
  | inl clears ↦ control_lem req (after earlier) ∙ rw clears refl
  | inr goes_on ↦ control_lem req (after earlier) ∙ rw (goes_on, after_lem earlier) refl
]
after_lem (recorded req ∷ earlier) = recorded_lem req (after earlier) ∙ rw (after_lem earlier) refl

status_bounds :
    (n : Option Integer) (before : ℕ)
    → (100 ≤ before) × (before ≤ 599)
    → (100 ≤ or_else (status_of n) before) × (or_else (status_of n) before ≤ 599)
status_bounds none before h = h
status_bounds (some n) before h = ground arith

chosen_bounds :
    (req : HttpRequest) (before : ℕ)
    → (100 ≤ before) × (before ≤ 599)
    → (100 ≤ or_else (chosen req) before) × (or_else (chosen req) before ≤ 599)
chosen_bounds req before h = elim (Bool-cases (text_eq req.path (codes "/health"))) [
  | inl health ↦ rw health h
  | inr a ↦ elim (Bool-cases (text_eq req.path (codes "/__reset"))) [
    | inl reset_it ↦ rw (a, reset_it) h
    | inr b ↦ elim (Bool-cases (text_eq req.path (codes "/__status"))) [
      | inl status ↦ elim (Bool-cases (is_empty req.code)) [
        | inl empty ↦ rw (a, b, status, empty) h
        | inr filled ↦ rw (a, b, status, filled) (status_bounds (atoi req.code) before h)
      ]
      | inr c ↦ rw (a, b, c) h
    ]
  ]
]

bounds_lem : (events : List Event) → (100 ≤ last_status events) × (last_status events ≤ 599)
unfolding last_status
bounds_lem [] = omega arith
bounds_lem (controlled req ∷ earlier) = elim (Bool-cases (resets req)) [
  | inl clears ↦ rw clears (omega arith)
  | inr goes_on ↦ rw goes_on (chosen_bounds req (last_status earlier) (bounds_lem earlier))
]
bounds_lem (recorded req ∷ earlier) = bounds_lem earlier

-- After any steps, in any order, the recorder holds the last request to the target that was recorded
-- since the last reset, if any, and the last status that was accepted since then, or 204; and that
-- status lies between 100 and 599.
pub after_latest :
    (events : List Event)
    → (after events ≡ record { req = last_seen events; status = last_status events })
      × (100 ≤ (after events).status)
      × ((after events).status ≤ 599)
after_latest events =
    let (low, high) = bounds_lem events in
    (after_lem events, rw (after_lem events) low, rw (after_lem events) high)
