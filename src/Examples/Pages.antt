-- ===== src/Examples/Pages.antt =====
-- A codec for the events of a stream, and the page at concrete bodies.
use hackathon.Common.{
  ℕ, zero, suc, ◌+◌, ◌-◌, ◌≡◌, refl, ap, Bool, true, false, none, some, Option, List, [], ◌∷◌, ◌++◌,
  map, arith, ◌==◌,
}
use hackathon.Text.{Text, codes, text_eq}
use hackathon.Text
use hackathon.Text.Separated.{Lacks}
use hackathon.Runner.Shell.Stderr.{joined}
use hackathon.Runner.Execute.{SseEvent, stdout_event, stderr_event, complete_event, handle_execute}
use hackathon.Runner.Execute.Delivery.{surroundings}
use hackathon.Runner.Execute.Sse.{Json}
use hackathon.Runner.Execute.Displayed.{Displayed, handle_execute-Displayed}
use hackathon.Front.Events.{read_events, read_lines}
use hackathon.Front.Events.Chunks.{read_events-joined}
use hackathon.Examples.Commands.{ls, netip, request, open_shells}
use hackathon.Examples.Deliveries.{out, bash, safe, validate, prints, able, asked_in, client}

-- Every rune is moved behind the newline.
abbrev shift : Text → Text
shift = map (λ c. c + 11)

abbrev back : Text → Text
back = map (λ c. c - 11)

abbrev sign : Bool → ℕ
sign false = 2
sign true = 3

abbrev marshal : SseEvent → Text
marshal (stdout_event t) = b'{' ∷ 0 ∷ shift t
marshal (stderr_event t) = b'{' ∷ 1 ∷ shift t
marshal (complete_event n) = b'{' ∷ sign n.negative ∷ shift (n.magnitude ∷ [])

abbrev number : Bool → Text → Option SseEvent
number negative [] = none
number negative (n ∷ t) = some (complete_event (record { negative = negative; magnitude = n - 11 }))

abbrev tagged : ℕ → Text → Option SseEvent
tagged zero t = some (stdout_event (back t))
tagged (suc zero) t = some (stderr_event (back t))
tagged (suc (suc zero)) t = number false t
tagged (suc (suc (suc n))) t = number true t

abbrev parse : Text → Option SseEvent
parse [] = none
parse (b ∷ []) = none
parse (b ∷ tag ∷ t) = tagged tag t

back-shift : (t : Text) → back (shift t) ≡ t
back-shift [] = refl
back-shift (c ∷ t) = ground (arith, back-shift t)

shift-Lacks : (t : Text) → Lacks b'\n' (shift t)
shift-Lacks [] = tt
shift-Lacks (c ∷ t) = (ground arith, shift-Lacks t)

marshal-Lacks : (e : SseEvent) → Lacks b'\n' (marshal e)
marshal-Lacks (stdout_event t) = (refl, (refl, shift-Lacks t))
marshal-Lacks (stderr_event t) = (refl, (refl, shift-Lacks t))
marshal-Lacks (complete_event n) = (refl, (by_sign n.negative, shift-Lacks (n.magnitude ∷ [])))
  where
    by_sign : (s : Bool) → (sign s == b'\n') ≡ false
    by_sign false = refl
    by_sign true = refl

is_object : (e : SseEvent) → (rest : Text) × (marshal e ≡ b'{' ∷ rest)
is_object (stdout_event t) = (0 ∷ shift t, refl)
is_object (stderr_event t) = (1 ∷ shift t, refl)
is_object (complete_event n) = (sign n.negative ∷ shift (n.magnitude ∷ []), refl)

parse-number :
    (s : Bool) (m : ℕ)
    → tagged (sign s) (shift (m ∷ []))
      ≡ some (complete_event (record { negative = s; magnitude = m }))
parse-number false m =
    ap (λ (k : ℕ). some (complete_event (record { negative = false; magnitude = k }))) (omega arith)
parse-number true m =
    ap (λ (k : ℕ). some (complete_event (record { negative = true; magnitude = k }))) (omega arith)

parse-marshal : (e : SseEvent) → parse (marshal e) ≡ some e
parse-marshal (stdout_event t) = ap (λ (s : Text). some (stdout_event s)) (back-shift t)
parse-marshal (stderr_event t) = ap (λ (s : Text). some (stderr_event s)) (back-shift t)
parse-marshal (complete_event n) = parse-number n.negative n.magnitude

json : Json marshal parse
json = record {
  one_line = marshal-Lacks;
  is_object = is_object;
  parse_law = λ e h. parse-marshal e;
}

-- The body in chunks of no regard to its lines.
abbrev chunks : List Text
chunks =
    codes "da"
    ∷ (codes "ta: {" ++ (0 ∷ shift (codes "hi\n")))
    ∷ codes "\n\ndata:"
    ∷ (codes " {" ++ (2 ∷ 14 ∷ codes "\n"))
    ∷ codes "\n"
    ∷ []

read_events-joined_example :
    read_events parse chunks ≡ read_lines parse (Text.split b'\n' (joined chunks))
read_events-joined_example = read_events-joined parse chunks

handle_execute-Displayed_example :
    Displayed bash netip validate json out
      (codes "oops")
      3
      (handle_execute (surroundings bash netip validate) open_shells request 0).0
handle_execute-Displayed_example =
    handle_execute-Displayed bash netip validate json open_shells request 0 0 2 ls
      (codes "[::1]:443") out (codes "oops") 3 safe refl asked_in refl client refl refl able prints
      (refl, (refl, (refl, (refl, (refl, (refl, (refl, tt))))))) (refl, (refl, (refl, (refl, tt))))
      (omega arith)
