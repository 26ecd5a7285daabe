-- ===== src/Runner/Execute/Sse.antt =====
-- runner/handler.go, writeSSE: the body of a stream, and what the page of front/src/client.ts reads off
-- it. encoding/json and JSON.parse are parameters.
use hackathon.Common.{
  ℕ, ◌≡◌, ◌≤◌, ◌-◌, ◌^◌, ◌∙◌, refl, ap, Bool, true, false, ◌||◌, ◌&&◌, Option, some, List, [], ◌∷◌,
  ◌++◌, All, ltb, leb, append_assoc,
}
use hackathon.Text.{Text, codes, is_empty}
use hackathon.Text
use hackathon.Text.Separated.{Lacks, split-append}
use hackathon.Runner.Shell.{strip_prefix}
use hackathon.Runner.Shell.Stderr.{joined}
use hackathon.Runner.Execute.{SseEvent, stdout_event, stderr_event, complete_event}
use hackathon.Front.Events.{trim_start, payload, read_lines, read_events}
use hackathon.Front.Events.Chunks.{read_events-joined}

module _ (marshal : SseEvent → Text) where
  unfoldable pub write_sse : SseEvent → Text
  write_sse event = codes "data: " ++ (marshal event ++ (b'\n' ∷ b'\n' ∷ []))

  -- The events are written in their order.
  unfoldable pub body_of : List SseEvent → Text
  unfolding write_sse
  body_of [] = []
  body_of (event ∷ events) = write_sse event ++ body_of events

-- A Unicode scalar value
abbrev pub is_scalar : ℕ → Bool
is_scalar c = ltb c 55296 || (leb 57344 c && leb c 1114111)

abbrev pub IsText : Text → Type 0
IsText t = (is_empty t ≡ false) × All (λ c. is_scalar c ≡ true) t

-- The events that JSON carries: a text that is left out where it is empty, and a number of the size that
-- a double holds.
abbrev pub Plain : SseEvent → Type 0
Plain (stdout_event t) = IsText t
Plain (stderr_event t) = IsText t
Plain (complete_event n) = n.magnitude ≤ 2 ^ 53 - 1

-- What is assumed of the two: a struct becomes an object on one line, as control characters are escaped,
-- and JSON.parse reads the fields back.
pub record Json (marshal : SseEvent → Text) (parse : Text → Option SseEvent) : Type 0 where
  pub one_line : (e : SseEvent) → Lacks b'\n' (marshal e)
  pub is_object : (e : SseEvent) → (rest : Text) × (marshal e ≡ b'{' ∷ rest)
  pub parse_law : (e : SseEvent) → Plain e → parse (marshal e) ≡ some e

module _ {marshal : SseEvent → Text} {parse : Text → Option SseEvent} (j : Json marshal parse) where
  open j use {one_line, is_object, parse_law}

  payload_lem : (e : SseEvent) → payload (codes "data: " ++ marshal e) ≡ some (marshal e)
  unfolding payload strip_prefix trim_start
  payload_lem e = let (rest, object) = is_object e in rw object refl

  line-Lacks : (e : SseEvent) → Lacks b'\n' (codes "data: " ++ marshal e)
  line-Lacks e = (refl, (refl, (refl, (refl, (refl, (refl, one_line e))))))

  split-body :
      (e : SseEvent) (events : List SseEvent)
      → Text.split b'\n' (body_of marshal (e ∷ events))
        ≡ (codes "data: " ++ marshal e) ∷ [] ∷ Text.split b'\n' (body_of marshal events)
  unfolding body_of
  split-body e events =
      ap (Text.split b'\n')
        (append_assoc (codes "data: " ++ marshal e) (b'\n' ∷ b'\n' ∷ []) (body_of marshal events))
      ∙ split-append b'\n' (codes "data: " ++ marshal e) _ (line-Lacks e)
      ∙ ap (λ ls. (codes "data: " ++ marshal e) ∷ ls)
          (split-append b'\n' [] (body_of marshal events) tt)

  body_lem :
      (events : List SseEvent)
      → All Plain events
      → read_lines parse (Text.split b'\n' (body_of marshal events)) ≡ (events, true)
  unfolding body_of read_lines payload strip_prefix trim_start Text.split
  body_lem [] h = refl
  body_lem (e ∷ events) h =
      ap (read_lines parse) (split-body e events)
      ∙ rw (payload_lem e, parse_law e h.0) (rw (body_lem events h.1) refl)

  -- However the body of a stream is cut into chunks on its way, the page reads the events that the runner
  -- wrote, all of them and in their order, if their texts are neither empty nor broken and the exit
  -- code is one that a double holds.
  pub read_events-write_sse :
      (events : List SseEvent) (chunks : List Text)
      → joined chunks ≡ body_of marshal events
      → All Plain events
      → read_events parse chunks ≡ (events, true)
  read_events-write_sse events chunks same h =
      read_events-joined parse chunks
      ∙ ap (λ (t : Text). read_lines parse (Text.split b'\n' t)) same
      ∙ body_lem events h
