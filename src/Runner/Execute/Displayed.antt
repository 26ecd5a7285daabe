-- ===== src/Runner/Execute/Displayed.antt =====
-- From bash to the page: handleExecute of runner/handler.go over ExecuteStream, its body in any chunks, and
-- readEvents of front/src/client.ts.
use hackathon.Common.{
  ℕ, ◌≡◌, ◌≤◌, ◌-◌, ◌^◌, ◌⊎◌, inl, inr, refl, sym, ◌∙◌, ap, subst, true, false, Option, some, List,
  [], ◌∷◌, ◌++◌, map, All, All-append, append-nil, All-append_left, All-append_right, Bool-cases,
  ◌==◌,
}
use hackathon.Text.{Text, is_empty}
use hackathon.Text.Decimal.{Integer}
use hackathon.Broker.Outcome.{Outcome, ok}
use hackathon.Runner.Shell.{newline}
use hackathon.Runner.Shell.Stderr.{joined}
use hackathon.Runner.Shell.Scanner.{completed, joined_lines}
use hackathon.Runner.Validator.{ValidateError, ValidationResult}
use hackathon.Runner.Manager.{Table, lookup}
use hackathon.Runner.Execute.{
  Netip, SseEvent, stdout_event, stderr_event, complete_event, Answer, streamed, Request, AuditLine,
  stderr_events, client_address, handle_execute,
}
use hackathon.Runner.Execute.Delivery.{
  Bash, Able, Prints, Delivered, surroundings, exit_code_of, handle_execute-Delivered,
}
use hackathon.Runner.Execute.Sse.{body_of, is_scalar, Plain, Json, read_events-write_sse}
use hackathon.Front.Events.{read_events}

abbrev pub Scalars : Text → Type 0
Scalars = All (λ c. is_scalar c ≡ true)

-- The texts of the events for stdout and for stderr, and the exit codes.
abbrev pub shown_stdout : List SseEvent → Text
shown_stdout [] = []
shown_stdout (stdout_event t ∷ events) = t ++ shown_stdout events
shown_stdout (stderr_event t ∷ events) = shown_stdout events
shown_stdout (complete_event n ∷ events) = shown_stdout events

abbrev pub shown_stderr : List SseEvent → Text
shown_stderr [] = []
shown_stderr (stdout_event t ∷ events) = shown_stderr events
shown_stderr (stderr_event t ∷ events) = t ++ shown_stderr events
shown_stderr (complete_event n ∷ events) = shown_stderr events

abbrev pub shown_codes : List SseEvent → List Integer
shown_codes [] = []
shown_codes (stdout_event t ∷ events) = shown_codes events
shown_codes (stderr_event t ∷ events) = shown_codes events
shown_codes (complete_event n ∷ events) = n ∷ shown_codes events

completed-Scalars : (t : Text) → Scalars t → Scalars (completed t)
unfolding completed
completed-Scalars [] h = tt
completed-Scalars (c ∷ []) h = elim (Bool-cases (c == newline)) [
  | inl same ↦ rw same h
  | inr other ↦ rw other (h.0, (refl, tt))
]
completed-Scalars (c ∷ d ∷ t) h = (h.0, completed-Scalars (d ∷ t) h.1)

lines-Plain :
    (lines : List Text)
    → All (λ t. is_empty t ≡ false) lines
    → Scalars (joined_lines lines)
    → All Plain (map stdout_event lines)
lines-Plain [] f h = tt
lines-Plain (t ∷ lines) f h = (
  (f.0, All-append_left (λ c. is_scalar c ≡ true) t (joined_lines lines) h),
  lines-Plain lines f.1 (All-append_right (λ c. is_scalar c ≡ true) t (joined_lines lines) h),
)

-- What the page shows of a stream: the three parts, whatever the chunks.
abbrev pub Shows : (SseEvent → Text) → (Text → Option SseEvent) → Answer → Text → Text → ℕ → Type 0
Shows marshal parse answer out stderr n =
    (events : List SseEvent) × (answer ≡ streamed events)
    × ((chunks : List Text)
        → joined chunks ≡ body_of marshal events
        → read_events parse chunks ≡ (events, true))
    × (shown_stdout events ≡ out)
    × (shown_stderr events ≡ stderr)
    × (shown_codes events ≡ record { negative = false; magnitude = n } ∷ [])

module _ (b : Bash) (netip : Netip)
    (validate : Text → b.World → Outcome ValidateError ValidationResult × b.World) where
  open b use {World, Shell}

  abbrev events_of : List Text → Text → ℕ → List SseEvent
  events_of lines stderr n =
      map stdout_event lines
      ++ (stderr_events (surroundings b netip validate) stderr
          ++ (complete_event (exit_code_of b n) ∷ []))

  stderr-Plain :
      (stderr : Text)
      → Scalars stderr
      → All Plain (stderr_events (surroundings b netip validate) stderr)
  stderr-Plain [] h = tt
  stderr-Plain (c ∷ t) h = ((refl, h), tt)

  stdout_shown :
      (lines : List Text) (stderr : Text) (n : ℕ)
      → shown_stdout (events_of lines stderr n) ≡ joined_lines lines
  stdout_shown [] [] n = refl
  stdout_shown [] (c ∷ stderr) n = refl
  stdout_shown (t ∷ lines) stderr n = ap (λ (s : Text). t ++ s) (stdout_shown lines stderr n)

  stderr_shown :
      (lines : List Text) (stderr : Text) (n : ℕ) → shown_stderr (events_of lines stderr n) ≡ stderr
  stderr_shown [] [] n = refl
  stderr_shown [] (c ∷ stderr) n = append-nil (c ∷ stderr)
  stderr_shown (t ∷ lines) stderr n = stderr_shown lines stderr n

  codes_shown :
      (lines : List Text) (stderr : Text) (n : ℕ)
      → shown_codes (events_of lines stderr n) ≡ exit_code_of b n ∷ []
  codes_shown [] [] n = refl
  codes_shown [] (c ∷ stderr) n = refl
  codes_shown (t ∷ lines) stderr n = codes_shown lines stderr n

  events-Plain :
      (lines : List Text) (stderr : Text) (n : ℕ)
      → All (λ t. is_empty t ≡ false) lines
      → Scalars (joined_lines lines)
      → Scalars stderr
      → n ≤ 2 ^ 53 - 1
      → All Plain (events_of lines stderr n)
  events-Plain lines stderr n filled good good_stderr small =
      All-append Plain (map stdout_event lines) _ (lines-Plain lines filled good) (
        All-append Plain (stderr_events (surroundings b netip validate) stderr)
          (complete_event (exit_code_of b n) ∷ []) (stderr-Plain stderr good_stderr) (small, tt))

  kept-Scalars :
      (stderr errs : Text)
      → Scalars errs
      → (stderr ≡ errs) ⊎ (stderr ≡ errs ++ (newline ∷ []))
      → Scalars stderr
  kept-Scalars stderr errs h (inl same) = rw same h
  kept-Scalars stderr errs h (inr more) =
      rw more (All-append (λ c. is_scalar c ≡ true) errs (newline ∷ []) h (refl, tt))

  module _ {marshal : SseEvent → Text} {parse : Text → Option SseEvent}
      (j : Json marshal parse) where
    -- The page shows what bash printed.
    abbrev pub Displayed : Text → Text → ℕ → Answer → Type 0
    Displayed out errs n answer =
        (stderr : Text) × ((stderr ≡ errs) ⊎ (stderr ≡ errs ++ (newline ∷ [])))
        × Shows marshal parse answer (completed out) stderr n

    displayed :
        (id remote command out errs : Text) (n : ℕ) (reply : Answer × List AuditLine × World)
        → Delivered b netip validate id remote command out errs n reply
        → Scalars out
        → Scalars errs
        → n ≤ 2 ^ 53 - 1
        → Displayed out errs n reply.0
    displayed id remote command out errs n (given, audit, w)
          (lines, stderr, sent, same, filled, kept, logged) good good_errs small =
        (stderr, kept, shown)
      where
        shown : Shows marshal parse given (completed out) stderr n
        shown = (
          events_of lines stderr n,
          sent,
          λ chunks whole. read_events-write_sse j (events_of lines stderr n) chunks whole (
              events-Plain lines stderr n filled
                (subst Scalars (sym same) (completed-Scalars out good))
                (kept-Scalars stderr errs good_errs kept) small),
          stdout_shown lines stderr n ∙ same,
          stderr_shown lines stderr n,
          codes_shown lines stderr n,
        )

    -- A command that the validator finds safe, in a shell that is in order, while the context lasts, the
    -- script can be written and every send is taken. If bash prints an output of valid Unicode, in lines
    -- below 1 MiB, without carriage returns and without a line that begins with the marker, and the
    -- markers of the script behind what it printed on each pipe, also on stderr where that was valid
    -- Unicode too, with an exit code that a double holds, then, however the
    -- body of the answer is cut into chunks on its way, the page reads from it events whose texts for
    -- stdout are together that output, with a newline at its end if it lacks one, whose texts for
    -- stderr are what bash printed there, perhaps with a newline more, and whose one exit code is that
    -- of the command.
    pub handle_execute-Displayed :
        (shells : Table Shell) (req : Request) (w w1 : World) (shell : Shell)
        (command remote out errs : Text) (n : ℕ) (r : ValidationResult)
        → is_empty req.shell_cookie ≡ false
        → lookup req.shell_cookie shells ≡ some shell
        → req.command ≡ some command
        → client_address (surroundings b netip validate) req.client_address ≡ some remote
        → validate command w ≡ (ok r, w1)
        → r.safe ≡ true
        → Able b shell command w1
        → Prints b shell command w1 out errs n
        → Scalars out
        → Scalars errs
        → n ≤ 2 ^ 53 - 1
        → Displayed out errs n (handle_execute (surroundings b netip validate) shells req w).0
    handle_execute-Displayed shells req w w1 shell command remote out errs n r cookie there asked
          from passed safe a p =
        displayed req.shell_cookie remote command out errs n
          (handle_execute (surroundings b netip validate) shells req w)
          (handle_execute-Delivered b netip validate shells req w w1 shell command remote out errs n
            r cookie there asked from passed safe a p)
