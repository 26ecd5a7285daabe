-- ===== src/Runner/Shell/Stream.antt =====
-- runner/shell.go, the loop of ExecuteStream: what of the scanned lines goes to the channel.
use hackathon.Common.{
  ℕ, ◌^◌, ◌-◌, ◌≤◌, ◌≡◌, refl, sym, ◌∙◌, ap, subst, inl, inr, ◌⊎◌, Bool, true, false, Option, none,
  some, List, [], ◌∷◌, ◌++◌, map, append-nil, append_assoc, arith, All,
}
use hackathon.Text.{Text}
use hackathon.Text.Decimal.{Integer, decimal, atoi-decimal}
use hackathon.Runner.Shell.{
  ShellError, context_error, send_desynchronized, BashShell, Result, failure, Streaming,
  Surroundings, strip_prefix, newline, sent_or_not, send_line, emit, after_pending, after_marker,
  take_line, stream, execute_stream,
}

-- The text of a line with its newline back.
abbrev pub ended : Text → Text
ended line = line ++ (newline ∷ [])

-- The lines of the command itself: an empty line just before the marker is the script's.
abbrev pub own_lines : List Text → List Text
own_lines [] = []
own_lines ([] ∷ []) = []
own_lines ((c ∷ line) ∷ []) = (c ∷ line) ∷ []
own_lines (line ∷ next ∷ lines) = line ∷ own_lines (next ∷ lines)

abbrev pub Unmarked : Text → Text → Type 0
Unmarked marker line = strip_prefix marker line ≡ none

pub strip_prefix-append : (p s : Text) → strip_prefix p (p ++ s) ≡ some s
unfolding strip_prefix
strip_prefix-append [] s = refl
strip_prefix-append (a ∷ p) s = ground (arith, strip_prefix-append p s)

-- The lines with an empty line that is still held back in front.
abbrev held : Bool → List Text → List Text
held true lines = [] ∷ lines
held false lines = lines

module _ {W : Type 0} (send : Text → W → Bool × W) where
  -- The state of the loop while no send has failed.
  abbrev open_state : Bool → List Text → W → Streaming W
  open_state pending sent w = record {
    pending_empty = pending;
    send_err = none;
    broken = none;
    sent = sent;
    world = w;
  }

  abbrev Part : List Text → List Text → Type 0
  Part sent all = (rest : List Text) × (all ≡ sent ++ rest)

  -- Some send was not taken.
  abbrev Untaken : Type 0
  Untaken = (t : Text) × (w : W) × ((send t w).0 ≡ false)

  -- How a call ends: everything was delivered, or a send failed and a front part was.
  abbrev pub Delivered : Integer → Text → List Text → Option Result × Streaming W → Type 0
  Delivered exit_code stderr all (result, st) =
      (st.broken ≡ none)
      × (((result ≡ some (record { exit_code = exit_code; stderr = stderr; err = none }))
            × (st.sent ≡ all))
          ⊎ ((result ≡ some (failure send_desynchronized)) × Part st.sent all × Untaken))

  module _ (marker stderr : Text) (scan_failed : Bool) (n : ℕ) (rest : List Text) where
    abbrev exit_code : Integer
    exit_code = record { negative = false; magnitude = n }

    -- The lines of the command and the line of the marker.
    abbrev output : List Text → List Text
    output body = body ++ ((marker ++ decimal n) ∷ rest)

    abbrev failed_state : Bool → List Text → W → Streaming W
    failed_state pending sent w = record (open_state pending sent w) {
      send_err = some send_desynchronized;
      broken = some send_desynchronized;
    }

    at_marker :
        (st : Streaming W)
        → n ≤ 2 ^ 63 - 1
        → stream send marker (some stderr) scan_failed (output []) st
          ≡ after_marker send stderr exit_code st st.send_err
    unfolding stream
    at_marker st le =
        rw (strip_prefix-append marker (decimal n), stream) (rw (atoi-decimal n le) refl)

    at_line :
        (line : Text) (body : List Text) (st : Streaming W)
        → Unmarked marker line
        → stream send marker (some stderr) scan_failed (output (line ∷ body)) st
          ≡ stream send marker (some stderr) scan_failed (output body) (take_line send line st)
    unfolding stream
    at_line line body st h = rw (h, stream) refl

    drained :
        (body : List Text) (pending : Bool) (sent : List Text) (w : W)
        → All (Unmarked marker) body
        → n ≤ 2 ^ 63 - 1
        → stream send marker (some stderr) scan_failed (output body) (failed_state pending sent w)
          ≡ (
            some (failure send_desynchronized),
            record (failed_state pending sent w) { broken = none },
          )
    unfolding take_line
    drained [] pending sent w h le = at_marker (failed_state pending sent w) le
    drained (line ∷ body) pending sent w h le =
        at_line line body (failed_state pending sent w) h.0 ∙ drained body pending sent w h.1 le

    own_lines_filled :
        (c : ℕ) (line : Text) (body : List Text)
        → own_lines ((c ∷ line) ∷ body) ≡ (c ∷ line) ∷ own_lines body
    own_lines_filled c line [] = refl
    own_lines_filled c line (next ∷ body) = refl

    abbrev Goal : List Text → Streaming W → List Text → Type 0
    Goal body st all =
        Delivered exit_code stderr all
          (stream send marker (some stderr) scan_failed (output body) st)

    -- What holds of the lines that follow, whatever was sent before them.
    abbrev After : List Text → Type 0
    After body =
        (pending : Bool) (sent : List Text) (w : W)
        → Goal body (open_state pending sent w) (sent ++ map ended (own_lines (held pending body)))

    failed :
        (body : List Text) (pending : Bool) (sent all : List Text) (w : W)
        → All (Unmarked marker) body
        → n ≤ 2 ^ 63 - 1
        → Part sent all
        → Untaken
        → Goal body (failed_state pending sent w) all
    failed body pending sent all w h le part untaken =
        rw (drained body pending sent w h le) (refl, inr (refl, part, untaken))

    one_sent :
        (body : List Text) (line : Text) (pending : Bool) (sent more : List Text) (o : Bool × W)
        → All (Unmarked marker) body
        → n ≤ 2 ^ 63 - 1
        → ((w : W)
            → Goal body
                (open_state pending (sent ++ (line ∷ [])) w)
                ((sent ++ (line ∷ [])) ++ more))
        → (w : W) → send line w ≡ o
        → Goal body (sent_or_not send line (open_state pending sent w) o) (sent ++ (line ∷ more))
    one_sent body line pending sent more (true, w') h le next w e =
        subst (Goal body (open_state pending (sent ++ (line ∷ [])) w'))
          (append_assoc sent (line ∷ []) more) (next w')
    one_sent body line pending sent more (false, w') h le next w e =
        failed body pending sent (sent ++ (line ∷ more)) w' h le (line ∷ more, refl)
          (line, w, ap (λ (x : Bool × W). x.0) e)

    emitted :
        (body : List Text) (line : Text) (sent : List Text) (w : W)
        → All (Unmarked marker) body
        → n ≤ 2 ^ 63 - 1
        → After body
        → Goal body
            (emit send line (open_state false sent w))
            (sent ++ map ended (own_lines (line ∷ body)))
    unfolding send_line
    emitted body [] sent w h le next = next true sent w
    emitted body (c ∷ line) sent w h le next = rw (own_lines_filled c line body) (
        one_sent body (ended (c ∷ line)) false sent (map ended (own_lines body))
          (send (ended (c ∷ line)) w) h le (λ w'. next false (sent ++ (ended (c ∷ line) ∷ [])) w') w
          refl)

    flushed :
        (body : List Text) (line : Text) (sent : List Text) (w : W) (o : Bool × W)
        → send (ended []) w ≡ o
        → All (Unmarked marker) body
        → n ≤ 2 ^ 63 - 1
        → After body
        → let st = sent_or_not send (ended []) (open_state true sent w) o in
          Goal body
            (after_pending send line st st.send_err)
            (sent ++ (ended [] ∷ map ended (own_lines (line ∷ body))))
    flushed body line sent w (true, w') e h le next =
        subst (Goal body (emit send line (open_state false (sent ++ (ended [] ∷ [])) w')))
          (append_assoc sent (ended [] ∷ []) (map ended (own_lines (line ∷ body))))
          (emitted body line (sent ++ (ended [] ∷ [])) w' h le next)
    flushed body line sent w (false, w') e h le next =
        failed body true sent _ w' h le (ended [] ∷ map ended (own_lines (line ∷ body)), refl)
          (ended [], w, ap (λ (x : Bool × W). x.0) e)

    taken :
        (body : List Text) (line : Text) (pending : Bool) (sent : List Text) (w : W)
        → All (Unmarked marker) body
        → n ≤ 2 ^ 63 - 1
        → After body
        → Goal body
            (take_line send line (open_state pending sent w))
            (sent ++ map ended (own_lines (held pending (line ∷ body))))
    unfolding take_line send_line
    taken body line false sent w h le next = emitted body line sent w h le next
    taken body line true sent w h le next =
        flushed body line sent w (send (ended []) w) refl h le next

    whole_run : (body : List Text) → All (Unmarked marker) body → n ≤ 2 ^ 63 - 1 → After body
    whole_run [] h le true sent w =
        rw (at_marker (open_state true sent w) le) (refl, inl (refl, sym (append-nil sent)))
    whole_run [] h le false sent w =
        rw (at_marker (open_state false sent w) le) (refl, inl (refl, sym (append-nil sent)))
    whole_run (line ∷ body) h le pending sent w =
        subst
          (Delivered exit_code stderr (sent ++ map ended (own_lines (held pending (line ∷ body)))))
          (sym (at_line line body (open_state pending sent w) h.0))
          (taken body line pending sent w h.1 le (whole_run body h.1 le))

-- If the shell is in order, the context has not ended, the script was written, the marker came on
-- stderr, and the scanned lines are lines without the marker and then the marker with an exit code,
-- then ExecuteStream returns and leaves the shell in order. Either it returns the exit code and stderr, and the channel took every line of the
-- command with its newline, but not an empty line just before the marker, which is the script's; or a
-- send was not taken, it returns that error, and the channel took a front part of those lines.
pub execute_stream_lem :
    {W : Type 0} (s : BashShell) (e : Surroundings W) (body rest : List Text) (n : ℕ)
    (stderr : Text)
    → s.broken ≡ none
    → e.context_err ≡ false
    → e.write_failed ≡ false
    → e.stderr ≡ some stderr
    → e.lines ≡ body ++ ((e.marker ++ decimal n) ∷ rest)
    → All (λ line. strip_prefix e.marker line ≡ none) body
    → n ≤ 2 ^ 63 - 1
    → let (result, sent, s') = execute_stream s e in
      let all = map ended (own_lines body) in
      (s'.broken ≡ none)
      × (((result
              ≡ some (record {
                exit_code = record { negative = false; magnitude = n };
                stderr = stderr;
                err = none;
              }))
            × (sent ≡ all))
          ⊎ ((result ≡ some (failure send_desynchronized))
              × ((later : List Text) × (all ≡ sent ++ later))
              × ((t : Text) × (w : W) × ((e.send t w).0 ≡ false))))
unfolding execute_stream
execute_stream_lem s e body rest n stderr ready alive written arrived lines h le =
    rw (ready, alive, written, arrived, lines)
      (whole_run e.send e.marker stderr e.scan_failed n rest body h le false [] e.world)

-- A shell that has lost the synchronisation refuses every command with the same error, and an ended
-- context refuses it before anything is written; neither changes whether the shell is in order.
pub execute_stream_refused :
    {W : Type 0} (s : BashShell) (e : Surroundings W)
    → ((x : ShellError) → s.broken ≡ some x → execute_stream s e ≡ (some (failure x), [], s))
      × (s.broken ≡ none
          → e.context_err ≡ true
          → ((execute_stream s e).0 ≡ some (failure context_error))
            × ((execute_stream s e).1 ≡ [])
            × ((execute_stream s e).2.broken ≡ none))
unfolding execute_stream
execute_stream_refused s e =
    (λ x b. rw b refl, λ b a. (rw (b, a) refl, rw (b, a) refl, rw (b, a) refl))
