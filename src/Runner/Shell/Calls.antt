-- ===== src/Runner/Shell/Calls.antt =====
-- runner/shell.go: one command after the other in the same shell. The mutex makes each call whole.
use hackathon.Common.{
  ◌≡◌, refl, sym, ◌∙◌, ap, subst, inl, inr, Bool, true, false, Option, none, some, List, [], ◌∷◌,
  ◌++◌, All, Option-cases, suc, length,
}
use mathlib.Core.Option.{some-injective}
use hackathon.Text.{Text}
use hackathon.Text.Decimal.{Integer, atoi}
use hackathon.Runner.Shell.{
  ShellError, BashShell, Result, failure, Streaming, Surroundings, strip_prefix, newline,
  sent_or_not, send_line, emit, after_pending, with_pending, unless_failed, take_line, after_marker,
  with_exit_code, at_end, stream, write_and_stream, with_context, unless_broken, fresh, finished,
  execute_stream,
}
use hackathon.Runner.Shell.Stream.{execute_stream_refused}

abbrev pub Results : Type 0
Results = List (Result × List Text)

abbrev pub consed : Result × List Text → Option (Results × BashShell) → Option (Results × BashShell)
consed x none = none
consed x (some (results, s)) = some (x ∷ results, s)

-- A call that does not return keeps the mutex, so the later ones do not return either.
abbrev pub after_call :
    (BashShell → Option (Results × BashShell))
    → Option Result × List Text × BashShell
    → Option (Results × BashShell)
after_call go_on (none, sent, s) = none
after_call go_on (some result, sent, s) = consed (result, sent) (go_on s)

-- What each of the calls gave, and the shell afterwards; none if one of them does not return.
unfoldable pub run_calls :
    {W : Type 0} → BashShell → List (Surroundings W) → Option (Results × BashShell)
run_calls s [] = some ([], s)
run_calls s (e ∷ calls) = after_call (λ s1. run_calls s1 calls) (execute_stream s e)

abbrev pub Refused : ShellError → Result × List Text → Type 0
Refused x (result, sent) = (result ≡ failure x) × (sent ≡ [])

-- One refusal for each of the calls.
abbrev pub AllRefused : {W : Type 0} → ShellError → List (Surroundings W) → Results → Type 0
AllRefused x calls results = All (Refused x) results × (length results ≡ length calls)

lost_calls :
    {W : Type 0} (s : BashShell) (calls : List (Surroundings W)) (x : ShellError)
    → s.broken ≡ some x
    → (results : Results) × (run_calls s calls ≡ some (results, s)) × AllRefused x calls results
unfolding run_calls
lost_calls s [] x b = ([], refl, (tt, refl))
lost_calls s (e ∷ calls) x b =
    let same = (execute_stream_refused s e).0 x b in
    let (results, ran, (refused, count)) = lost_calls s calls x b in
    ((failure x, []) ∷ results, rw same (rw ran refl), (((refl, refl), refused), ap suc count))

module _ {W : Type 0} (pre post : List (Surroundings W)) (more : Results) (now last : BashShell)
    (later : (s : BashShell) (results : Results)
      → run_calls s pre ≡ some (results, now)
      → run_calls s (pre ++ post) ≡ some (results ++ more, last)) where
  consed_lem :
      (s : BashShell) (x : Result × List Text) (results : Results)
      (o : Option (Results × BashShell))
      → run_calls s pre ≡ o
      → consed x o ≡ some (results, now)
      → consed x (run_calls s (pre ++ post)) ≡ some (results ++ more, last)
  consed_lem s x results none e h = cc h
  consed_lem s x results (some (rs, s1)) e h =
      let same = some-injective (x ∷ rs, s1) (results, now) h in
      let list : x ∷ rs ≡ results = ap (λ (t : Results × BashShell). t.0) same in
      let at_now : s1 ≡ now = ap (λ (t : Results × BashShell). t.1) same in
      rw (later s rs (e ∙ ap (λ (t : BashShell). some (rs, t)) at_now))
        (ap (λ (l : Results). some (l ++ more, last)) list)

  after_call_lem :
      (results : Results) (o : Option Result × List Text × BashShell)
      → after_call (λ s1. run_calls s1 pre) o ≡ some (results, now)
      → after_call (λ s1. run_calls s1 (pre ++ post)) o ≡ some (results ++ more, last)
  after_call_lem results (none, sent, s) h = cc h
  after_call_lem results (some r, sent, s) h =
      consed_lem s (r, sent) results (run_calls s pre) refl h

run_calls-append :
    {W : Type 0} (pre post : List (Surroundings W)) (more : Results) (s now last : BashShell)
    (results : Results)
    → run_calls now post ≡ some (more, last)
    → run_calls s pre ≡ some (results, now)
    → run_calls s (pre ++ post) ≡ some (results ++ more, last)
unfolding run_calls
run_calls-append [] post more s now last results h e =
    let same = some-injective ([], s) (results, now) e in
    let list : [] ≡ results = ap (λ (t : Results × BashShell). t.0) same in
    let at_now : s ≡ now = ap (λ (t : Results × BashShell). t.1) same in
    rw at_now (h ∙ ap (λ (l : Results). some (l ++ more, last)) list)
run_calls-append (e ∷ pre) post more s now last results h k =
    after_call_lem pre post more now last
      (λ s1 rs g. run_calls-append pre post more s1 now last rs h g) results (execute_stream s e) k

-- While the lines are read, the shell is lost exactly if a send failed.
module _ {W : Type 0} (send : Text → W → Bool × W) where
  abbrev Same : Streaming W → Type 0
  Same st = st.broken ≡ st.send_err

  sent_or_not-Same :
      (line : Text) (st : Streaming W) (reply : Bool × W)
      → Same st
      → Same (sent_or_not send line st reply)
  sent_or_not-Same line st (true, w) h = h
  sent_or_not-Same line st (false, w) h = refl

  emit-Same : (line : Text) (st : Streaming W) → Same st → Same (emit send line st)
  unfolding send_line
  emit-Same [] st h = h
  emit-Same (c ∷ line) st h = sent_or_not-Same (c ∷ line ++ (newline ∷ [])) st _ h

  pending-Same :
      (line : Text) (st : Streaming W) (o : Option ShellError)
      → Same st
      → Same (after_pending send line st o)
  pending-Same line st (some e) h = h
  pending-Same line st none h = emit-Same line (record st { pending_empty = false }) h

  with_pending-Same :
      (line : Text) (st : Streaming W) (b : Bool) → Same st → Same (with_pending send line st b)
  unfolding send_line
  with_pending-Same line st false h = emit-Same line st h
  with_pending-Same line st true h =
      pending-Same line (send_line send [] st) (send_line send [] st).send_err
        (sent_or_not-Same (newline ∷ []) st (send (newline ∷ []) st.world) h)

  unless_failed-Same :
      (line : Text) (st : Streaming W) (o : Option ShellError)
      → Same st
      → Same (unless_failed send line st o)
  unless_failed-Same line st (some e) h = h
  unless_failed-Same line st none h = with_pending-Same line st st.pending_empty h

  -- A result without an error leaves the shell in order.
  abbrev Fine : Option Result × Streaming W → Type 0
  Fine (none, st) = Unit
  Fine (some result, st) = result.err ≡ none → st.broken ≡ none

  after_marker-Fine :
      (stderr : Text) (exit_code : Integer) (st : Streaming W) (o : Option ShellError)
      → st.broken ≡ o
      → Fine (after_marker send stderr exit_code st o)
  after_marker-Fine stderr exit_code st (some e) h = λ x. refl
  after_marker-Fine stderr exit_code st none h = λ x. h

  with_exit_code-Fine :
      (ec : Text) (stderr : Option Text) (st : Streaming W) (o : Option Integer)
      → Same st
      → Fine (with_exit_code send ec stderr st o)
  with_exit_code-Fine ec stderr st none h = λ x. cc x
  with_exit_code-Fine ec none st (some exit_code) h = tt
  with_exit_code-Fine ec (some stderr) st (some exit_code) h =
      after_marker-Fine stderr exit_code st st.send_err h

  at_end-Fine : (b : Bool) (st : Streaming W) → Fine (at_end send b st)
  at_end-Fine true st = λ x. cc x
  at_end-Fine false st = λ x. cc x

  module _ (marker : Text) (stderr : Option Text) (scan_failed : Bool) where
    abbrev loop : List Text → Streaming W → Option Result × Streaming W
    loop = stream send marker stderr scan_failed

    other_line :
        (line : Text) (lines : List Text) (st : Streaming W)
        → strip_prefix marker line ≡ none
        → loop (line ∷ lines) st ≡ loop lines (take_line send line st)
    unfolding stream
    other_line line lines st h = rw (h, stream) refl

    marker_line :
        (line ec : Text) (lines : List Text) (st : Streaming W)
        → strip_prefix marker line ≡ some ec
        → loop (line ∷ lines) st ≡ with_exit_code send ec stderr st (atoi ec)
    unfolding stream
    marker_line line ec lines st h = rw (h, stream) refl

    stream-Fine : (lines : List Text) (st : Streaming W) → Same st → Fine (loop lines st)
    unfolding stream take_line
    stream-Fine [] st h = at_end-Fine scan_failed st
    stream-Fine (line ∷ lines) st h = elim (Option-cases (strip_prefix marker line)) [
      | inl other ↦
          subst Fine (sym (other_line line lines st other))
            (stream-Fine lines _ (unless_failed-Same line st st.send_err h))
      | inr (ec, found) ↦
          subst Fine (sym (marker_line line ec lines st found))
            (with_exit_code-Fine ec stderr st (atoi ec) h)
    ]

abbrev InOrder : Option Result × List Text × BashShell → Type 0
InOrder (none, sent, s) = Unit
InOrder (some result, sent, s) = result.err ≡ none → s.broken ≡ none

module _ {W : Type 0} where
  finished-InOrder :
      (send : Text → W → Bool × W) (s : BashShell) (o : Option Result × Streaming W)
      → Fine send o
      → InOrder (finished s o)
  finished-InOrder send s (none, st) h = tt
  finished-InOrder send s (some result, st) h = h

  written-InOrder :
      (s : BashShell) (e : Surroundings W) (b : Bool) → InOrder (write_and_stream s e b)
  written-InOrder s e true = λ x. cc x
  written-InOrder s e false =
      finished-InOrder e.send s _
        (stream-Fine e.send e.marker e.stderr e.scan_failed e.lines (fresh e.world) refl)

  alive-InOrder : (s : BashShell) (e : Surroundings W) (b : Bool) → InOrder (with_context s e b)
  alive-InOrder s e true = λ x. cc x
  alive-InOrder s e false = written-InOrder s e e.write_failed

  ready-InOrder :
      (s : BashShell) (e : Surroundings W) (o : Option ShellError) → InOrder (unless_broken s e o)
  ready-InOrder s e (some x) = λ y. cc y
  ready-InOrder s e none = alive-InOrder _ e e.context_err

  success-InOrder : (s : BashShell) (e : Surroundings W) → InOrder (execute_stream s e)
  unfolding execute_stream
  success-InOrder s e = ready-InOrder s e s.broken

  -- Over any commands in one shell that all returned: if the next one succeeds, it leaves the shell in
  -- order; and if the shell is lost, then the next command and every later one returns, is refused
  -- with the same error and sends nothing, and the shell stays as it is.
  pub run_calls_lem :
      (s : BashShell) (pre : List (Surroundings W)) (e : Surroundings W)
      (post : List (Surroundings W)) (results : Results) (now : BashShell)
      → run_calls s pre ≡ some (results, now)
      → ((r : Result) (sent : List Text) (s' : BashShell)
          → execute_stream now e ≡ (some r, sent, s')
          → r.err ≡ none
          → s'.broken ≡ none)
        × ((x : ShellError)
            → now.broken ≡ some x
            → (more : Results) × (run_calls s (pre ++ (e ∷ post)) ≡ some (results ++ more, now))
              × AllRefused x (e ∷ post) more)
  run_calls_lem s pre e post results now ran = (
    λ r sent s' h. subst InOrder h (success-InOrder now e),
    λ x lost.
        let (more, later, refused) = lost_calls now (e ∷ post) x lost in
        (more, run_calls-append pre (e ∷ post) more s now now results later ran, refused),
  )
