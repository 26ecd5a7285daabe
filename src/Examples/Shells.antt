-- ===== src/Examples/Shells.antt =====
-- One command in a shell, and its marker on stderr.
use hackathon.Common.{
  ℕ, zero, suc, ◌≡◌, refl, ◌⊎◌, Bool, true, false, none, some, List, [], ◌∷◌, ◌++◌, map, All, arith,
}
use hackathon.Text.{Text, codes}
use hackathon.Text
use hackathon.Text.Decimal.{decimal}
use hackathon.Runner.Shell.{marker_of}
use hackathon.Runner.Shell.Scanner.{scan}
use hackathon.Runner.Shell.Calls.{Results, AllRefused, run_calls, run_calls_lem}
use hackathon.Runner.Shell.{
  ShellError, send_desynchronized, write_desynchronized, BashShell, Result, failure, Surroundings,
  newline, strip_prefix, cut_at, drop_newline, read_stderr, execute_stream,
}
use hackathon.Runner.Shell.Stream.{own_lines, ended, execute_stream_lem}
use hackathon.Runner.Shell.Stderr.{joined, read_stderr_lem}

abbrev marker : Text
marker = codes "__MRK_7_END__"

abbrev pub ready : BashShell
ready = record { stderr_buf = []; stderr_marker = []; stderr_done = true; broken = none }

abbrev body : List Text
body = codes "one" ∷ [] ∷ codes "two" ∷ [] ∷ []

-- The channel takes two sends and then no more.
abbrev send : Text → ℕ → Bool × ℕ
send t zero = (false, 0)
send t (suc n) = (true, n)

abbrev call : Surroundings ℕ
call = record {
  marker = marker;
  context_err = false;
  write_failed = false;
  lines = body ++ ((marker ++ decimal 3) ∷ []);
  scan_failed = false;
  stderr = some (codes "oops");
  send = send;
  world = 2;
}

body_unmarked : All (λ line. strip_prefix marker line ≡ none) body
unfolding strip_prefix
body_unmarked = (refl, (refl, (refl, (refl, tt))))

execute_stream_example :
    let (result, sent, s') = execute_stream ready call in
    let all = map ended (own_lines body) in
    (s'.broken ≡ none)
    × (((result
            ≡ some (record {
              exit_code = record { negative = false; magnitude = 3 };
              stderr = codes "oops";
              err = none;
            }))
          × (sent ≡ all))
        ⊎ ((result ≡ some (failure send_desynchronized))
            × ((later : List Text) × (all ≡ sent ++ later))
            × ((t : Text) × (w : ℕ) × ((send t w).0 ≡ false))))
execute_stream_example =
    execute_stream_lem ready call body [] 3 (codes "oops") refl refl refl refl refl body_unmarked
      (omega arith)

abbrev waiting : BashShell
waiting = record ready { stderr_marker = marker; stderr_done = false }

-- The newline behind the marker comes in a chunk of its own.
abbrev chunks : List Text
chunks = codes "oops__MRK_" ∷ codes "7_END__" ∷ codes "\n" ∷ []

cut : cut_at marker (joined chunks) ≡ some (codes "oops", codes "\n")
unfolding cut_at strip_prefix
cut = refl

read_stderr_example :
    let s' = read_stderr waiting chunks in
    (s'.stderr_done ≡ true)
    × (s'.stderr_marker ≡ [])
    × ((s'.stderr_buf ≡ codes "oops" ++ codes "\n")
        ⊎ (s'.stderr_buf ≡ codes "oops" ++ drop_newline (codes "\n")))
read_stderr_example = read_stderr_lem waiting chunks (codes "oops") (codes "\n") refl refl cut

-- Here the newline stays in the buffer.
read_stderr_late_newline : (read_stderr waiting chunks).stderr_buf ≡ codes "oops\n"
unfolding read_stderr cut_at strip_prefix drop_newline
read_stderr_late_newline = refl

-- Two lines, the second without a newline, then the marker of the script.
abbrev printed : Surroundings ℕ
printed = record {
  marker = marker_of 7;
  context_err = false;
  write_failed = false;
  lines = (scan (codes "one\ntwo" ++ (newline ∷ ((marker_of 7 ++ decimal 3) ++ (newline ∷ []))))).0;
  scan_failed = false;
  stderr = some (codes "oops");
  send = λ t w. (true, w);
  world = 0;
}

printed_unmarked :
    All (λ line. strip_prefix (marker_of 7) line ≡ none) (Text.split newline (codes "one\ntwo"))
unfolding strip_prefix marker_of Text.split
printed_unmarked = (refl, (refl, tt))

-- The script is not written, so the shell is lost.
abbrev unwritten : Surroundings ℕ
unwritten = record call { write_failed = true }

abbrev lost : BashShell
lost = record ready {
  stderr_marker = marker;
  stderr_done = false;
  broken = some write_desynchronized;
}

abbrev refusals : Results
refusals = (failure write_desynchronized, []) ∷ []

lost_shell : run_calls ready (unwritten ∷ []) ≡ some (refusals, lost)
unfolding run_calls execute_stream
lost_shell = refl

run_calls_example :
    ((r : Result) (sent : List Text) (s' : BashShell)
      → execute_stream lost call ≡ (some r, sent, s')
      → r.err ≡ none
      → s'.broken ≡ none)
    × ((x : ShellError)
        → lost.broken ≡ some x
        → (more : Results) × (run_calls ready (unwritten ∷ call ∷ printed ∷ [])
            ≡ some (refusals ++ more, lost))
          × AllRefused x (call ∷ printed ∷ []) more)
run_calls_example =
    run_calls_lem ready (unwritten ∷ []) call (printed ∷ []) refusals lost lost_shell
