-- ===== src/Runner/Shell.antt =====
-- runner/shell.go: a persistent bash and its marker protocol. The process, its pipes and the clock
-- are inputs: the lines that the scanner gives, the chunks that the stderr pipe gives, whether a
-- write works, and whether a send is taken before the context ends.
pub mod Start
pub mod Stream
pub mod Stderr
pub mod Scanner
pub mod Output
pub mod Calls
use hackathon.Common.{
  ℕ, Bool, true, false, Option, none, some, List, [], ◌∷◌, ◌++◌, ◌==◌, if◌then◌else◌,
}
use hackathon.Text.{Text, codes, is_empty}
use hackathon.Text.Decimal.{Integer, atoi, decimal}

pub data ShellError : Type 0 where
  context_error : ShellError
  write_desynchronized send_desynchronized scan_desynchronized end_desynchronized : ShellError
  scan_error end_of_stdout : ShellError
  parse_exit_code : Text → ShellError

pub record BashShell : Type 0 where
  pub stderr_buf : Text
  pub stderr_marker : Text
  pub stderr_done : Bool
  pub broken : Option ShellError

-- strings.HasPrefix, and the text behind the prefix
unfoldable pub strip_prefix : Text → Text → Option Text
strip_prefix [] s = some s
strip_prefix (a ∷ p) [] = none
strip_prefix (a ∷ p) (b ∷ s) = let rest = strip_prefix p s in if a == b then rest else none

abbrev pub here_or : ℕ → Option Text → Option (Text × Text) → Option (Text × Text)
here_or c (some behind) later = some ([], behind)
here_or c none none = none
here_or c none (some (before, behind)) = some (c ∷ before, behind)

-- strings.Index, as the texts before and behind the first occurrence
unfoldable pub cut_at : Text → Text → Option (Text × Text)
unfolding strip_prefix
cut_at marker [] = elim (strip_prefix marker []) [ none ↦ none | some behind ↦ some ([], behind) ]
cut_at marker (c ∷ s) = let later = cut_at marker s in here_or c (strip_prefix marker (c ∷ s)) later

abbrev pub newline : ℕ
newline = b'\n'

-- The newline right behind the marker goes with it.
unfoldable pub drop_newline : Text → Text
drop_newline [] = []
drop_newline (c ∷ s) = if c == newline then s else c ∷ s

abbrev pub strip_marker : BashShell → Option (Text × Text) → BashShell
strip_marker s none = s
strip_marker s (some (before, behind)) = record s {
  stderr_buf = before ++ drop_newline behind;
  stderr_marker = [];
  stderr_done = true;
}

unfoldable pub check_stderr_marker : BashShell → BashShell
check_stderr_marker s =
    if is_empty s.stderr_marker then s else strip_marker s (cut_at s.stderr_marker s.stderr_buf)

-- One round of readStderr.
unfoldable pub read_chunk : BashShell → Text → BashShell
unfolding check_stderr_marker
read_chunk s chunk = check_stderr_marker (record s { stderr_buf = s.stderr_buf ++ chunk })

unfoldable pub read_stderr : BashShell → List Text → BashShell
unfolding read_chunk
read_stderr s [] = s
read_stderr s (chunk ∷ chunks) = read_stderr (read_chunk s chunk) chunks

-- The marker of a command, from the clock in nanoseconds.
unfoldable pub marker_of : ℕ → Text
marker_of now = codes "__MRK_" ++ (decimal now ++ codes "_END__")

-- The script of a command.
unfoldable pub script : Text → Text → Text
script command marker =
    command
    ++ (codes "\n__ec=$?\nbuiltin echo '"
        ++ (marker
            ++ (codes "' >&2\nbuiltin echo ''\nbuiltin echo '" ++ (marker ++ codes "'${__ec}\n"))))

-- The variables of the loop over the lines; `sent` is what stdoutCh took.
pub record Streaming (W : Type 0) : Type 0 where
  pub pending_empty : Bool
  pub send_err : Option ShellError
  pub broken : Option ShellError
  pub sent : List Text
  pub world : W

pub record Result : Type 0 where
  pub exit_code : Integer
  pub stderr : Text
  pub err : Option ShellError

abbrev pub minus_one : Integer
minus_one = record { negative = true; magnitude = 1 }

abbrev pub failure : ShellError → Result
failure e = record { exit_code = minus_one; stderr = []; err = some e }

-- `send` is the select of sendLine: true if the channel took the line, false if the context ended.
module _ {W : Type 0} (send : Text → W → Bool × W) where
  abbrev pub sent_or_not : Text → Streaming W → Bool × W → Streaming W
  sent_or_not line st (true, w) = record st { sent = st.sent ++ (line ∷ []); world = w }
  sent_or_not line st (false, w) = record st {
    send_err = some send_desynchronized;
    broken = some send_desynchronized;
    world = w;
  }

  unfoldable pub send_line : Text → Streaming W → Streaming W
  send_line line st = let text = line ++ (newline ∷ []) in sent_or_not text st (send text st.world)

  abbrev pub emit : Text → Streaming W → Streaming W
  emit [] st = record st { pending_empty = true }
  emit (c ∷ line) st = send_line (c ∷ line) st

  -- After the pending empty line was sent, or not.
  abbrev pub after_pending : Text → Streaming W → Option ShellError → Streaming W
  after_pending line st (some e) = st
  after_pending line st none = emit line (record st { pending_empty = false })

  abbrev pub with_pending : Text → Streaming W → Bool → Streaming W
  with_pending line st false = emit line st
  with_pending line st true =
      let flushed = send_line [] st in after_pending line flushed flushed.send_err

  abbrev pub unless_failed : Text → Streaming W → Option ShellError → Streaming W
  unless_failed line st (some e) = st
  unless_failed line st none = with_pending line st st.pending_empty

  -- A line of output that is no marker.
  unfoldable pub take_line : Text → Streaming W → Streaming W
  unfolding send_line
  take_line line st = unless_failed line st st.send_err

  abbrev pub after_marker :
      Text → Integer → Streaming W → Option ShellError → Option Result × Streaming W
  after_marker stderr exit_code st (some e) = (some (failure e), record st { broken = none })
  after_marker stderr exit_code st none =
      (some (record { exit_code = exit_code; stderr = stderr; err = none }), st)

  -- The wait for stderrDone does not end where the marker never comes on stderr: there is no result.
  abbrev pub with_exit_code :
      Text → Option Text → Streaming W → Option Integer → Option Result × Streaming W
  with_exit_code ec stderr st none = (some (failure (parse_exit_code ec)), st)
  with_exit_code ec none st (some exit_code) = (none, st)
  with_exit_code ec (some stderr) st (some exit_code) = after_marker stderr exit_code st st.send_err

  abbrev pub at_end : Bool → Streaming W → Option Result × Streaming W
  at_end true st = (some (failure scan_error), record st { broken = some scan_desynchronized })
  at_end false st = (some (failure end_of_stdout), record st { broken = some end_desynchronized })

  -- The `for` over the lines; `stderr` is what getStderr gives once stderrDone is closed, none if it
  -- never is.
  unfoldable pub stream :
      Text → Option Text → Bool → List Text → Streaming W → Option Result × Streaming W
  unfolding take_line
  stream marker stderr scan_failed [] st = at_end scan_failed st
  stream marker stderr scan_failed (line ∷ lines) st = elim (strip_prefix marker line) [
    | some ec ↦ with_exit_code ec stderr st (atoi ec)
    | none ↦ stream marker stderr scan_failed lines (take_line line st)
  ]

-- What the surroundings of one call give.
pub record Surroundings (W : Type 0) : Type 0 where
  pub marker : Text
  pub context_err : Bool
  pub write_failed : Bool
  pub lines : List Text
  pub scan_failed : Bool
  pub stderr : Option Text
  pub send : Text → W → Bool × W
  pub world : W

abbrev pub fresh : {W : Type 0} → W → Streaming W
fresh w = record { pending_empty = false; send_err = none; broken = none; sent = []; world = w }

abbrev pub finished :
    {W : Type 0} → BashShell → Option Result × Streaming W → Option Result × List Text × BashShell
finished s (result, st) = (result, st.sent, record s { broken = st.broken })

-- The body of ExecuteStream once the command is about to be written.
abbrev pub write_and_stream :
    {W : Type 0} → BashShell → Surroundings W → Bool → Option Result × List Text × BashShell
write_and_stream s e true =
    (some (failure write_desynchronized), [], record s { broken = some write_desynchronized })
write_and_stream s e false =
    finished s (stream e.send e.marker e.stderr e.scan_failed e.lines (fresh e.world))

abbrev pub with_context :
    {W : Type 0} → BashShell → Surroundings W → Bool → Option Result × List Text × BashShell
with_context s e true = (some (failure context_error), [], s)
with_context s e false = write_and_stream s e e.write_failed

abbrev pub unless_broken :
    {W : Type 0}
    → BashShell
    → Surroundings W
    → Option ShellError
    → Option Result × List Text × BashShell
unless_broken s e (some x) = (some (failure x), [], s)
unless_broken s e none =
    with_context (record s { stderr_buf = []; stderr_marker = e.marker; stderr_done = false }) e
      e.context_err

-- ExecuteStream: the result, none if it does not return, the lines that went to stdoutCh, and the shell afterwards.
unfoldable pub execute_stream :
    {W : Type 0} → BashShell → Surroundings W → Option Result × List Text × BashShell
unfolding stream
execute_stream s e = unless_broken s e s.broken
