-- ===== src/Runner/Execute/Delivery.antt =====
-- POST /api/execute of runner/handler.go over the shell of runner/shell.go: from the bytes that bash
-- prints to the events of the stream. Bash and the clock are parameters.
use hackathon.Common.{
  ℕ, ◌≡◌, ◌≤◌, ◌-◌, ◌^◌, ◌⊎◌, inl, inr, refl, ◌∙◌, ap, Bool, true, false, Option, none, some, List,
  [], ◌∷◌, ◌++◌, map, All, append-nil, if◌then◌else◌,
}
use hackathon.Text.{Text, is_empty}
use hackathon.Text
use hackathon.Text.Decimal.{Integer, decimal}
use hackathon.Text.Separated.{Lacks}
use hackathon.Broker.Outcome.{Outcome, ok}
use hackathon.Runner.Shell.{Surroundings as StreamSurroundings}
use hackathon.Runner.Shell.{
  BashShell, Result, newline, strip_prefix, cut_at, drop_newline, read_stderr, marker_of, script,
  execute_stream,
}
use hackathon.Runner.Shell.Stderr.{joined, read_stderr_lem}
use hackathon.Runner.Shell.Scanner.{scan, fits, completed, joined_lines}
use hackathon.Runner.Shell.Output.{execute_stream-output}
use hackathon.Runner.Validator.{ValidateError, ValidationResult}
use hackathon.Runner.Manager.{Table, lookup}
use hackathon.Runner.Execute.{
  Netip, stdout_event, complete_event, Answer, streamed, Request, Surroundings, AuditLine, accepted,
  line, stderr_events, complete, client_address, handle_execute,
}

-- `stdout_of` and `stderr_of` are what bash does with a script: the bytes, and the chunks that the
-- reader of stderr gets up to the marker.
pub record Bash : Type 1 where
  pub World : Type 0
  pub Shell : Type 0
  pub shell_of : Shell → World → BashShell
  pub put_shell : Shell → BashShell → World → World
  pub now : World → ℕ
  pub context_err : World → Bool
  pub write_failed : Shell → Text → World → Bool
  pub stdout_of : Shell → Text → World → Text
  pub scan_failed : Shell → Text → World → Bool
  pub stderr_of : Shell → Text → World → List Text
  pub send : Text → World → Bool × World

module _ (b : Bash) where
  open b use {
    World, Shell, shell_of, put_shell, now, context_err, write_failed, stdout_of, scan_failed,
    stderr_of, send,
  }

  abbrev pub marker_at : World → Text
  marker_at w = marker_of (now w)

  -- The shell while its reader of stderr waits for the marker.
  abbrev pub waiting_for : Text → BashShell
  waiting_for marker = record {
    stderr_buf = [];
    stderr_marker = marker;
    stderr_done = false;
    broken = none;
  }

  -- What reached the buffer, once the marker has come.
  abbrev arrived : Text → Bool → Option Text
  arrived errs true = some errs
  arrived errs false = none

  -- The buffer as ExecuteStream finds it behind its wait for the marker, if that ever ends.
  abbrev awaited : BashShell → Option Text
  awaited s = arrived s.stderr_buf s.stderr_done

  abbrev pub call_of : Shell → Text → World → StreamSurroundings World
  call_of shell command w = record {
    marker = marker_at w;
    context_err = context_err w;
    write_failed = write_failed shell (script command (marker_at w)) w;
    lines = (scan (stdout_of shell (script command (marker_at w)) w)).0;
    scan_failed =
        if (scan (stdout_of shell (script command (marker_at w)) w)).1
        then true
        else scan_failed shell (script command (marker_at w)) w;
    stderr = awaited (
        read_stderr (waiting_for (marker_at w)) (stderr_of shell (script command (marker_at w)) w));
    send = send;
    world = w;
  }

  abbrev pub stored :
      Shell → World → Option Result × List Text × BashShell → (Option Result × List Text) × World
  stored shell w (result, sent, s) = ((result, sent), put_shell shell s w)

  -- ExecuteStream as the handler calls it.
  abbrev pub run_in : Shell → Text → World → (Option Result × List Text) × World
  run_in shell command w =
      stored shell w (execute_stream (shell_of shell w) (call_of shell command w))

  -- What bash prints for the command: `out` and `errs`, and then, by the three echo of the script, the
  -- marker on both pipes, with the exit code on stdout.
  pub record Prints (shell : Shell) (command : Text) (w : World) (out errs : Text) (n : ℕ)
      : Type 0 where
    pub on_stdout :
        stdout_of shell (script command (marker_at w)) w
        ≡ out ++ (newline ∷ ((marker_at w ++ decimal n) ++ (newline ∷ [])))
    pub on_stderr :
        cut_at (marker_at w) (joined (stderr_of shell (script command (marker_at w)) w))
        ≡ some (errs, newline ∷ [])
    pub plain : Lacks b'\r' out
    pub unmarked : All (λ t. strip_prefix (marker_at w) t ≡ none) (Text.split newline out)
    pub short : All (λ t. fits t ≡ true) (Text.split newline out)
    pub short_marker : fits (marker_at w ++ decimal n) ≡ true
    pub small : n ≤ 2 ^ 63 - 1

  -- The shell is in order, and nothing gets in the way of the call.
  pub record Able (shell : Shell) (command : Text) (w : World) : Type 0 where
    pub in_order : (shell_of shell w).broken ≡ none
    pub alive : context_err w ≡ false
    pub written : write_failed shell (script command (marker_at w)) w ≡ false
    pub takes : (t : Text) (v : World) → (send t v).0 ≡ true

  abbrev pub exit_code_of : ℕ → Integer
  exit_code_of n = record { negative = false; magnitude = n }

  marker_filled : (n : ℕ) → is_empty (marker_of n) ≡ false
  unfolding marker_of
  marker_filled n = refl

  stderr_kept :
      (shell : Shell) (command : Text) (w : World) (out errs : Text) (n : ℕ)
      → Prints shell command w out errs n
      → (stderr : Text) × ((call_of shell command w).stderr ≡ some stderr)
        × ((stderr ≡ errs) ⊎ (stderr ≡ errs ++ (newline ∷ [])))
  unfolding drop_newline
  stderr_kept shell command w out errs n p =
      let (done, cleared, kept) =
        read_stderr_lem (waiting_for (marker_at w))
          (stderr_of shell (script command (marker_at w)) w) errs (newline ∷ []) refl
          (marker_filled (now w)) p.on_stderr in
      (
        (read_stderr (waiting_for (marker_at w))
            (stderr_of shell (script command (marker_at w)) w)).stderr_buf,
        rw done refl,
        elim kept [ inl whole ↦ inr whole | inr cut ↦ inl (cut ∙ append-nil errs) ],
      )

  module _ (netip : Netip)
      (validate : Text → World → Outcome ValidateError ValidationResult × World) where
    abbrev pub surroundings : Surroundings
    surroundings = record {
      World = World;
      Shell = Shell;
      netip = netip;
      validate = validate;
      execute_stream = run_in;
    }

    -- The stream of the answer, and the two lines of the log.
    abbrev pub Delivered :
        Text → Text → Text → Text → Text → ℕ → Answer × List AuditLine × World → Type 0
    Delivered id remote command out errs n (answer, audit, w) =
        (lines : List Text) × (stderr : Text) × (answer
          ≡ streamed (
              map stdout_event lines
              ++ (stderr_events surroundings stderr ++ (complete_event (exit_code_of n) ∷ []))))
        × (joined_lines lines ≡ completed out)
        × All (λ t. is_empty t ≡ false) lines
        × ((stderr ≡ errs) ⊎ (stderr ≡ errs ++ (newline ∷ [])))
        × (audit
            ≡ line surroundings id remote command accepted none false
              ∷ line surroundings id remote command accepted (some (exit_code_of n)) false
              ∷ [])

    completed_lem :
        (shell : Shell) (id remote command out errs stderr : Text) (n : ℕ) (w : World)
        (o : Option Result × List Text × BashShell)
        → o.0 ≡ some (record { exit_code = exit_code_of n; stderr = stderr; err = none })
        → joined_lines o.1 ≡ completed out
        → All (λ t. is_empty t ≡ false) o.1
        → (stderr ≡ errs) ⊎ (stderr ≡ errs ++ (newline ∷ []))
        → Delivered id remote command out errs n
            (complete surroundings id remote command (stored shell w o))
    completed_lem shell id remote command out errs stderr n w (result, sent, s) e same filled kept =
        (sent, stderr, rw e refl, same, filled, kept, rw e refl)

    ran :
        (shell : Shell) (id remote command out errs : Text) (n : ℕ) (w : World)
        → Able shell command w
        → Prints shell command w out errs n
        → Delivered id remote command out errs n
            (complete surroundings id remote command (run_in shell command w))
    ran shell id remote command out errs n w a p =
        let (stderr, came, kept) = stderr_kept shell command w out errs n p in
        let (result, same, filled, order) =
          execute_stream-output (shell_of shell w) (call_of shell command w) out [] (now w) n stderr
            a.in_order a.alive a.written refl came (ap (λ (t : Text). (scan t).0) p.on_stdout)
            p.plain p.short p.short_marker p.unmarked p.small a.takes in
        completed_lem shell id remote command out errs stderr n w
          (execute_stream (shell_of shell w) (call_of shell command w)) result same filled kept

    -- A command that the validator finds safe, in a shell that is in order, while the context lasts, the
    -- script can be written and every send is taken. If bash prints an output of lines below 1 MiB,
    -- without carriage returns and without a line that begins with the marker, and the markers of the
    -- script behind what it printed on each pipe, also on stderr, and with an exit code of 63 bits, then the client gets that output whole, with a newline at its end
    -- if it lacks one, then what bash printed on stderr, if anything, perhaps with a newline more, then
    -- the exit code; and the log has a line before and one with the exit code after it.
    pub handle_execute-Delivered :
        (shells : Table Shell) (req : Request) (w w1 : World) (shell : Shell)
        (command remote out errs : Text) (n : ℕ) (r : ValidationResult)
        → is_empty req.shell_cookie ≡ false
        → lookup req.shell_cookie shells ≡ some shell
        → req.command ≡ some command
        → client_address surroundings req.client_address ≡ some remote
        → validate command w ≡ (ok r, w1)
        → r.safe ≡ true
        → Able shell command w1
        → Prints shell command w1 out errs n
        → Delivered req.shell_cookie remote command out errs n
            (handle_execute surroundings shells req w)
    unfolding handle_execute
    handle_execute-Delivered shells req w w1 shell command remote out errs n r cookie there asked
          from passed safe a p =
        rw (cookie, there, asked, from, passed)
          (rw safe (ran shell req.shell_cookie remote command out errs n w1 a p))
