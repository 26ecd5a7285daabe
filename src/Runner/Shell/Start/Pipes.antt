-- ===== src/Runner/Shell/Start/Pipes.antt =====
-- runner/shell.go: which pipes of a bash process are open.
use hackathon.Common.{
  ◌≡◌, ◌≢◌, refl, sym, subst, ◌⊎◌, inl, inr, Bool, true, false, Option, none, some,
}
use hackathon.Runner.Shell.Start.{
  Commander, StartError, stdin_failed, stdout_failed, stderr_failed, start_failed, Started, started,
  refused, after_start, with_stderr, with_stdout, with_stdin, new_bash_shell_from_commander,
  after_wait, after_write, close_shell,
}

module _ (cmd : Commander) where
  open cmd use {World, Pipe, stdin_pipe, stdout_pipe, stderr_pipe, close, start, write_exit, wait}

  -- An end that is open afterwards was open before, or is the one that the method returned, or is an
  -- end for the child; a method that fails opens none.
  abbrev pub Opened :
      (Pipe → World → Type 0)
      → (Pipe → Type 0)
      → (Pipe → Type 0)
      → World
      → Option Pipe × World
      → Type 0
  Opened IsOpen Owned Child w (none, w') = (q : Pipe) → IsOpen q w' → IsOpen q w
  Opened IsOpen Owned Child w (some p, w') =
      Owned p × ((q : Pipe) → IsOpen q w' → (q ≡ p) ⊎ (Child q ⊎ IsOpen q w))

  abbrev pub Opens :
      (Pipe → World → Type 0)
      → (Pipe → Type 0)
      → (Pipe → Type 0)
      → (World → Option Pipe × World)
      → Type 0
  Opens IsOpen Owned Child method = (w : World) → Opened IsOpen Owned Child w (method w)

  -- What os/exec says of the ends of the pipes: each method opens the end that it returns and the end
  -- that the child gets; Start closes the child's ends in this process, whether it fails or not; Close
  -- closes the end it is called on, a write opens none, and Wait closes the ends that the methods
  -- returned.
  pub record PipeLaws (IsOpen : Pipe → World → Type 0) (Owned Child : Pipe → Type 0) : Type 0 where
    pub stdin_law : Opens IsOpen Owned Child stdin_pipe
    pub stdout_law : Opens IsOpen Owned Child stdout_pipe
    pub stderr_law : Opens IsOpen Owned Child stderr_pipe
    pub close_law : (p q : Pipe) (w : World) → IsOpen q (close p w) → (q ≢ p) × IsOpen q w
    pub start_law : (q : Pipe) (w : World) → IsOpen q (start w).1 → IsOpen q w × (¬ Child q)
    pub write_law : (p q : Pipe) (w : World) → IsOpen q (write_exit p w).1 → IsOpen q w
    pub wait_law : (q : Pipe) (w : World) → IsOpen q (wait w).1 → IsOpen q w × (¬ Owned q)

  module _ {IsOpen : Pipe → World → Type 0} {Owned Child : Pipe → Type 0}
      (l : PipeLaws IsOpen Owned Child) where
    open l use {stdin_law, stdout_law, stderr_law, close_law, start_law, write_law, wait_law}

    -- Where the second or the third pipe is refused, the child's ends may stay open.
    abbrev pub Left : StartError → World → Pipe → Type 0
    Left stdin_failed w q = IsOpen q w
    Left stdout_failed w q = Child q ⊎ IsOpen q w
    Left stderr_failed w q = Child q ⊎ IsOpen q w
    Left start_failed w q = IsOpen q w

    -- A process that started adds its three ends.
    abbrev pub StartEffect : World → Started Pipe × World → Type 0
    StartEffect w (refused e, w') = (q : Pipe) → IsOpen q w' → Left e w q
    StartEffect w (started stdin stdout stderr, w') =
        (Owned stdin × (Owned stdout × Owned stderr))
        × ((q : Pipe) → IsOpen q w' → (q ≡ stdin) ⊎ ((q ≡ stdout) ⊎ ((q ≡ stderr) ⊎ IsOpen q w)))

    start_effect :
        (w w3 : World) (stdin stdout stderr : Pipe) (o : Bool × World)
        → (Owned stdin × (Owned stdout × Owned stderr))
        → ((q : Pipe) → IsOpen q o.1 → (q ≡ stdin) ⊎ ((q ≡ stdout) ⊎ ((q ≡ stderr) ⊎ IsOpen q w)))
        → StartEffect w (after_start cmd stdin stdout stderr o)
    start_effect w w3 stdin stdout stderr (true, w') own opened = (own, opened)
    start_effect w w3 stdin stdout stderr (false, w') own opened = λ q still.
        let (not_stderr, two) = close_law stderr q (close stdout (close stdin w')) still in
        let (not_stdout, one) = close_law stdout q (close stdin w') two in
        let (not_stdin, zero_closed) = close_law stdin q w' one in
        elim (opened q zero_closed) [
          | inl same ↦ absurd (not_stdin same)
          | inr (inl same) ↦ absurd (not_stdout same)
          | inr (inr (inl same)) ↦ absurd (not_stderr same)
          | inr (inr (inr before)) ↦ before
        ]

    stderr_effect :
        (w w2 : World) (stdin stdout : Pipe) (o : Option Pipe × World)
        → (Owned stdin × Owned stdout)
        → ((q : Pipe) → IsOpen q w2 → (q ≡ stdin) ⊎ ((q ≡ stdout) ⊎ (Child q ⊎ IsOpen q w)))
        → Opened IsOpen Owned Child w2 o
        → StartEffect w (with_stderr cmd stdin stdout o)
    stderr_effect w w2 stdin stdout (none, w3) own opened kept = λ q still.
        let (not_stdout, one) = close_law stdout q (close stdin w3) still in
        let (not_stdin, both) = close_law stdin q w3 one in
        elim (opened q (kept q both)) [
          | inl same ↦ absurd (not_stdin same)
          | inr (inl same) ↦ absurd (not_stdout same)
          | inr (inr before) ↦ before
        ]
    stderr_effect w w2 stdin stdout (some stderr, w3) own opened (mine, more) =
        start_effect w w3 stdin stdout stderr (start w3) (own.0, (own.1, mine))
          (λ q still.
            let (there, not_child) = start_law q w3 still in
            elim (more q there) [
              | inl same ↦ inr (inr (inl same))
              | inr (inl child) ↦ absurd (not_child child)
              | inr (inr earlier) ↦ elim (opened q earlier) [
                | inl same ↦ inl same
                | inr (inl same) ↦ inr (inl same)
                | inr (inr (inl child)) ↦ absurd (not_child child)
                | inr (inr (inr before)) ↦ inr (inr (inr before))
              ]
            ])

    stdout_effect :
        (w w1 : World) (stdin : Pipe) (o : Option Pipe × World)
        → Owned stdin
        → ((q : Pipe) → IsOpen q w1 → (q ≡ stdin) ⊎ (Child q ⊎ IsOpen q w))
        → Opened IsOpen Owned Child w1 o
        → StartEffect w (with_stdout cmd stdin o)
    stdout_effect w w1 stdin (none, w2) own opened kept = λ q still.
        let (not_stdin, one) = close_law stdin q w2 still in
        elim (opened q (kept q one)) [ inl same ↦ absurd (not_stdin same) | inr before ↦ before ]
    stdout_effect w w1 stdin (some stdout, w2) own opened (mine, more) =
        stderr_effect w w2 stdin stdout (stderr_pipe w2) (own, mine)
          (λ q still. elim (more q still) [
            | inl same ↦ inr (inl same)
            | inr (inl child) ↦ inr (inr (inl child))
            | inr (inr earlier) ↦ elim (opened q earlier) [
              | inl same ↦ inl same
              | inr before ↦ inr (inr before)
            ]
          ])
          (stderr_law w2)

    stdin_effect :
        (w : World) (o : Option Pipe × World)
        → Opened IsOpen Owned Child w o
        → StartEffect w (with_stdin cmd o)
    stdin_effect w (none, w1) kept = kept
    stdin_effect w (some stdin, w1) (mine, more) =
        stdout_effect w w1 stdin (stdout_pipe w1) mine more (stdout_law w1)

    pub new_bash_shell-StartEffect :
        (w : World) → StartEffect w (new_bash_shell_from_commander cmd w)
    unfolding new_bash_shell_from_commander
    new_bash_shell-StartEffect w = stdin_effect w (stdin_pipe w) (stdin_law w)

    waited : (written : Bool) (o : Bool × World) → (after_wait cmd written o).1 ≡ o.1
    waited written (done, w) = refl

    wrote : (o : Bool × World) → (after_write cmd o).1 ≡ (wait o.1).1
    wrote (written, w) = waited written (wait w)

    -- Closing a shell closes the pipes of its process, whatever fails.
    closed_pipes :
        (stdin : Pipe) (w : World) (q : Pipe)
        → IsOpen q (close_shell cmd stdin w).1
        → IsOpen q w × (¬ Owned q)
    unfolding close_shell
    closed_pipes stdin w q still =
        let (before, not_ours) =
          wait_law q (write_exit stdin w).1 (subst (IsOpen q) (wrote (write_exit stdin w)) still) in
        (write_law stdin q w before, not_ours)

    -- The pipes that are open after the start, and after the Close of the shell if it started.
    abbrev pub shell_life : World → Started Pipe × World → World
    shell_life w (refused e, w') = w'
    shell_life w (started stdin stdout stderr, w') = (close_shell cmd stdin w').1

    abbrev pub LeftOver : World → Pipe → Started Pipe → Type 0
    LeftOver w q (refused e) = Left e w q
    LeftOver w q (started stdin stdout stderr) = IsOpen q w

    life_pipes :
        (w : World) (o : Started Pipe × World) (q : Pipe)
        → StartEffect w o
        → IsOpen q (shell_life w o)
        → LeftOver w q o.0
    life_pipes w (refused e, w') q effect still = effect q still
    life_pipes w (started stdin stdout stderr, w') q (own, opened) still =
        let (before, not_ours) = closed_pipes stdin w' q still in
        elim (opened q before) [
          | inl same ↦ absurd (not_ours (subst Owned (sym same) own.0))
          | inr (inl same) ↦ absurd (not_ours (subst Owned (sym same) own.1.0))
          | inr (inr (inl same)) ↦ absurd (not_ours (subst Owned (sym same) own.1.1))
          | inr (inr (inr kept)) ↦ kept
        ]

    -- Starting a shell, and closing it if it started, leaves no end of a pipe open that was not open
    -- before, whichever of the steps fails, but for one case: where the pipe of stdout or of stderr is
    -- refused, so that the process is never started, ends that were meant for the child may stay open.
    pub shell_life_lem :
        (w : World) (q : Pipe)
        → IsOpen q (shell_life w (new_bash_shell_from_commander cmd w))
        → LeftOver w q (new_bash_shell_from_commander cmd w).0
    shell_life_lem w q still =
        life_pipes w (new_bash_shell_from_commander cmd w) q (new_bash_shell-StartEffect w) still
