-- ===== src/Runner/Shell/Start.antt =====
-- runner/shell.go, newBashShellFromCommander and Close: the pipes of a bash process from its start to
-- its end. The process (commander, os/exec) is a parameter.
pub mod Pipes
use hackathon.Common.{Bool, true, false, Option, none, some}

-- Each pipe's method gives none for an error; `start`, `write_exit` and `wait` give true if there was
-- no error.
pub record Commander : Type 1 where
  pub World : Type 0
  pub Pipe : Type 0
  pub stdin_pipe : World → Option Pipe × World
  pub stdout_pipe : World → Option Pipe × World
  pub stderr_pipe : World → Option Pipe × World
  pub close : Pipe → World → World
  pub start : World → Bool × World
  pub write_exit : Pipe → World → Bool × World
  pub wait : World → Bool × World

pub data StartError : Type 0 where
  stdin_failed stdout_failed stderr_failed start_failed : StartError

pub data Started (Pipe : Type 0) : Type 0 where
  started : Pipe → Pipe → Pipe → Started Pipe
  refused : StartError → Started Pipe

pub data CloseError : Type 0 where
  write_failed wait_failed write_and_wait_failed : CloseError

abbrev pub close_error : Bool → Bool → Option CloseError
close_error false false = some write_and_wait_failed
close_error false true = some write_failed
close_error true false = some wait_failed
close_error true true = none

module _ (cmd : Commander) where
  open cmd use {World, Pipe, stdin_pipe, stdout_pipe, stderr_pipe, close, start, write_exit, wait}

  abbrev pub after_start : Pipe → Pipe → Pipe → Bool × World → Started Pipe × World
  after_start stdin stdout stderr (true, w) = (started stdin stdout stderr, w)
  after_start stdin stdout stderr (false, w) =
      (refused start_failed, close stderr (close stdout (close stdin w)))

  abbrev pub with_stderr : Pipe → Pipe → Option Pipe × World → Started Pipe × World
  with_stderr stdin stdout (none, w) = (refused stderr_failed, close stdout (close stdin w))
  with_stderr stdin stdout (some stderr, w) = after_start stdin stdout stderr (start w)

  abbrev pub with_stdout : Pipe → Option Pipe × World → Started Pipe × World
  with_stdout stdin (none, w) = (refused stdout_failed, close stdin w)
  with_stdout stdin (some stdout, w) = with_stderr stdin stdout (stderr_pipe w)

  abbrev pub with_stdin : Option Pipe × World → Started Pipe × World
  with_stdin (none, w) = (refused stdin_failed, w)
  with_stdin (some stdin, w) = with_stdout stdin (stdout_pipe w)

  unfoldable pub new_bash_shell_from_commander : World → Started Pipe × World
  new_bash_shell_from_commander w = with_stdin (stdin_pipe w)

  abbrev pub after_wait : Bool → Bool × World → Option CloseError × World
  after_wait written (waited, w) = (close_error written waited, w)

  abbrev pub after_write : Bool × World → Option CloseError × World
  after_write (written, w) = after_wait written (wait w)

  unfoldable pub close_shell : Pipe → World → Option CloseError × World
  close_shell stdin w = after_write (write_exit stdin w)
