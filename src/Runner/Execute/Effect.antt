-- ===== src/Runner/Execute/Effect.antt =====
-- runner/handler.go, handleExecute: what each answer says of the guards, the validator, the shell and the
-- audit log.
use hackathon.Common.{◌≡◌, ◌⊎◌, true, false, none, some, List, [], ◌∷◌, ◌++◌, map}
use hackathon.Text.{Text, is_empty}
use hackathon.Broker.Outcome.{Outcome, ok, err, out_of_fuel}
use hackathon.Runner.Shell.{Result}
use hackathon.Runner.Validator.{ValidateError, unavailable, ValidationResult}
use hackathon.Runner.Manager.{Table, lookup}
use hackathon.Runner.Execute.{
  Class, validation_unavailable, validation_error, rejected, accepted, AuditLine, SseEvent, Answer,
  refused, streamed, unended, stdout_event, stderr_events, complete_event, is_some, no_answer,
  Request, Surroundings, client_address,
}

module _ (e : Surroundings) where
  open e use {World, Shell, validate, execute_stream}

  -- A command that was let through, and what became of it.
  pub record Accepted (shells : Table Shell) (req : Request) (w : World) (events : List SseEvent)
      (audit : List AuditLine) (w' : World) : Type 0 where
    pub shell : Shell
    pub command : Text
    pub remote : Text
    pub verdict : ValidationResult
    pub judged_world : World
    pub found : lookup req.shell_cookie shells ≡ some shell
    pub asked : req.command ≡ some command
    pub known : client_address e req.client_address ≡ some remote
    pub passed : validate command w ≡ (ok verdict, judged_world)
    pub is_safe : verdict.safe ≡ true
    pub result : Result
    pub lines : List Text
    pub ran : execute_stream shell command judged_world ≡ ((some result, lines), w')
    pub shown :
        events
        ≡ map stdout_event lines
          ++ (stderr_events e result.stderr ++ (complete_event result.exit_code ∷ []))
    pub logged :
        audit
        ≡ record {
          shell = req.shell_cookie;
          remote = remote;
          class = accepted;
          command = command;
          exit_code = none;
          failed = false;
        }
          ∷ record {
            shell = req.shell_cookie;
            remote = remote;
            class = accepted;
            command = command;
            exit_code = some result.exit_code;
            failed = is_some e result.err;
          }
          ∷ []

  -- A command that was let through and does not return: what it printed so far, and one line.
  abbrev pub Hanging :
      Table Shell → Request → World → List SseEvent → List AuditLine → World → Type 0
  Hanging shells req w events audit w' =
      (shell : Shell) × (command : Text) × (remote : Text) × (verdict : ValidationResult)
      × (w1 : World) × (lines : List Text) × (lookup req.shell_cookie shells ≡ some shell)
      × (req.command ≡ some command)
      × (client_address e req.client_address ≡ some remote)
      × (validate command w ≡ (ok verdict, w1))
      × (verdict.safe ≡ true)
      × (execute_stream shell command w1 ≡ ((none, lines), w'))
      × (events ≡ map stdout_event lines)
      × (audit
          ≡ record {
            shell = req.shell_cookie;
            remote = remote;
            class = accepted;
            command = command;
            exit_code = none;
            failed = false;
          }
            ∷ [])

  -- The validator is not asked without a cookie, a shell, a command or a client.
  abbrev pub Unasked : Table Shell → Request → Type 0
  Unasked shells req =
      (is_empty req.shell_cookie ≡ true)
      ⊎ ((lookup req.shell_cookie shells ≡ none)
          ⊎ ((req.command ≡ none) ⊎ (client_address e req.client_address ≡ none)))

  -- The class of the line for a verdict that lets no command through.
  abbrev pub Classified : Outcome ValidateError ValidationResult → Class → Type 0
  Classified (err (unavailable cause)) class = class ≡ validation_unavailable
  Classified (err x) class = class ≡ validation_error
  Classified (ok r) class = (class ≡ rejected) × (r.safe ≡ false)
  Classified out_of_fuel class = ⊥

  -- A command that the validator did not let through: one line of the audit log, and the world is
  -- as the validator left it.
  abbrev pub Stopped : Table Shell → Request → World → List AuditLine → World → Type 0
  Stopped shells req w audit w' =
      (command : Text) × (l : AuditLine) × (reply : Outcome ValidateError ValidationResult)
      × (req.command ≡ some command)
      × (validate command w ≡ (reply, w'))
      × (audit ≡ l ∷ [])
      × ((l.shell ≡ req.shell_cookie)
          × (client_address e req.client_address ≡ some l.remote)
          × (l.command ≡ command))
      × Classified reply l.class

  abbrev pub ExecuteEffect :
      Table Shell → Request → World → Answer × List AuditLine × World → Type 0
  ExecuteEffect shells req w (streamed events, audit, w') = Accepted shells req w events audit w'
  ExecuteEffect shells req w (unended events, audit, w') = Hanging shells req w events audit w'
  ExecuteEffect shells req w (refused status reason, audit, w') =
      ((audit ≡ []) × (w' ≡ w) × Unasked shells req) ⊎ Stopped shells req w audit w'
  ExecuteEffect shells req w (no_answer, audit, w') =
      (command : Text) × ((validate command w).0 ≡ out_of_fuel)
