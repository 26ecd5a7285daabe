-- ===== src/Runner/Execute/Gate.antt =====
-- runner/handler.go: what reaches a shell.
use hackathon.Common.{
  ◌≡◌, refl, ap, subst, inl, inr, Bool, true, false, Option, none, some, List, Bool-cases,
}
use hackathon.Text.{Text, is_empty}
use hackathon.Broker.Outcome.{Outcome, ok, err, out_of_fuel}
use hackathon.Runner.Shell.{Result}
use hackathon.Runner.Validator.{
  Validator, ValidateError, unavailable, ValidationResult, responded, validate,
}
use hackathon.Runner.Validator.Verdicts.{Judged, ValidateEffect, validate-ValidateEffect}
use hackathon.Runner.Manager.{Table, lookup}
use hackathon.Runner.Execute.Effect.{Accepted, ExecuteEffect}
use hackathon.Runner.Execute.{
  Netip, AuditLine, SseEvent, streamed, Request, Surroundings, complete, judged, with_remote,
  client_address, with_command, with_shell, handle_execute,
}

module _ (e : Surroundings) where
  open e use {World, Shell, validate, execute_stream}

  module _ (shells : Table Shell) (req : Request) (w : World) where
    judged_lem :
        (command remote : Text) (shell : Shell)
        (reply : Outcome ValidateError ValidationResult × World)
        → lookup req.shell_cookie shells ≡ some shell
        → req.command ≡ some command
        → client_address e req.client_address ≡ some remote
        → validate command w ≡ reply
        → ExecuteEffect e shells req w (judged e req.shell_cookie remote command shell reply)
    judged_lem command remote shell (err (unavailable cause), w1) f c k v =
        inr (command, _, _, c, v, refl, (refl, k, refl), refl)
    judged_lem command remote shell (err x, w1) f c k v =
        inr (command, _, _, c, v, refl, (refl, k, refl), refl)
    judged_lem command remote shell (out_of_fuel, w1) f c k v =
        (command, ap (λ (t : Outcome ValidateError ValidationResult × World). t.0) v)
    judged_lem command remote shell (ok r, w1) f c k v = by_verdict r.safe refl
      where
        by_verdict :
            (b : Bool)
            → r.safe ≡ b
            → ExecuteEffect e shells req w
                (judged e req.shell_cookie remote command shell (ok r, w1))
        by_verdict false b = rw b (inr (command, _, _, c, v, refl, (refl, k, refl), (refl, b)))
        by_verdict true b = rw b (by_run (execute_stream shell command w1) refl)
          where
            by_run :
                (o : (Option Result × List Text) × World)
                → execute_stream shell command w1 ≡ o
                → ExecuteEffect e shells req w (complete e req.shell_cookie remote command o)
            by_run ((none, lines), w') x =
                (shell, command, remote, r, w1, lines, f, c, k, v, b, x, refl, refl)
            by_run ((some result, lines), w') x = record {
              shell = shell;
              command = command;
              remote = remote;
              verdict = r;
              judged_world = w1;
              found = f;
              asked = c;
              known = k;
              passed = v;
              is_safe = b;
              result = result;
              lines = lines;
              ran = x;
              shown = refl;
              logged = refl;
            }

    with_remote_lem :
        (command : Text) (shell : Shell) (remote : Option Text)
        → lookup req.shell_cookie shells ≡ some shell
        → req.command ≡ some command
        → client_address e req.client_address ≡ remote
        → ExecuteEffect e shells req w (with_remote e req.shell_cookie command shell w remote)
    with_remote_lem command shell none f c k = inl (refl, refl, inr (inr (inr k)))
    with_remote_lem command shell (some remote) f c k =
        judged_lem command remote shell (validate command w) f c k refl

    with_command_lem :
        (shell : Shell) (command : Option Text)
        → lookup req.shell_cookie shells ≡ some shell
        → req.command ≡ command
        → ExecuteEffect e shells req w
            (with_command e req.shell_cookie req.client_address shell w command)
    with_command_lem shell none f c = inl (refl, refl, inr (inr (inl c)))
    with_command_lem shell (some command) f c =
        with_remote_lem command shell (client_address e req.client_address) f c refl

    with_shell_lem :
        (shell : Option Shell)
        → lookup req.shell_cookie shells ≡ shell
        → ExecuteEffect e shells req w (with_shell e req.shell_cookie req w shell)
    with_shell_lem none f = inl (refl, refl, inr (inl f))
    with_shell_lem (some shell) f = with_command_lem shell req.command f refl

    -- POST /api/execute streams only if the cookie names a shell, the body has a command and the header
    -- has the address of a client, and if the validator found the command safe; then that shell ran that
    -- command, the events are the lines of its stdout, its stderr if there is any and its exit code, and
    -- the log has two lines of the class "accepted" with the shell, the client and the command, the
    -- second with the exit code and whether there was an error. If the command does not return, the
    -- same was passed, and there is the first line only. If it refuses, no shell ran anything:
    -- the validator was not asked, as one of these three is missing, and nothing is logged, or it
    -- was asked, the world is as it left it, and one line logs the shell, the client and the command
    -- under the class for its verdict: it was out of reach, it gave none, or the command is unsafe.
    pub handle_execute-ExecuteEffect : ExecuteEffect e shells req w (handle_execute e shells req w)
    unfolding handle_execute
    handle_execute-ExecuteEffect = elim (Bool-cases (is_empty req.shell_cookie)) [
      | inl empty ↦ rw empty (inl (refl, refl, inl empty))
      | inr filled ↦ rw filled (with_shell_lem (lookup req.shell_cookie shells) refl)
    ]

-- The handler with the validator that asks the remote model.
abbrev pub jev_surroundings :
    (v : Validator) {S : Type 0}
    → Netip
    → (S → Text → v.World → (Option Result × List Text) × v.World)
    → Surroundings
jev_surroundings v {S} netip execute_stream = record {
  World = v.World;
  Shell = S;
  netip = netip;
  validate = validate v;
  execute_stream = execute_stream;
}

answer-Judged :
    (v : Validator) (command : Text) (w w' : v.World) (r : ValidationResult)
    (reply : Outcome ValidateError ValidationResult × v.World)
    → reply ≡ (ok r, w')
    → r.safe ≡ true
    → ValidateEffect v command reply.0
    → (w0 : v.World) × (payload : v.Payload) × ((v.exchange command w0).0 ≡ responded 200 payload)
      × Judged v payload
answer-Judged v command w w' r reply e safe effect =
    let (w0, payload, responded_200, judge) =
      subst (λ (x : Outcome ValidateError ValidationResult × v.World). ValidateEffect v command x.0)
        e effect in
    (w0, payload, responded_200, judge safe)

answered_by :
    (v : Validator) {S : Type 0} (netip : Netip)
    (execute_stream : S → Text → v.World → (Option Result × List Text) × v.World) (shells : Table S)
    (req : Request) (w w' : v.World) (events : List SseEvent) (audit : List AuditLine)
    → Accepted (jev_surroundings v netip execute_stream) shells req w events audit w'
    → (command : Text) × (w0 : v.World) × (payload : v.Payload) × (req.command ≡ some command)
      × ((v.exchange command w0).0 ≡ responded 200 payload)
      × Judged v payload
answered_by v netip execute_stream shells req w w' events audit a =
    let (w0, payload, responded_200, judge) =
      answer-Judged v a.command w a.judged_world a.verdict (validate v a.command w) a.passed
        a.is_safe (validate-ValidateEffect v a.command w) in
    (a.command, w0, payload, a.asked, responded_200, judge)

-- A command streams only if the remote model answered a request about just that command with the
-- status 200 and a probability between 0 and 1 that reaches the threshold.
pub handle_execute-Judged :
    (v : Validator) {S : Type 0} (netip : Netip)
    (execute_stream : S → Text → v.World → (Option Result × List Text) × v.World) (shells : Table S)
    (req : Request) (w w' : v.World) (events : List SseEvent) (audit : List AuditLine)
    → handle_execute (jev_surroundings v netip execute_stream) shells req w
      ≡ (streamed events, audit, w')
    → (command : Text) × (w0 : v.World) × (payload : v.Payload) × (req.command ≡ some command)
      × ((v.exchange command w0).0 ≡ responded 200 payload)
      × Judged v payload
handle_execute-Judged v netip execute_stream shells req w w' events audit h =
    let e = jev_surroundings v netip execute_stream in
    answered_by v netip execute_stream shells req w w' events audit
      (subst (ExecuteEffect e shells req w) h (handle_execute-ExecuteEffect e shells req w))
