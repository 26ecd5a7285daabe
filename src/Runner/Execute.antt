-- ===== src/Runner/Execute.antt =====
-- runner/handler.go, POST /api/execute: the gate in front of a shell, the audit log and the address of
-- the client. netip, the validator and the shell are parameters; gin is the records below.
pub mod Effect
pub mod Gate
pub mod Client
pub mod Delivery
pub mod Sse
pub mod Displayed
use hackathon.Common.{
  ℕ, Bool, true, false, not, ◌||◌, ◌&&◌, Option, none, some, List, [], ◌∷◌, ◌++◌, map, ◌==◌,
  if◌then◌else◌,
}
use hackathon.Text.{Text, codes, is_empty}
use hackathon.Text.Decimal.{Integer, parse_uint}
use hackathon.Broker.Outcome.{Outcome, ok, err, out_of_fuel}
use hackathon.Runner.Shell.{ShellError, Result}
use hackathon.Runner.Validator.{ValidateError, unavailable, ValidationResult}
use hackathon.Runner.Manager.{Table, get}
use hackathon.Runner.Manager

-- net/netip
pub record Netip : Type 1 where
  pub Addr : Type 0
  pub AddrPort : Type 0
  pub parse_addr_port : Text → Option AddrPort
  pub parse_addr : Text → Option Addr
  pub addr_port_from : Addr → ℕ → AddrPort
  pub port_of : AddrPort → ℕ
  pub text_of : AddrPort → Text

-- The texts before and behind the last occurrence, as strings.LastIndexByte cuts.
unfoldable pub cut_last : ℕ → Text → Option (Text × Text)
cut_last sep [] = none
cut_last sep (c ∷ s) = elim (cut_last sep s) [
  | some (before, behind) ↦ some (c ∷ before, behind)
  | none ↦ if c == sep then some ([], s) else none
]

abbrev pub max_uint16 : ℕ
max_uint16 = 65535

module _ (n : Netip) where
  open n use {Addr, AddrPort, parse_addr_port, parse_addr, addr_port_from, port_of, text_of}

  abbrev pub from_parts : Option Addr → Option ℕ → Option Text
  from_parts (some ip) (some port) =
      if port == 0 then none else some (text_of (addr_port_from ip port))
  from_parts (some ip) none = none
  from_parts none port = none

  abbrev pub from_cut : Option (Text × Text) → Option Text
  from_cut none = none
  from_cut (some (before, behind)) =
      if is_empty before || is_empty behind
      then none
      else from_parts (parse_addr before) (parse_uint max_uint16 behind)

  abbrev pub or_by_parts : Text → Option AddrPort → Option Text
  or_by_parts value none = from_cut (cut_last b':' value)
  or_by_parts value (some addr) =
      if not (port_of addr == 0) then some (text_of addr) else from_cut (cut_last b':' value)

  unfoldable pub parse_client_address : Text → Option Text
  parse_client_address value = or_by_parts value (parse_addr_port value)

pub data Class : Type 0 where
  validation_unavailable validation_error rejected accepted : Class

-- One line of the audit log; its time is left out.
pub record AuditLine : Type 0 where
  pub shell : Text
  pub remote : Text
  pub class : Class
  pub command : Text
  pub exit_code : Option Integer
  pub failed : Bool

pub data SseEvent : Type 0 where
  stdout_event : Text → SseEvent
  stderr_event : Text → SseEvent
  complete_event : Integer → SseEvent

pub data Reason : Type 0 where
  missing_shell_cookie no_shell invalid_request bad_client_address : Reason
  validation_failed : ValidateError → Reason
  unsafe : Text → Reason

-- `unended` is a stream whose command does not return.
pub data Answer : Type 0 where
  refused : ℕ → Reason → Answer
  streamed : List SseEvent → Answer
  unended : List SseEvent → Answer
  no_answer : Answer

-- `command` is what ShouldBindJSON read.
pub record Request : Type 0 where
  pub shell_cookie : Text
  pub client_address : Text
  pub command : Option Text

pub record Surroundings : Type 1 where
  pub World : Type 0
  pub Shell : Type 0
  pub netip : Netip
  pub validate : Text → World → Outcome ValidateError ValidationResult × World
  pub execute_stream : Shell → Text → World → (Option Result × List Text) × World

module _ (e : Surroundings) where
  open e use {World, Shell, netip, validate, execute_stream}

  -- The answer, the lines of the audit log, and the world.
  abbrev pub Reply : Type 0
  Reply = Answer × List AuditLine × World

  abbrev pub line : Text → Text → Text → Class → Option Integer → Bool → AuditLine
  line id remote command class exit_code failed = record {
    shell = id;
    remote = remote;
    class = class;
    command = command;
    exit_code = exit_code;
    failed = failed;
  }

  abbrev pub stderr_events : Text → List SseEvent
  stderr_events stderr = if is_empty stderr then [] else stderr_event stderr ∷ []

  abbrev pub is_some : Option ShellError → Bool
  is_some none = false
  is_some (some x) = true

  abbrev pub complete : Text → Text → Text → (Option Result × List Text) × World → Reply
  complete id remote command ((none, lines), w) =
      (unended (map stdout_event lines), line id remote command accepted none false ∷ [], w)
  complete id remote command ((some result, lines), w) = (
    streamed (
        map stdout_event lines
        ++ (stderr_events result.stderr ++ (complete_event result.exit_code ∷ []))),
    line id remote command accepted none false
        ∷ line id remote command accepted (some result.exit_code) (is_some result.err)
        ∷ [],
    w,
  )

  abbrev pub judged :
      Text → Text → Text → Shell → Outcome ValidateError ValidationResult × World → Reply
  judged id remote command shell (err (unavailable cause), w) = (
    refused 503 (validation_failed (unavailable cause)),
    line id remote command validation_unavailable none true ∷ [],
    w,
  )
  judged id remote command shell (err x, w) =
      (refused 403 (validation_failed x), line id remote command validation_error none true ∷ [], w)
  judged id remote command shell (ok r, w) = elim r.safe [
    | false ↦ (refused 403 (unsafe r.reason), line id remote command rejected none false ∷ [], w)
    | true ↦ complete id remote command (execute_stream shell command w)
  ]
  judged id remote command shell (out_of_fuel, w) = (no_answer, [], w)

  abbrev pub with_remote : Text → Text → Shell → World → Option Text → Reply
  with_remote id command shell w none = (refused 400 bad_client_address, [], w)
  with_remote id command shell w (some remote) = judged id remote command shell (validate command w)

  -- clientAddress
  unfoldable pub client_address : Text → Option Text
  client_address value = if is_empty value then none else parse_client_address netip value

  abbrev pub with_command : Text → Text → Shell → World → Option Text → Reply
  with_command id header shell w none = (refused 400 invalid_request, [], w)
  with_command id header shell w (some command) =
      with_remote id command shell w (client_address header)

  abbrev pub with_shell : Text → Request → World → Option Shell → Reply
  with_shell id req w none = (refused 404 no_shell, [], w)
  with_shell id req w (some shell) = with_command id req.client_address shell w req.command

  unfoldable pub handle_execute : Table Shell → Request → World → Reply
  handle_execute shells req w =
      if is_empty req.shell_cookie
      then (refused 400 missing_shell_cookie, [], w)
      else with_shell req.shell_cookie req w (Manager.lookup req.shell_cookie shells)
