-- ===== src/Broker/Model.antt =====
-- broker/model: the runner and the error codes.
use hackathon.Common.{Bool}
use hackathon.Text.{Text, codes, text_eq}

-- `type State string`; the table may hold any text there.
abbrev pub State : Type 0
State = Text

abbrev pub state_idle : State
state_idle = codes "idle"

abbrev pub state_busy : State
state_busy = codes "busy"

pub record Runner : Type 0 where
  pub runner_id : Text
  pub state : State
  pub current_session_id : Text
  pub private_host : Text

abbrev pub is_idle : Runner → Bool
is_idle r = text_eq r.state state_idle

abbrev pub is_busy : Runner → Bool
is_busy r = text_eq r.state state_busy

pub data Code : Type 0 where
  no_idle_runner session_not_found invalid_request runner_conflict internal_error : Code

pub record ErrorResponse : Type 0 where
  pub code : Code
  pub message : Text
  pub request_id : Text
