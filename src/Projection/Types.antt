-- ===== src/Projection/Types.antt =====
-- What the task projection holds: the types of internal/projection/task.go, and of
-- internal/projection/runtime.go the result of an application.
use fornix.Base.{ℕ, String, Bool, true, false}

pub data ProjectionError : Type 0 where
  sequence_required workspace_required task_reference_required : ProjectionError
  task_kind task_workspace session_kind session_workspace : ProjectionError
  invalid_counters hash_mismatch : ProjectionError
  set_required status_text status_mismatch conflicting_status status_required result_json :
      ProjectionError
  task_key_required : ProjectionError

-- A JSON value, as far as the code tells values apart; another value carries its canonical form.
pub data JsonValue : Type 0 where
  json_null : JsonValue
  json_text : String → JsonValue
  json_other : String → JsonValue

pub record ApplyResult : Type 0 where
  pub handled : Bool
  pub applied : Bool
  pub duplicate : Bool

-- The results that `Apply` returns.
abbrev pub was_applied : ApplyResult
was_applied = record { handled = true; applied = true; duplicate = false }

abbrev pub was_past : ApplyResult
was_past = record { handled = true; applied = false; duplicate = true }

abbrev pub acknowledged : ApplyResult
acknowledged = record { handled = true; applied = false; duplicate = false }

abbrev pub unhandled : ApplyResult
unhandled = record { handled = false; applied = false; duplicate = false }

pub record TaskState : Type 0 where
  pub workspace_id : String
  pub task_id : String
  pub status : String
  pub result : String
  pub assigned_session : String
  pub last_event_id : String
  pub last_event_sequence : ℕ
  pub applied_event_count : ℕ
  pub state_hash : String

pub record TaskDelta : Type 0 where
  pub status : String
  pub result : String
  pub result_present : Bool
  pub assigned_session : String
  pub assigned_session_present : Bool
