-- ===== src/Tasks/Types.antt =====
-- The rows and the inputs of the task store. A database is the rows of `fornix.tasks`,
-- `fornix.task_execution_leases`, `fornix.sessions` and `fornix.task_dependencies`, and the event
-- store. Identifiers of tasks are BIGSERIAL and so at least 1: an identifier that is not positive is
-- 0 here. Times are microseconds.
use fornix.Base.{ℕ, String, Bool, Option, List, ℤ, Table}
use fornix.Event.Types.{EventEnvelope, EventError}
use fornix.Event.Append.{EventStore}

pub data TaskError : Type 0 where
  task_not_found no_ready lease_missing lease_held lease_owned lease_fenced lease_expired :
      TaskError
  lease_released not_claimed terminal dependency_missing self_dependency invalid_status : TaskError
  session_not_found session_busy fence_exhausted invalid_fence : TaskError
  key_too_long fields_required bad_max_attempts bad_payload unknown_failure_class : TaskError
  workspace_required task_required owner_required session_required : TaskError
  idempotency_conflict incomplete_idempotency event_missing record_missing : TaskError
  event_error : EventError → TaskError

pub record Task : Type 0 where
  pub id : ℕ
  pub workspace_id : String
  pub title : String
  pub brief : String
  pub required_capabilities : List String
  pub assigned_session : Option String
  pub status : String
  pub result : Option String
  pub created_by : String
  pub origin_host : String
  pub attempts : ℕ
  pub max_attempts : ℕ
  pub next_attempt_at : ℕ
  pub last_error : String
  pub failure_class : String
  pub retryable : Option Bool
  pub execution_fence : ℕ
  pub created_at : ℕ
  pub claimed_at : Option ℕ
  pub completed_at : Option ℕ
  pub cancelled_at : Option ℕ
  pub create_key : Option String
  pub create_hash : String

pub record TaskExecutionLease : Type 0 where
  pub workspace_id : String
  pub task_id : ℕ
  pub owner_id : String
  pub fence : ℕ
  pub lease_until : ℕ
  pub acquired_at : ℕ
  pub renewed_at : ℕ
  pub released_at : Option ℕ

pub record Session : Type 0 where
  pub capabilities : List String
  pub status : String
  pub current_task_id : Option ℕ
  pub last_heartbeat : ℕ

pub record TaskDependency : Type 0 where
  pub workspace_id : String
  pub task_id : ℕ
  pub depends_on_task_id : ℕ

pub record Database (Raw Evidence : Type 0) : Type 0 where
  pub tasks : List Task
  pub leases : String → ℕ → Option TaskExecutionLease
  pub sessions : Table Session
  pub dependencies : List TaskDependency
  pub events : EventStore Raw Evidence

pub record TaskCreateInput (Raw : Type 0) : Type 0 where
  pub workspace_id : String
  pub idempotency_key : String
  pub title : String
  pub brief : String
  pub required_capabilities : List String
  pub created_by : String
  pub origin_host : String
  pub max_attempts : ℤ
  pub depends_on : List ℤ
  pub payload : Option Raw

pub record TaskClaimInput : Type 0 where
  pub workspace_id : String
  pub session_id : String
  pub actor_id : String
  pub task_id : ℕ
  pub lease_ttl : ℤ

pub record TaskClaimResult (Raw : Type 0) : Type 0 where
  pub task : Task
  pub lease : TaskExecutionLease
  pub event : EventEnvelope Raw
  pub takeover : Bool

pub record TaskOutcomeInput (Raw : Type 0) : Type 0 where
  pub workspace_id : String
  pub task_id : ℕ
  pub owner_id : String
  pub fence : ℕ
  pub result : String
  pub status : String
  pub idempotency_key : String
  pub actor_id : String
  pub payload : Option Raw

pub record TaskFailureInput (Raw : Type 0) : Type 0 where
  pub workspace_id : String
  pub task_id : ℕ
  pub owner_id : String
  pub fence : ℕ
  pub error : String
  pub failure_class : String
  pub retryable : Option Bool
  pub retry_after : Option ℤ
  pub idempotency_key : String
  pub actor_id : String
  pub payload : Option Raw

pub record TaskCancelInput (Raw : Type 0) : Type 0 where
  pub workspace_id : String
  pub task_id : ℕ
  pub owner_id : String
  pub fence : ℕ
  pub reason : String
  pub idempotency_key : String
  pub actor_id : String
  pub payload : Option Raw

-- Without `Lease`, which no operation sets.
pub record TaskMutationResult (Raw : Type 0) : Type 0 where
  pub task : Task
  pub event : EventEnvelope Raw
  pub deduped : Bool
  pub retry_scheduled : Bool

pub record TaskRenewResult (Raw : Type 0) : Type 0 where
  pub lease : TaskExecutionLease
  pub event : EventEnvelope Raw
