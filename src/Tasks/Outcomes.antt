-- ===== src/Tasks/Outcomes.antt =====
-- The outcomes of tasks: `Renew`, `Complete`, `Fail` and `Cancel` (internal/store/tasks.go). Each
-- runs in one transaction: an error hands back no database, so a caller keeps the old one. `clock k`
-- is what the k-th statement that reads the clock reads.
use fornix.Base.{
  ℕ, ◌+◌, ◌*◌, ◌/◌, String, str_eq, trim, is_empty, Bool, true, false, not, ◌&&◌, ◌||◌, Option,
  none, some, ltb, ◌==◌, if◌then◌else◌, List, [], ℤ, Result, ok, ◌>>=◌, ◌>>◌, guard,
}
use fornix.Event.Types.{StateDelta, EventEnvelope}
use fornix.Event.Normalize.{Env}
use fornix.Lease.{Clock, lease_end}
use fornix.Tasks.Types.{
  TaskError, Task, TaskExecutionLease, Database, TaskOutcomeInput, TaskFailureInput,
  TaskCancelInput, TaskMutationResult, TaskRenewResult, terminal, invalid_status,
  unknown_failure_class, lease_fenced,
}
use fornix.Tasks.Rules.{
  normalize_workspace, bounded_task_lease_ttl, retry_delay, is_task_terminal, is_failure_class,
  validate_task_lease_identity,
}
use fornix.Tasks.Events.{
  TaskCalls, renewed_payload, failed_payload, cancelled_payload, marshal_raw, new_task_event,
  outcome_deltas, append_event,
}
use fornix.Tasks.Rows.{
  update_task, update_lease, read_task, read_task_lease, active_lease, authorize_task_lease,
  authorize_task_mutation, release_task_lease_and_session,
}
use fornix.Tasks.Idempotency.{
  resolve_existing_idempotency, existing_idempotency_event, latest_event_for,
}

-- What an outcome asks for, whichever it is: the row that it leaves, at the time of the statement,
-- and whether it ends the attempt.
pub record Outcome (Raw : Type 0) : Type 0 where
  pub workspace_id : String
  pub task : Task
  pub owner_id : String
  pub fence : ℕ
  pub idempotency_key : String
  pub is_final : Bool
  pub event : EventEnvelope Raw
  pub row : ℕ → Task → Task

abbrev pub completed_row : String → String → String → ℕ → Task → Task
completed_row status result assigned now t = record t {
  status = status;
  result = some result;
  completed_at = (if str_eq status "done" then some now else none);
  assigned_session = (if str_eq status "done" then none else some assigned);
  next_attempt_at = now;
  last_error = "";
  failure_class = "";
  retryable = none;
}

abbrev pub failed_row : String → String → String → Bool → ℕ → ℕ → Task → Task
failed_row status error class retryable delay now t = record t {
  status = status;
  result = some error;
  assigned_session = none;
  completed_at = (if str_eq status "failed" || str_eq status "deadletter" then some now else none);
  next_attempt_at = (if str_eq status "pending" then now + delay / 1_000_000 * 1000 else now);
  last_error = error;
  failure_class = class;
  retryable = some retryable;
}

abbrev pub cancelled_row : String → ℕ → Task → Task
cancelled_row reason now t = record t {
  status = "cancelled";
  result = some reason;
  assigned_session = none;
  completed_at = some now;
  cancelled_at = some now;
  next_attempt_at = now;
}

-- The type of a failure's event, and the status that the event's type stands for.
abbrev pub failure_event_type : Bool → Bool → String
failure_event_type will_retry retryable =
    if will_retry
    then "task.retry_scheduled"
    else if retryable
    then "task.deadlettered"
    else "task.failed"

abbrev pub failure_event_status : String → String
failure_event_status event_type =
    if str_eq event_type "task.retry_scheduled"
    then "pending"
    else if str_eq event_type "task.deadlettered"
    then "deadletter"
    else "failed"

abbrev pub failure_status : Bool → Bool → String
failure_status will_retry retryable =
    if will_retry then "pending" else if retryable then "deadletter" else "failed"

abbrev pub failure_class_of : String → String
failure_class_of class = if is_empty (trim class) then "unknown" else trim class

abbrev pub is_retryable : Option Bool → String → Bool
is_retryable (some b) class = b
is_retryable none class =
    str_eq class "transient" || str_eq class "timeout" || str_eq class "rate_limited"

module _ {Raw Evidence : Type 0} (calls : TaskCalls Raw Evidence) (env : Env) (clock : Clock) where
  -- The end of an outcome that is not a duplicate: the event is appended, the row is written, and
  -- the lease and the session are released where the attempt ends.
  unfoldable pub settle :
      Database Raw Evidence
      → Outcome Raw
      → Result TaskError (TaskMutationResult Raw × Database Raw Evidence)
  settle db o = do
    guard (not (o.is_final && is_task_terminal o.task.status)) terminal
    authorize_task_mutation db (clock 0) o.task o.owner_id o.fence o.is_final
    (appended, db1) ← append_event calls env db o.event
    let db2 : Database Raw Evidence = record db1 {
      tasks = update_task db1.tasks o.workspace_id o.task.id (o.row (clock 1));
    }
    let released : Database Raw Evidence =
        release_task_lease_and_session db2 (clock 2) (clock 3) o.task o.owner_id
    let db3 : Database Raw Evidence = if o.is_final then released else db2
    stored ← latest_event_for db3.events o.workspace_id o.idempotency_key appended
    updated ← read_task db3 o.workspace_id o.task.id
    ok (record { task = updated; event = stored; deduped = false; retry_scheduled = false }, db3)

  -- The part behind the event: a request that was seen gets its event again.
  unfoldable pub resolve_or_settle :
      Database Raw Evidence
      → Outcome Raw
      → Result TaskError (TaskMutationResult Raw × Database Raw Evidence)
  resolve_or_settle db o = do
    duplicate ←
        resolve_existing_idempotency calls.events db.events o.workspace_id o.idempotency_key o.event
    elim duplicate [
      | none ↦ settle db o
      | some e ↦
          ok (record { task = o.task; event = e; deduped = true; retry_scheduled = false }, db)
    ]

  abbrev pub payload_or : Raw → Option Raw → Raw
  payload_or default none = default
  payload_or default (some raw) = if calls.events.json.raw_length raw == 0 then default else raw

  -- `outcomeEvent`, of an encoded payload, with the key that the callers set.
  unfoldable pub outcome_event :
      String
      → Option Raw
      → String
      → ℕ
      → String
      → String
      → List (StateDelta Raw)
      → String
      → Result TaskError (EventEnvelope Raw)
  outcome_event event_type payload workspace_id task_id owner_id actor_id deltas key = do
    raw ← marshal_raw calls payload
    event ← new_task_event calls env event_type raw workspace_id task_id owner_id actor_id deltas
    ok (record event { idempotency_key = trim key })

  unfoldable pub complete_or_progress :
      Database Raw Evidence
      → TaskOutcomeInput Raw
      → String
      → Result TaskError (TaskMutationResult Raw × Database Raw Evidence)
  complete_or_progress db input status = do
    let w = normalize_workspace input.workspace_id
    task ← read_task db w input.task_id
    let assigned = if str_eq status "in_progress" then trim input.owner_id else ""
    let event_type = if str_eq status "done" then "task.completed" else "task.progressed"
    event ←
        outcome_event event_type input.payload w task.id input.owner_id input.actor_id
          (outcome_deltas calls task.id status input.result assigned) input.idempotency_key
    resolve_or_settle db (record {
      workspace_id = w;
      task = task;
      owner_id = input.owner_id;
      fence = input.fence;
      idempotency_key = input.idempotency_key;
      is_final = str_eq status "done";
      event = event;
      row = completed_row status input.result assigned;
    })

  unfoldable pub complete :
      Database Raw Evidence
      → TaskOutcomeInput Raw
      → Result TaskError (TaskMutationResult Raw × Database Raw Evidence)
  complete db input = do
    let status = if is_empty (trim input.status) then "done" else trim input.status
    guard (str_eq status "done" || str_eq status "in_progress") invalid_status
    complete_or_progress db input status

  -- The lifecycle type of an event that the key has already, or the given one.
  abbrev pub original_type : Option (EventEnvelope Raw) → String → String
  original_type none event_type = event_type
  original_type (some e) event_type = e.event_type

  -- `RetryScheduled` of a result: by the event of a duplicate, and else as decided.
  abbrev pub with_retry : Bool → TaskMutationResult Raw → TaskMutationResult Raw
  with_retry will_retry r = record r {
    retry_scheduled =
        (if r.deduped then str_eq r.event.event_type "task.retry_scheduled" else will_retry);
  }

  unfoldable pub fail :
      Database Raw Evidence
      → TaskFailureInput Raw
      → Result TaskError (TaskMutationResult Raw × Database Raw Evidence)
  fail db input = do
    let w = normalize_workspace input.workspace_id
    let class = failure_class_of input.failure_class
    guard (is_failure_class class) unknown_failure_class
    let retryable = is_retryable input.retryable class
    task ← read_task db w input.task_id
    let will_retry = retryable && ltb task.attempts task.max_attempts
    existing ← existing_idempotency_event db.events w input.idempotency_key
    let event_type = original_type existing (failure_event_type will_retry retryable)
    let payload =
        payload_or (calls.encode_payload (failed_payload input.task_id input.error class retryable))
          input.payload
    event ←
        outcome_event event_type (some payload) w input.task_id input.owner_id input.actor_id
          (outcome_deltas calls input.task_id (failure_event_status event_type) input.error "")
          input.idempotency_key
    (r, db') ← resolve_or_settle db (record {
      workspace_id = w;
      task = task;
      owner_id = input.owner_id;
      fence = input.fence;
      idempotency_key = input.idempotency_key;
      is_final = true;
      event = event;
      row =
          failed_row (failure_status will_retry retryable) input.error class retryable
            (retry_delay task.attempts input.retry_after);
    })
    ok (with_retry will_retry r, db')

  unfoldable pub cancel :
      Database Raw Evidence
      → TaskCancelInput Raw
      → Result TaskError (TaskMutationResult Raw × Database Raw Evidence)
  cancel db input = do
    let w = normalize_workspace input.workspace_id
    task ← read_task db w input.task_id
    let payload =
        payload_or (calls.encode_payload (cancelled_payload input.task_id input.reason))
          input.payload
    event ←
        outcome_event "task.cancelled" (some payload) w input.task_id input.owner_id input.actor_id
          (outcome_deltas calls input.task_id "cancelled" input.reason "") input.idempotency_key
    resolve_or_settle db (record {
      workspace_id = w;
      task = task;
      owner_id = input.owner_id;
      fence = input.fence;
      idempotency_key = input.idempotency_key;
      is_final = true;
      event = event;
      row = cancelled_row input.reason;
    })

  -- The rows that a renewal touches: the owner is compared with the text as it is given.
  abbrev pub is_renewed_by : String → ℕ → TaskExecutionLease → Bool
  is_renewed_by owner_id fence lease = str_eq lease.owner_id owner_id && lease.fence == fence

  unfoldable pub renew :
      Database Raw Evidence
      → String
      → ℕ
      → String
      → ℕ
      → ℤ
      → String
      → Result TaskError (TaskRenewResult Raw × Database Raw Evidence)
  renew db workspace_id task_id owner_id fence ttl actor_id = do
    let w = normalize_workspace workspace_id
    validate_task_lease_identity w owner_id task_id
    guard (not (fence == 0)) lease_fenced
    task ← read_task db w task_id
    _ ← authorize_task_lease db (clock 0) task owner_id fence
    let until = lease_end (clock 1) (bounded_task_lease_ttl ttl)
    let extended : TaskExecutionLease → TaskExecutionLease =
        λ l. record l { lease_until = until; renewed_at = clock 1 }
    let db1 : Database Raw Evidence = record db {
      leases = update_lease db.leases w task_id (is_renewed_by owner_id fence) extended;
    }
    found ← read_task_lease db1 (clock 2) w task_id
    lease ← active_lease found
    let actor = if is_empty (trim actor_id) then owner_id else actor_id
    event ←
        new_task_event calls env "task.lease_renewed"
          (calls.encode_payload (renewed_payload task_id owner_id fence lease.lease_until)) w
          task_id owner_id actor []
    (appended, db2) ← append_event calls env db1 event
    ok (record { lease = lease; event = appended }, db2)
