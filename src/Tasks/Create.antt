-- ===== src/Tasks/Create.antt =====
-- `Create`, `taskCreateRequestHash` and `readExistingTaskCreateTx` (internal/store/tasks.go).
-- `new_id` is the next value of the sequence of `fornix.tasks.id`, and `start` is `now()`.
use fornix.Base.{
  ℕ, String, str_eq, trim, is_empty, Bool, false, not, ◌&&◌, ◌||◌, Option, none, some, leb, ◌==◌,
  if◌then◌else◌, List, [], ◌∷◌, ◌++◌, Result, ok, err, ◌>>=◌, ◌>>◌, guard,
}
use fornix.Policy.Types.{byte_length}
use fornix.Event.Types.{EventEnvelope, ActorRef}
use fornix.Event.Normalize.{Env}
use fornix.Lease.{Clock}
use fornix.Tasks.Types.{
  TaskError, Task, TaskDependency, Database, TaskCreateInput, key_too_long, fields_required,
  bad_payload, dependency_missing, self_dependency, idempotency_conflict, record_missing,
}
use fornix.Tasks.Rules.{
  normalize_workspace, normalize_max_attempts, normalize_task_ids, sorted_strings,
}
use fornix.Tasks.Events.{TaskCalls, marshal_raw, new_task_event, task_status_delta, append_event}
use fornix.Tasks.Rows.{find_task, read_task}
use fornix.Tasks.Idempotency.{recorded_event}

-- The row that a key of a workspace created.
unfoldable pub find_created : List Task → String → String → Option Task
find_created [] workspace_id key = none
find_created (t ∷ ts) workspace_id key =
    let rest = find_created ts workspace_id key in
    let has_key : Bool = elim t.create_key [ none ↦ false | some k ↦ str_eq k key ] in
    if str_eq t.workspace_id workspace_id && has_key then some t else rest

-- The inserted row, and what the table gives the columns that the statement does not name.
abbrev pub created_row :
    {Raw : Type 0} → TaskCreateInput Raw → String → ℕ → ℕ → ℕ → ℕ → String → Task
created_row input workspace_id max_attempts id now start hash = record {
  id = id;
  workspace_id = workspace_id;
  title = trim input.title;
  brief = trim input.brief;
  required_capabilities = sorted_strings input.required_capabilities;
  assigned_session = none;
  status = "pending";
  result = none;
  created_by = trim input.created_by;
  origin_host = trim input.origin_host;
  attempts = 0;
  max_attempts = max_attempts;
  next_attempt_at = now;
  last_error = "";
  failure_class = "";
  retryable = none;
  execution_fence = 0;
  created_at = start;
  claimed_at = none;
  completed_at = none;
  cancelled_at = none;
  create_key =
      (if is_empty (trim input.idempotency_key) then none else some (trim input.idempotency_key));
  create_hash = (if is_empty (trim input.idempotency_key) then "" else hash);
}

abbrev pub existing_task : Option Task → Result TaskError Task
existing_task none = err dependency_missing
existing_task (some t) = ok t

module _ {Raw Evidence : Type 0} where
  -- The loop over the dependencies: each names a task of the workspace, other than the new one.
  unfoldable pub insert_dependencies :
      Database Raw Evidence → String → ℕ → List ℕ → Result TaskError (Database Raw Evidence)
  insert_dependencies db workspace_id task_id [] = ok db
  insert_dependencies db workspace_id task_id (d ∷ ds) = do
    _ ← existing_task (find_task db.tasks workspace_id d)
    guard (not (d == task_id)) self_dependency
    let row : TaskDependency = record {
      workspace_id = workspace_id;
      task_id = task_id;
      depends_on_task_id = d;
    }
    insert_dependencies (record db { dependencies = db.dependencies ++ row ∷ [] }) workspace_id
        task_id ds

  unfoldable pub read_existing_task_create :
      Database Raw Evidence → String → ℕ → String → Result TaskError (Task × EventEnvelope Raw)
  read_existing_task_create db workspace_id task_id key = do
    task ← read_task db workspace_id task_id
    r ← elim (db.events.records workspace_id key) [ none ↦ err record_missing | some r ↦ ok r ]
    event ← recorded_event db.events workspace_id r
    guard (str_eq event.event_type "task.created" && str_eq event.idempotency_key key)
        idempotency_conflict
    ok (task, event)

module _ {Raw Evidence : Type 0} (calls : TaskCalls Raw Evidence) where
  unfoldable pub task_create_request_hash :
      TaskCreateInput Raw → String → ℕ → List ℕ → Raw → Result TaskError String
  task_create_request_hash input workspace_id max_attempts dependencies payload =
      elim (calls.events.compact payload) [
        | none ↦ err bad_payload
        | some compact ↦ ok (
            calls.create_digest (record {
              workspace_id = workspace_id;
              title = trim input.title;
              brief = trim input.brief;
              required_capabilities = sorted_strings input.required_capabilities;
              created_by = trim input.created_by;
              max_attempts = max_attempts;
              depends_on = dependencies;
              payload = compact;
            }))
      ]

  -- The part behind the insertion of the row.
  unfoldable pub create_inserted :
      Env
      → Database Raw Evidence
      → TaskCreateInput Raw
      → String
      → Task
      → List ℕ
      → Raw
      → Result TaskError ((Task × EventEnvelope Raw) × Database Raw Evidence)
  create_inserted env db input workspace_id row dependencies payload = do
    db1 ←
        insert_dependencies (record db { tasks = db.tasks ++ row ∷ [] }) workspace_id row.id
          dependencies
    raw ← marshal_raw calls (some payload)
    base ←
        new_task_event calls env "task.created" raw workspace_id row.id "" ""
          (task_status_delta calls row.id "pending" ∷ [])
    let actor : ActorRef = record {
      id = trim input.created_by;
      kind = "principal";
      name = "";
      workspace_id = workspace_id;
    }
    (appended, db2) ←
        append_event calls env db1
          (record base { actor = actor; idempotency_key = trim input.idempotency_key })
    task ← read_task db2 workspace_id row.id
    ok ((task, appended), db2)

  -- A key that created a task already: the same request gets that task and its event.
  unfoldable pub create_existing :
      Database Raw Evidence
      → String
      → String
      → String
      → Task
      → Result TaskError ((Task × EventEnvelope Raw) × Database Raw Evidence)
  create_existing db workspace_id key hash existing = do
    guard (str_eq existing.create_hash hash) idempotency_conflict
    found ← read_existing_task_create db workspace_id existing.id key
    ok (found, db)

  unfoldable pub create :
      Env
      → Clock
      → ℕ
      → ℕ
      → Database Raw Evidence
      → TaskCreateInput Raw
      → Result TaskError ((Task × EventEnvelope Raw) × Database Raw Evidence)
  create env clock start new_id db input = do
    let w = normalize_workspace input.workspace_id
    let key = trim input.idempotency_key
    guard (leb (byte_length key) 256) key_too_long
    guard
        (not (
          is_empty (trim input.title)
          || is_empty (trim input.brief)
          || is_empty (trim input.created_by)))
        fields_required
    max_attempts ← normalize_max_attempts input.max_attempts
    let dependencies = normalize_task_ids input.depends_on
    let payload : Raw = elim input.payload [ none ↦ calls.events.json.empty_object | some p ↦ p ]
    hash ← task_create_request_hash input w max_attempts dependencies payload
    let row : Task = created_row input w max_attempts new_id (clock 0) start hash
    let existing = if is_empty key then none else find_created db.tasks w key
    elim existing [
      | none ↦ create_inserted env db input w row dependencies payload
      | some t ↦ create_existing db w key hash t
    ]
