-- ===== src/Projection/Task.antt =====
-- The task projection: `TaskProjection.Apply`, `Reset` and their helpers in internal/projection/task.go.
-- The rows of `fornix.task_state_projections` are a `Table`, keyed by workspace and task. An event is
-- applied in a transaction, so an error hands back no table. The JSON parser and the hash of a state
-- (encoding/json and crypto/sha256) are parameters. Sequences and counts stay below 2^63, the limit of
-- their columns.
pub mod Deltas
pub mod Effect
pub mod Replay
use Prim.Native.String.{◌++◌ as append}
use fornix.Base.{
  ℕ, ◌+◌, String, str_eq, trim, is_empty, Bool, true, false, not, ◌&&◌, ◌||◌, Option, none, some,
  List, [], ◌∷◌, leb, ◌==◌, if◌then◌else◌, Result, ok, err, ◌>>=◌, ◌>>◌, guard, Table, write,
}
use fornix.Event.Types.{EntityRef, StateDelta, EventEnvelope}
use fornix.Projection.Types.{
  ProjectionError, JsonValue, ApplyResult, was_applied, was_past, acknowledged, unhandled,
  TaskState, TaskDelta, sequence_required, workspace_required, task_reference_required, task_kind,
  task_workspace, session_kind, session_workspace, invalid_counters, hash_mismatch, set_required,
  status_text, status_mismatch, conflicting_status, status_required, result_json, task_key_required,
  json_null, json_text, json_other,
}

abbrev pub TaskTable : Type 0
TaskTable = Table TaskState

unfoldable pub task_event_status : String → Option String
task_event_status event_type =
    let t = trim event_type in
    if str_eq t "task.created"
    then some "pending"
    else if str_eq t "task.claimed"
    then some "claimed"
    else if str_eq t "task.retry_scheduled"
    then some "pending"
    else if str_eq t "task.completed"
    then some "done"
    else if str_eq t "task.failed"
    then some "failed"
    else if str_eq t "task.deadlettered"
    then some "deadletter"
    else if str_eq t "task.cancelled"
    then some "cancelled"
    else if str_eq t "task.progressed"
    then some "in_progress"
    else none

-- `ref.WorkspaceID != "" && strings.TrimSpace(ref.WorkspaceID) != workspaceID` does not hold.
abbrev pub is_in_workspace : String → EntityRef → Bool
is_in_workspace workspace_id ref =
    str_eq ref.workspace_id "" || str_eq (trim ref.workspace_id) workspace_id

abbrev pub has_kind : String → EntityRef → Bool
has_kind kind ref = str_eq ref.kind "" || str_eq ref.kind kind

unfoldable pub reset : TaskTable → String → Result ProjectionError TaskTable
reset t workspace_id = do
  guard (not (is_empty (trim workspace_id))) workspace_required
  ok (λ w c. if str_eq w (trim workspace_id) then none else t w c)

abbrev pub no_delta : TaskDelta
no_delta = record {
  status = "";
  result = "";
  result_present = false;
  assigned_session = "";
  assigned_session_present = false;
}

module _ {Raw : Type 0} (parse : Raw → Option JsonValue) where
  -- `json.Unmarshal(delta.Value, &status)`: null leaves the text empty.
  unfoldable pub decode_status : Raw → Option String
  decode_status raw = elim (parse raw) [
    | none ↦ none
    | some json_null ↦ some ""
    | some (json_text s) ↦ some s
    | some (json_other s) ↦ none
  ]

  unfoldable pub decode_task_result : Raw → Result ProjectionError String
  decode_task_result raw = elim (parse raw) [
    | none ↦ err result_json
    | some json_null ↦ ok ""
    | some (json_text s) ↦ ok s
    | some (json_other s) ↦ ok s
  ]

  -- The branch of the loop for the status path.
  unfoldable pub status_delta :
      String → TaskDelta → Bool → Raw → Result ProjectionError (TaskDelta × Bool)
  status_delta expected_status result status_found raw = elim (decode_status raw) [
    | none ↦ err status_text
    | some text ↦ do
      guard (not (is_empty (trim text))) status_text
      guard (str_eq (trim text) expected_status) status_mismatch
      guard (not (status_found && not (str_eq result.status (trim text)))) conflicting_status
      ok (record result { status = trim text }, true)
  ]

  -- One round of the loop over `event.StateDeltas`.
  unfoldable pub apply_delta :
      String
      → String
      → TaskDelta × Bool
      → StateDelta Raw
      → Result ProjectionError (TaskDelta × Bool)
  apply_delta expected_status task_id (result, status_found) delta =
      let status_path = append (append "/tasks/" task_id) "/status" in
      let result_path = append (append "/tasks/" task_id) "/result" in
      let assigned_path = append (append "/tasks/" task_id) "/assigned_session" in
      if not (str_eq delta.path status_path)
        && not (str_eq delta.path result_path)
        && not (str_eq delta.path assigned_path)
      then ok (result, status_found)
      else if not (str_eq delta.op "set")
      then err set_required
      else if str_eq delta.path status_path
      then status_delta expected_status result status_found delta.value
      else if str_eq delta.path assigned_path
      then (decode_task_result delta.value >>= λ decoded. ok (
        record result { assigned_session = decoded; assigned_session_present = true },
        status_found,
      ))
      else (decode_task_result delta.value >>= λ decoded.
          ok (record result { result = decoded; result_present = true }, status_found))

  abbrev pub apply_deltas :
      String
      → String
      → TaskDelta × Bool
      → List (StateDelta Raw)
      → Result ProjectionError (TaskDelta × Bool)
  apply_deltas expected_status task_id s [] = ok s
  apply_deltas expected_status task_id s (d ∷ ds) =
      apply_delta expected_status task_id s d >>= λ s'. apply_deltas expected_status task_id s' ds

  unfoldable pub task_delta_state :
      EventEnvelope Raw → String → String → Result ProjectionError TaskDelta
  task_delta_state event expected_status task_id = do
    (result, status_found) ←
        apply_deltas expected_status task_id (no_delta, false) event.state_deltas
    guard status_found status_required
    ok result

  -- The session that the event assigns, or the one of the row.
  unfoldable pub assigned_to :
      EventEnvelope Raw → String → TaskDelta → String → Result ProjectionError String
  assigned_to event workspace_id delta current =
      if delta.assigned_session_present then ok delta.assigned_session else elim event.session [
        | none ↦ ok current
        | some session ↦ do
          guard (has_kind "session" session) session_kind
          guard (is_in_workspace workspace_id session) session_workspace
          ok (trim session.id)
      ]

  module _ (hash : String → String → String → String → String) where
    -- `taskStateHash`.
    abbrev pub task_state_hash : TaskState → String
    task_state_hash s = hash s.task_id s.status s.result s.assigned_session

    unfoldable pub read_task_state :
        TaskTable → String → String → Result ProjectionError (Option TaskState)
    read_task_state t workspace_id task_id = elim (t workspace_id task_id) [
      | none ↦ ok none
      | some s ↦ do
        guard (not (s.last_event_sequence == 0 || s.applied_event_count == 0)) invalid_counters
        guard (str_eq s.state_hash (task_state_hash s)) hash_mismatch
        ok (some s)
    ]

    abbrev next_result : Option TaskState → TaskDelta → String
    next_result none delta = delta.result
    next_result (some s) delta = if delta.result_present then delta.result else s.result

    abbrev pub next_count : Option TaskState → ℕ
    next_count none = 1
    next_count (some s) = s.applied_event_count + 1

    -- The row that the event leaves, from the row found.
    unfoldable pub next_state :
        EventEnvelope Raw → String → String → Option TaskState → TaskDelta → String → TaskState
    next_state event workspace_id task_id current delta session =
        let result = next_result current delta in
        record {
          workspace_id = workspace_id;
          task_id = task_id;
          status = delta.status;
          result = result;
          assigned_session = session;
          last_event_id = event.event_id;
          last_event_sequence = event.sequence;
          applied_event_count = next_count current;
          state_hash = hash task_id delta.status result session;
        }

    -- `found && current.LastEventSequence >= event.Sequence`.
    unfoldable pub is_past : ℕ → Option TaskState → Bool
    is_past sequence current = elim current [
      | none ↦ false
      | some s ↦ leb sequence s.last_event_sequence
    ]

    abbrev pub current_session : Option TaskState → String
    current_session none = ""
    current_session (some s) = s.assigned_session

    -- The event of a task that is not behind the row.
    unfoldable pub apply_fresh :
        TaskTable
        → EventEnvelope Raw
        → String
        → String
        → String
        → Option TaskState
        → Result ProjectionError (ApplyResult × TaskTable)
    apply_fresh t event status workspace_id task_id current = do
      delta ← task_delta_state event status task_id
      session ← assigned_to event workspace_id delta (current_session current)
      ok (
        was_applied,
        write t workspace_id task_id (next_state event workspace_id task_id current delta session),
      )

    unfoldable pub apply_owned :
        TaskTable
        → EventEnvelope Raw
        → String
        → String
        → String
        → Result ProjectionError (ApplyResult × TaskTable)
    apply_owned t event status workspace_id task_id =
        read_task_state t workspace_id task_id >>= λ current.
        if is_past event.sequence current
        then ok (was_past, t)
        else apply_fresh t event status workspace_id task_id current

    -- The checks on an event that the projection owns.
    unfoldable pub apply_status :
        TaskTable → EventEnvelope Raw → String → Result ProjectionError (ApplyResult × TaskTable)
    apply_status t event status = do
      guard (not (event.sequence == 0)) sequence_required
      guard (not (is_empty (trim event.scope.workspace_id))) workspace_required
      elim event.task [
        | none ↦ err task_reference_required
        | some task ↦ do
          guard (not (is_empty (trim task.id))) task_reference_required
          guard (has_kind "task" task) task_kind
          guard (is_in_workspace (trim event.scope.workspace_id) task) task_workspace
          apply_owned t event status (trim event.scope.workspace_id) (trim task.id)
      ]

    unfoldable pub apply :
        TaskTable → EventEnvelope Raw → Result ProjectionError (ApplyResult × TaskTable)
    apply t event =
        if str_eq event.event_type "task.lease_renewed"
        then ok (acknowledged, t)
        else elim (task_event_status event.event_type) [
          | none ↦ ok (unhandled, t)
          | some status ↦ apply_status t event status
        ]

    -- `ReadTaskStateTx`.
    unfoldable pub read_task_state_tx :
        TaskTable → String → String → Result ProjectionError (Option TaskState)
    read_task_state_tx t workspace_id task_id = do
      guard (not (is_empty (trim workspace_id) || is_empty (trim task_id))) task_key_required
      read_task_state t (trim workspace_id) (trim task_id)
