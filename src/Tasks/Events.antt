-- ===== src/Tasks/Events.antt =====
-- The events of tasks: `newTaskEvent`, `outcomeEvent` and the deltas (internal/store/tasks.go), and
-- `NewEvent` (internal/contracts/events.go). What the store calls of other code is a record: the
-- calls of the event store, and encoding/json on the values that the store encodes.
use Prim.Native.String.{◌++◌ as append}
use fornix.Base.{
  ℕ, String, str_eq, trim, is_empty, Bool, Option, none, some, if◌then◌else◌, List, [], ◌∷◌, pos,
  Result, ok, err, ◌>>=◌, show_nat,
}
use fornix.Event.Types.{EventError, ActorRef, EntityRef, StateDelta, EventEnvelope}
use fornix.Event.Normalize.{Env, normalize, default_workspace_id}
use fornix.Event.Append.{EventCalls, append_tx}
use fornix.Tasks.Types.{TaskError, Database, bad_payload, event_error}
use fornix.Tasks.Rules.{normalize_workspace}

-- The maps that the store encodes as payloads, with their keys' values.
pub data TaskPayload : Type 0 where
  claimed_payload : ℕ → String → ℕ → Bool → TaskPayload
  renewed_payload : ℕ → String → ℕ → ℕ → TaskPayload
  failed_payload : ℕ → String → String → Bool → TaskPayload
  cancelled_payload : ℕ → String → TaskPayload
  dead_payload : ℕ → String → TaskPayload

-- What `taskCreateRequestHash` digests.
pub record CreateHashInput (Raw : Type 0) : Type 0 where
  pub workspace_id : String
  pub title : String
  pub brief : String
  pub required_capabilities : List String
  pub created_by : String
  pub max_attempts : ℕ
  pub depends_on : List ℕ
  pub payload : Raw

-- `null_json` is the text `null`, which is what a nil `json.RawMessage` encodes to, and `marshal` is
-- `json.Marshal` of another one: compacted and escaped for HTML, or an error where it is not JSON.
pub record TaskCalls (Raw Evidence : Type 0) : Type 0 where
  pub events : EventCalls Raw Evidence
  pub null_json : Raw
  pub marshal : Raw → Option Raw
  pub encode_text : String → Raw
  pub encode_payload : TaskPayload → Raw
  pub create_digest : CreateHashInput Raw → String

-- An error of the event store, as one of the task store.
abbrev pub lift_event : {A : Type 0} → Result EventError A → Result TaskError A
lift_event (ok a) = ok a
lift_event (err e) = err (event_error e)

module _ {Raw Evidence : Type 0} (calls : TaskCalls Raw Evidence) where
  -- `json.Marshal` of a `json.RawMessage`: `null` where it is nil.
  abbrev pub marshal_raw : Option Raw → Result TaskError Raw
  marshal_raw none = ok calls.null_json
  marshal_raw (some raw) = elim (calls.marshal raw) [ none ↦ err bad_payload | some c ↦ ok c ]

  abbrev pub blank_actor : ActorRef
  blank_actor = record { id = ""; kind = ""; name = ""; workspace_id = "" }

  -- The envelope of `NewEvent`, of an encoded payload.
  abbrev pub base_event : String → Raw → EventEnvelope Raw
  base_event event_type payload = record {
    event_id = "";
    sequence = 0;
    event_type = event_type;
    schema_version = pos 1;
    occurred_at = 0;
    recorded_at = 0;
    scope = record { workspace_id = default_workspace_id; visibility = ""; subject = "" };
    actor = blank_actor;
    task = none;
    session = none;
    policy = none;
    causation_id = "";
    correlation_id = "";
    idempotency_key = "";
    state_deltas = [];
    artifacts = [];
    provenance = record { source_event_ids = []; source_artifact_refs = []; source_paths = [] };
    payload = payload;
  }

  unfoldable pub new_event : Env → String → Raw → Result TaskError (EventEnvelope Raw)
  new_event env event_type payload = lift_event (
      normalize calls.events.json env
        (record (base_event event_type payload) { event_id = env.new_id; occurred_at = env.now }))

  -- The session of an event: none where the identifier is blank.
  abbrev pub session_ref : String → String → Option EntityRef
  session_ref workspace_id session_id =
      if is_empty (trim session_id)
      then none
      else some (record { id = trim session_id; kind = "session"; workspace_id = workspace_id })

  abbrev pub actor_ref : String → String → String → ActorRef
  actor_ref workspace_id session_id actor_id =
      if is_empty (trim actor_id) then blank_actor else record {
        id = trim actor_id;
        kind = (if str_eq (trim actor_id) (trim session_id) then "session" else "principal");
        name = "";
        workspace_id = workspace_id;
      }

  unfoldable pub new_task_event :
      Env
      → String
      → Raw
      → String
      → ℕ
      → String
      → String
      → List (StateDelta Raw)
      → Result TaskError (EventEnvelope Raw)
  new_task_event env event_type payload workspace_id task_id session_id actor_id deltas = do
    event ← new_event env event_type payload
    let w = normalize_workspace workspace_id
    ok (record event {
      scope = record event.scope { workspace_id = w };
      task = some (record { id = show_nat task_id; kind = "task"; workspace_id = w });
      session = session_ref w session_id;
      actor = actor_ref workspace_id session_id actor_id;
      state_deltas = deltas;
    })

  abbrev pub task_path : ℕ → String → String
  task_path task_id field = append "/tasks/" (append (show_nat task_id) (append "/" field))

  abbrev pub task_string_delta : ℕ → String → String → StateDelta Raw
  task_string_delta task_id field value = record {
    op = "set";
    path = task_path task_id field;
    value = calls.encode_text value;
    evidence = [];
  }

  abbrev pub task_status_delta : ℕ → String → StateDelta Raw
  task_status_delta task_id status = task_string_delta task_id "status" status

  -- The deltas of an outcome: the status, the result and the owner.
  abbrev pub outcome_deltas : ℕ → String → String → String → List (StateDelta Raw)
  outcome_deltas task_id status result assigned =
      task_status_delta task_id status
      ∷ task_string_delta task_id "result" result
      ∷ task_string_delta task_id "assigned_session" assigned
      ∷ []

  -- `AppendTx` on the event store of a database.
  unfoldable pub append_event :
      Env
      → Database Raw Evidence
      → EventEnvelope Raw
      → Result TaskError (EventEnvelope Raw × Database Raw Evidence)
  append_event env db event = do
    (r, events) ← lift_event (append_tx calls.events env db.events event)
    ok (r.event, record db { events = events })
