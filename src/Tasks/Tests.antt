-- ===== src/Tasks/Tests.antt =====
-- A task that is created, claimed or cancelled, and requests that come too late.
mod Outcomes
mod Claims
use Prim.Native.String.{◌++◌ as append}
use fornix.Base.{
  ℕ, ◌+◌, ◌*◌, ◌^◌, ◌-◌, ◌<◌, ◌≡◌, ◌≢◌, ◌⊎◌, refl, min, String, trim, str_eq, true, false, Bool,
  Option, none, some, List, [], ◌∷◌, Result, ok, err, pos, Table, write, update_where, arith,
  show_nat, sort_by, insert_by, is_positive, ltb_ℤ,
}
use fornix.Policy.Types.{byte_length, lower_trim}
use fornix.Event.Types.{EventError, EventEnvelope, StateDelta, EntityRef, ActorRef}
use fornix.Event.Normalize.{
  Env, RawJson, normalize, matches_from, is_event_type, normalize_actor, validate_entity_ref,
  clean_strings, normalize_delta,
}
use fornix.Event.Append.{
  IdempotencyRecord, HashInput, EventCalls, EventStore, read_event, request_hash, insert_event,
  read_duplicate, append_normalized, append_tx,
}
use fornix.Lease.{Clock, lease_end}
use fornix.Tasks.Types.{
  Task, TaskExecutionLease, Session, Database, TaskCreateInput, TaskClaimInput, TaskClaimResult,
  TaskCancelInput, TaskMutationResult,
}
use fornix.Tasks.Rules.{
  normalize_max_attempts, normalize_task_ids, sorted_strings, bounded_task_lease_ttl,
  is_task_terminal, retry_delay, max_task_retry_backoff,
}
use fornix.Tasks.Rules.Backoff.{retry_delay-closed}
use fornix.Tasks.Events.{TaskCalls, new_event, new_task_event, append_event, task_path}
use fornix.Tasks.Rows.{
  LeaseRows, write_lease, find_task, update_task, read_task, read_task_lease, active_lease,
  authorize_row, authorize_task_lease, authorize_task_mutation, release_task_lease_and_session,
}
use fornix.Tasks.Rows.Authority.{IsHolder}
use fornix.Tasks.Rows.Keys.{IsKeyed}
use fornix.Tasks.Idempotency.{
  recorded_event, resolve_record, resolve_existing_idempotency, latest_event_for,
}
use fornix.Tasks.Create.{
  find_created, insert_dependencies, task_create_request_hash, create_inserted, create,
}
use fornix.Tasks.Claim.{
  Round, earliest, is_claimable, select_claimable_task, next_fence, claim_task, claim_rounds,
  claim_next,
}
use fornix.Tasks.Outcomes.{Outcome, settle, resolve_or_settle, outcome_event, cancel, cancelled_row}
use fornix.Tasks.Machine.{view, IsSound}
use fornix.Tasks.Refinement.{Refines}
use fornix.Tasks.Refinement.History.{
  Steps, start, then_step, created, cancelled, Steps-Refines, Steps-IsSound, Steps-terminal,
}
use fornix.Tasks.Fencing.{Mutation, cancellation, mutate, mutate-authority, mutate-superseded}
use fornix.Tasks.Fencing.Claims.{IsRaised, claim_next-IsRaised}
use fornix.Tasks.Padding.{settle-padded}

abbrev quoted : String → String
quoted s = append "'" (append s "'")

-- Raw JSON is its text, a digest is the type of the event, and the evidence store takes anything.
abbrev plain_calls : TaskCalls String (Unit {0})
plain_calls = record {
  events = record {
    json = record { raw_length = byte_length; is_valid = λ raw. true; empty_object = "{}" };
    compact = some;
    digest = λ h. some h.event_type;
    put_evidence = λ ev i. some tt;
  };
  null_json = "null";
  marshal = some;
  encode_text = quoted;
  encode_payload = λ p. "{}";
  create_digest = λ h. h.title;
}

abbrev env_at : ℕ → Env
env_at n = record { new_id = append "e" (show_nat n); now = 9; sequence = n; recorded_at = n + 10 }

abbrev ticking : ℕ → Clock
ticking from k = from + k

abbrev no_leases : LeaseRows
no_leases w t = none

abbrev no_records : Table IdempotencyRecord
no_records w k = none

abbrev no_sessions : Table Session
no_sessions w s = none

abbrev worker : Session
worker = record { capabilities = []; status = "idle"; current_task_id = none; last_heartbeat = 0 }

abbrev empty_db : Database String (Unit {0})
empty_db = record {
  tasks = [];
  leases = no_leases;
  sessions = write no_sessions "acme" "s" worker;
  dependencies = [];
  events = record { events = []; records = no_records; evidence = tt };
}

abbrev create_input : TaskCreateInput String
create_input = record {
  workspace_id = "acme";
  idempotency_key = "";
  title = "t";
  brief = "b";
  required_capabilities = [];
  created_by = "bo";
  origin_host = "";
  max_attempts = pos 2;
  depends_on = [];
  payload = none;
}

abbrev created_task : Task
created_task = record {
  id = 1;
  workspace_id = "acme";
  title = "t";
  brief = "b";
  required_capabilities = [];
  assigned_session = none;
  status = "pending";
  result = none;
  created_by = "bo";
  origin_host = "";
  attempts = 0;
  max_attempts = 2;
  next_attempt_at = 5;
  last_error = "";
  failure_class = "";
  retryable = none;
  execution_fence = 0;
  created_at = 5;
  claimed_at = none;
  completed_at = none;
  cancelled_at = none;
  create_key = none;
  create_hash = "";
}

abbrev task_delta : String → String → StateDelta String
task_delta field value = record {
  op = "set";
  path = task_path plain_calls 1 field;
  value = quoted value;
  evidence = [];
}

abbrev bo : ActorRef
bo = record { id = "bo"; kind = "principal"; name = ""; workspace_id = "acme" }

abbrev stored_event :
    ℕ
    → String
    → ActorRef
    → Option EntityRef
    → String
    → List (StateDelta String)
    → EventEnvelope String
stored_event n event_type actor session key deltas = record {
  event_id = append "e" (show_nat n);
  sequence = n;
  event_type = event_type;
  schema_version = pos 1;
  occurred_at = 9;
  recorded_at = n + 10;
  scope = record { workspace_id = "acme"; visibility = ""; subject = "" };
  actor = actor;
  task = some (record { id = "1"; kind = "task"; workspace_id = "acme" });
  session = session;
  policy = none;
  causation_id = "";
  correlation_id = "";
  idempotency_key = key;
  state_deltas = deltas;
  artifacts = [];
  provenance = record { source_event_ids = []; source_artifact_refs = []; source_paths = [] };
  payload = "{}";
}

abbrev created_event : EventEnvelope String
created_event = stored_event 1 "task.created" bo none "" (task_delta "status" "pending" ∷ [])

abbrev created_db : Database String (Unit {0})
created_db = record empty_db {
  tasks = created_task ∷ [];
  events = record { events = created_event ∷ []; records = no_records; evidence = tt };
}

create_run :
    create plain_calls (env_at 1) (ticking 5) 5 1 empty_db create_input
    ≡ ok ((created_task, created_event), created_db)
unfolding create create_inserted insert_dependencies find_created read_task find_task
    task_create_request_hash normalize_max_attempts normalize_task_ids sorted_strings sort_by
    insert_by new_task_event new_event append_event append_tx append_normalized insert_event
    request_hash normalize normalize_actor validate_entity_ref normalize_delta is_event_type
    matches_from clean_strings trim show_nat write lower_trim
create_run = refl
