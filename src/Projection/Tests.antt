-- ===== src/Projection/Tests.antt =====
-- Two tasks' events, their view, and batches over them.
mod Rebuild
use fornix.Base.{
  ℕ, ◌+◌, ◌≡◌, ◌≢◌, ◌⊎◌, refl, String, trim, true, false, Option, none, some, List, [], ◌∷◌, ok,
  pos, write, update_where, arith, ltb_ℤ, is_positive,
}
use fornix.Lease.{
  LeaseTable, Clock, ConsumerLease, acquire_consumer_lease, acquire_trimmed, take_over,
  bounded_consumer_lease_ttl, read_consumer_lease, validate_consumer_lease,
  validate_consumer_lease_identity, is_active,
}
use fornix.Lease.History.{run}
use fornix.Event.Types.{EventEnvelope, EntityRef}
use fornix.Projection.Types.{JsonValue, json_text, ApplyResult, was_applied, TaskState}
use fornix.Projection.Task.{
  TaskTable, task_event_status, decode_status, status_delta, apply_delta, task_delta_state,
  assigned_to, read_task_state, next_state, is_past, apply_fresh, apply_owned, apply_status, apply,
}
use fornix.Projection.Task.Effect.{HasWritten, apply-effect}
use fornix.Projection.Task.Replay.{apply_all, apply_all-again, apply-redelivered}
use fornix.Projection.Runner.{
  Runner, Store, BatchResult, bounded_batch_size, validate_lease, ensure_checkpoint, read_after,
  move_checkpoint, advance_checkpoint_at, advance_checkpoint_with_lease, run_locked,
  run_batch_with_lease,
}
use fornix.Projection.Runner.Batch.{IsBatch, run_batch_with_lease-IsBatch}
use fornix.Projection.Runner.Fenced.{superseded-run_batch}

-- Every raw value is a JSON text, and a hash that keeps the status.
abbrev as_text : String → Option JsonValue
as_text raw = some (json_text raw)

abbrev status_hash : String → String → String → String → String
status_hash task_id status result session = status

abbrev no_rows : TaskTable
no_rows w c = none

abbrev task_event : ℕ → String → String → String → EventEnvelope String
task_event n id event_type status = record {
  event_id = id;
  sequence = n;
  event_type = event_type;
  schema_version = pos 1;
  occurred_at = 1;
  recorded_at = 1;
  scope = record { workspace_id = "acme"; visibility = ""; subject = "" };
  actor = record { id = ""; kind = ""; name = ""; workspace_id = "" };
  task = some (record { id = "t1"; kind = "task"; workspace_id = "" });
  session = none;
  policy = none;
  causation_id = "";
  correlation_id = "";
  idempotency_key = "";
  state_deltas =
      record { op = "set"; path = "/tasks/t1/status"; value = status; evidence = [] } ∷ [];
  artifacts = [];
  provenance = record { source_event_ids = []; source_artifact_refs = []; source_paths = [] };
  payload = "";
}

abbrev created : EventEnvelope String
created = task_event 1 "e1" "task.created" "pending"

abbrev claimed : EventEnvelope String
claimed = task_event 4 "e4" "task.claimed" "claimed"

abbrev created_state : TaskState
created_state = record {
  workspace_id = "acme";
  task_id = "t1";
  status = "pending";
  result = "";
  assigned_session = "";
  last_event_id = "e1";
  last_event_sequence = 1;
  applied_event_count = 1;
  state_hash = "pending";
}

abbrev claimed_state : TaskState
claimed_state = record {
  workspace_id = "acme";
  task_id = "t1";
  status = "claimed";
  result = "";
  assigned_session = "";
  last_event_id = "e4";
  last_event_sequence = 4;
  applied_event_count = 2;
  state_hash = "claimed";
}

abbrev after_created : TaskTable
after_created = write no_rows "acme" "t1" created_state

abbrev after_claimed : TaskTable
after_claimed = write after_created "acme" "t1" claimed_state

created_run : apply as_text status_hash no_rows created ≡ ok (was_applied, after_created)
unfolding apply apply_status apply_owned apply_fresh task_event_status task_delta_state apply_delta
    status_delta decode_status assigned_to read_task_state next_state is_past trim write
created_run = refl

claimed_run : apply as_text status_hash after_created claimed ≡ ok (was_applied, after_claimed)
unfolding apply apply_status apply_owned apply_fresh task_event_status task_delta_state apply_delta
    status_delta decode_status assigned_to read_task_state next_state is_past trim write
claimed_run = refl

apply_both : apply_all as_text status_hash no_rows (created ∷ claimed ∷ []) ≡ ok after_claimed
unfolding apply apply_status apply_owned apply_fresh task_event_status task_delta_state apply_delta
    status_delta decode_status assigned_to read_task_state next_state is_past trim write
apply_both = refl

claimed_alone : apply_all as_text status_hash after_created (claimed ∷ []) ≡ ok after_claimed
unfolding apply apply_status apply_owned apply_fresh task_event_status task_delta_state apply_delta
    status_delta decode_status assigned_to read_task_state next_state is_past trim write
claimed_alone = refl

apply-effect_example :
    ((after_claimed ≡ after_created) × (true ≡ false))
    ⊎ ((task : EntityRef) × (claimed.task ≡ some task)
        × HasWritten as_text status_hash claimed
            (trim claimed.scope.workspace_id)
            (trim task.id)
            after_created
            after_claimed
        × (true ≡ true))
apply-effect_example =
    apply-effect as_text status_hash after_created after_claimed claimed was_applied claimed_run

apply-redelivered_example :
    (r : ApplyResult) × (apply as_text status_hash after_claimed created ≡ ok (r, after_claimed))
    × (r.applied ≡ false)
apply-redelivered_example =
    apply-redelivered as_text status_hash created (claimed ∷ []) no_rows after_created after_claimed
      was_applied created_run claimed_alone

apply_all-again_example :
    apply_all as_text status_hash after_claimed (created ∷ claimed ∷ []) ≡ ok after_claimed
apply_all-again_example =
    apply_all-again as_text status_hash (created ∷ claimed ∷ []) no_rows after_claimed apply_both

-- A lease of the runner's, and its table.
abbrev token : ConsumerLease
token = record {
  workspace_id = "acme";
  consumer_id = "tasks";
  owner_id = "a";
  fence = 1;
  lease_until = 100;
  acquired_at = 0;
  renewed_at = 0;
  released_at = none;
}

abbrev no_leases : LeaseTable
no_leases w c = none

abbrev leases : LeaseTable
leases = write no_leases "acme" "tasks" token

abbrev runner : Runner
runner = record { consumer_id = "tasks"; batch_size = pos 1; owner_id = "a"; lease_ttl = pos 0 }

abbrev ticking : ℕ → Clock
ticking start k = start + k

abbrev stored : String → List (EventEnvelope String)
stored w = created ∷ claimed ∷ []

abbrev no_checkpoints : String → String → Option ℕ
no_checkpoints w c = none

abbrev fresh_store : Store
fresh_store = record { leases = leases; checkpoints = no_checkpoints; view = no_rows }

-- One event of two is applied, and the checkpoint stands at it.
abbrev first_batch : BatchResult
first_batch = record {
  workspace_id = "acme";
  events_read = 1;
  events_applied = 1;
  events_duplicate = 0;
  checkpoint_before = 0;
  checkpoint_after = 1;
  lease_fence = 1;
  has_more = true;
}

abbrev first_store : Store
first_store = record {
  leases = leases;
  checkpoints = write (write no_checkpoints "acme" "tasks" 0) "acme" "tasks" 1;
  view = after_created;
}

run_first :
    run_batch_with_lease stored as_text status_hash runner fresh_store (ticking 5) token
    ≡ ok (first_batch, first_store)
unfolding run_batch_with_lease run_locked validate_lease validate_consumer_lease
    validate_consumer_lease_identity read_consumer_lease is_active ensure_checkpoint read_after
    bounded_batch_size is_positive ltb_ℤ advance_checkpoint_with_lease advance_checkpoint_at
    move_checkpoint update_where apply apply_status apply_owned apply_fresh task_event_status
    task_delta_state apply_delta status_delta decode_status assigned_to read_task_state next_state
    is_past trim write
run_first = refl

run_batch_with_lease-IsBatch_example :
    IsBatch stored as_text status_hash runner fresh_store first_store (ticking 5) token first_batch
run_batch_with_lease-IsBatch_example =
    run_batch_with_lease-IsBatch stored as_text status_hash runner fresh_store first_store
      (ticking 5) token first_batch run_first

abbrev second_token : ConsumerLease
second_token = record {
  workspace_id = "acme";
  consumer_id = "tasks";
  owner_id = "b";
  fence = 2;
  lease_until = 30_000_202;
  acquired_at = 202;
  renewed_at = 202;
  released_at = none;
}

second_acquire :
    acquire_consumer_lease leases (ticking 200) "acme" "tasks" "b" (pos 0)
    ≡ ok (
      record { lease = second_token; acquired = true; takeover = true; reused = false },
      write leases "acme" "tasks" second_token,
    )
unfolding acquire_consumer_lease acquire_trimmed validate_consumer_lease_identity trim
    read_consumer_lease write bounded_consumer_lease_ttl take_over update_where
second_acquire = refl

superseded-run_batch_example :
    run_batch_with_lease stored as_text status_hash runner
      (record fresh_store { leases = run (write leases "acme" "tasks" second_token) [] })
      (ticking 5)
      token
    ≢ ok (first_batch, first_store)
unfolding trim write
superseded-run_batch_example =
    superseded-run_batch stored as_text status_hash leases
      (write leases "acme" "tasks" second_token) (ticking 200) "acme" "tasks" "b" (pos 0)
      (record { lease = second_token; acquired = true; takeover = true; reused = false }) token []
      runner (record fresh_store { leases = run (write leases "acme" "tasks" second_token) [] })
      first_store (ticking 5) first_batch second_acquire refl refl refl (omega arith) refl
