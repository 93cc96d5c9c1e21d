-- ===== src/Tasks/Tests/Outcomes.antt =====
-- A cancellation, its repetition under an old fence, and one with a padded key.
use fornix.Base.{
  ℕ, ◌≡◌, ◌≢◌, ◌⊎◌, refl, String, trim, true, false, none, some, [], ◌∷◌, ok, write, update_where,
  arith, show_nat,
}
use fornix.Policy.Types.{lower_trim}
use fornix.Event.Types.{EventEnvelope}
use fornix.Event.Normalize.{
  normalize, matches_from, is_event_type, normalize_actor, validate_entity_ref, clean_strings,
  normalize_delta,
}
use fornix.Event.Append.{read_event, request_hash, insert_event, append_normalized, append_tx}
use fornix.Tasks.Types.{Task, TaskExecutionLease, Database, TaskCancelInput, TaskMutationResult}
use fornix.Tasks.Rules.{is_task_terminal}
use fornix.Tasks.Events.{new_event, new_task_event, append_event}
use fornix.Tasks.Rows.{
  write_lease, find_task, update_task, read_task, authorize_task_mutation,
  release_task_lease_and_session,
}
use fornix.Tasks.Rows.Authority.{IsHolder}
use fornix.Tasks.Rows.Keys.{IsKeyed}
use fornix.Tasks.Idempotency.{
  recorded_event, resolve_record, resolve_existing_idempotency, latest_event_for,
}
use fornix.Tasks.Outcomes.{Outcome, settle, resolve_or_settle, outcome_event, cancel, cancelled_row}
use fornix.Tasks.Machine.{view, IsSound}
use fornix.Tasks.Refinement.{Refines}
use fornix.Tasks.Refinement.History.{
  Steps, start, then_step, created, cancelled, Steps-Refines, Steps-IsSound, Steps-terminal,
}
use fornix.Tasks.Fencing.{cancellation, mutate-authority, mutate-superseded}
use fornix.Tasks.Padding.{settle-padded}
use fornix.Tasks.Tests.{
  plain_calls, env_at, ticking, no_leases, no_records, empty_db, create_input, created_task,
  task_delta, bo, stored_event, created_event, created_db, create_run,
}

abbrev cancel_input : ℕ → TaskCancelInput String
cancel_input fence = record {
  workspace_id = "acme";
  task_id = 1;
  owner_id = "";
  fence = fence;
  reason = "stop";
  idempotency_key = "c";
  actor_id = "bo";
  payload = none;
}

abbrev cancelled_event : EventEnvelope String
cancelled_event = stored_event 2 "task.cancelled" bo none "c" (
    task_delta "status" "cancelled"
    ∷ task_delta "result" "stop"
    ∷ task_delta "assigned_session" ""
    ∷ [])

abbrev cancelled_task : Task
cancelled_task = cancelled_row "stop" 8 created_task

abbrev cancelled_db : Database String (Unit {0})
cancelled_db = record created_db {
  tasks = cancelled_task ∷ [];
  events = record {
    events = created_event ∷ cancelled_event ∷ [];
    records =
        write no_records "acme" "c"
          (record { request_hash = "task.cancelled"; event_sequence = some 2; event_id = "e2" });
    evidence = tt;
  };
}

abbrev cancelled_result : TaskMutationResult String
cancelled_result = record {
  task = cancelled_task;
  event = cancelled_event;
  deduped = false;
  retry_scheduled = false;
}

cancel_run :
    cancel plain_calls (env_at 2) (ticking 7) created_db (cancel_input 0)
    ≡ ok (cancelled_result, cancelled_db)
unfolding cancel outcome_event resolve_or_settle settle resolve_existing_idempotency
    authorize_task_mutation release_task_lease_and_session latest_event_for read_event update_task
    is_task_terminal read_task find_task new_task_event new_event append_event append_tx
    append_normalized insert_event request_hash normalize normalize_actor validate_entity_ref
    normalize_delta is_event_type matches_from clean_strings trim show_nat write update_where
    lower_trim
cancel_run = refl

to_created : Steps plain_calls empty_db created_db
unfolding find_task
to_created =
    then_step empty_db created_db start (
      created (env_at 1) (ticking 5) 5 1 create_input (created_task, created_event) refl create_run)

to_cancelled : Steps plain_calls empty_db cancelled_db
to_cancelled =
    then_step created_db cancelled_db to_created
      (cancelled (env_at 2) (ticking 7) (cancel_input 0) cancelled_result cancel_run)

Steps-Refines_example : Refines empty_db.tasks cancelled_db.tasks × IsKeyed cancelled_db.tasks
Steps-Refines_example = Steps-Refines plain_calls empty_db cancelled_db tt to_cancelled

Steps-IsSound_example : IsSound (view cancelled_task)
unfolding find_task
Steps-IsSound_example =
    Steps-IsSound plain_calls empty_db cancelled_db "acme" 1 cancelled_task refl to_cancelled refl

-- The request comes again after another worker's lease, under an old fence.
abbrev second_lease : TaskExecutionLease
second_lease = record {
  workspace_id = "acme";
  task_id = 1;
  owner_id = "s";
  fence = 2;
  lease_until = 90;
  acquired_at = 1;
  renewed_at = 1;
  released_at = none;
}

abbrev leased_db : Database String (Unit {0})
leased_db = record cancelled_db { leases = write_lease no_leases "acme" 1 second_lease }

abbrev repeated_result : TaskMutationResult String
repeated_result = record {
  task = cancelled_task;
  event = cancelled_event;
  deduped = true;
  retry_scheduled = false;
}

late_run :
    cancel plain_calls (env_at 9) (ticking 30) leased_db (cancel_input 1)
    ≡ ok (repeated_result, leased_db)
unfolding cancel outcome_event resolve_or_settle resolve_existing_idempotency resolve_record
    recorded_event read_event read_task find_task new_task_event new_event request_hash normalize
    normalize_actor is_event_type matches_from clean_strings trim show_nat write lower_trim
late_run = refl

mutate-superseded_example : (true ≡ true) × (leased_db ≡ leased_db)
unfolding trim
mutate-superseded_example =
    mutate-superseded plain_calls (env_at 9) (ticking 30) leased_db (cancellation (cancel_input 1))
      second_lease refl (omega arith) refl repeated_result leased_db late_run

mutate-authority_example :
    (t : Task) × (find_task created_db.tasks "acme" 1 ≡ some t)
    × (IsHolder created_db 7 t "" 0
        ⊎ ((t.assigned_session ≡ none) × (t.status ≡ "pending") × Path ℕ 0 0))
unfolding trim
mutate-authority_example =
    mutate-authority plain_calls (env_at 2) (ticking 7) created_db cancelled_db
      (cancellation (cancel_input 0)) cancelled_result cancel_run refl

-- A cancellation of the cancelled task under another key is an error; the same one is a duplicate.
again_run :
    cancel plain_calls (env_at 9) (ticking 30) cancelled_db (cancel_input 0)
    ≡ ok (repeated_result, cancelled_db)
unfolding cancel outcome_event resolve_or_settle resolve_existing_idempotency resolve_record
    recorded_event read_event read_task find_task new_task_event new_event request_hash normalize
    normalize_actor is_event_type matches_from clean_strings trim show_nat write lower_trim
again_run = refl

Steps-terminal_example :
    (u : Task) × (find_task cancelled_db.tasks "acme" 1 ≡ some u) × (view u ≡ view cancelled_task)
unfolding find_task is_task_terminal trim
Steps-terminal_example =
    Steps-terminal plain_calls empty_db cancelled_db cancelled_db "acme" 1 cancelled_task refl
      to_cancelled refl refl
      (then_step cancelled_db cancelled_db start
        (cancelled (env_at 9) (ticking 30) (cancel_input 0) repeated_result again_run))

-- The outcome of a cancellation under a padded key.
abbrev padded : Outcome String
padded = record {
  workspace_id = "acme";
  task = created_task;
  owner_id = "";
  fence = 0;
  idempotency_key = " c";
  is_final = true;
  event = cancelled_event;
  row = cancelled_row "stop";
}

settle-padded_example :
    settle plain_calls (env_at 2) (ticking 7) created_db padded
    ≢ ok (cancelled_result, cancelled_db)
unfolding trim
settle-padded_example =
    settle-padded plain_calls (env_at 2) (ticking 7) padded created_db cancelled_db cancelled_result
      refl refl refl refl
