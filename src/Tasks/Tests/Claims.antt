-- ===== src/Tasks/Tests/Claims.antt =====
-- A claim, and the backoff of a fourth attempt.
use fornix.Base.{
  ℕ, ◌*◌, ◌^◌, ◌-◌, ◌≡◌, refl, min, String, trim, false, none, some, [], ◌∷◌, ok, pos, write,
  update_where, show_nat, is_positive, ltb_ℤ,
}
use fornix.Policy.Types.{lower_trim}
use fornix.Event.Types.{EventEnvelope}
use fornix.Event.Normalize.{
  normalize, matches_from, is_event_type, normalize_actor, validate_entity_ref, clean_strings,
  normalize_delta,
}
use fornix.Event.Append.{request_hash, insert_event, append_normalized, append_tx}
use fornix.Lease.{lease_end}
use fornix.Tasks.Types.{Task, TaskExecutionLease, Database, TaskClaimInput, TaskClaimResult}
use fornix.Tasks.Rules.{bounded_task_lease_ttl, retry_delay, max_task_retry_backoff}
use fornix.Tasks.Rules.Backoff.{retry_delay-closed}
use fornix.Tasks.Events.{new_event, new_task_event, append_event}
use fornix.Tasks.Rows.{
  write_lease, find_task, update_task, read_task, read_task_lease, active_lease,
}
use fornix.Tasks.Claim.{
  Round, earliest, is_claimable, select_claimable_task, next_fence, claim_task, claim_rounds,
  claim_next,
}
use fornix.Tasks.Fencing.Claims.{IsRaised, claim_next-IsRaised}
use fornix.Tasks.Tests.{
  plain_calls, env_at, ticking, no_leases, no_records, worker, created_task, task_delta,
  stored_event, created_event, created_db,
}

-- The worker claims the task.
abbrev claim_input : TaskClaimInput
claim_input = record {
  workspace_id = "acme";
  session_id = "s";
  actor_id = "";
  task_id = 0;
  lease_ttl = pos 0;
}

abbrev round_at : ℕ → Round
round_at left = record { env = env_at 2; clock = ticking 20; is_locked = λ t. false }

abbrev worker_lease : TaskExecutionLease
worker_lease = record {
  workspace_id = "acme";
  task_id = 1;
  owner_id = "s";
  fence = 1;
  lease_until = 30_000_022;
  acquired_at = 20;
  renewed_at = 20;
  released_at = none;
}

abbrev claimed_task : Task
claimed_task = record created_task {
  status = "claimed";
  assigned_session = some "s";
  claimed_at = some 24;
  attempts = 1;
  execution_fence = 1;
  next_attempt_at = 24;
}

abbrev claimed_event : EventEnvelope String
claimed_event =
    stored_event 2 "task.claimed"
      (record { id = "s"; kind = "session"; name = ""; workspace_id = "acme" })
      (some (record { id = "s"; kind = "session"; workspace_id = "acme" })) ""
      (task_delta "status" "claimed" ∷ task_delta "assigned_session" "s" ∷ [])

abbrev claimed_result : TaskClaimResult String
claimed_result = record {
  task = claimed_task;
  lease = worker_lease;
  event = claimed_event;
  takeover = false;
}

abbrev claimed_db : Database String (Unit {0})
claimed_db = record created_db {
  tasks = claimed_task ∷ [];
  leases = write_lease no_leases "acme" 1 worker_lease;
  sessions =
      write created_db.sessions "acme" "s"
        (record worker { status = "busy"; current_task_id = some 1; last_heartbeat = 25 });
  events = record {
    events = created_event ∷ claimed_event ∷ [];
    records = no_records;
    evidence = tt;
  };
}

claim_run :
    claim_next plain_calls round_at 20 created_db claim_input ≡ ok (some claimed_result, claimed_db)
unfolding claim_next claim_rounds claim_task select_claimable_task is_claimable earliest next_fence
    active_lease read_task_lease bounded_task_lease_ttl is_positive ltb_ℤ lease_end update_task
    read_task find_task new_task_event new_event append_event append_tx append_normalized
    insert_event request_hash normalize normalize_actor validate_entity_ref normalize_delta
    is_event_type matches_from clean_strings trim show_nat write update_where lower_trim
claim_run = refl

claim_next-IsRaised_example : IsRaised plain_calls created_db claimed_db "acme" "s" claimed_result
unfolding trim
claim_next-IsRaised_example =
    claim_next-IsRaised plain_calls round_at 20 created_db claimed_db claim_input claimed_result
      claim_run

retry_delay-closed_example :
    retry_delay 4 none ≡ min (100_000_000 * 2 ^ (4 - 1)) max_task_retry_backoff
retry_delay-closed_example = retry_delay-closed 4
