-- ===== src/Projection/Tests/Rebuild.antt =====
-- A rebuild of two events, in two batches.
use fornix.Base.{
  ◌≡◌, refl, trim, none, some, Result, ok, write, update_where, arith, ltb_ℤ, is_positive,
  if◌then◌else◌, str_eq,
}
use fornix.Lease.{
  read_consumer_lease, validate_consumer_lease, validate_consumer_lease_identity, is_active,
}
use fornix.Projection.Task.{
  TaskTable, task_event_status, decode_status, status_delta, apply_delta, task_delta_state,
  assigned_to, read_task_state, next_state, is_past, apply_fresh, apply_owned, apply_status, apply,
  reset,
}
use fornix.Projection.Task.Replay.{apply_all}
use fornix.Projection.Runner.{
  RunError, Store, bounded_batch_size, validate_lease, ensure_checkpoint, reset_checkpoint,
  read_after, move_checkpoint, advance_checkpoint_at, advance_checkpoint_with_lease, run_locked,
  run_batch_with_lease,
}
use fornix.Projection.Rebuild.{RebuildResult, reset_view, rebuild_loop, rebuild_with_lease, rebuild}
use fornix.Projection.Rebuild.Progress.{rebuild-ends}
use fornix.Projection.Rebuild.Replay.{rebuild_with_lease-replay}
use fornix.Projection.Tests.{
  as_text, status_hash, no_rows, created_state, claimed_state, token, leases, runner, ticking,
  stored, no_checkpoints, fresh_store,
}

abbrev reset_rows : TaskTable
reset_rows w c = if str_eq w "acme" then none else no_rows w c

abbrev rebuilt : RebuildResult
rebuilt = record {
  workspace_id = "acme";
  batches = 2;
  events_read = 2;
  events_applied = 2;
  events_duplicate = 0;
  checkpoint = 4;
  lease_fence = 1;
}

abbrev rebuilt_store : Store
rebuilt_store = record {
  leases = leases;
  checkpoints =
      write
        (write (write (write no_checkpoints "acme" "tasks" 0) "acme" "tasks" 0) "acme" "tasks" 1)
        "acme" "tasks" 4;
  view = write (write reset_rows "acme" "t1" created_state) "acme" "t1" claimed_state;
}

rebuild_run :
    rebuild_with_lease stored as_text status_hash 3 runner
      (λ k. ticking 5)
      5
      token
      "acme"
      fresh_store
    ≡ some (ok rebuilt, rebuilt_store)
unfolding rebuild_with_lease rebuild_loop reset_view reset reset_checkpoint run_batch_with_lease
    run_locked validate_lease validate_consumer_lease validate_consumer_lease_identity
    read_consumer_lease is_active ensure_checkpoint read_after bounded_batch_size is_positive ltb_ℤ
    advance_checkpoint_with_lease advance_checkpoint_at move_checkpoint update_where apply
    apply_status apply_owned apply_fresh task_event_status task_delta_state apply_delta status_delta
    decode_status assigned_to read_task_state next_state is_past trim write
rebuild_run = refl

rebuild_with_lease-replay_example :
    (view : TaskTable) × (reset fresh_store.view "acme" ≡ ok view)
    × (apply_all as_text status_hash view (stored (trim "acme")) ≡ ok rebuilt_store.view)
rebuild_with_lease-replay_example =
    rebuild_with_lease-replay stored as_text status_hash 3 runner (λ k. ticking 5) 5 token "acme"
      rebuilt fresh_store rebuilt_store refl refl ((omega arith, tt), (tt, tt))
      (omega arith, (omega arith, tt)) rebuild_run

rebuild-ends_example :
    (x : Result RunError RebuildResult × Store) × (rebuild stored as_text status_hash 3 runner
        (λ k. ticking 5)
        (ticking 6)
        5
        "acme"
        fresh_store
      ≡ some x)
rebuild-ends_example =
    rebuild-ends stored as_text status_hash 3 runner (λ k. ticking 5) (ticking 6) 5 "acme"
      fresh_store (λ w. omega arith)
