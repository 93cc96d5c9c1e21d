-- ===== src/Projection/Rebuild.antt =====
-- `Runner.Rebuild` (internal/projection/runtime.go): the view and the checkpoint are reset in one
-- transaction, and batches follow under the lease of the reset. The loop has no bound in the code:
-- it is recursion on fuel here, and `none` is fuel that ran out. The duration is left out.
pub mod Past
pub mod Order
pub mod Progress
pub mod Replay
use fornix.Base.{
  ℕ, zero, suc, ◌+◌, String, trim, is_empty, not, Bool, true, false, Option, none, some, List,
  Result, ok, err, ◌>>=◌, ◌>>◌, guard,
}
use fornix.Lease.{ConsumerLease, Clock, acquire_consumer_lease, validate_consumer_lease}
use fornix.Event.Types.{EventEnvelope}
use fornix.Projection.Types.{JsonValue}
use fornix.Projection.Task.{reset}
use fornix.Projection.Runner.{
  RunError, lease_error, workspace_required, lift_lease, lift_projection, Runner, Store,
  BatchResult, ensure_checkpoint, reset_checkpoint, run_batch_with_lease,
}

pub record RebuildResult : Type 0 where
  pub workspace_id : String
  pub batches : ℕ
  pub events_read : ℕ
  pub events_applied : ℕ
  pub events_duplicate : ℕ
  pub checkpoint : ℕ
  pub lease_fence : ℕ

abbrev pub add_batch : RebuildResult → BatchResult → RebuildResult
add_batch r b = record r {
  batches = r.batches + 1;
  events_read = r.events_read + b.events_read;
  events_applied = r.events_applied + b.events_applied;
  events_duplicate = r.events_duplicate + b.events_duplicate;
  checkpoint = b.checkpoint_after;
}

-- The transaction of the reset.
unfoldable pub reset_view : Runner → Store → ℕ → ConsumerLease → String → Result RunError Store
reset_view runner store now lease workspace_id = do
  _ ← lift_lease (validate_consumer_lease store.leases now lease)
  (_, ensured) ← ensure_checkpoint store.checkpoints workspace_id runner.consumer_id
  view ← lift_projection (reset store.view workspace_id)
  checkpoints ← reset_checkpoint ensured workspace_id runner.consumer_id
  ok (record store { checkpoints = checkpoints; view = view })

module _ {Raw : Type 0} (events : String → List (EventEnvelope Raw))
    (parse : Raw → Option JsonValue) (hash : String → String → String → String → String) where
  -- The loop of batches. `clocks fuel` is the clock of the batch that runs with that fuel.
  unfoldable pub rebuild_loop :
      ℕ
      → Runner
      → (ℕ → Clock)
      → ConsumerLease
      → RebuildResult
      → Store
      → Option (Result RunError RebuildResult × Store)
  rebuild_loop zero runner clocks lease r store = none
  rebuild_loop (suc fuel) runner clocks lease r store =
      elim (run_batch_with_lease events parse hash runner store (clocks fuel) lease) [
        | err e ↦ some (err e, store)
        | ok (b, store') ↦ elim b.has_more [
          | true ↦ rebuild_loop fuel runner clocks lease (add_batch r b) store'
          | false ↦ some (ok (add_batch r b), store')
        ]
      ]

  abbrev pub begun : String → ConsumerLease → RebuildResult
  begun workspace_id lease = record {
    workspace_id = workspace_id;
    batches = 0;
    events_read = 0;
    events_applied = 0;
    events_duplicate = 0;
    checkpoint = 0;
    lease_fence = lease.fence;
  }

  -- The part behind the acquisition of the lease, which has its own transaction.
  unfoldable pub rebuild_with_lease :
      ℕ
      → Runner
      → (ℕ → Clock)
      → ℕ
      → ConsumerLease
      → String
      → Store
      → Option (Result RunError RebuildResult × Store)
  rebuild_with_lease fuel runner clocks now lease workspace_id store =
      elim (reset_view runner store now lease workspace_id) [
        | err e ↦ some (err e, store)
        | ok store' ↦ rebuild_loop fuel runner clocks lease (begun workspace_id lease) store'
      ]

  unfoldable pub rebuild :
      ℕ
      → Runner
      → (ℕ → Clock)
      → Clock
      → ℕ
      → String
      → Store
      → Option (Result RunError RebuildResult × Store)
  rebuild fuel runner clocks acquire_clock now workspace_id store =
      elim (is_empty (trim workspace_id)) [
        | true ↦ some (err workspace_required, store)
        | false ↦
            elim (acquire_consumer_lease store.leases acquire_clock (trim workspace_id)
              runner.consumer_id runner.owner_id runner.lease_ttl) [
                | err e ↦ some (err (lease_error e), store)
                | ok (acquired, leases) ↦
                    rebuild_with_lease fuel runner clocks now acquired.lease (trim workspace_id)
                      (record store { leases = leases })
              ]
      ]
