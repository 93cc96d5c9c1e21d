-- ===== src/Projection/Runner/Fenced.antt =====
-- A runner whose lease was taken over writes nothing.
use fornix.Base.{◌≡◌, ◌≢◌, ◌≤◌, sym, subst, String, trim, true, Option, List, ok, ℤ}
use fornix.Lease.{ConsumerLease, ConsumerLeaseResult, LeaseTable, Clock, acquire_consumer_lease}
use fornix.Lease.Fence.{fence_of}
use fornix.Lease.Holder.{lease_ws, lease_cs}
use fornix.Lease.History.{LeaseOp, run, IsRefused, superseded_forever}
use fornix.Event.Types.{EventEnvelope}
use fornix.Projection.Types.{JsonValue}
use fornix.Projection.Runner.{Runner, Store, BatchResult, run_batch_with_lease}
use fornix.Projection.Runner.Batch.{run_batch_with_lease-IsBatch}

module _ {Raw : Type 0} (events : String → List (EventEnvelope Raw))
    (parse : Raw → Option JsonValue) (hash : String → String → String → String → String) where
  refused-run_batch :
      (runner : Runner) (store store' : Store) (clock : Clock) (lease : ConsumerLease)
      (b : BatchResult)
      → IsRefused store.leases lease
      → run_batch_with_lease events parse hash runner store clock lease ≢ ok (b, store')
  refused-run_batch runner store store' clock lease b r h =
      let x = run_batch_with_lease-IsBatch events parse hash runner store store' clock lease b h in
      r.no_validation (clock 0) x.current x.validated

  -- Once another acquisition of a consumer's lease has been granted, and whatever lease operations
  -- follow, a batch under a token issued before commits nothing: it returns no result and no store,
  -- for any runner, any clock, any view and any checkpoints.
  pub superseded-run_batch :
      (t t' : LeaseTable) (acquire_clock : Clock) (w c o : String) (ttl : ℤ)
      (r : ConsumerLeaseResult) (old : ConsumerLease) (later : List (Clock × LeaseOp))
      (runner : Runner) (store store' : Store) (clock : Clock) (b : BatchResult)
      → acquire_consumer_lease t acquire_clock w c o ttl ≡ ok (r, t')
      → r.acquired ≡ true
      → lease_ws old ≡ trim w
      → lease_cs old ≡ trim c
      → old.fence ≤ fence_of t (trim w) (trim c)
      → store.leases ≡ run t' later
      → run_batch_with_lease events parse hash runner store clock old ≢ ok (b, store')
  superseded-run_batch t t' acquire_clock w c o ttl r old later runner store store' clock b e new kw
        kc h k =
      refused-run_batch runner store store' clock old b (
        subst (λ x. IsRefused x old) (sym k)
          (superseded_forever t t' acquire_clock w c o ttl r old later e new kw kc h))
