-- ===== src/Projection/Runner.antt =====
-- The runner of a projection: `runBatchWithLease`, `Rebuild` and `validateLease` of
-- internal/projection/runtime.go, and the checkpoints and the event reads of internal/store/events.go
-- and internal/store/leases.go that they call. The subscriber is the task projection. A batch is one
-- transaction, so an error hands back no store. The events of a workspace are a list in the order of
-- their sequences, as `ORDER BY sequence` gives them; no event is stored during a call. The hook, of
-- the tests only, is nil.
pub mod Batch
pub mod Fenced
use fornix.Base.{
  ℕ, zero, suc, ◌+◌, ◌-◌, ◌^◌, String, str_eq, trim, is_empty, Bool, true, false, not, ◌||◌, Option,
  none, some, List, [], ◌∷◌, length, take, filter, any, ltb, ◌==◌, if◌then◌else◌, Result, ok, err,
  ◌>>=◌, ◌>>◌, guard, ℤ, pos, pos_part, is_positive, Table, write, update_where,
}
use fornix.Lease.{
  LeaseError, ConsumerLease, ConsumerLeaseResult, LeaseTable, Clock,
  validate_consumer_lease_identity, validate_consumer_lease, acquire_consumer_lease,
}
use fornix.Event.Types.{EventEnvelope}
use fornix.Projection.Types.{ProjectionError, JsonValue, ApplyResult}
use fornix.Projection.Task.{TaskTable, apply, reset}

pub data RunError : Type 0 where
  lease_error : LeaseError → RunError
  projection_error : ProjectionError → RunError
  consumer_mismatch owner_mismatch fence_required : RunError
  checkpoint_key_required invalid_checkpoint checkpoint_regression workspace_required : RunError

abbrev pub lift_lease : {A : Type 0} → Result LeaseError A → Result RunError A
lift_lease (ok a) = ok a
lift_lease (err e) = err (lease_error e)

abbrev pub lift_projection : {A : Type 0} → Result ProjectionError A → Result RunError A
lift_projection (ok a) = ok a
lift_projection (err e) = err (projection_error e)

-- `Runner`, with the identity and the batch size of its subscriber.
pub record Runner : Type 0 where
  pub consumer_id : String
  pub batch_size : ℤ
  pub owner_id : String
  pub lease_ttl : ℤ

pub record Store : Type 0 where
  pub leases : LeaseTable
  pub checkpoints : Table ℕ
  pub view : TaskTable

pub record BatchResult : Type 0 where
  pub workspace_id : String
  pub events_read : ℕ
  pub events_applied : ℕ
  pub events_duplicate : ℕ
  pub checkpoint_before : ℕ
  pub checkpoint_after : ℕ
  pub lease_fence : ℕ
  pub has_more : Bool

-- What the loop over the batch has counted, and the view.
pub record Tally : Type 0 where
  pub applied : ℕ
  pub duplicate : ℕ
  pub view : TaskTable

unfoldable pub bounded_batch_size : ℤ → ℕ
bounded_batch_size size =
    if not (is_positive size) then 100 else if ltb 1000 (pos_part size) then 1000 else pos_part size

abbrev pub read_limit : ℕ → ℕ
read_limit limit = if limit == 0 then 500 else if ltb 5000 limit then 5000 else limit

abbrev pub max_sequence : ℕ
max_sequence = 2 ^ 63 - 1

unfoldable pub validate_lease : Runner → ConsumerLease → Result RunError (Unit {0})
validate_lease runner lease = do
  lift_lease (validate_consumer_lease_identity lease.workspace_id lease.consumer_id lease.owner_id)
  guard (str_eq lease.consumer_id runner.consumer_id) consumer_mismatch
  guard (str_eq lease.owner_id runner.owner_id) owner_mismatch
  guard (not (lease.fence == 0)) fence_required

abbrev pub locked_checkpoint : Table ℕ → String → String → Option ℕ → ℕ × Table ℕ
locked_checkpoint t w c none = (0, write t w c 0)
locked_checkpoint t w c (some n) = (n, t)

-- `EnsureCheckpointTx`.
unfoldable pub ensure_checkpoint : Table ℕ → String → String → Result RunError (ℕ × Table ℕ)
ensure_checkpoint t workspace_id consumer_id = do
  guard (not (is_empty (trim workspace_id) || is_empty (trim consumer_id))) checkpoint_key_required
  ok (
      locked_checkpoint t (trim workspace_id) (trim consumer_id)
        (t (trim workspace_id) (trim consumer_id)))

-- `ResetCheckpointTx`.
unfoldable pub reset_checkpoint : Table ℕ → String → String → Result RunError (Table ℕ)
reset_checkpoint t workspace_id consumer_id = ensure_checkpoint t workspace_id consumer_id >>= λ x.
    ok (write x.1 (trim workspace_id) (trim consumer_id) 0)

module _ {Raw : Type 0} (events : String → List (EventEnvelope Raw)) where
  -- `readAfter`, of a request with a workspace, a sequence and a limit.
  unfoldable pub read_after : String → ℕ → ℕ → Result RunError (List (EventEnvelope Raw))
  read_after workspace_id after limit = do
    guard (not (is_empty (trim workspace_id))) workspace_required
    ok (take (read_limit limit) (filter (λ e. ltb after e.sequence) (events (trim workspace_id))))

  -- The end of `AdvanceCheckpointAtTx`: the update counts its rows.
  abbrev updated_checkpoint : Table ℕ × Bool → Result RunError (Table ℕ)
  updated_checkpoint (t, true) = ok t
  updated_checkpoint (t, false) = err checkpoint_regression

  -- The write of a checkpoint that moves.
  unfoldable pub move_checkpoint : Table ℕ → String → String → ℕ → ℕ → Result RunError (Table ℕ)
  move_checkpoint t workspace_id consumer_id current sequence = do
    guard (any (λ e. e.sequence == sequence) (events workspace_id)) invalid_checkpoint
    updated_checkpoint (update_where t workspace_id consumer_id (λ n. n == current) (λ _. sequence))

  -- `AdvanceCheckpointAtTx`.
  unfoldable pub advance_checkpoint_at :
      Table ℕ → String → String → ℕ → ℕ → Result RunError (Table ℕ)
  advance_checkpoint_at t workspace_id consumer_id current sequence = do
    guard (not (is_empty (trim workspace_id) || is_empty (trim consumer_id)))
        checkpoint_key_required
    guard (not (ltb max_sequence current || ltb max_sequence sequence)) invalid_checkpoint
    guard (not (ltb sequence current)) checkpoint_regression
    if sequence == current
        then ok t
        else move_checkpoint t (trim workspace_id) (trim consumer_id) current sequence

  -- `AdvanceCheckpointAtTxWithLease`.
  unfoldable pub advance_checkpoint_with_lease :
      Store → ℕ → ConsumerLease → Table ℕ → ℕ → ℕ → Result RunError (Table ℕ)
  advance_checkpoint_with_lease store now lease t current sequence =
      lift_lease (validate_consumer_lease store.leases now lease) >>= λ _.
      advance_checkpoint_at t lease.workspace_id lease.consumer_id current sequence

  abbrev pub last_sequence : ℕ → List (EventEnvelope Raw) → ℕ
  last_sequence before [] = before
  last_sequence before (e ∷ es) = last_sequence e.sequence es

  abbrev count_if : Bool → ℕ → ℕ
  count_if true n = n + 1
  count_if false n = n

  -- `if len(events) > 0 { ... AdvanceCheckpointAtTxWithLease ... }`.
  abbrev pub advance_past :
      Store → ℕ → ConsumerLease → Table ℕ → ℕ → List (EventEnvelope Raw) → Result RunError (Table ℕ)
  advance_past store now lease t before [] = ok t
  advance_past store now lease t before (e ∷ es) =
      advance_checkpoint_with_lease store now lease t before (last_sequence before (e ∷ es))

  module _ (parse : Raw → Option JsonValue)
      (hash : String → String → String → String → String) where
    abbrev pub apply_batch : Tally → List (EventEnvelope Raw) → Result RunError Tally
    apply_batch s [] = ok s
    apply_batch s (e ∷ es) = lift_projection (apply parse hash s.view e) >>= λ x.
        apply_batch
          (record {
            applied = count_if x.0.applied s.applied;
            duplicate = count_if x.0.duplicate s.duplicate;
            view = x.1;
          })
          es

    -- The transaction of a batch, once the lease is checked: `clock 0` and `clock 1` are the two
    -- readings of the clock.
    unfoldable pub run_locked :
        Runner → Store → Clock → ConsumerLease → Result RunError (BatchResult × Store)
    run_locked runner store clock lease = do
      _ ← lift_lease (validate_consumer_lease store.leases (clock 0) lease)
      (before, t) ← ensure_checkpoint store.checkpoints (trim lease.workspace_id) runner.consumer_id
      found ← read_after (trim lease.workspace_id) before (bounded_batch_size runner.batch_size + 1)
      tally ←
          apply_batch (record { applied = 0; duplicate = 0; view = store.view })
            (take (bounded_batch_size runner.batch_size) found)
      moved ←
          advance_past store (clock 1) lease t before
            (take (bounded_batch_size runner.batch_size) found)
      ok (
        record {
          workspace_id = trim lease.workspace_id;
          events_read = length (take (bounded_batch_size runner.batch_size) found);
          events_applied = tally.applied;
          events_duplicate = tally.duplicate;
          checkpoint_before = before;
          checkpoint_after =
              last_sequence before (take (bounded_batch_size runner.batch_size) found);
          lease_fence = lease.fence;
          has_more = ltb (bounded_batch_size runner.batch_size) (length found);
        },
        record { leases = store.leases; checkpoints = moved; view = tally.view },
      )

    -- `runBatchWithLease`.
    unfoldable pub run_batch_with_lease :
        Runner → Store → Clock → ConsumerLease → Result RunError (BatchResult × Store)
    run_batch_with_lease runner store clock lease = do
      validate_lease runner lease
      run_locked runner store clock lease

    -- The commit or the rollback of a batch.
    abbrev pub commit :
        Store → Result RunError (BatchResult × Store) → Result RunError BatchResult × Store
    commit store (ok (b, store')) = (ok b, store')
    commit store (err e) = (err e, store)

    -- `RunBatch`: the lease is acquired in its own transaction, before the batch.
    unfoldable pub run_batch :
        Runner → Store → Clock → Clock → String → Result RunError BatchResult × Store
    run_batch runner store acquire_clock clock workspace_id =
        elim (acquire_consumer_lease store.leases acquire_clock workspace_id runner.consumer_id
          runner.owner_id runner.lease_ttl) [
            | err e ↦ (err (lease_error e), store)
            | ok (acquired, leases) ↦
                commit (record store { leases = leases })
                  (run_batch_with_lease runner (record store { leases = leases }) clock
                    acquired.lease)
          ]
