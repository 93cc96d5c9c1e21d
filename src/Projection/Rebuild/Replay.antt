-- ===== src/Projection/Rebuild/Replay.antt =====
-- A rebuild is a replay: what its batches leave is what the whole history makes of the view.
use fornix.Projection.Rebuild.Order.{
  filter_same, filter_both, IsOrdered-filter, take-take, past-last_positive,
}
use fornix.Base.{
  some-injective, ℕ, zero, suc, ◌+◌, ◌≤◌, ◌<◌, ◌≡◌, sym, ap, ◌∙◌, subst, inl, inr, String, trim,
  false, Option, some, List, [], ◌∷◌, ◌++◌, length, take, drop, take-append-drop, take_all, filter,
  All, Bool-cases, Result, Result-cases, ok, err, >>=-eq-ok, ok-injective, err-not-ok, arith,
  write_self,
}
use fornix.Lease.{ConsumerLease, Clock, validate_consumer_lease}
use fornix.Event.Types.{EventEnvelope}
use fornix.Event.Append.{IsOrdered}
use fornix.Projection.Types.{JsonValue}
use fornix.Projection.Task.{TaskTable, apply, reset}
use fornix.Projection.Task.Replay.{apply_all}
use fornix.Projection.Runner.{
  Runner, Store, BatchResult, bounded_batch_size, read_limit, last_sequence, run_batch_with_lease,
  ensure_checkpoint, reset_checkpoint, lift_lease, lift_projection,
}
use fornix.Projection.Runner.Batch.{
  batch_events, row_or_zero, lift_projection-ok, run_batch_with_lease-IsBatch,
}
use fornix.Projection.Rebuild.{
  RebuildResult, add_batch, begun, reset_view, rebuild_loop, rebuild_with_lease,
}
use fornix.Projection.Rebuild.Past.{past}
use fornix.Projection.Rebuild.Progress.{batch-start, size-positive, limit_exact}

module _ {Raw : Type 0} where
  module _ (parse : Raw → Option JsonValue)
      (hash : String → String → String → String → String) where
    apply_all-append :
        (xs ys : List (EventEnvelope Raw)) (t t1 t2 : TaskTable)
        → apply_all parse hash t xs ≡ ok t1
        → apply_all parse hash t1 ys ≡ ok t2
        → apply_all parse hash t (xs ++ ys) ≡ ok t2
    apply_all-append [] ys t t1 t2 h k =
        subst (λ x. apply_all parse hash x ys ≡ ok t2) (sym (ok-injective h)) k
    apply_all-append (e ∷ xs) ys t t1 t2 h k =
        let ((r, t0), h1, h2) = >>=-eq-ok (apply parse hash t e) _ h in
        rw h1 (apply_all-append xs ys t0 t1 t2 h2 k)

-- A loop that ended with an error gave no result.
failed-no-result :
    {E A S C : Type 0} (e : E) (a : A) (s s' : S)
    → Path (Option (Result E A × S)) (some (err e, s)) (some (ok a, s'))
    → C
failed-no-result e a s s' h = err-not-ok (ap (λ x. x.0) (some-injective h))

module _ {Raw : Type 0} (events : String → List (EventEnvelope Raw))
    (parse : Raw → Option JsonValue) (hash : String → String → String → String → String) where
  abbrev pub checkpoint_of : ConsumerLease → Store → ℕ
  checkpoint_of lease store =
      row_or_zero (store.checkpoints (trim lease.workspace_id) (trim lease.consumer_id))

  -- The events that a store has not seen.
  abbrev pub unseen : ConsumerLease → Store → List (EventEnvelope Raw)
  unseen lease store = filter (past (checkpoint_of lease store)) (events (trim lease.workspace_id))

  -- One batch takes the first of the unseen events, and leaves the others.
  record IsChunk (lease : ConsumerLease) (size : ℕ) (store store' : Store) (b : BatchResult)
      : Type 0 where
    applied : apply_all parse hash store.view (take size (unseen lease store)) ≡ ok store'.view
    others : unseen lease store' ≡ drop size (unseen lease store)
    ends : b.has_more ≡ false → length (unseen lease store) ≤ size

  batch-IsChunk :
      (runner : Runner) (store store' : Store) (clock : Clock) (lease : ConsumerLease)
      (b : BatchResult)
      → IsOrdered (events (trim lease.workspace_id))
      → run_batch_with_lease events parse hash runner store clock lease ≡ ok (b, store')
      → IsChunk lease (bounded_batch_size runner.batch_size) store store' b
  batch-IsChunk runner store store' clock lease b o h =
      let ws = trim lease.workspace_id in
      let size = bounded_batch_size runner.batch_size in
      let before = b.checkpoint_before in
      let left = filter (past before) (events ws) in
      let (start, _, few) = batch-start events parse hash runner store store' clock lease b h in
      let i = run_batch_with_lease-IsBatch events parse hash runner store store' clock lease b h in
      let start' : before ≡ checkpoint_of lease store =
        start ∙ ap (λ c. row_or_zero (store.checkpoints ws (trim c))) (sym i.of_consumer) in
      let first : batch_events events parse hash runner ws before ≡ take size left =
        take-take size (read_limit (size + 1)) left
          (omega (arith, limit_exact runner.batch_size)) in
      let last = last_sequence events before (take size left) in
      let after : checkpoint_of lease store' ≡ last =
        ap row_or_zero i.moved ∙ i.ends_at_last ∙ ap (last_sequence events before) first in
      let up : before ≤ last =
        omega (arith, i.forward, i.ends_at_last ∙ ap (last_sequence events before) first) in
      let rest : filter (past last) (events ws) ≡ drop size left =
        sym (filter_both before last (events ws) up)
        ∙ past-last_positive events size before left (size-positive runner.batch_size)
            (IsOrdered-filter (past before) (events ws) o) in
      record {
        applied =
            subst
              (λ n.
                apply_all parse hash store.view (take size (filter (past n) (events ws)))
                ≡ ok store'.view)
              start'
              (subst (λ es. apply_all parse hash store.view es ≡ ok store'.view) first
                i.events_in_order);
        others =
            ap (λ n. filter (past n) (events ws)) after
            ∙ rest
            ∙ ap (λ n. drop size (filter (past n) (events ws))) start';
        ends = λ done. subst (λ n. length (filter (past n) (events ws)) ≤ size) start' (few done);
      }

  -- The loop of a rebuild that returns a result applied every event of the workspace behind the
  -- checkpoint, each once and in the order of their sequences, where the history is in that order.
  pub rebuild_loop-replay :
      (fuel : ℕ) (runner : Runner) (clocks : ℕ → Clock) (lease : ConsumerLease)
      (r r' : RebuildResult) (store store' : Store)
      → IsOrdered (events (trim lease.workspace_id))
      → rebuild_loop events parse hash fuel runner clocks lease r store ≡ some (ok r', store')
      → apply_all parse hash store.view (unseen lease store) ≡ ok store'.view
  unfolding rebuild_loop
  rebuild_loop-replay zero runner clocks lease r r' store store' o h = absurd (cc h)
  rebuild_loop-replay (suc fuel) runner clocks lease r r' store store' o h =
      let size = bounded_batch_size runner.batch_size in
      let left = unseen lease store in
      elim (Result-cases
        (run_batch_with_lease events parse hash runner store (clocks fuel) lease)) [
          | inl (e, p) ↦ failed-no-result e r' store store' (rw (p, rebuild_loop) at h)
          | inr ((b, store1), p) ↦
              let chunk = batch-IsChunk runner store store1 (clocks fuel) lease b o p in
              elim (Bool-cases b.has_more) [
                | inr q ↦
                    let same : store1 ≡ store' =
                      ap (λ x. x.1) (some-injective (rw (p, q, rebuild_loop) at h)) in
                    let whole : take size left ≡ left = take_all size left (chunk.ends q) in
                    subst (λ s. apply_all parse hash store.view left ≡ ok s.view) same
                      (subst (λ es. apply_all parse hash store.view es ≡ ok store1.view) whole
                        chunk.applied)
                | inl q ↦
                    let rest =
                      rebuild_loop-replay fuel runner clocks lease (add_batch r b) r' store1 store'
                        o (rw (p, q, rebuild_loop) at h) in
                    subst (λ es. apply_all parse hash store.view es ≡ ok store'.view)
                      (take-append-drop size left)
                      (apply_all-append parse hash (take size left) (drop size left) store.view
                        store1.view store'.view chunk.applied
                        (subst (λ es. apply_all parse hash store1.view es ≡ ok store'.view)
                          chunk.others rest))
              ]
        ]

  -- The store of a reset: the view without the workspace's tasks, and the checkpoint at zero.
  reset_view-IsReset :
      (runner : Runner) (store store1 : Store) (now : ℕ) (lease : ConsumerLease) (w : String)
      → reset_view runner store now lease w ≡ ok store1
      → (reset store.view w ≡ ok store1.view)
        × (store1.checkpoints (trim w) (trim runner.consumer_id) ≡ some 0)
  unfolding reset_view reset_checkpoint
  reset_view-IsReset runner store store1 now lease w h =
      let (_, _, h1) =
        >>=-eq-ok (lift_lease (validate_consumer_lease store.leases now lease)) _ h in
      let ((n, ensured), _, h2) =
        >>=-eq-ok (ensure_checkpoint store.checkpoints w runner.consumer_id) _ h1 in
      let (view, v, h3) = >>=-eq-ok (lift_projection (reset store.view w)) _ h2 in
      let (t, k, h4) = >>=-eq-ok (reset_checkpoint ensured w runner.consumer_id) _ h3 in
      let (x, _, k1) = >>=-eq-ok (ensure_checkpoint ensured w runner.consumer_id) _ k in
      let whole = ok-injective h4 in
      (
        lift_projection-ok (reset store.view w) v ∙ ap (λ s. ok s.view) whole,
        ap (λ s. s.checkpoints (trim w) (trim runner.consumer_id)) (sym whole)
            ∙ ap (λ y. y (trim w) (trim runner.consumer_id)) (sym (ok-injective k1))
            ∙ write_self x.1 (trim w) (trim runner.consumer_id) 0,
      )

  -- A rebuild is a replay: where the history of the workspace is in the strict order of positive
  -- sequences, and the lease is of the workspace and the runner's consumer, a rebuild that returns a
  -- result leaves the view that the whole history makes of the view without the workspace's tasks.
  pub rebuild_with_lease-replay :
      (fuel : ℕ) (runner : Runner) (clocks : ℕ → Clock) (now : ℕ) (lease : ConsumerLease)
      (w : String) (r : RebuildResult) (store store' : Store)
      → trim lease.workspace_id ≡ trim w
      → lease.consumer_id ≡ runner.consumer_id
      → IsOrdered (events (trim w))
      → All (λ (e : EventEnvelope Raw). 0 < e.sequence) (events (trim w))
      → rebuild_with_lease events parse hash fuel runner clocks now lease w store
        ≡ some (ok r, store')
      → (view : TaskTable) × (reset store.view w ≡ ok view)
        × (apply_all parse hash view (events (trim w)) ≡ ok store'.view)
  unfolding rebuild_with_lease
  rebuild_with_lease-replay fuel runner clocks now lease w r store store' here consumer o positive
        h =
      elim (Result-cases (reset_view runner store now lease w)) [
        | inl (e, p) ↦ failed-no-result e r store store' (rw (p, rebuild_with_lease) at h)
        | inr (store1, p) ↦
            let (v, zeroed) = reset_view-IsReset runner store store1 now lease w p in
            let o' : IsOrdered (events (trim lease.workspace_id)) =
              subst (λ x. IsOrdered (events x)) (sym here) o in
            let done =
              rebuild_loop-replay fuel runner clocks lease (begun events parse hash w lease) r
                store1 store' o' (rw (p, rebuild_with_lease) at h) in
            let at_zero : checkpoint_of lease store1 ≡ 0 =
              ap (λ x. row_or_zero (store1.checkpoints x (trim lease.consumer_id))) here
              ∙ ap (λ x. row_or_zero (store1.checkpoints (trim w) (trim x))) consumer
              ∙ ap row_or_zero zeroed in
            let everything : unseen lease store1 ≡ events (trim w) =
              ap (λ n. filter (past n) (events (trim lease.workspace_id))) at_zero
              ∙ ap (λ x. filter (past 0) (events x)) here
              ∙ filter_same 0 (events (trim w)) positive in
            (
              store1.view,
              v,
              subst (λ es. apply_all parse hash store1.view es ≡ ok store'.view) everything done,
            )
      ]
