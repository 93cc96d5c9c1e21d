-- ===== src/Projection/Rebuild/Progress.antt =====
-- Every batch of a rebuild that asks for another one leaves fewer events: the loop ends.
use fornix.Projection.Rebuild.Past.{
  past, at, filter-drop, any-take, any-filter, All-filter, All-take, length-take_positive,
  last-past,
}
use fornix.Base.{
  ℕ, zero, suc, ◌+◌, ◌≤◌, ◌<◌, ◌≡◌, ◌≢◌, sym, ap, ◌∙◌, subst, inl, inr, String, trim, trim_idem,
  is_empty, not, Bool, true, false, Option, none, some, Option-cases, List, [], ◌∷◌, length, take,
  filter, length-take, min, ℤ, is_positive, any, ltb, Bool-cases, Result, Result-cases, ok,
  >>=-eq-ok, guard-eq-ok, ok-injective, arith,
}
use fornix.Lease.{ConsumerLease, Clock, validate_consumer_lease, acquire_consumer_lease}
use fornix.Event.Types.{EventEnvelope}
use fornix.Projection.Types.{JsonValue}
use fornix.Projection.Runner.{
  RunError, Runner, Store, BatchResult, bounded_batch_size, read_limit, validate_lease,
  ensure_checkpoint, read_after, last_sequence, apply_batch, advance_past, run_locked,
  run_batch_with_lease, lift_lease, workspace_required,
}
use fornix.Projection.Runner.Batch.{
  batch_events, row_or_zero, ensure-before, run_batch_with_lease-IsBatch,
}
use fornix.Projection.Rebuild.{
  RebuildResult, add_batch, begun, reset_view, rebuild_loop, rebuild_with_lease, rebuild,
}

found-some :
    {Raw : Type 0} (size limit : ℕ) (left found : List (EventEnvelope Raw))
    → take limit left ≡ found
    → ltb size (length found) ≡ true
    → 0 < length left
found-some size limit [] found e more =
    let none_found : length found ≡ 0 = ap length (sym e) ∙ length-take limit [] ∙ omega arith in
    absurd (ground (arith, none_found, more))
found-some size limit (x ∷ xs) found e more = omega arith

found-few :
    {Raw : Type 0} (size limit : ℕ) (left found : List (EventEnvelope Raw))
    → take limit left ≡ found
    → ltb size (length found) ≡ false
    → limit ≡ size + 1
    → length left ≤ size
found-few size limit left found e few exact =
    let l : min limit (length left) ≡ length found = sym (length-take limit left) ∙ ap length e in
    let f : length found ≤ size = ground (arith, few) in omega (arith, l, f, exact)

pub limit_exact : (n : ℤ) → read_limit (bounded_batch_size n + 1) ≡ bounded_batch_size n + 1
unfolding bounded_batch_size is_positive
limit_exact n = ground arith

pub size-positive : (n : ℤ) → 0 < bounded_batch_size n
unfolding bounded_batch_size is_positive
size-positive n = ground arith

limit-positive : (n : ℕ) → 0 < read_limit (n + 1)
limit-positive n = ground arith

module _ {Raw : Type 0} (events : String → List (EventEnvelope Raw))
    (parse : Raw → Option JsonValue) (hash : String → String → String → String → String) where
  -- The events of a lease's workspace behind its checkpoint in a store.
  abbrev remaining : ConsumerLease → Store → ℕ
  remaining lease store = length (
      filter
        (past (row_or_zero (store.checkpoints (trim lease.workspace_id) (trim lease.consumer_id))))
        (events (trim lease.workspace_id)))

  -- Where a batch starts, and that it has events if it asks for another batch.
  pub batch-start :
      (runner : Runner) (store store' : Store) (clock : Clock) (lease : ConsumerLease)
      (b : BatchResult)
      → run_batch_with_lease events parse hash runner store clock lease ≡ ok (b, store')
      → (b.checkpoint_before
          ≡ row_or_zero (store.checkpoints (trim lease.workspace_id) (trim runner.consumer_id)))
        × (b.has_more ≡ true
            → 0 < length (filter (past b.checkpoint_before) (events (trim lease.workspace_id))))
        × (b.has_more ≡ false
            → length (filter (past b.checkpoint_before) (events (trim lease.workspace_id)))
              ≤ bounded_batch_size runner.batch_size)
  unfolding run_batch_with_lease run_locked read_after
  batch-start runner store store' clock lease b h =
      let ws = trim lease.workspace_id in
      let size = bounded_batch_size runner.batch_size in
      let (_, v, h1) = >>=-eq-ok (validate_lease runner lease) _ h in
      let (current, l, h2) =
        >>=-eq-ok (lift_lease (validate_consumer_lease store.leases (clock 0) lease)) _ h1 in
      let ((before, t), k, h3) =
        >>=-eq-ok (ensure_checkpoint store.checkpoints ws runner.consumer_id) _ h2 in
      let (found, f, h4) = >>=-eq-ok (read_after events ws before (size + 1)) _ h3 in
      let (tally, a, h5) = >>=-eq-ok (apply_batch events parse hash _ (take size found)) _ h4 in
      let (moved, m, h6) =
        >>=-eq-ok (advance_past events store (clock 1) lease t before (take size found)) _ h5 in
      let (_, f1) = guard-eq-ok (not (is_empty (trim ws))) workspace_required _ f in
      let same : trim ws ≡ ws = trim_idem lease.workspace_id in
      let whole = ok-injective h6 in
      let e_before : before ≡ b.checkpoint_before = ap (λ x. x.0.checkpoint_before) whole in
      let e_more : ltb size (length found) ≡ b.has_more = ap (λ x. x.0.has_more) whole in
      let e_found : take (read_limit (size + 1)) (filter (past before) (events ws)) ≡ found =
        subst (λ w. take (read_limit (size + 1)) (filter (past before) (events w)) ≡ found) same
          (ok-injective f1) in
      (
        sym e_before
            ∙ ensure-before store.checkpoints t ws runner.consumer_id before k
            ∙ ap (λ w. row_or_zero (store.checkpoints w (trim runner.consumer_id))) same,
        λ more.
            subst (λ n. 0 < length (filter (past n) (events ws))) e_before
              (found-some size (read_limit (size + 1)) (filter (past before) (events ws)) found
                e_found (e_more ∙ more)),
        λ done.
            subst (λ n. length (filter (past n) (events ws)) ≤ size) e_before
              (found-few size (read_limit (size + 1)) (filter (past before) (events ws)) found
                e_found (e_more ∙ done) (limit_exact runner.batch_size)),
      )

  -- A batch that asks for another one leaves fewer events.
  batch-progress :
      (runner : Runner) (store store' : Store) (clock : Clock) (lease : ConsumerLease)
      (b : BatchResult)
      → run_batch_with_lease events parse hash runner store clock lease ≡ ok (b, store')
      → b.has_more ≡ true
      → remaining lease store' < remaining lease store
  batch-progress runner store store' clock lease b h more =
      let ws = trim lease.workspace_id in
      let cs = trim lease.consumer_id in
      let (start, some_left, _) = batch-start runner store store' clock lease b h in
      let i = run_batch_with_lease-IsBatch events parse hash runner store store' clock lease b h in
      let start' : b.checkpoint_before ≡ row_or_zero (store.checkpoints ws cs) =
        start ∙ ap (λ c. row_or_zero (store.checkpoints ws (trim c))) (sym i.of_consumer) in
      let batch = batch_events events parse hash runner ws b.checkpoint_before in
      let left = filter (past b.checkpoint_before) (events ws) in
      let size = bounded_batch_size runner.batch_size in
      let chunk = take (read_limit (size + 1)) left in
      let all =
        All-take (λ e. past b.checkpoint_before e ≡ true) size chunk
          (All-take (λ e. past b.checkpoint_before e ≡ true) (read_limit (size + 1)) left
            (All-filter b.checkpoint_before (events ws))) in
      let nonempty : 0 < length batch =
        length-take_positive size chunk (size-positive runner.batch_size) (
          length-take_positive (read_limit (size + 1)) left (limit-positive size)
            (some_left more)) in
      let (up, there) =
        last-past events b.checkpoint_before b.checkpoint_before batch nonempty all in
      let last = last_sequence events b.checkpoint_before batch in
      let at_last : any (at last) (events ws) ≡ true =
        any-filter (at last) (past b.checkpoint_before) (events ws)
          (any-take (at last) (read_limit (size + 1)) left (any-take (at last) size chunk there)) in
      let drop = filter-drop (events ws) b.checkpoint_before last up at_last in
      let e : row_or_zero (store'.checkpoints ws cs) ≡ last =
        ap row_or_zero i.moved ∙ i.ends_at_last in
      subst (λ n. length (filter (past n) (events ws)) < remaining lease store) (sym e)
        (subst (λ n. length (filter (past last) (events ws)) < length (filter (past n) (events ws)))
          start' drop)

  -- Enough fuel: one more than the events that are left.
  rebuild_loop-ends :
      (fuel : ℕ) (runner : Runner) (clocks : ℕ → Clock) (lease : ConsumerLease) (r : RebuildResult)
      (store : Store)
      → remaining lease store < fuel
      → rebuild_loop events parse hash fuel runner clocks lease r store ≢ none
  unfolding rebuild_loop
  rebuild_loop-ends zero runner clocks lease r store h = λ k. omega (arith, h)
  rebuild_loop-ends (suc fuel) runner clocks lease r store h = λ k.
      elim (Result-cases
        (run_batch_with_lease events parse hash runner store (clocks fuel) lease)) [
          | inl (e, p) ↦ cc (rw (p, rebuild_loop) at k)
          | inr ((b, store'), p) ↦ elim (Bool-cases b.has_more) [
            | inr q ↦ cc (rw (p, q, rebuild_loop) at k)
            | inl q ↦
                let fewer = batch-progress runner store store' (clocks fuel) lease b p q in
                rebuild_loop-ends fuel runner clocks lease (add_batch r b) store'
                  (omega (arith, h, fewer)) (rw (p, q, rebuild_loop) at k)
          ]
        ]

  length-filter :
      (p : EventEnvelope Raw → Bool) (es : List (EventEnvelope Raw))
      → length (filter p es) ≤ length es
  length-filter p [] = omega arith
  length-filter p (e ∷ es) = ground (arith, length-filter p es)

  rebuild-some :
      (fuel : ℕ) (runner : Runner) (clocks : ℕ → Clock) (acquire_clock : Clock) (now : ℕ)
      (workspace_id : String) (store : Store)
      → ((w : String) → length (events w) < fuel)
      → rebuild events parse hash fuel runner clocks acquire_clock now workspace_id store ≢ none
  unfolding rebuild rebuild_with_lease
  rebuild-some fuel runner clocks acquire_clock now workspace_id store enough k =
      elim (Bool-cases (is_empty (trim workspace_id))) [
        | inl p ↦ cc (rw (p, rebuild) at k)
        | inr p ↦
            elim (Result-cases (
              acquire_consumer_lease store.leases acquire_clock (trim workspace_id)
                runner.consumer_id runner.owner_id runner.lease_ttl)) [
                  | inl (e, q) ↦ cc (rw (p, q, rebuild) at k)
                  | inr ((acquired, leases), q) ↦
                      elim (Result-cases (
                        reset_view runner (record store { leases = leases }) now acquired.lease
                          (trim workspace_id))) [
                            | inl (e, r) ↦ cc (rw (p, q, rebuild, rebuild_with_lease, r) at k)
                            | inr (store', r) ↦
                                let short =
                                  length-filter
                                    (past (
                                      row_or_zero (
                                        store'.checkpoints (trim acquired.lease.workspace_id)
                                          (trim acquired.lease.consumer_id))))
                                    (events (trim acquired.lease.workspace_id)) in
                                rebuild_loop-ends fuel runner clocks acquired.lease
                                  (begun events parse hash (trim workspace_id) acquired.lease)
                                  store'
                                  (omega (arith, short, enough (trim acquired.lease.workspace_id)))
                                  (rw (p, q, rebuild, rebuild_with_lease, r) at k)
                          ]
                ]
      ]

  -- The loop of a rebuild ends: with fuel above the number of events of each workspace, `Rebuild`
  -- returns a result or an error, whatever the view, the leases, the clocks and the batch size.
  pub rebuild-ends :
      (fuel : ℕ) (runner : Runner) (clocks : ℕ → Clock) (acquire_clock : Clock) (now : ℕ)
      (workspace_id : String) (store : Store)
      → ((w : String) → length (events w) < fuel)
      → (x : Result RunError RebuildResult × Store) × (rebuild events parse hash fuel runner clocks
            acquire_clock now workspace_id store
          ≡ some x)
  rebuild-ends fuel runner clocks acquire_clock now workspace_id store enough =
      elim (Option-cases
        (rebuild events parse hash fuel runner clocks acquire_clock now workspace_id store)) [
          | inr (x, k) ↦ (x, k)
          | inl k ↦
              absurd (rebuild-some fuel runner clocks acquire_clock now workspace_id store enough k)
        ]
