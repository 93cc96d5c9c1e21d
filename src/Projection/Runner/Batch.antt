-- ===== src/Projection/Runner/Batch.antt =====
-- What one batch does to the store.
use fornix.Base.{
  ℕ, ◌+◌, ◌≤◌, ◌≡◌, refl, sym, ap, ◌∙◌, subst, inl, inr, String, str_eq, eq_iff, trim, trim_idem,
  not, ◌||◌, is_empty, Option, none, some, Option-cases, List, [], ◌∷◌, take, filter, any, ltb,
  ◌==◌, Bool-cases, Result, ok, err, >>=-eq-ok, guard-eq-ok, ok-injective, err-not-ok, Table, write,
  write_self, update_where-hit, arith,
}
use fornix.Lease.{
  LeaseError, ConsumerLease, Clock, validate_consumer_lease_identity, validate_consumer_lease,
}
use fornix.Event.Types.{EventEnvelope}
use fornix.Projection.Types.{ProjectionError, JsonValue}
use fornix.Projection.Task.{apply}
use fornix.Projection.Task.Replay.{apply_all}
use fornix.Projection.Runner.{
  workspace_required, consumer_mismatch, owner_mismatch, max_sequence, invalid_checkpoint,
  checkpoint_key_required, checkpoint_regression, lift_lease, lift_projection, Runner, Store,
  BatchResult, bounded_batch_size, validate_lease, locked_checkpoint, ensure_checkpoint, read_after,
  read_limit, move_checkpoint, advance_checkpoint_at, advance_checkpoint_with_lease, last_sequence,
  Tally, apply_batch, advance_past, run_locked, run_batch_with_lease,
}

lift_lease-ok : {A : Type 0} (m : Result LeaseError A) {a : A} → lift_lease m ≡ ok a → m ≡ ok a
lift_lease-ok (ok x) h = cc h
lift_lease-ok (err e) h = err-not-ok h

pub lift_projection-ok :
    {A : Type 0} (m : Result ProjectionError A) {a : A} → lift_projection m ≡ ok a → m ≡ ok a
lift_projection-ok (ok x) h = cc h
lift_projection-ok (err e) h = err-not-ok h

-- The row that `EnsureCheckpointTx` locks.
locked-row :
    (t : Table ℕ) (w c : String)
    → (locked_checkpoint t w c (t w c)).1 w c ≡ some (locked_checkpoint t w c (t w c)).0
locked-row t w c = elim (Option-cases (t w c)) [
  | inl e ↦ rw e (write_self t w c 0)
  | inr (n, e) ↦ rw e e
]

ensure_checkpoint-row :
    (t t' : Table ℕ) (w c : String) (n : ℕ)
    → ensure_checkpoint t w c ≡ ok (n, t')
    → t' (trim w) (trim c) ≡ some n
unfolding ensure_checkpoint
ensure_checkpoint-row t t' w c n h =
    let (_, h1) = guard-eq-ok _ _ _ h in
    let e : locked_checkpoint t (trim w) (trim c) (t (trim w) (trim c)) ≡ (n, t') =
      ok-injective h1 in
    subst (λ x. x.1 (trim w) (trim c) ≡ some x.0) e (locked-row t (trim w) (trim c))

-- The number of a checkpoint row: a row that is missing is made with 0.
abbrev pub row_or_zero : Option ℕ → ℕ
row_or_zero none = 0
row_or_zero (some n) = n

locked-before :
    (t : Table ℕ) (w c : String) (o : Option ℕ) → (locked_checkpoint t w c o).0 ≡ row_or_zero o
locked-before t w c none = refl
locked-before t w c (some n) = refl

pub ensure-before :
    (t t' : Table ℕ) (w c : String) (n : ℕ)
    → ensure_checkpoint t w c ≡ ok (n, t')
    → n ≡ row_or_zero (t (trim w) (trim c))
unfolding ensure_checkpoint
ensure-before t t' w c n h =
    let (_, h1) = guard-eq-ok _ _ _ h in
    ap (λ x. x.0) (sym (ok-injective h1)) ∙ locked-before t (trim w) (trim c) (t (trim w) (trim c))

module _ {Raw : Type 0} (events : String → List (EventEnvelope Raw)) where
  advance_checkpoint_at-row :
      (t t' : Table ℕ) (w c : String) (current sequence : ℕ)
      → t (trim w) (trim c) ≡ some current
      → advance_checkpoint_at events t w c current sequence ≡ ok t'
      → (current ≤ sequence) × (t' (trim w) (trim c) ≡ some sequence)
  unfolding advance_checkpoint_at move_checkpoint
  advance_checkpoint_at-row t t' w c current sequence look h =
      let (_, h1) =
        guard-eq-ok (not (is_empty (trim w) || is_empty (trim c))) checkpoint_key_required _ h in
      let (_, h2) =
        guard-eq-ok (not (ltb max_sequence current || ltb max_sequence sequence)) invalid_checkpoint
          _ h1 in
      let (q, h3) = guard-eq-ok (not (ltb sequence current)) checkpoint_regression _ h2 in
      elim (Bool-cases (sequence == current)) [
        | inl e ↦
            let k : t ≡ t' = ok-injective (rw e at h3) in
            (
              ground arith,
              subst (λ x. x (trim w) (trim c) ≡ some sequence) k (look ∙ ap some (ground arith)),
            )
        | inr e ↦
            let h4 = rw e at h3 in
            let (_, h5) =
              guard-eq-ok (any (λ x. x.sequence == sequence) (events (trim w))) invalid_checkpoint _
                h4 in
            let hit =
              update_where-hit t (trim w) (trim c) (λ n. n == current) (λ _. sequence) current look
                (ground arith) in
            let k : write t (trim w) (trim c) sequence ≡ t' = ok-injective (rw hit at h5) in
            (
              ground arith,
              subst (λ x. x (trim w) (trim c) ≡ some sequence) k
                  (write_self t (trim w) (trim c) sequence),
            )
      ]

  advance_past-row :
      (store : Store) (now : ℕ) (lease : ConsumerLease) (t t' : Table ℕ) (before : ℕ)
      (es : List (EventEnvelope Raw))
      → t (trim lease.workspace_id) (trim lease.consumer_id) ≡ some before
      → advance_past events store now lease t before es ≡ ok t'
      → (before ≤ last_sequence events before es)
        × (t' (trim lease.workspace_id) (trim lease.consumer_id)
            ≡ some (last_sequence events before es))
  unfolding advance_checkpoint_with_lease
  advance_past-row store now lease t t' before [] look h = (
    omega arith,
    subst (λ x. x (trim lease.workspace_id) (trim lease.consumer_id) ≡ some before) (ok-injective h)
        look,
  )
  advance_past-row store now lease t t' before (e ∷ es) look h =
      let (_, _, h1) =
        >>=-eq-ok (lift_lease (validate_consumer_lease store.leases now lease)) _ h in
      advance_checkpoint_at-row t t' lease.workspace_id lease.consumer_id before
        (last_sequence events before (e ∷ es)) look h1

  module _ (parse : Raw → Option JsonValue)
      (hash : String → String → String → String → String) where
    apply_batch-view :
        (es : List (EventEnvelope Raw)) (s s' : Tally)
        → apply_batch events parse hash s es ≡ ok s'
        → apply_all parse hash s.view es ≡ ok s'.view
    apply_batch-view [] s s' h = ap (λ x. ok x.view) (ok-injective h)
    apply_batch-view (e ∷ es) s s' h =
        let ((r, t1), h1, h2) = >>=-eq-ok (lift_projection (apply parse hash s.view e)) _ h in
        rw (lift_projection-ok (apply parse hash s.view e) h1) (apply_batch-view es _ s' h2)

    -- The events that a batch applies: the first of those after the checkpoint.
    abbrev pub batch_events : Runner → String → ℕ → List (EventEnvelope Raw)
    batch_events runner workspace_id before = take (bounded_batch_size runner.batch_size) (
        take (read_limit (bounded_batch_size runner.batch_size + 1))
          (filter (λ e. ltb before e.sequence) (events workspace_id)))

    -- A batch: the lease was current at its first statement, the batch starts at the checkpoint that
    -- the store holds for the workspace and consumer, or at 0 if it holds none, the view is what the
    -- events after it make of the old view, in their order, the checkpoint of the workspace and consumer
    -- stands at the last of them and has not gone back, and no lease was touched.
    pub record IsBatch (runner : Runner) (store store' : Store) (clock : Clock)
        (lease : ConsumerLease) (b : BatchResult) : Type 0 where
      pub current : ConsumerLease
      pub validated : validate_consumer_lease store.leases (clock 0) lease ≡ ok current
      pub of_consumer : lease.consumer_id ≡ runner.consumer_id
      pub of_owner : lease.owner_id ≡ runner.owner_id
      pub starts_at :
          b.checkpoint_before
          ≡ row_or_zero (store.checkpoints (trim lease.workspace_id) (trim lease.consumer_id))
      pub events_in_order :
          apply_all parse hash store.view
            (batch_events runner (trim lease.workspace_id) b.checkpoint_before)
          ≡ ok store'.view
      pub ends_at_last :
          b.checkpoint_after
          ≡ last_sequence events b.checkpoint_before
              (batch_events runner (trim lease.workspace_id) b.checkpoint_before)
      pub moved :
          store'.checkpoints (trim lease.workspace_id) (trim lease.consumer_id)
          ≡ some b.checkpoint_after
      pub forward : b.checkpoint_before ≤ b.checkpoint_after
      pub leases_kept : store'.leases ≡ store.leases

    -- When `runBatchWithLease` returns no error, the lease was current at its first statement, the
    -- batch starts at the checkpoint that the store held for the workspace and consumer, or at 0 if
    -- it held none, the view is what the events after that checkpoint, up to the batch size, make of the old view in their
    -- order, the checkpoint of the workspace and consumer stands at the last of them and is not before
    -- the old one, and no lease was touched.
    pub run_batch_with_lease-IsBatch :
        (runner : Runner) (store store' : Store) (clock : Clock) (lease : ConsumerLease)
        (b : BatchResult)
        → run_batch_with_lease events parse hash runner store clock lease ≡ ok (b, store')
        → IsBatch runner store store' clock lease b
    unfolding run_batch_with_lease run_locked validate_lease read_after
    run_batch_with_lease-IsBatch runner store store' clock lease b h =
        let ws = trim lease.workspace_id in
        let size = bounded_batch_size runner.batch_size in
        let (_, v, h1) = >>=-eq-ok (validate_lease runner lease) _ h in
        let (_, _, v1) =
          >>=-eq-ok
            (lift_lease (
              validate_consumer_lease_identity lease.workspace_id lease.consumer_id lease.owner_id))
            _ v in
        let (c, v2) =
          guard-eq-ok (str_eq lease.consumer_id runner.consumer_id) consumer_mismatch _ v1 in
        let (o, v3) = guard-eq-ok (str_eq lease.owner_id runner.owner_id) owner_mismatch _ v2 in
        let (current, l, h2) =
          >>=-eq-ok (lift_lease (validate_consumer_lease store.leases (clock 0) lease)) _ h1 in
        let ((before, t), k, h3) =
          >>=-eq-ok (ensure_checkpoint store.checkpoints ws runner.consumer_id) _ h2 in
        let (found, f, h4) = >>=-eq-ok (read_after events ws before (size + 1)) _ h3 in
        let (tally, a, h5) = >>=-eq-ok (apply_batch events parse hash _ (take size found)) _ h4 in
        let (moved, m, h6) =
          >>=-eq-ok (advance_past events store (clock 1) lease t before (take size found)) _ h5 in
        let of_consumer : lease.consumer_id ≡ runner.consumer_id = (eq_iff _ _).0 c in
        let (_, f1) = guard-eq-ok (not (is_empty (trim ws))) workspace_required _ f in
        let same : trim ws ≡ ws = trim_idem lease.workspace_id in
        let batch : batch_events runner ws before ≡ take size found =
          subst (λ x. batch_events runner x before ≡ take size found) same
            (ap (take size) (ok-injective f1)) in
        let row0 = ensure_checkpoint-row store.checkpoints t ws runner.consumer_id before k in
        let row : t ws (trim lease.consumer_id) ≡ some before =
          subst (λ x. t x (trim lease.consumer_id) ≡ some before) same
            (subst (λ x. t (trim ws) (trim x) ≡ some before) (sym of_consumer) row0) in
        let start =
          subst (λ x. before ≡ row_or_zero (store.checkpoints x (trim lease.consumer_id))) same
            (subst (λ x. before ≡ row_or_zero (store.checkpoints (trim ws) (trim x)))
              (sym of_consumer)
              (ensure-before store.checkpoints t ws runner.consumer_id before k)) in
        let (fw, row1) =
          advance_past-row store (clock 1) lease t moved before (take size found) row m in
        let whole = ok-injective h6 in
        let e_before : before ≡ b.checkpoint_before = ap (λ x. x.0.checkpoint_before) whole in
        let e_after : last_sequence events before (take size found) ≡ b.checkpoint_after =
          ap (λ x. x.0.checkpoint_after) whole in
        record {
          current = current;
          validated = lift_lease-ok (validate_consumer_lease store.leases (clock 0) lease) l;
          of_consumer = of_consumer;
          of_owner = (eq_iff _ _).0 o;
          starts_at = sym e_before ∙ start;
          events_in_order =
              subst
                (λ n. apply_all parse hash store.view (batch_events runner ws n) ≡ ok store'.view)
                e_before
                (subst (λ es. apply_all parse hash store.view es ≡ ok store'.view) (sym batch)
                  (apply_batch-view (take size found) _ tally a ∙ ap (λ x. ok x.1.view) whole));
          ends_at_last =
              sym e_after
              ∙ (ap (last_sequence events before) (sym batch)
                  ∙ ap (λ n. last_sequence events n (batch_events runner ws n)) e_before);
          moved =
              subst (λ x. x.1.checkpoints ws (trim lease.consumer_id) ≡ some x.0.checkpoint_after)
                whole row1;
          forward = subst (λ x. x.0.checkpoint_before ≤ x.0.checkpoint_after) whole fw;
          leases_kept = ap (λ x. x.1.leases) (sym whole);
        }
