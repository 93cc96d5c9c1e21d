-- ===== src/Projection/Task/Effect.antt =====
-- What the application of an event does to the table.
use fornix.Base.{
  ℕ, ◌≤◌, ◌<◌, ◌≡◌, refl, sym, ap, ◌∙◌, subst, ◌⊎◌, inl, inr, String, str_eq, eq_iff, trim,
  is_empty, true, false, not, ◌||◌, Option, none, some, Option-cases, ◌==◌, Bool-cases, Result, ok,
  >>=-eq-ok, guard-eq-ok, ok-injective, err-not-ok, write, arith,
}
use fornix.Event.Types.{EventEnvelope, EntityRef}
use fornix.Projection.Types.{
  ProjectionError, JsonValue, sequence_required, workspace_required, task_kind, task_workspace,
  task_reference_required, invalid_counters, hash_mismatch, ApplyResult, was_past, acknowledged,
  unhandled, TaskState,
}
use fornix.Projection.Task.{
  TaskTable, task_event_status, is_in_workspace, has_kind, task_delta_state, assigned_to,
  task_state_hash, read_task_state, next_state, next_count, is_past, current_session, apply_fresh,
  apply_owned, apply_status, apply,
}
use fornix.Projection.Task.Deltas.{task_delta_state-status}

module _ {Raw : Type 0} (parse : Raw → Option JsonValue)
    (hash : String → String → String → String → String) where
  -- The event is none of the projection's: it is acknowledged and leaves every table.
  pub record IsIgnored (e : EventEnvelope Raw) (r : ApplyResult) : Type 0 where
    pub not_applied : r.applied ≡ false
    pub leaves : (t : TaskTable) → apply parse hash t e ≡ ok (r, t)

  -- The event is of the task `c` of the workspace `w`: the id of its task and its workspace, without
  -- the spaces around them.
  pub record IsOwned (e : EventEnvelope Raw) (w c : String) : Type 0 where
    pub status : String
    pub is_status : task_event_status e.event_type ≡ some status
    pub numbered : 1 ≤ e.sequence
    pub task : EntityRef
    pub of_task : e.task ≡ some task
    pub is_workspace : w ≡ trim e.scope.workspace_id
    pub is_id : c ≡ trim task.id
    pub reaches : (t : TaskTable) → apply parse hash t e ≡ apply_owned parse hash t e status w c

  -- A row that the code reads back.
  pub record IsReadable (w c : String) (s : TaskState) : Type 0 where
    pub numbered : 1 ≤ s.last_event_sequence
    pub counted : 1 ≤ s.applied_event_count
    pub hashed : s.state_hash ≡ task_state_hash parse hash s

  read-found :
      (t : TaskTable) (w c : String) (s : TaskState) (o : Option TaskState)
      → t w c ≡ some s
      → read_task_state parse hash t w c ≡ ok o
      → (some s ≡ o) × IsReadable w c s
  unfolding read_task_state
  read-found t w c s o e h =
      let h1 = rw (e, read_task_state) at h in
      let (p, h2) =
        guard-eq-ok (not (s.last_event_sequence == 0 || s.applied_event_count == 0))
          invalid_counters _ h1 in
      let (q, h3) =
        guard-eq-ok (str_eq s.state_hash (task_state_hash parse hash s)) hash_mismatch _ h2 in
      (
        ok-injective h3,
        record {
          numbered = ground arith;
          counted = ground arith;
          hashed = (eq_iff s.state_hash (task_state_hash parse hash s)).0 q;
        },
      )

  read-missing :
      (t : TaskTable) (w c : String) (o : Option TaskState)
      → t w c ≡ none
      → read_task_state parse hash t w c ≡ ok o
      → none ≡ o
  unfolding read_task_state
  read-missing t w c o e h = ok-injective (rw (e, read_task_state) at h)

  read-lookup :
      (t : TaskTable) (w c : String) (o : Option TaskState)
      → read_task_state parse hash t w c ≡ ok o
      → t w c ≡ o
  read-lookup t w c o h = elim (Option-cases (t w c)) [
    | inl e ↦ e ∙ read-missing t w c o e h
    | inr (s, e) ↦ e ∙ (read-found t w c s o e h).0
  ]

  pub read-readable :
      (t : TaskTable) (w c : String) (s : TaskState)
      → t w c ≡ some s
      → IsReadable w c s
      → read_task_state parse hash t w c ≡ ok (some s)
  unfolding read_task_state
  read-readable t w c s e r =
      let p : (s.last_event_sequence == 0 || s.applied_event_count == 0) ≡ false =
        ground (arith, r.numbered, r.counted) in
      let q : str_eq s.state_hash (task_state_hash parse hash s) ≡ true = (eq_iff _ _).1 r.hashed in
      rw (e, read_task_state) (rw (p, q))

  -- The event wrote a row: the task's, with the status of the event's type, the number of the event,
  -- which is above the row's before, and one more event counted.
  pub record HasWritten (e : EventEnvelope Raw) (w c : String) (t t' : TaskTable) : Type 0 where
    pub row : TaskState
    pub written : t' ≡ write t w c row
    pub row_key : (row.workspace_id ≡ w) × (row.task_id ≡ c)
    pub row_status : task_event_status e.event_type ≡ some row.status
    pub row_sequence : row.last_event_sequence ≡ e.sequence
    pub row_event : row.last_event_id ≡ e.event_id
    pub row_count : row.applied_event_count ≡ next_count parse hash (t w c)
    pub later : (s : TaskState) → t w c ≡ some s → s.last_event_sequence < e.sequence
    pub readable : IsReadable w c row

  -- The event is behind the row.
  pub record IsBehind (e : EventEnvelope Raw) (w c : String) (t : TaskTable) : Type 0 where
    pub row : TaskState
    pub found : t w c ≡ some row
    pub readable : IsReadable w c row
    pub behind : e.sequence ≤ row.last_event_sequence

  next_count-positive : (o : Option TaskState) → 1 ≤ next_count parse hash o
  next_count-positive none = omega arith
  next_count-positive (some s) = omega arith

  apply_fresh-effect :
      (t t' : TaskTable) (e : EventEnvelope Raw) (status w c : String) (current : Option TaskState)
      (r : ApplyResult)
      → t w c ≡ current
      → task_event_status e.event_type ≡ some status
      → 1 ≤ e.sequence
      → is_past parse hash e.sequence current ≡ false
      → apply_fresh parse hash t e status w c current ≡ ok (r, t')
      → HasWritten e w c t t' × (r.applied ≡ true)
  unfolding apply_fresh is_past next_state
  apply_fresh-effect t t' e status w c current r look st pos later h =
      let (delta, h1, h2) = >>=-eq-ok (task_delta_state parse e status c) _ h in
      let (session, h3, h4) =
        >>=-eq-ok (assigned_to parse e w delta (current_session parse hash current)) _ h2 in
      let row : TaskState = next_state parse hash e w c current delta session in
      (
        record {
          row = row;
          written = sym (ap (λ x. x.1) (ok-injective h4));
          row_key = (refl, refl);
          row_status = st ∙ ap some (sym (task_delta_state-status parse e status c delta h1));
          row_sequence = refl;
          row_event = refl;
          row_count = ap (next_count parse hash) (sym look);
          later = λ s k.
              let m : current ≡ some s = sym look ∙ k in
              let later' : is_past parse hash e.sequence (some s) ≡ false = rw m at later in
              ground arith;
          readable = record {
            numbered = pos;
            counted = next_count-positive current;
            hashed = refl;
          };
        },
        sym (ap (λ x. x.0.applied) (ok-injective h4)),
      )

  abbrev pub Outcome :
      EventEnvelope Raw → String → String → TaskTable → TaskTable → ApplyResult → Type 0
  Outcome e w c t t' r =
      (HasWritten e w c t t' × (r.applied ≡ true))
      ⊎ (IsBehind e w c t × (t' ≡ t) × (r.applied ≡ false))

  past-Outcome :
      (t t' : TaskTable) (e : EventEnvelope Raw) (w c : String) (current : Option TaskState)
      (r : ApplyResult)
      → read_task_state parse hash t w c ≡ ok current
      → is_past parse hash e.sequence current ≡ true
      → (let x : Result ProjectionError (ApplyResult × TaskTable) = ok (was_past, t) in x)
        ≡ ok (r, t')
      → Outcome e w c t t' r
  unfolding is_past
  past-Outcome t t' e w c none r read p h = absurd (cc p)
  past-Outcome t t' e w c (some s) r read p h =
      let look = read-lookup t w c (some s) read in
      let good = (read-found t w c s (some s) look read).1 in
      inr (
        record { row = s; found = look; readable = good; behind = ground arith },
        sym (ap (λ x. x.1) (ok-injective h)),
        sym (ap (λ x. x.0.applied) (ok-injective h)),
      )

  pub apply_owned-effect :
      (t t' : TaskTable) (e : EventEnvelope Raw) (status w c : String) (r : ApplyResult)
      → task_event_status e.event_type ≡ some status
      → 1 ≤ e.sequence
      → apply_owned parse hash t e status w c ≡ ok (r, t')
      → Outcome e w c t t' r
  unfolding apply_owned
  apply_owned-effect t t' e status w c r st pos h =
      let (current, h1, h2) = >>=-eq-ok (read_task_state parse hash t w c) _ h in
      elim (Bool-cases (is_past parse hash e.sequence current)) [
        | inl p ↦ past-Outcome t t' e w c current r h1 p (rw p at h2)
        | inr p ↦ inl (
            apply_fresh-effect t t' e status w c current r (read-lookup t w c current h1) st pos p
              (rw p at h2))
      ]

  positive_of_guard : (n : ℕ) → not (n == 0) ≡ true → 1 ≤ n
  positive_of_guard n h = ground arith

  -- An event that is accepted by one table reaches the same branch from each.
  abbrev pub Route : EventEnvelope Raw → ApplyResult → Type 0
  Route e r = IsIgnored e r ⊎ ((w : String) × (c : String) × IsOwned e w c)

  pub apply-Route :
      (t t' : TaskTable) (e : EventEnvelope Raw) (r : ApplyResult)
      → apply parse hash t e ≡ ok (r, t')
      → Route e r
  unfolding apply apply_status apply_owned apply_fresh task_delta_state assigned_to next_state
  apply-Route t t' e r h = elim (Bool-cases (str_eq e.event_type "task.lease_renewed")) [
    | inl p ↦
        let h1 : (acknowledged, t) ≡ (r, t') = ok-injective (rw p at h) in
        inl (record {
          not_applied = sym (ap (λ x. x.0.applied) h1);
          leaves = λ t2. rw p (ap (λ x. ok (x.0, t2)) h1);
        })
    | inr p ↦ elim (Option-cases (task_event_status e.event_type)) [
      | inl q ↦
          let h1 : (unhandled, t) ≡ (r, t') = ok-injective (rw (p, q) at h) in
          inl (record {
            not_applied = sym (ap (λ x. x.0.applied) h1);
            leaves = λ t2. rw (p, q) (ap (λ x. ok (x.0, t2)) h1);
          })
      | inr (status, q) ↦ elim (Option-cases e.task) [
        | inl k ↦
            let h0 = rw (p, q, k) at h in
            let (g1, h1) = guard-eq-ok (not (e.sequence == 0)) sequence_required _ h0 in
            let (g2, h2) =
              guard-eq-ok (not (is_empty (trim e.scope.workspace_id))) workspace_required _ h1 in
            err-not-ok h2
        | inr (task, k) ↦
            let h0 = rw (p, q, k) at h in
            let (g1, h1) = guard-eq-ok (not (e.sequence == 0)) sequence_required _ h0 in
            let (g2, h2) =
              guard-eq-ok (not (is_empty (trim e.scope.workspace_id))) workspace_required _ h1 in
            let (g3, h4) =
              guard-eq-ok (not (is_empty (trim task.id))) task_reference_required _ h2 in
            let (g4, h5) = guard-eq-ok (has_kind "task" task) task_kind _ h4 in
            let (g5, h6) =
              guard-eq-ok (is_in_workspace (trim e.scope.workspace_id) task) task_workspace _ h5 in
            inr (
              trim e.scope.workspace_id,
              trim task.id,
              record {
                status = status;
                is_status = q;
                numbered = positive_of_guard e.sequence g1;
                task = task;
                of_task = k;
                is_workspace = refl;
                is_id = refl;
                reaches = λ t2. rw (p, q, g1, g2, k, g3, g4, g5) refl;
              },
            )
      ]
    ]
  ]

  -- An event that is accepted leaves the table and is reported as not applied, or it names a task and
  -- writes one row, under its own workspace and the id of that task, without the spaces around them:
  -- with the status of the event's type, the event's number, which is above the row's before it, one more event
  -- counted and a hash that the code accepts; then it is reported as applied.
  pub apply-effect :
      (t t' : TaskTable) (e : EventEnvelope Raw) (r : ApplyResult)
      → apply parse hash t e ≡ ok (r, t')
      → ((t' ≡ t) × (r.applied ≡ false))
        ⊎ ((task : EntityRef) × (e.task ≡ some task)
            × HasWritten e (trim e.scope.workspace_id) (trim task.id) t t'
            × (r.applied ≡ true))
  apply-effect t t' e r h = elim (apply-Route t t' e r h) [
    | inl i ↦ inl (sym (ap (λ x. x.1) (ok-injective (sym (i.leaves t) ∙ h))), i.not_applied)
    | inr (w, c, o) ↦
        elim (apply_owned-effect t t' e o.status w c r o.is_status o.numbered
          (sym (o.reaches t) ∙ h)) [
            | inl (x, k) ↦ inr (
              o.task,
              o.of_task,
              subst (λ n. HasWritten e (trim e.scope.workspace_id) n t t') o.is_id
                  (subst (λ n. HasWritten e n c t t') o.is_workspace x),
              k,
            )
            | inr (_, k, q) ↦ inl (k, q)
          ]
  ]
