-- ===== src/Tasks/Rows/Authority.antt =====
-- Who may mutate a task (`authorizeTaskMutation` and `authorizeTaskLeaseTx`, internal/store/tasks.go).
use fornix.Base.{
  ℕ, ◌<◌, ◌≡◌, ap, ◌∙◌, ◌⊎◌, inl, inr, String, str_eq, eq_iff, trim, is_empty, Bool, true, not,
  ◌&&◌, ◌||◌, Option, none, some, Option-cases, ◌==◌, Bool-cases, and-eq-true, ok, >>=-eq-ok,
  guard-eq-ok, ok-injective, err-not-ok, arith,
}
use fornix.Tasks.Types.{
  Task, TaskExecutionLease, Database, not_claimed, lease_fenced, lease_owned, lease_released,
  lease_expired,
}
use fornix.Tasks.Rows.{
  read_task_lease, authorize_row, authorize_task_lease, present, is_assigned, is_unreleased,
  is_lease_active, is_unclaimed, authorize_task_mutation,
}

present-row :
    (found : Option (TaskExecutionLease × Bool)) (row : TaskExecutionLease) (active : Bool)
    → present found ≡ ok (row, active)
    → found ≡ some (row, active)
present-row none row active h = err-not-ok h
present-row (some r) row active h = ap some (ok-injective h)

assigned-session :
    (task : Task) (owner : String)
    → is_assigned task owner ≡ true
    → (session : String) × (task.assigned_session ≡ some session) × (trim session ≡ owner)
assigned-session task owner h = elim (Option-cases task.assigned_session) [
  | inl k ↦ absurd (cc (rw k at h))
  | inr (session, k) ↦ (session, k, (eq_iff _ _).0 (rw k at h))
]

unreleased-none : (l : TaskExecutionLease) → is_unreleased l ≡ true → l.released_at ≡ none
unreleased-none l h = elim (Option-cases l.released_at) [
  | inl k ↦ k
  | inr (t, k) ↦ absurd (cc (rw k at h))
]

unclaimed :
    (task : Task) (owner : String) (fence : ℕ)
    → is_unclaimed task owner fence ≡ true
    → (task.assigned_session ≡ none) × (task.status ≡ "pending") × (fence ≡ 0)
unclaimed task owner fence h = elim (Option-cases task.assigned_session) [
  | inl k ↦
      let (p, q) =
        and-eq-true (str_eq task.status "pending" && is_empty (trim owner)) (fence == 0)
          (rw k at h) in
      (
        k,
        (eq_iff task.status "pending").0
            (and-eq-true (str_eq task.status "pending") (is_empty (trim owner)) p).0,
        ground (arith, q),
      )
  | inr (s, k) ↦ absurd (cc (rw k at h))
]

module _ {Raw Evidence : Type 0} where
  -- The caller holds the task's lease: the row has the caller's fence and owner, the task is
  -- assigned to that owner, and the lease is neither released nor over.
  pub record IsHolder (db : Database Raw Evidence) (now : ℕ) (task : Task) (owner : String)
      (fence : ℕ) : Type 0 where
    pub lease : TaskExecutionLease
    pub row : db.leases task.workspace_id task.id ≡ some lease
    pub fenced : lease.fence ≡ fence
    pub owned : lease.owner_id ≡ trim owner
    pub session : String
    pub assigned : task.assigned_session ≡ some session
    pub same_session : trim session ≡ trim owner
    pub unreleased : lease.released_at ≡ none
    pub unexpired : now < lease.lease_until

  pub read_task_lease-row :
      (db : Database Raw Evidence) (now : ℕ) (w : String) (i : ℕ) (l : TaskExecutionLease)
      (a : Bool)
      → read_task_lease db now w i ≡ ok (some (l, a))
      → (db.leases w i ≡ some l) × (is_lease_active l now ≡ a)
  unfolding read_task_lease
  read_task_lease-row db now w i l a h = elim (Option-cases (db.leases w i)) [
    | inl k ↦ ground (arith, k, h)
    | inr (row, k) ↦ ground (arith, k, h)
  ]

  pub authorize_task_lease-IsHolder :
      (db : Database Raw Evidence) (now : ℕ) (task : Task) (owner : String) (fence : ℕ)
      (l : TaskExecutionLease)
      → authorize_task_lease db now task owner fence ≡ ok l
      → IsHolder db now task owner fence
  unfolding authorize_task_lease authorize_row
  authorize_task_lease-IsHolder db now task owner fence l h =
      let (_, h1) = guard-eq-ok (not (is_empty (trim owner) || fence == 0)) not_claimed _ h in
      let (found, f, h2) = >>=-eq-ok (read_task_lease db now task.workspace_id task.id) _ h1 in
      let ((row, active), p, h3) = >>=-eq-ok (present found) _ h2 in
      let (c1, h4) = guard-eq-ok (row.fence == fence) lease_fenced _ h3 in
      let (c2, h5) = guard-eq-ok (str_eq row.owner_id (trim owner)) lease_owned _ h4 in
      let (c3, h6) = guard-eq-ok (is_assigned task (trim owner)) lease_owned _ h5 in
      let (c4, h7) = guard-eq-ok (is_unreleased row) lease_released _ h6 in
      let (c5, _) = guard-eq-ok active lease_expired _ h7 in
      let (look, live) =
        read_task_lease-row db now task.workspace_id task.id row active
          (f ∙ ap ok (present-row found row active p)) in
      let (session, s1, s2) = assigned-session task (trim owner) c3 in
      record {
        lease = row;
        row = look;
        fenced = ground (arith, c1);
        owned = (eq_iff _ _).0 c2;
        session = session;
        assigned = s1;
        same_session = s2;
        unreleased = unreleased-none row c4;
        unexpired = ground (arith, live, c5);
      }

  -- What an outcome that takes effect must show: it comes from the holder of the lease, or from a
  -- caller without owner and fence for a pending task that no session owns.
  abbrev pub IsAuthorized : Database Raw Evidence → ℕ → Task → String → ℕ → Bool → Type 0
  IsAuthorized db now task owner fence allow =
      IsHolder db now task owner fence
      ⊎ ((allow ≡ true) × (task.assigned_session ≡ none) × (task.status ≡ "pending") × (fence ≡ 0))

  pub authorize_task_mutation-IsAuthorized :
      (db : Database Raw Evidence) (now : ℕ) (task : Task) (owner : String) (fence : ℕ)
      (allow : Bool) (u : Unit {0})
      → authorize_task_mutation db now task owner fence allow ≡ ok u
      → IsAuthorized db now task owner fence allow
  unfolding authorize_task_mutation
  authorize_task_mutation-IsAuthorized db now task owner fence allow u h =
      elim (Bool-cases (allow && is_unclaimed task owner fence)) [
        | inl p ↦
            let (a, q) = and-eq-true allow (is_unclaimed task owner fence) p in
            let u = unclaimed task owner fence q in inr (a, u.0, u.1, u.2)
        | inr p ↦
            let (l, k, _) =
              >>=-eq-ok (authorize_task_lease db now task owner fence) _ (rw p at h) in
            inl (authorize_task_lease-IsHolder db now task owner fence l k)
      ]
