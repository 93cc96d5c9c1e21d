-- ===== src/Tasks/Fencing/Claims.antt =====
-- A claim raises the fence of the task that it hands out.
use fornix.Tasks.Fencing.Leases.{fence-update, claimed_leases-row}
use fornix.Base.{
  some-injective, ℕ, zero, suc, ◌<◌, ◌≡◌, refl, sym, ap, ◌∙◌, subst, inl, inr, String, trim,
  is_empty, Bool, not, Option, none, some, Option-cases, leb, Bool-cases, Result, ok, >>=-eq-ok,
  guard-eq-ok, ok-injective, err-not-ok, List,
}
use fornix.Lease.{lease_end}
use fornix.Tasks.Types.{
  TaskError, Task, TaskExecutionLease, Database, TaskClaimInput, TaskClaimResult, session_required,
  session_busy, lease_expired,
}
use fornix.Tasks.Rules.{normalize_workspace, bounded_task_lease_ttl}
use fornix.Tasks.Events.{TaskCalls, append_event, new_task_event}
use fornix.Tasks.Rows.{
  is_unreleased, closed_lease, find_task, read_task, read_task_lease, active_lease,
}
use fornix.Tasks.Rows.Authority.{read_task_lease-row}
use fornix.Tasks.Rows.Keys.{find_task-is_task}
use fornix.Tasks.Claim.{
  Round, next_fence, claimed_leases, select_claimable_task, transition_dead_letter, claim_task,
  claim_rounds, claim_next, is_busy,
}
use fornix.Tasks.Refinement.Outcomes.{append_event-IsAppended, read-found}
use fornix.Tasks.Fencing.{fence_in}

module _ {Raw Evidence : Type 0} (calls : TaskCalls Raw Evidence) where
  -- What a claim hands out: the row of the lease, for its session, above the fence before.
  pub record IsRaised (db db' : Database Raw Evidence) (w session_id : String)
      (r : TaskClaimResult Raw) : Type 0 where
    pub row : db'.leases w r.task.id ≡ some r.lease
    pub owner : r.lease.owner_id ≡ session_id
    pub raised : fence_in (db.leases w r.task.id) < r.lease.fence
    pub stored : find_task db'.tasks w r.task.id ≡ some r.task

  active_lease-row :
      (db : Database Raw Evidence) (now : ℕ) (w : String) (i : ℕ)
      (found : Option (TaskExecutionLease × Bool)) (l : TaskExecutionLease)
      → read_task_lease db now w i ≡ ok found
      → active_lease found ≡ ok l
      → db.leases w i ≡ some l
  unfolding active_lease
  active_lease-row db now w i none l h k = err-not-ok k
  active_lease-row db now w i (some (l', active)) l h k =
      let (_, k1) = guard-eq-ok active lease_expired _ k in
      (read_task_lease-row db now w i l' active h).0 ∙ ap some (ok-injective k1)

  -- The parts of a claim of the task `t`.
  record IsClaimed (round : Round) (start : ℕ) (db db' : Database Raw Evidence)
      (w session_id : String) (ttl : ℕ) (t : Task) (r : TaskClaimResult Raw) : Type 0 where
    found : Option (TaskExecutionLease × Bool)
    fence : ℕ
    takeover : Bool
    before : read_task_lease db (round.clock 1) w t.id ≡ ok found
    next : next_fence found ≡ ok (fence, takeover)
    leases :
        db'.leases
        ≡ claimed_leases db.leases w t.id session_id fence takeover
            (lease_end (round.clock 2) ttl)
            (round.clock 2)
            start
    row : db'.leases w t.id ≡ some r.lease
    stored : find_task db'.tasks w t.id ≡ some r.task

  -- The last steps of a claim, from the database that it leaves.
  ended :
      (round : Round) (start : ℕ) (db db3 db' : Database Raw Evidence) (w session_id : String)
      (ttl : ℕ) (t claimed : Task) (lease : TaskExecutionLease) (r : TaskClaimResult Raw)
      (found : Option (TaskExecutionLease × Bool)) (fence : ℕ) (takeover : Bool)
      → read_task_lease db (round.clock 1) w t.id ≡ ok found
      → next_fence found ≡ ok (fence, takeover)
      → db3.leases
        ≡ claimed_leases db.leases w t.id session_id fence takeover
            (lease_end (round.clock 2) ttl)
            (round.clock 2)
            start
      → db3.leases w t.id ≡ some lease
      → find_task db3.tasks w t.id ≡ some claimed
      → claimed ≡ r.task
      → lease ≡ r.lease
      → db3 ≡ db'
      → IsClaimed round start db db' w session_id ttl t r
  ended round start db db3 db' w session_id ttl t claimed lease r found fence takeover f n kept row
        stored same_task same_lease same_db =
      record {
        found = found;
        fence = fence;
        takeover = takeover;
        before = f;
        next = n;
        leases = ap (λ d. d.leases) (sym same_db) ∙ kept;
        row = ap (λ d. d.leases w t.id) (sym same_db) ∙ row ∙ ap some same_lease;
        stored = ap (λ d. find_task d.tasks w t.id) (sym same_db) ∙ stored ∙ ap some same_task;
      }

  claim_task-IsClaimed :
      (round : Round) (start : ℕ) (db db' : Database Raw Evidence) (w session_id : String) (ttl : ℕ)
      (actor_id : String) (t : Task) (r : TaskClaimResult Raw)
      → claim_task calls round start db w session_id ttl actor_id t ≡ ok (r, db')
      → IsClaimed round start db db' w session_id ttl t r
  unfolding claim_task
  claim_task-IsClaimed round start db db' w session_id ttl actor_id t r h =
      let (found, f, h1) = >>=-eq-ok (read_task_lease db (round.clock 1) w t.id) _ h in
      let ((fence, takeover), n, h2) = >>=-eq-ok (next_fence found) _ h1 in
      let rows =
        claimed_leases db.leases w t.id session_id fence takeover (lease_end (round.clock 2) ttl)
          (round.clock 2) start in
      let (refound, f', h3) =
        >>=-eq-ok (read_task_lease (record db { leases = rows }) (round.clock 3) w t.id) _ h2 in
      let (lease, l, h4) = >>=-eq-ok (active_lease refound) _ h3 in
      let (event, _, h5) = >>=-eq-ok (new_task_event calls round.env _ _ _ _ _ _ _) _ h4 in
      let ((stored, db3), a, h6) = >>=-eq-ok (append_event calls round.env _ event) _ h5 in
      let (claimed, q, h7) = >>=-eq-ok (read_task db3 w t.id) _ h6 in
      let kept : db3.leases ≡ rows =
        ap (λ d. d.leases)
          (append_event-IsAppended calls round.env round.clock event _ db3 stored a).others in
      let whole : Path (Result TaskError (TaskClaimResult Raw × Database Raw Evidence))
          (ok (record { task = claimed; lease = lease; event = stored; takeover = takeover }, db3))
          (ok (r, db')) =
        h7 in
      ended round start db db3 db' w session_id ttl t claimed lease r found fence takeover f n kept
        (ap (λ x. x w t.id) kept
          ∙ active_lease-row (record db { leases = rows }) (round.clock 3) w t.id refound lease f'
              l)
        (read-found db3 w t.id claimed q) (ap (λ x. x.0.task) (ok-injective whole))
        (ap (λ x. x.0.lease) (ok-injective whole)) (ap (λ x. x.1) (ok-injective whole))

  claim_task-IsRaised :
      (round : Round) (start : ℕ) (db db' : Database Raw Evidence) (w session_id : String) (ttl : ℕ)
      (actor_id : String) (t : Task) (r : TaskClaimResult Raw)
      → claim_task calls round start db w session_id ttl actor_id t ≡ ok (r, db')
      → IsRaised db db' w session_id r
  claim_task-IsRaised round start db db' w session_id ttl actor_id t r h =
      let c = claim_task-IsClaimed round start db db' w session_id ttl actor_id t r h in
      let (row, e, up, owner, above) =
        claimed_leases-row db (round.clock 1) w session_id t.id c.fence c.takeover
          (lease_end (round.clock 2) ttl) (round.clock 2) start c.found c.before c.next in
      let same : row ≡ r.lease =
        some-injective (sym e ∙ sym (ap (λ x. x w t.id) c.leases) ∙ c.row) in
      let (_, i) = find_task-is_task db'.tasks w t.id r.task c.stored in
      record {
        row = ap (λ j. db'.leases w j) i ∙ c.row;
        owner = ap (λ x. x.owner_id) (sym same) ∙ owner;
        raised =
            subst (λ x. fence_in (db.leases w r.task.id) < x.fence) same
              (subst (λ j. fence_in (db.leases w j) < row.fence) (sym i) above);
        stored = ap (λ j. find_task db'.tasks w j) i ∙ c.stored;
      }

  transition-fences :
      (round : Round) (db db' : Database Raw Evidence) (t : Task) (reason : String)
      → transition_dead_letter calls round db t reason ≡ ok db'
      → (a : String) (b : ℕ) → fence_in (db'.leases a b) ≡ fence_in (db.leases a b)
  unfolding transition_dead_letter
  transition-fences round db db' t reason h a b =
      let (event, _, h1) = >>=-eq-ok (new_task_event calls round.env _ _ _ _ _ _ _) _ h in
      let ((stored, db2), ap', h2) = >>=-eq-ok (append_event calls round.env _ event) _ h1 in
      let app = append_event-IsAppended calls round.env (round.clock) event _ db2 stored ap' in
      ap (λ d. fence_in (d.leases a b)) (sym (ok-injective h2))
      ∙ ap (λ d. fence_in (d.leases a b)) app.others
      ∙ fence-update db.leases t.workspace_id t.id is_unreleased (closed_lease (round.clock 2))
          (λ l. refl) a b

  claim_rounds-IsRaised :
      (left : ℕ) (rounds : ℕ → Round) (start : ℕ) (db db' : Database Raw Evidence)
      (w session_id : String) (capabilities : List String) (i ttl : ℕ) (actor_id : String)
      (r : TaskClaimResult Raw)
      → claim_rounds calls left rounds start db w session_id capabilities i ttl actor_id
        ≡ ok (some r, db')
      → IsRaised db db' w session_id r
  unfolding claim_rounds
  claim_rounds-IsRaised zero rounds start db db' w session_id capabilities i ttl actor_id r h =
      absurd (cc (ok-injective h))
  claim_rounds-IsRaised (suc left) rounds start db db' w session_id capabilities i ttl actor_id r
        h =
      let round = rounds left in
      elim (Option-cases
        (select_claimable_task db (round.clock 0) w capabilities i round.is_locked)) [
          | inl k ↦ absurd (cc (ok-injective (rw (k, claim_rounds) at h)))
          | inr (t, k) ↦ elim (Bool-cases (leb t.max_attempts t.attempts)) [
            | inl q ↦
                let (db1, d, h1) =
                  >>=-eq-ok (transition_dead_letter calls round db t "retry budget exhausted") _
                    (rw (k, q, claim_rounds) at h) in
                let rest =
                  claim_rounds-IsRaised left rounds start db1 db' w session_id capabilities i ttl
                    actor_id r h1 in
                record {
                  row = rest.row;
                  owner = rest.owner;
                  stored = rest.stored;
                  raised =
                      subst (λ n. n < r.lease.fence)
                        (transition-fences round db db1 t "retry budget exhausted" d w r.task.id)
                        rest.raised;
                }
            | inr q ↦
                let ((r', db1), d, h1) =
                  >>=-eq-ok (claim_task calls round start db w session_id ttl actor_id t) _
                    (rw (k, q, claim_rounds) at h) in
                let whole = ok-injective h1 in
                let e : r' ≡ r = some-injective (ap (λ x. x.0) whole) in
                subst (λ x. IsRaised db x w session_id r) (ap (λ x. x.1) whole)
                  (subst (λ x. IsRaised db db1 w session_id x) e
                    (claim_task-IsRaised round start db db1 w session_id ttl actor_id t r' d))
          ]
        ]

  -- A claim that hands a task out leaves its lease as the row of the task, for the session, and with
  -- a fence above the one that the task's lease had before the call, 0 where there was none; the
  -- task that it returns is the row.
  pub claim_next-IsRaised :
      (rounds : ℕ → Round) (start : ℕ) (db db' : Database Raw Evidence) (input : TaskClaimInput)
      (r : TaskClaimResult Raw)
      → claim_next calls rounds start db input ≡ ok (some r, db')
      → IsRaised db db' (normalize_workspace input.workspace_id) (trim input.session_id) r
  unfolding claim_next
  claim_next-IsRaised rounds start db db' input r h =
      let w = normalize_workspace input.workspace_id in
      let (_, h1) = guard-eq-ok (not (is_empty (trim input.session_id))) session_required _ h in
      elim (Option-cases (db.sessions w (trim input.session_id))) [
        | inl k ↦ err-not-ok (rw k at h1)
        | inr (s, k) ↦
            let (_, h2) = guard-eq-ok (not (is_busy s)) session_busy _ (rw k at h1) in
            claim_rounds-IsRaised 100 rounds start db db' w (trim input.session_id) s.capabilities
              input.task_id (bounded_task_lease_ttl input.lease_ttl) input.actor_id r h2
      ]
