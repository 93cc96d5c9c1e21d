-- ===== src/Tasks/Claim.antt =====
-- `ClaimNext` and `transitionDeadLetterTx` (internal/store/tasks.go). `FOR UPDATE ... SKIP LOCKED`
-- passes over the rows that other transactions hold: `is_locked` says which. Every round of the
-- loop has its own clock, environment and locks. An empty claim commits the dead letters that it
-- made, so the result of a claim stands beside the database that it leaves.
use fornix.Base.{
  ℕ, zero, suc, ◌+◌, String, str_eq, trim, is_empty, Bool, true, false, not, ◌&&◌, ◌||◌, Option,
  none, some, ltb, leb, ◌==◌, if◌then◌else◌, List, [], ◌∷◌, any, update_where, Result, ok, err,
  ◌>>=◌, ◌>>◌, guard,
}
use fornix.Event.Normalize.{Env}
use fornix.Lease.{Clock, lease_end}
use fornix.Tasks.Types.{
  TaskError, Task, TaskExecutionLease, Session, TaskDependency, Database, TaskClaimInput,
  TaskClaimResult, lease_held, session_required, session_not_found, session_busy, fence_exhausted,
}
use fornix.Tasks.Rules.{normalize_workspace, bounded_task_lease_ttl, max_task_fence}
use fornix.Tasks.Events.{
  TaskCalls, claimed_payload, dead_payload, new_task_event, task_status_delta, task_string_delta,
  outcome_deltas, append_event,
}
use fornix.Tasks.Rows.{
  LeaseRows, update_task, write_lease, update_lease, is_unreleased, closed_lease, release_session,
  read_task, read_task_lease, active_lease,
}

-- What one round of the loop reads from outside.
pub record Round : Type 0 where
  pub env : Env
  pub clock : Clock
  pub is_locked : Task → Bool

-- The row of the `UPDATE` of `transitionDeadLetterTx`.
abbrev pub dead_row : String → ℕ → Task → Task
dead_row reason now t = record t {
  status = "deadletter";
  result = some reason;
  completed_at = some now;
  assigned_session = none;
  next_attempt_at = now;
  last_error = reason;
  failure_class = "permanent";
  retryable = some false;
}

abbrev pub text_or_blank : Option String → String
text_or_blank none = ""
text_or_blank (some s) = s

abbrev pub claimed_row : String → ℕ → ℕ → Task → Task
claimed_row session_id fence now t = record t {
  status = "claimed";
  assigned_session = some session_id;
  claimed_at = some now;
  attempts = t.attempts + 1;
  execution_fence = fence;
  next_attempt_at = now;
  completed_at = none;
  cancelled_at = none;
}

-- status='pending' and due, or claimed under a lease that ran out.
abbrev pub is_due : LeaseRows → ℕ → Task → Bool
is_due leases now t =
    str_eq t.status "pending" && leb t.next_attempt_at now
    || (str_eq t.status "claimed" || str_eq t.status "in_progress")
      && elim (leases t.workspace_id t.id) [
        | none ↦ false
        | some l ↦ is_unreleased l && leb l.lease_until now
      ]

-- required_capabilities <@ capabilities
abbrev pub is_capable : List String → Task → Bool
is_capable capabilities t =
    not (any (λ c. not (any (str_eq c) capabilities)) t.required_capabilities)

-- The dependency joins a task of the workspace that is not done.
abbrev pub is_blocking : List Task → Task → TaskDependency → Bool
is_blocking tasks t d =
    str_eq d.workspace_id t.workspace_id
    && d.task_id == t.id
    && any
        (λ dep.
          str_eq dep.workspace_id d.workspace_id
          && dep.id == d.depends_on_task_id
          && not (str_eq dep.status "done"))
        tasks

-- created_at, then id.
abbrev pub is_earlier : Task → Task → Bool
is_earlier a b = ltb a.created_at b.created_at || a.created_at == b.created_at && ltb a.id b.id

-- ORDER BY created_at, id LIMIT 1, of the tasks that pass a test.
unfoldable pub earliest : (Task → Bool) → List Task → Option Task
earliest test [] = none
earliest test (t ∷ ts) =
    let rest = earliest test ts in
    if test t
    then elim rest [ none ↦ some t | some u ↦ if is_earlier u t then some u else some t ]
    else rest

-- The fence of a claim and whether it takes a lease over, from the row that it finds.
unfoldable pub next_fence : Option (TaskExecutionLease × Bool) → Result TaskError (ℕ × Bool)
next_fence none = ok (1, false)
next_fence (some (lease, active)) = do
  guard (not active) lease_held
  guard (ltb lease.fence max_task_fence) fence_exhausted
  ok (lease.fence + 1, true)

-- The row of a first lease. `acquired_at` and `renewed_at` have `now()`, the start of the
-- transaction, as their default.
abbrev pub first_lease : String → ℕ → String → ℕ → ℕ → TaskExecutionLease
first_lease workspace_id task_id session_id until start = record {
  workspace_id = workspace_id;
  task_id = task_id;
  owner_id = session_id;
  fence = 1;
  lease_until = until;
  acquired_at = start;
  renewed_at = start;
  released_at = none;
}

abbrev pub taken_lease : String → ℕ → ℕ → ℕ → TaskExecutionLease → TaskExecutionLease
taken_lease session_id fence until now lease = record lease {
  owner_id = session_id;
  fence = fence;
  lease_until = until;
  acquired_at = now;
  renewed_at = now;
  released_at = none;
}

abbrev pub fence_before : ℕ → TaskExecutionLease → Bool
fence_before fence lease = lease.fence + 1 == fence

-- The lease rows of a claim: a takeover of the row that was read, or a first lease.
abbrev pub claimed_leases : LeaseRows → String → ℕ → String → ℕ → Bool → ℕ → ℕ → ℕ → LeaseRows
claimed_leases rows workspace_id task_id session_id fence takeover until now start =
    if takeover
    then update_lease rows workspace_id task_id (fence_before fence)
        (taken_lease session_id fence until now)
    else write_lease rows workspace_id task_id
        (first_lease workspace_id task_id session_id until start)

abbrev pub busy_session : ℕ → ℕ → Session → Session
busy_session task_id now s = record s {
  status = "busy";
  current_task_id = some task_id;
  last_heartbeat = now;
}

abbrev pub is_busy : Session → Bool
is_busy s = elim s.current_task_id [
  | none ↦ false
  | some _ ↦ str_eq s.status "busy" || str_eq s.status "working"
]

module _ {Raw Evidence : Type 0} where
  -- The conditions of `selectClaimableTaskTx`. A task identifier of 0 asks for any task.
  unfoldable pub is_claimable :
      Database Raw Evidence → ℕ → String → List String → ℕ → (Task → Bool) → Task → Bool
  is_claimable db now workspace_id capabilities task_id is_locked t =
      str_eq t.workspace_id workspace_id
      && is_due db.leases now t
      && is_capable capabilities t
      && not (any (is_blocking db.tasks t) db.dependencies)
      && (task_id == 0 || t.id == task_id)
      && not (is_locked t)

  unfoldable pub select_claimable_task :
      Database Raw Evidence → ℕ → String → List String → ℕ → (Task → Bool) → Option Task
  select_claimable_task db now workspace_id capabilities task_id is_locked =
      earliest (is_claimable db now workspace_id capabilities task_id is_locked) db.tasks

module _ {Raw Evidence : Type 0} (calls : TaskCalls Raw Evidence) where
  unfoldable pub transition_dead_letter :
      Round → Database Raw Evidence → Task → String → Result TaskError (Database Raw Evidence)
  transition_dead_letter round db task reason = do
    event ←
        new_task_event calls round.env "task.deadlettered"
          (calls.encode_payload (dead_payload task.id reason)) task.workspace_id task.id
          (text_or_blank task.assigned_session) "system"
          (outcome_deltas calls task.id "deadletter" reason "")
    let db1 : Database Raw Evidence = record db {
      tasks = update_task db.tasks task.workspace_id task.id (dead_row reason (round.clock 1));
      leases =
          update_lease db.leases task.workspace_id task.id is_unreleased
            (closed_lease (round.clock 2));
      sessions = release_session db.sessions task (round.clock 3);
    }
    (_, db2) ← append_event calls round.env db1 event
    ok db2

  -- The part of a round behind the test of the attempts: the lease, the row, the session, the event.
  unfoldable pub claim_task :
      Round
      → ℕ
      → Database Raw Evidence
      → String
      → String
      → ℕ
      → String
      → Task
      → Result TaskError (TaskClaimResult Raw × Database Raw Evidence)
  claim_task round start db w session_id ttl actor_id task = do
    found ← read_task_lease db (round.clock 1) w task.id
    (fence, takeover) ← next_fence found
    let until = lease_end (round.clock 2) ttl
    let db1 : Database Raw Evidence = record db {
      leases =
          claimed_leases db.leases w task.id session_id fence takeover until (round.clock 2) start;
    }
    refound ← read_task_lease db1 (round.clock 3) w task.id
    lease ← active_lease refound
    let db2 : Database Raw Evidence = record db1 {
      tasks = update_task db1.tasks w task.id (claimed_row session_id fence (round.clock 4));
      sessions =
          (update_where db1.sessions w session_id (λ _. true)
            (busy_session task.id (round.clock 5))).0;
    }
    let actor = if is_empty (trim actor_id) then session_id else trim actor_id
    event ←
        new_task_event calls round.env "task.claimed"
          (calls.encode_payload (claimed_payload task.id session_id fence takeover)) w task.id
          session_id actor
          (task_status_delta calls task.id "claimed"
            ∷ task_string_delta calls task.id "assigned_session" session_id
            ∷ [])
    (appended, db3) ← append_event calls round.env db2 event
    claimed ← read_task db3 w task.id
    ok (record { task = claimed; lease = lease; event = appended; takeover = takeover }, db3)

  -- The loop, on the rounds that are left: `none` stands for `ErrTaskNoReady`, which commits.
  unfoldable pub claim_rounds :
      ℕ
      → (ℕ → Round)
      → ℕ
      → Database Raw Evidence
      → String
      → String
      → List String
      → ℕ
      → ℕ
      → String
      → Result TaskError (Option (TaskClaimResult Raw) × Database Raw Evidence)
  claim_rounds zero rounds start db w session_id capabilities task_id ttl actor_id = ok (none, db)
  claim_rounds (suc left) rounds start db w session_id capabilities task_id ttl actor_id =
      let round = rounds left in
      elim (select_claimable_task db (round.clock 0) w capabilities task_id round.is_locked) [
        | none ↦ ok (none, db)
        | some task ↦ elim (leb task.max_attempts task.attempts) [
          | true ↦ do
            db' ← transition_dead_letter round db task "retry budget exhausted"
            claim_rounds left rounds start db' w session_id capabilities task_id ttl actor_id
          | false ↦ do
            (r, db') ← claim_task round start db w session_id ttl actor_id task
            ok (some r, db')
        ]
      ]

  unfoldable pub claim_next :
      (ℕ → Round)
      → ℕ
      → Database Raw Evidence
      → TaskClaimInput
      → Result TaskError (Option (TaskClaimResult Raw) × Database Raw Evidence)
  claim_next rounds start db input = do
    let w = normalize_workspace input.workspace_id
    let session_id = trim input.session_id
    guard (not (is_empty session_id)) session_required
    elim (db.sessions w session_id) [
      | none ↦ err session_not_found
      | some s ↦ do
        guard (not (is_busy s)) session_busy
        claim_rounds 100 rounds start db w session_id s.capabilities input.task_id
            (bounded_task_lease_ttl input.lease_ttl) input.actor_id
    ]
