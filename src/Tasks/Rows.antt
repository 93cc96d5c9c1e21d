-- ===== src/Tasks/Rows.antt =====
-- The statements on the rows of tasks, leases and sessions, and the authorization of a worker
-- (internal/store/tasks.go).
pub mod Keys
pub mod Authority
use fornix.Base.{
  ℕ, String, str_eq, trim, is_empty, Bool, true, false, not, ◌&&◌, ◌||◌, Option, none, some, ltb,
  ◌==◌, if◌then◌else◌, List, [], ◌∷◌, map, Result, ok, err, ◌>>=◌, ◌>>◌, guard, Table, update_where,
}
use fornix.Event.Types.{EventEnvelope, EventError}
use fornix.Event.Append.{IdempotencyRecord, EventCalls, EventStore, read_event, request_hash}
use fornix.Tasks.Types.{
  TaskError, Task, TaskExecutionLease, Session, Database, task_not_found, lease_missing,
  lease_owned, lease_fenced, lease_expired, lease_released, not_claimed, invalid_fence,
  incomplete_idempotency, idempotency_conflict, event_missing, record_missing,
}

-- WHERE workspace_id=$1 AND id=$2
abbrev pub is_task : String → ℕ → Task → Bool
is_task workspace_id task_id t = str_eq t.workspace_id workspace_id && t.id == task_id

unfoldable pub find_task : List Task → String → ℕ → Option Task
find_task [] workspace_id task_id = none
find_task (t ∷ ts) workspace_id task_id =
    let rest = find_task ts workspace_id task_id in
    if is_task workspace_id task_id t then some t else rest

unfoldable pub update_task : List Task → String → ℕ → (Task → Task) → List Task
update_task [] workspace_id task_id f = []
update_task (t ∷ ts) workspace_id task_id f =
    let rest = update_task ts workspace_id task_id f in
    if is_task workspace_id task_id t then f t ∷ rest else t ∷ rest

abbrev pub LeaseRows : Type 0
LeaseRows = String → ℕ → Option TaskExecutionLease

abbrev pub write_lease : LeaseRows → String → ℕ → TaskExecutionLease → LeaseRows
write_lease rows w t lease a b = if str_eq w a && t == b then some lease else rows a b

abbrev pub update_lease :
    LeaseRows
    → String
    → ℕ
    → (TaskExecutionLease → Bool)
    → (TaskExecutionLease → TaskExecutionLease)
    → LeaseRows
update_lease rows w t test f = elim (rows w t) [
  | none ↦ rows
  | some lease ↦ if test lease then write_lease rows w t (f lease) else rows
]

abbrev pub is_unreleased : TaskExecutionLease → Bool
is_unreleased lease = elim lease.released_at [ none ↦ true | some _ ↦ false ]

-- released_at IS NULL AND lease_until > clock_timestamp()
abbrev pub is_lease_active : TaskExecutionLease → ℕ → Bool
is_lease_active lease now = is_unreleased lease && ltb now lease.lease_until

abbrev pub closed_lease : ℕ → TaskExecutionLease → TaskExecutionLease
closed_lease now lease = record lease {
  lease_until = now;
  released_at = some now;
  renewed_at = now;
}

abbrev pub is_working_on : ℕ → Session → Bool
is_working_on task_id s = elim s.current_task_id [ none ↦ false | some t ↦ t == task_id ]

abbrev pub idle_session : ℕ → Session → Session
idle_session now s = record s { status = "idle"; current_task_id = none; last_heartbeat = now }

-- The session that a task was assigned to becomes idle, where the task is the one it works on.
abbrev pub release_session : Table Session → Task → ℕ → Table Session
release_session sessions task now = elim task.assigned_session [
  | none ↦ sessions
  | some s ↦
      (update_where sessions task.workspace_id s (is_working_on task.id) (idle_session now)).0
]

abbrev pub is_assigned : Task → String → Bool
is_assigned task owner_id = elim task.assigned_session [
  | none ↦ false
  | some s ↦ str_eq (trim s) owner_id
]

abbrev pub is_unassigned : Task → Bool
is_unassigned task = elim task.assigned_session [ none ↦ true | some _ ↦ false ]

-- The tests of `authorizeTaskLeaseTx` on a row.
unfoldable pub authorize_row :
    Task → String → ℕ → TaskExecutionLease × Bool → Result TaskError TaskExecutionLease
authorize_row task owner_id fence (lease, active) = do
  guard (lease.fence == fence) lease_fenced
  guard (str_eq lease.owner_id owner_id) lease_owned
  guard (is_assigned task owner_id) lease_owned
  guard (is_unreleased lease) lease_released
  guard active lease_expired
  ok lease

abbrev pub present :
    Option (TaskExecutionLease × Bool) → Result TaskError (TaskExecutionLease × Bool)
present none = err lease_missing
present (some r) = ok r

-- The lease of a row that must be active, behind a claim or a renewal.
unfoldable pub active_lease :
    Option (TaskExecutionLease × Bool) → Result TaskError TaskExecutionLease
active_lease none = err lease_expired
active_lease (some (lease, active)) = guard active lease_expired >>= λ _. ok lease

-- An outcome of a pending task that no session owns, from a caller without owner and fence.
abbrev pub is_unclaimed : Task → String → ℕ → Bool
is_unclaimed task owner_id fence =
    is_unassigned task && str_eq task.status "pending" && is_empty (trim owner_id) && fence == 0

-- owner_id=$3 AND fence=$4 AND released_at IS NULL
abbrev pub is_released_by : Task → String → TaskExecutionLease → Bool
is_released_by task owner_id lease =
    str_eq lease.owner_id (trim owner_id)
    && lease.fence == task.execution_fence
    && is_unreleased lease

module _ {Raw Evidence : Type 0} where
  -- `readTaskTx`.
  unfoldable pub read_task : Database Raw Evidence → String → ℕ → Result TaskError Task
  read_task db workspace_id task_id = elim (find_task db.tasks workspace_id task_id) [
    | none ↦ err task_not_found
    | some t ↦ ok t
  ]

  -- `readTaskLeaseTx`: the row, if there is one, and whether it is active.
  unfoldable pub read_task_lease :
      Database Raw Evidence → ℕ → String → ℕ → Result TaskError (Option (TaskExecutionLease × Bool))
  read_task_lease db now workspace_id task_id = elim (db.leases workspace_id task_id) [
    | none ↦ ok none
    | some lease ↦
        if lease.fence == 0 then err invalid_fence else ok (some (lease, is_lease_active lease now))
  ]

  unfoldable pub authorize_task_lease :
      Database Raw Evidence → ℕ → Task → String → ℕ → Result TaskError TaskExecutionLease
  authorize_task_lease db now task owner_id fence = do
    guard (not (is_empty (trim owner_id) || fence == 0)) not_claimed
    found ← read_task_lease db now task.workspace_id task.id
    row ← present found
    authorize_row task (trim owner_id) fence row

  unfoldable pub authorize_task_mutation :
      Database Raw Evidence → ℕ → Task → String → ℕ → Bool → Result TaskError (Unit {0})
  authorize_task_mutation db now task owner_id fence allow_unclaimed =
      if allow_unclaimed && is_unclaimed task owner_id fence
      then ok tt
      else authorize_task_lease db now task owner_id fence >>= λ _. ok tt

  unfoldable pub release_task_lease_and_session :
      Database Raw Evidence → ℕ → ℕ → Task → String → Database Raw Evidence
  release_task_lease_and_session db now now' task owner_id = record db {
    leases =
        update_lease db.leases task.workspace_id task.id (is_released_by task owner_id)
          (closed_lease now);
    sessions = release_session db.sessions task now';
  }
