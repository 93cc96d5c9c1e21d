-- ===== src/Tasks/Refinement/History.antt =====
-- The task store under any sequence of its operations: what a task can become.
use fornix.Base.{ℕ, ℤ, ◌≡◌, refl, String, Option, none, some, ok, true, []}
use fornix.Event.Types.{EventEnvelope}
use fornix.Event.Normalize.{Env}
use fornix.Lease.{Clock}
use fornix.Tasks.Types.{
  Task, Database, TaskCreateInput, TaskClaimInput, TaskClaimResult, TaskOutcomeInput,
  TaskFailureInput, TaskCancelInput, TaskMutationResult, TaskRenewResult,
}
use fornix.Tasks.Rules.{normalize_workspace, is_task_terminal}
use fornix.Tasks.Events.{TaskCalls}
use fornix.Tasks.Machine.{view, Moves-IsEnded, IsSound, Moves-IsSound, IsStart-IsSound}
use fornix.Tasks.Rows.{find_task}
use fornix.Tasks.Rows.Keys.{IsKeyed}
use fornix.Tasks.Create.{create}
use fornix.Tasks.Claim.{Round, claim_next}
use fornix.Tasks.Outcomes.{complete, fail, cancel, renew}
use fornix.Tasks.Refinement.{Refines, Refines-refl, Refines-trans}
use fornix.Tasks.Refinement.Calls.{complete-Effect, fail-Effect, cancel-Effect}
use fornix.Tasks.Refinement.Effect.{Effect, Effect-Refines, Effect-IsKeyed}
use fornix.Tasks.Refinement.Claims.{Advances, claim_next-Advances}
use fornix.Tasks.Refinement.Creation.{create-Advances, renew-tasks}

module _ {Raw Evidence : Type 0} (calls : TaskCalls Raw Evidence) where
  -- One committed operation of the store, by any caller and at any time. BIGSERIAL gives a new task
  -- an identifier that no task has.
  pub data Step (db db' : Database Raw Evidence) : Type 0 where
    created :
        (env : Env) (clock : Clock) (start id : ℕ) (input : TaskCreateInput Raw)
        (r : Task × EventEnvelope Raw)
        → find_task db.tasks (normalize_workspace input.workspace_id) id ≡ none
        → create calls env clock start id db input ≡ ok (r, db')
        → Step db db'
    claimed :
        (rounds : ℕ → Round) (start : ℕ) (input : TaskClaimInput) (r : Option (TaskClaimResult Raw))
        → claim_next calls rounds start db input ≡ ok (r, db')
        → Step db db'
    extended :
        (env : Env) (clock : Clock) (w : String) (i : ℕ) (owner : String) (fence : ℕ) (ttl : ℤ)
        (actor : String) (r : TaskRenewResult Raw)
        → renew calls env clock db w i owner fence ttl actor ≡ ok (r, db')
        → Step db db'
    completed :
        (env : Env) (clock : Clock) (input : TaskOutcomeInput Raw) (r : TaskMutationResult Raw)
        → complete calls env clock db input ≡ ok (r, db')
        → Step db db'
    failed :
        (env : Env) (clock : Clock) (input : TaskFailureInput Raw) (r : TaskMutationResult Raw)
        → fail calls env clock db input ≡ ok (r, db')
        → Step db db'
    cancelled :
        (env : Env) (clock : Clock) (input : TaskCancelInput Raw) (r : TaskMutationResult Raw)
        → cancel calls env clock db input ≡ ok (r, db')
        → Step db db'

  pub data Steps (db : Database Raw Evidence) : Database Raw Evidence → Type 0 where
    start : Steps db db
    then_step : (db1 db2 : Database Raw Evidence) → Steps db db1 → Step db1 db2 → Steps db db2

  Effect-Advances :
      (env : Env) (clock : Clock) (db db' : Database Raw Evidence) (w : String) (i : ℕ)
      (owner : String) (fence : ℕ) (r : TaskMutationResult Raw)
      → IsKeyed db.tasks
      → Effect calls env clock db db' w i owner fence r
      → Advances db.tasks db'.tasks
  Effect-Advances env clock db db' w i owner fence r keyed e = (
    Effect-Refines calls env clock db db' w i owner fence r e,
    Effect-IsKeyed calls env clock db db' w i owner fence r e keyed,
  )

  -- Every operation refines the machine.
  Step-Advances :
      (db db' : Database Raw Evidence)
      → IsKeyed db.tasks
      → Step db db'
      → Advances db.tasks db'.tasks
  Step-Advances db db' keyed (created env clock at id input r unused h) =
      create-Advances calls env clock at id db db' input r keyed unused h
  Step-Advances db db' keyed (claimed rounds at input r h) =
      claim_next-Advances calls rounds at db db' input r keyed h
  Step-Advances db db' keyed (extended env clock w i owner fence ttl actor r h) =
      rw (renew-tasks calls env clock db db' w i owner fence ttl actor r h)
        (Refines-refl db.tasks, keyed)
  Step-Advances db db' keyed (completed env clock input r h) =
      Effect-Advances env clock db db' _ _ _ _ r keyed
        (complete-Effect calls env clock db db' input r h)
  Step-Advances db db' keyed (failed env clock input r h) =
      Effect-Advances env clock db db' _ _ _ _ r keyed
        (fail-Effect calls env clock db db' input r h)
  Step-Advances db db' keyed (cancelled env clock input r h) =
      Effect-Advances env clock db db' _ _ _ _ r keyed
        (cancel-Effect calls env clock db db' input r h)

  -- Refinement: whatever sequence of operations the store runs, with whatever arguments, callers,
  -- clocks and locks, every task that was there is still at its key and got to its new state by moves
  -- of the machine, every other task was pending, free and unspent when it came and got to its state
  -- by moves, and the primary key stays unique.
  pub Steps-Refines :
      (db db' : Database Raw Evidence)
      → IsKeyed db.tasks
      → Steps db db'
      → Refines db.tasks db'.tasks × IsKeyed db'.tasks
  Steps-Refines db db' keyed start = (Refines-refl db.tasks, keyed)
  Steps-Refines db db' keyed (then_step db1 db2 m k) =
      let (f, keyed1) = Steps-Refines db db1 keyed m in
      let (g, keyed2) = Step-Advances db1 db2 keyed1 k in
      (Refines-trans db.tasks db1.tasks db2.tasks f g, keyed2)

  IsKeyed-empty : (db : Database Raw Evidence) → db.tasks ≡ [] → IsKeyed db.tasks
  IsKeyed-empty db e = rw e tt

  -- In every database that operations reach from one without tasks, no task has spent more attempts
  -- than its limit, and a task with a terminal status belongs to no session.
  pub Steps-IsSound :
      (db db' : Database Raw Evidence) (w : String) (i : ℕ) (t : Task)
      → db.tasks ≡ []
      → Steps db db'
      → find_task db'.tasks w i ≡ some t
      → IsSound (view t)
  unfolding find_task
  Steps-IsSound db db' w i t e m h =
      let (f, _) = Steps-Refines db db' (IsKeyed-empty db e) m in
      let nothing : find_task db.tasks w i ≡ none = rw e refl in
      let (t0, begin, moves) = f.fresh w i t nothing h in
      Moves-IsSound (IsStart-IsSound begin) moves

  -- Terminal statuses are final: a task that is done, failed, cancelled or dead in a database that
  -- operations reach from one without tasks has the same status, owner and attempts after any further
  -- operations.
  pub Steps-terminal :
      (db db1 db2 : Database Raw Evidence) (w : String) (i : ℕ) (t : Task)
      → db.tasks ≡ []
      → Steps db db1
      → find_task db1.tasks w i ≡ some t
      → is_task_terminal t.status ≡ true
      → Steps db1 db2
      → (u : Task) × (find_task db2.tasks w i ≡ some u) × (view u ≡ view t)
  Steps-terminal db db1 db2 w i t e m h over n =
      let (_, keyed) = Steps-Refines db db1 (IsKeyed-empty db e) m in
      let (g, _) = Steps-Refines db1 db2 keyed n in
      let (u, k, moves) = g.forward w i t h in
      let sound = Steps-IsSound db db1 w i t e m h in
      (u, k, Moves-IsEnded (over, sound.unowned over) moves)
