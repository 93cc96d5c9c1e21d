-- ===== src/Tasks/Fencing.antt =====
-- The fences of task leases: who may end a task, and what a claim does to the holders before it.
pub mod Leases
pub mod Claims
use fornix.Base.{
  ℕ, zero, suc, ◌+◌, ◌<◌, ◌≤◌, ◌≡◌, refl, sym, ap, ◌∙◌, subst, ◌⊎◌, inl, inr, String, str_eq,
  eq_iff, eq_refl, trim, is_empty, Bool, true, false, not, ◌&&◌, Option, none, some, Option-cases,
  ltb, leb, ◌==◌, ==_iff, if◌then◌else◌, Bool-cases, and-eq-true, Result, ok, err, ◌>>=◌, ◌>>◌,
  guard, >>=-eq-ok, guard-eq-ok, ok-injective, err-not-ok, List, arith,
}
use fornix.Event.Normalize.{Env}
use fornix.Lease.{Clock, lease_end}
use fornix.Tasks.Types.{
  TaskError, Task, TaskExecutionLease, Database, TaskMutationResult, TaskOutcomeInput,
  TaskFailureInput, TaskCancelInput, TaskClaimInput, TaskClaimResult,
}
use fornix.Tasks.Rules.{normalize_workspace}
use fornix.Tasks.Events.{TaskCalls}
use fornix.Tasks.Rows.{find_task}
use fornix.Tasks.Rows.Authority.{IsHolder}
use fornix.Tasks.Rows.Keys.{find_task-is_task}
use fornix.Tasks.Outcomes.{complete, fail, cancel}
use fornix.Tasks.Refinement.Calls.{complete-Effect, fail-Effect, cancel-Effect}
use fornix.Tasks.Refinement.Effect.{Effect, Effect-authority}
use fornix.Tasks.Refinement.Outcomes.{Resolution}

-- A request that ends a task or reports on it.
pub data Mutation (Raw : Type 0) : Type 0 where
  completion : TaskOutcomeInput Raw → Mutation Raw
  failure : TaskFailureInput Raw → Mutation Raw
  cancellation : TaskCancelInput Raw → Mutation Raw

-- The fence of a row, 0 where there is none.
abbrev pub fence_in : Option TaskExecutionLease → ℕ
fence_in none = 0
fence_in (some l) = l.fence

module _ {Raw : Type 0} where
  abbrev pub workspace_of : Mutation Raw → String
  workspace_of (completion input) = normalize_workspace input.workspace_id
  workspace_of (failure input) = normalize_workspace input.workspace_id
  workspace_of (cancellation input) = normalize_workspace input.workspace_id

  abbrev pub task_of : Mutation Raw → ℕ
  task_of (completion input) = input.task_id
  task_of (failure input) = input.task_id
  task_of (cancellation input) = input.task_id

  abbrev pub owner_of : Mutation Raw → String
  owner_of (completion input) = input.owner_id
  owner_of (failure input) = input.owner_id
  owner_of (cancellation input) = input.owner_id

  abbrev pub fence_of : Mutation Raw → ℕ
  fence_of (completion input) = input.fence
  fence_of (failure input) = input.fence
  fence_of (cancellation input) = input.fence

module _ {Raw Evidence : Type 0} (calls : TaskCalls Raw Evidence) (env : Env) (clock : Clock) where
  abbrev pub mutate :
      Database Raw Evidence
      → Mutation Raw
      → Result TaskError (TaskMutationResult Raw × Database Raw Evidence)
  mutate db (completion input) = complete calls env clock db input
  mutate db (failure input) = fail calls env clock db input
  mutate db (cancellation input) = cancel calls env clock db input

  mutate-Effect :
      (db db' : Database Raw Evidence) (m : Mutation Raw) (r : TaskMutationResult Raw)
      → mutate db m ≡ ok (r, db')
      → Effect calls env clock db db' (workspace_of m) (task_of m) (owner_of m) (fence_of m) r
  mutate-Effect db db' (completion input) r h = complete-Effect calls env clock db db' input r h
  mutate-Effect db db' (failure input) r h = fail-Effect calls env clock db db' input r h
  mutate-Effect db db' (cancellation input) r h = cancel-Effect calls env clock db db' input r h

  -- Only with authority: a completion, progress report, failure or cancellation that returns a
  -- result that is no duplicate comes from the holder of the task's unreleased and unexpired lease,
  -- with its fence, or from a caller with fence 0 for a pending task that no session owns.
  pub mutate-authority :
      (db db' : Database Raw Evidence) (m : Mutation Raw) (r : TaskMutationResult Raw)
      → mutate db m ≡ ok (r, db')
      → r.deduped ≡ false
      → (t : Task) × (find_task db.tasks (workspace_of m) (task_of m) ≡ some t)
        × (IsHolder db (clock 0) t (owner_of m) (fence_of m)
            ⊎ ((t.assigned_session ≡ none) × (t.status ≡ "pending") × (fence_of m ≡ 0)))
  mutate-authority db db' m r h fresh =
      Effect-authority calls env clock db db' (workspace_of m) (task_of m) (owner_of m) (fence_of m)
        r fresh (mutate-Effect db db' m r h)

  Effect-unchanged :
      (db db' : Database Raw Evidence) (w : String) (i : ℕ) (owner : String) (fence : ℕ)
      (r : TaskMutationResult Raw)
      → r.deduped ≡ true
      → Effect calls env clock db db' w i owner fence r
      → db' ≡ db
  Effect-unchanged db db' w i owner fence r seen (o, c, r', d, _, resolution) = elim resolution [
    | inl (_, same) ↦ same
    | inr s ↦ absurd (cc (sym s.is_new ∙ d ∙ seen))
  ]

  -- A superseded worker changes nothing: when the task's lease row has another fence than the one,
  -- not 0, that a request shows, then the request fails, or it is a duplicate that leaves the
  -- database as it is.
  pub mutate-superseded :
      (db : Database Raw Evidence) (m : Mutation Raw) (lease : TaskExecutionLease)
      → db.leases (workspace_of m) (task_of m) ≡ some lease
      → 0 < fence_of m
      → (lease.fence == fence_of m) ≡ false
      → (r : TaskMutationResult Raw) (db' : Database Raw Evidence) → mutate db m ≡ ok (r, db')
      → (r.deduped ≡ true) × (db' ≡ db)
  mutate-superseded db m lease row positive other r db' h = elim (Bool-cases r.deduped) [
    | inl seen ↦ (
      seen,
      Effect-unchanged db db' (workspace_of m) (task_of m) (owner_of m) (fence_of m) r seen
          (mutate-Effect db db' m r h),
    )
    | inr fresh ↦
        let (t, found, authority) = mutate-authority db db' m r h fresh in
        elim authority [
          | inr u ↦ absurd (omega (arith, positive, u.2))
          | inl holder ↦
              let (here, same) = find_task-is_task db.tasks (workspace_of m) (task_of m) t found in
              let row' : db.leases t.workspace_id t.id ≡ some lease = rw (here, same) row in
              let e : lease.fence ≡ fence_of m =
                ap fence_in (sym row' ∙ holder.row) ∙ holder.fenced in
              ground (arith, e, other)
        ]
  ]
