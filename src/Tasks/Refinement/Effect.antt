-- ===== src/Tasks/Refinement/Effect.antt =====
-- What a call on a task asks for and does, and what follows from it.
use fornix.Base.{ℕ, ◌≡◌, sym, ◌∙◌, subst, ◌⊎◌, inl, inr, String, false, ◌&&◌, none, some}
use fornix.Event.Normalize.{Env}
use fornix.Lease.{Clock}
use fornix.Tasks.Types.{Task, Database, TaskMutationResult}
use fornix.Tasks.Rules.{is_task_terminal}
use fornix.Tasks.Events.{TaskCalls}
use fornix.Tasks.Machine.{view, Move}
use fornix.Tasks.Rows.{find_task}
use fornix.Tasks.Rows.Authority.{IsHolder, IsAuthorized}
use fornix.Tasks.Rows.Keys.{KeepsKey, IsKeyed, IsKeyed-update, find_task-is_task}
use fornix.Tasks.Outcomes.{Outcome}
use fornix.Tasks.Refinement.{Refines, Refines-refl, Refines-update}
use fornix.Tasks.Refinement.Outcomes.{Resolution}

module _ {Raw Evidence : Type 0} (calls : TaskCalls Raw Evidence) (env : Env) (clock : Clock) where
  -- The outcome that a call asks for, of the task that it names, and that it is a move.
  pub record IsCall (db : Database Raw Evidence) (w : String) (i : ℕ) (owner : String) (fence : ℕ)
      (o : Outcome Raw) : Type 0 where
    pub found : find_task db.tasks w i ≡ some o.task
    pub workspace : o.workspace_id ≡ w
    pub same_owner : o.owner_id ≡ owner
    pub same_fence : o.fence ≡ fence
    pub keeps : (now : ℕ) → KeepsKey (o.row now)
    pub moves :
        (now : ℕ)
        → (o.is_final && is_task_terminal o.task.status) ≡ false
        → IsAuthorized db (clock 0) o.task o.owner_id o.fence o.is_final
        → Move (view o.task) (view (o.row now o.task))

  -- What a call that returns did: nothing, for a request that was seen, or its outcome.
  abbrev pub Effect :
      Database Raw Evidence
      → Database Raw Evidence
      → String
      → ℕ
      → String
      → ℕ
      → TaskMutationResult Raw
      → Type 0
  Effect db db' w i owner fence r =
      (o : Outcome Raw) × IsCall db w i owner fence o
      × (r' : TaskMutationResult Raw) × (r'.deduped ≡ r.deduped)
      × (r'.task ≡ r.task)
      × Resolution calls env clock o db db' r'

  pub Effect-Refines :
      (db db' : Database Raw Evidence) (w : String) (i : ℕ) (owner : String) (fence : ℕ)
      (r : TaskMutationResult Raw)
      → Effect db db' w i owner fence r
      → Refines db.tasks db'.tasks
  Effect-Refines db db' w i owner fence r (o, c, r', _, _, resolution) = elim resolution [
    | inl (_, same) ↦ rw same (Refines-refl db.tasks)
    | inr s ↦
        let key = find_task-is_task db.tasks w i o.task c.found in
        let found : find_task db.tasks o.workspace_id o.task.id ≡ some o.task =
          rw c.workspace (subst (λ n. find_task db.tasks w n ≡ some o.task) (sym key.1) c.found) in
        rw s.rows (
          Refines-update db.tasks o.workspace_id o.task.id (o.row (clock 1)) o.task
            (c.keeps (clock 1)) found (c.moves (clock 1) s.live s.authorized))
  ]

  pub Effect-IsKeyed :
      (db db' : Database Raw Evidence) (w : String) (i : ℕ) (owner : String) (fence : ℕ)
      (r : TaskMutationResult Raw)
      → Effect db db' w i owner fence r
      → IsKeyed db.tasks
      → IsKeyed db'.tasks
  Effect-IsKeyed db db' w i owner fence r (o, c, r', _, _, resolution) keyed = elim resolution [
    | inl (_, same) ↦ rw same keyed
    | inr s ↦ rw s.rows (
        IsKeyed-update db.tasks o.workspace_id o.task.id (o.row (clock 1)) (c.keeps (clock 1))
          keyed)
  ]

  -- A call that takes effect on a task shows its authority.
  pub Effect-authority :
      (db db' : Database Raw Evidence) (w : String) (i : ℕ) (owner : String) (fence : ℕ)
      (r : TaskMutationResult Raw)
      → r.deduped ≡ false
      → Effect db db' w i owner fence r
      → (t : Task) × (find_task db.tasks w i ≡ some t)
        × (IsHolder db (clock 0) t owner fence
            ⊎ ((t.assigned_session ≡ none) × (t.status ≡ "pending") × (fence ≡ 0)))
  Effect-authority db db' w i owner fence r fresh (o, c, r', d, _, resolution) = elim resolution [
    | inl (seen, _) ↦ absurd (cc (sym seen ∙ d ∙ fresh))
    | inr s ↦ (
      o.task,
      c.found,
      elim (subst (λ x. IsAuthorized db (clock 0) o.task x fence o.is_final) c.same_owner
          (subst (λ f. IsAuthorized db (clock 0) o.task o.owner_id f o.is_final) c.same_fence
            s.authorized)) [ inl holder ↦ inl holder | inr u ↦ inr (u.1, u.2, u.3) ],
    )
  ]
