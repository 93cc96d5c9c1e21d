-- ===== src/Tasks/Refinement/Creation.antt =====
-- `Create` and `Renew`: a new task, and no change of a task.
use fornix.Base.{
  ℕ, ℤ, ◌≡◌, refl, sym, ap, ◌∙◌, subst, inl, inr, String, str_eq, trim, is_empty, not, ◌||◌, leb,
  ◌==◌, if◌then◌else◌, none, some, Option-cases, List, [], ◌∷◌, ◌++◌, ok, >>=-eq-ok, guard-eq-ok,
  ok-injective,
}
use fornix.Policy.Types.{byte_length}
use fornix.Event.Types.{EventEnvelope}
use fornix.Event.Normalize.{Env}
use fornix.Lease.{Clock}
use fornix.Tasks.Types.{
  Task, Database, TaskCreateInput, TaskRenewResult, key_too_long, fields_required, self_dependency,
  idempotency_conflict, lease_fenced,
}
use fornix.Tasks.Rules.{
  normalize_workspace, normalize_max_attempts, normalize_task_ids, validate_task_lease_identity,
}
use fornix.Tasks.Events.{TaskCalls, append_event, new_task_event, marshal_raw}
use fornix.Tasks.Rows.{find_task, read_task, read_task_lease, authorize_task_lease, active_lease}
use fornix.Tasks.Rows.Keys.{IsKeyed, IsKeyed-append}
use fornix.Tasks.Create.{
  created_row, find_created, existing_task, insert_dependencies, read_existing_task_create,
  task_create_request_hash, create_inserted, create_existing, create,
}
use fornix.Tasks.Outcomes.{renew}
use fornix.Tasks.Refinement.{Refines-refl, Refines-append}
use fornix.Tasks.Refinement.Claims.{Advances}
use fornix.Tasks.Refinement.Outcomes.{append_event-IsAppended}

module _ {Raw Evidence : Type 0} where
  insert_dependencies-tasks :
      (ds : List ℕ) (db db' : Database Raw Evidence) (w : String) (i : ℕ)
      → insert_dependencies db w i ds ≡ ok db'
      → db'.tasks ≡ db.tasks
  unfolding insert_dependencies
  insert_dependencies-tasks [] db db' w i h = ap (λ d. d.tasks) (sym (ok-injective h))
  insert_dependencies-tasks (d ∷ ds) db db' w i h =
      let (_, _, h1) = >>=-eq-ok (existing_task (find_task db.tasks w d)) _ h in
      let (_, h2) = guard-eq-ok (not (d == i)) self_dependency _ h1 in
      insert_dependencies-tasks ds
        (record db {
          dependencies =
              db.dependencies
              ++ record { workspace_id = w; task_id = i; depends_on_task_id = d } ∷ [];
        })
        db' w i h2

module _ {Raw Evidence : Type 0} (calls : TaskCalls Raw Evidence) where
  create_inserted-tasks :
      (env : Env) (db db' : Database Raw Evidence) (input : TaskCreateInput Raw) (w : String)
      (row : Task) (ds : List ℕ) (payload : Raw) (r : Task × EventEnvelope Raw)
      → create_inserted calls env db input w row ds payload ≡ ok (r, db')
      → db'.tasks ≡ db.tasks ++ row ∷ []
  unfolding create_inserted
  create_inserted-tasks env db db' input w row ds payload r h =
      let (db1, d, h1) =
        >>=-eq-ok (insert_dependencies (record db { tasks = db.tasks ++ row ∷ [] }) w row.id ds) _
          h in
      let (raw, _, h2) = >>=-eq-ok (marshal_raw calls (some payload)) _ h1 in
      let (base, _, h3) = >>=-eq-ok (new_task_event calls env _ _ _ _ _ _ _) _ h2 in
      let ((stored, db2), a, h4) = >>=-eq-ok (append_event calls env db1 _) _ h3 in
      let (task, _, h5) = >>=-eq-ok (read_task db2 w row.id) _ h4 in
      let app = append_event-IsAppended calls env (λ k. k) _ db1 db2 stored a in
      ap (λ x. x.1.tasks) (sym (ok-injective h5))
      ∙ ap (λ x. x.tasks) app.others
      ∙ insert_dependencies-tasks ds (record db { tasks = db.tasks ++ row ∷ [] }) db1 w row.id d

  -- A creation with a key that is seen changes nothing; else it adds a new task, where the sequence
  -- of identifiers gives one that is not taken.
  pub create-Advances :
      (env : Env) (clock : Clock) (start id : ℕ) (db db' : Database Raw Evidence)
      (input : TaskCreateInput Raw) (r : Task × EventEnvelope Raw)
      → IsKeyed db.tasks
      → find_task db.tasks (normalize_workspace input.workspace_id) id ≡ none
      → create calls env clock start id db input ≡ ok (r, db')
      → Advances db.tasks db'.tasks
  unfolding create create_existing
  create-Advances env clock start id db db' input r keyed unused h =
      let w = normalize_workspace input.workspace_id in
      let key = trim input.idempotency_key in
      let (_, h1) = guard-eq-ok (leb (byte_length key) 256) key_too_long _ h in
      let (_, h2) =
        guard-eq-ok
          (not (
            is_empty (trim input.title)
            || is_empty (trim input.brief)
            || is_empty (trim input.created_by)))
          fields_required _ h1 in
      let (max_attempts, _, h3) = >>=-eq-ok (normalize_max_attempts input.max_attempts) _ h2 in
      let (hash, _, h4) =
        >>=-eq-ok
          (task_create_request_hash calls input w max_attempts (normalize_task_ids input.depends_on)
            _)
          _ h3 in
      let row : Task = created_row input w max_attempts id (clock 0) start hash in
      elim (Option-cases (if is_empty key then none else find_created db.tasks w key)) [
        | inl k ↦ rw (create_inserted-tasks env db db' input w row _ _ r (rw k at h4)) (
          Refines-append db.tasks row (record { pending = refl; free = refl; unspent = refl }),
          IsKeyed-append db.tasks row unused keyed,
        )
        | inr (t, k) ↦
            let (_, h5) =
              guard-eq-ok (str_eq t.create_hash hash) idempotency_conflict _ (rw k at h4) in
            let (found, _, h6) = >>=-eq-ok (read_existing_task_create db w t.id key) _ h5 in
            subst (λ x. Advances db.tasks x.1.tasks) (ok-injective h6)
              (Refines-refl db.tasks, keyed)
      ]

  pub renew-tasks :
      (env : Env) (clock : Clock) (db db' : Database Raw Evidence) (workspace_id : String) (i : ℕ)
      (owner : String) (fence : ℕ) (ttl : ℤ) (actor : String) (r : TaskRenewResult Raw)
      → renew calls env clock db workspace_id i owner fence ttl actor ≡ ok (r, db')
      → db'.tasks ≡ db.tasks
  unfolding renew
  renew-tasks env clock db db' workspace_id i owner fence ttl actor r h =
      let w = normalize_workspace workspace_id in
      let (_, _, h1) = >>=-eq-ok (validate_task_lease_identity w owner i) _ h in
      let (_, h2) = guard-eq-ok (not (fence == 0)) lease_fenced _ h1 in
      let (task, _, h3) = >>=-eq-ok (read_task db w i) _ h2 in
      let (_, _, h4) = >>=-eq-ok (authorize_task_lease db (clock 0) task owner fence) _ h3 in
      let (found, _, h5) = >>=-eq-ok (read_task_lease _ (clock 2) w i) _ h4 in
      let (lease, _, h6) = >>=-eq-ok (active_lease found) _ h5 in
      let (event, _, h7) = >>=-eq-ok (new_task_event calls env _ _ _ _ _ _ _) _ h6 in
      let ((stored, db2), a, h8) = >>=-eq-ok (append_event calls env _ event) _ h7 in
      let app = append_event-IsAppended calls env clock event _ db2 stored a in
      ap (λ x. x.1.tasks) (sym (ok-injective h8)) ∙ ap (λ x. x.tasks) app.others
