-- ===== src/Tasks/Refinement/Calls.antt =====
-- `Complete`, `Fail` and `Cancel`, each as an outcome that is a move.
use fornix.Base.{
  ℕ, ◌≡◌, refl, ap, subst, ◌⊎◌, inl, inr, String, str_eq, eq_iff, trim, is_empty, Bool, true, false,
  ◌&&◌, ◌||◌, some, ltb, if◌then◌else◌, Bool-cases, ok, >>=-eq-ok, guard-eq-ok, ok-injective, arith,
}
use fornix.Event.Normalize.{Env}
use fornix.Lease.{Clock}
use fornix.Tasks.Types.{
  Task, Database, TaskMutationResult, TaskOutcomeInput, TaskFailureInput, TaskCancelInput,
  invalid_status, unknown_failure_class,
}
use fornix.Tasks.Rules.{normalize_workspace, is_task_terminal, is_failure_class, retry_delay}
use fornix.Tasks.Events.{TaskCalls, cancelled_payload, failed_payload, outcome_deltas}
use fornix.Tasks.Machine.{view, Move, progress, retry, finish}
use fornix.Tasks.Rows.{read_task}
use fornix.Tasks.Rows.Authority.{IsAuthorized}
use fornix.Tasks.Idempotency.{existing_idempotency_event}
use fornix.Tasks.Outcomes.{
  Outcome, outcome_event, complete_or_progress, complete, fail, cancel, resolve_or_settle,
  payload_or, failure_class_of, is_retryable, failed_row, completed_row, cancelled_row,
  original_type, failure_event_type, failure_event_status, failure_status,
}
use fornix.Tasks.Refinement.Outcomes.{read-found, Resolution, resolve_or_settle-Resolution}
use fornix.Tasks.Refinement.Effect.{Effect}

either_text : (s a b : String) → (str_eq s a || str_eq s b) ≡ true → (s ≡ a) ⊎ (s ≡ b)
either_text s a b h = elim (Bool-cases (str_eq s a)) [
  | inl p ↦ inl ((eq_iff s a).0 p)
  | inr p ↦ inr ((eq_iff s b).0 (rw p at h))
]

module _ {Raw Evidence : Type 0} (calls : TaskCalls Raw Evidence) (env : Env) (clock : Clock) where
  completed_row-Move :
      (db : Database Raw Evidence) (t : Task) (owner : String) (fence : ℕ)
      (status result assigned : String) (now : ℕ)
      → (status ≡ "done") ⊎ (status ≡ "in_progress")
      → (str_eq status "done" && is_task_terminal t.status) ≡ false
      → IsAuthorized db (clock 0) t owner fence (str_eq status "done")
      → Move (view t) (view (completed_row status result assigned now t))
  completed_row-Move db t owner fence status result assigned now s live auth = elim s [
    | inl e ↦ rw e (finish "done" (rw e at live) refl)
    | inr e ↦ elim auth [
      | inl holder ↦ rw e (progress holder.session assigned holder.assigned)
      | inr u ↦ absurd (cc (rw e at u.0))
    ]
  ]

  complete_or_progress-Effect :
      (db db' : Database Raw Evidence) (input : TaskOutcomeInput Raw) (status : String)
      (r : TaskMutationResult Raw)
      → (status ≡ "done") ⊎ (status ≡ "in_progress")
      → complete_or_progress calls env clock db input status ≡ ok (r, db')
      → Effect calls env clock db db'
          (normalize_workspace input.workspace_id)
          input.task_id
          input.owner_id
          input.fence
          r
  unfolding complete_or_progress
  complete_or_progress-Effect db db' input status r s h =
      let w = normalize_workspace input.workspace_id in
      let (task, k, h1) = >>=-eq-ok (read_task db w input.task_id) _ h in
      let assigned = if str_eq status "in_progress" then trim input.owner_id else "" in
      let event_type = if str_eq status "done" then "task.completed" else "task.progressed" in
      let (event, e, h2) =
        >>=-eq-ok
          (outcome_event calls env clock event_type input.payload w task.id input.owner_id
            input.actor_id (outcome_deltas calls task.id status input.result assigned)
            input.idempotency_key)
          _ h1 in
      let o : Outcome Raw = record {
        workspace_id = w;
        task = task;
        owner_id = input.owner_id;
        fence = input.fence;
        idempotency_key = input.idempotency_key;
        is_final = str_eq status "done";
        event = event;
        row = completed_row status input.result assigned;
      } in
      (
        o,
        record {
          found = read-found db w input.task_id task k;
          workspace = refl;
          same_owner = refl;
          same_fence = refl;
          keeps = λ now t. (refl, refl);
          moves = λ now live auth.
              completed_row-Move db task input.owner_id input.fence status input.result assigned now
                s live auth;
        },
        r,
        refl,
        refl,
        resolve_or_settle-Resolution calls env clock o db db' r h2,
      )

  pub complete-Effect :
      (db db' : Database Raw Evidence) (input : TaskOutcomeInput Raw) (r : TaskMutationResult Raw)
      → complete calls env clock db input ≡ ok (r, db')
      → Effect calls env clock db db'
          (normalize_workspace input.workspace_id)
          input.task_id
          input.owner_id
          input.fence
          r
  unfolding complete
  complete-Effect db db' input r h =
      let status = if is_empty (trim input.status) then "done" else trim input.status in
      let (c, h1) =
        guard-eq-ok (str_eq status "done" || str_eq status "in_progress") invalid_status _ h in
      complete_or_progress-Effect db db' input status r (either_text status "done" "in_progress" c)
        h1

  pub cancel-Effect :
      (db db' : Database Raw Evidence) (input : TaskCancelInput Raw) (r : TaskMutationResult Raw)
      → cancel calls env clock db input ≡ ok (r, db')
      → Effect calls env clock db db'
          (normalize_workspace input.workspace_id)
          input.task_id
          input.owner_id
          input.fence
          r
  unfolding cancel
  cancel-Effect db db' input r h =
      let w = normalize_workspace input.workspace_id in
      let (task, k, h1) = >>=-eq-ok (read_task db w input.task_id) _ h in
      let payload =
        payload_or calls env clock
          (calls.encode_payload (cancelled_payload input.task_id input.reason)) input.payload in
      let (event, e, h2) =
        >>=-eq-ok
          (outcome_event calls env clock "task.cancelled" (some payload) w input.task_id
            input.owner_id input.actor_id
            (outcome_deltas calls input.task_id "cancelled" input.reason "") input.idempotency_key)
          _ h1 in
      let o : Outcome Raw = record {
        workspace_id = w;
        task = task;
        owner_id = input.owner_id;
        fence = input.fence;
        idempotency_key = input.idempotency_key;
        is_final = true;
        event = event;
        row = cancelled_row input.reason;
      } in
      (
        o,
        record {
          found = read-found db w input.task_id task k;
          workspace = refl;
          same_owner = refl;
          same_fence = refl;
          keeps = λ now t. (refl, refl);
          moves = λ now live auth. finish "cancelled" live refl;
        },
        r,
        refl,
        refl,
        resolve_or_settle-Resolution calls env clock o db db' r h2,
      )

  failed_row-Move :
      (t : Task) (retryable : Bool) (error class : String) (delay now : ℕ)
      → is_task_terminal t.status ≡ false
      → Move (view t) (
          view (
            failed_row
              (failure_status (retryable && ltb t.attempts t.max_attempts) retryable)
              error
              class
              retryable
              delay
              now
              t))
  failed_row-Move t retryable error class delay now live =
      elim (Bool-cases (retryable && ltb t.attempts t.max_attempts)) [
        | inl p ↦ rw p (retry live (ground (arith, p)))
        | inr p ↦ elim (Bool-cases retryable) [
          | inl q ↦ rw (p, q) (finish "deadletter" live refl)
          | inr q ↦ rw (p, q) (finish "failed" live refl)
        ]
      ]

  pub fail-Effect :
      (db db' : Database Raw Evidence) (input : TaskFailureInput Raw) (r : TaskMutationResult Raw)
      → fail calls env clock db input ≡ ok (r, db')
      → Effect calls env clock db db'
          (normalize_workspace input.workspace_id)
          input.task_id
          input.owner_id
          input.fence
          r
  unfolding fail
  fail-Effect db db' input r h =
      let w = normalize_workspace input.workspace_id in
      let class = failure_class_of input.failure_class in
      let retryable = is_retryable input.retryable class in
      let (_, h0) = guard-eq-ok (is_failure_class class) unknown_failure_class _ h in
      let (task, k, h1) = >>=-eq-ok (read_task db w input.task_id) _ h0 in
      let will_retry = retryable && ltb task.attempts task.max_attempts in
      let (existing, x, h2) =
        >>=-eq-ok (existing_idempotency_event db.events w input.idempotency_key) _ h1 in
      let event_type =
        original_type calls env clock existing (failure_event_type will_retry retryable) in
      let payload =
        payload_or calls env clock
          (calls.encode_payload (failed_payload input.task_id input.error class retryable))
          input.payload in
      let (event, e, h3) =
        >>=-eq-ok
          (outcome_event calls env clock event_type (some payload) w input.task_id input.owner_id
            input.actor_id
            (outcome_deltas calls input.task_id (failure_event_status event_type) input.error "")
            input.idempotency_key)
          _ h2 in
      let o : Outcome Raw = record {
        workspace_id = w;
        task = task;
        owner_id = input.owner_id;
        fence = input.fence;
        idempotency_key = input.idempotency_key;
        is_final = true;
        event = event;
        row =
            failed_row (failure_status will_retry retryable) input.error class retryable
              (retry_delay task.attempts input.retry_after);
      } in
      let ((r', db1), s, h4) = >>=-eq-ok (resolve_or_settle calls env clock db o) _ h3 in
      let whole = ok-injective h4 in
      (
        o,
        record {
          found = read-found db w input.task_id task k;
          workspace = refl;
          same_owner = refl;
          same_fence = refl;
          keeps = λ now t. (refl, refl);
          moves = λ now live auth.
              failed_row-Move task retryable input.error class
                (retry_delay task.attempts input.retry_after) now live;
        },
        r',
        ap (λ y. y.0.deduped) whole,
        ap (λ y. y.0.task) whole,
        subst (λ d. Resolution calls env clock o db d r') (ap (λ y. y.1) whole)
            (resolve_or_settle-Resolution calls env clock o db db1 r' s),
      )
