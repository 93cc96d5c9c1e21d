-- ===== src/Tasks/Refinement/Outcomes.antt =====
-- `Complete`, `Fail`, `Cancel` and `Renew` as moves.
use fornix.Base.{
  ℕ, ◌≡◌, refl, sym, ap, ◌∙◌, ◌⊎◌, inl, inr, String, Bool, true, false, not, ◌&&◌, some,
  Option-cases, if◌then◌else◌, Result, ok, err, >>=-eq-ok, guard-eq-ok, ok-injective, err-not-ok,
  arith,
}
use fornix.Event.Types.{EventEnvelope}
use fornix.Event.Normalize.{Env}
use fornix.Event.Append.{append_tx, AppendResult}
use fornix.Lease.{Clock}
use fornix.Tasks.Types.{Task, Database, TaskMutationResult, terminal}
use fornix.Tasks.Rules.{is_task_terminal}
use fornix.Tasks.Events.{TaskCalls, append_event, lift_event}
use fornix.Tasks.Rows.{
  find_task, update_task, read_task, authorize_task_mutation, release_task_lease_and_session,
}
use fornix.Tasks.Rows.Authority.{IsAuthorized, authorize_task_mutation-IsAuthorized}
use fornix.Tasks.Idempotency.{latest_event_for, resolve_existing_idempotency}
use fornix.Tasks.Outcomes.{Outcome, settle, resolve_or_settle}

module _ {Raw Evidence : Type 0} where
  pub read-found :
      (db : Database Raw Evidence) (w : String) (i : ℕ) (t : Task)
      → read_task db w i ≡ ok t
      → find_task db.tasks w i ≡ some t
  unfolding read_task
  read-found db w i t h = elim (Option-cases (find_task db.tasks w i)) [
    | inl k ↦ err-not-ok (rw (k, read_task) at h)
    | inr (u, k) ↦ k ∙ ap some (ok-injective (rw (k, read_task) at h))
  ]

not-eq-true : (b : Bool) → not b ≡ true → b ≡ false
not-eq-true b h = ground (arith, h)

if_both : {A B : Type 0} (f : A → B) (b : Bool) (x y : A) → f x ≡ f y → f (if b then x else y) ≡ f y
if_both f true x y h = h
if_both f false x y h = refl

lift-ok : {A : Type 0} (r : Result _ A) (a : A) → lift_event r ≡ ok a → r ≡ ok a
lift-ok (ok x) a h = ap ok (ok-injective h)
lift-ok (err e) a h = err-not-ok h

module _ {Raw Evidence : Type 0} (calls : TaskCalls Raw Evidence) (env : Env) (clock : Clock) where
  -- The event is appended, and no row of another table is touched.
  pub record IsAppended (event : EventEnvelope Raw) (db db' : Database Raw Evidence)
      (stored : EventEnvelope Raw) : Type 0 where
    pub result : AppendResult Raw
    pub appended : append_tx calls.events env db.events event ≡ ok (result, db'.events)
    pub is_stored : result.event ≡ stored
    pub others : db' ≡ record db { events = db'.events }

  pub append_event-IsAppended :
      (event : EventEnvelope Raw) (db db' : Database Raw Evidence) (stored : EventEnvelope Raw)
      → append_event calls env db event ≡ ok (stored, db')
      → IsAppended event db db' stored
  unfolding append_event
  append_event-IsAppended event db db' stored h =
      let ((r, events), k, h1) =
        >>=-eq-ok (lift_event (append_tx calls.events env db.events event)) _ h in
      let whole = ok-injective h1 in
      record {
        result = r;
        appended = lift-ok _ _ k ∙ ap (λ x. ok (r, x.1.events)) whole;
        is_stored = ap (λ x. x.0) whole;
        others = sym (ap (λ x. x.1) whole) ∙ ap (λ x. record db { events = x.1.events }) whole;
      }

  -- An outcome that takes effect: the event is appended, and the task's row becomes the outcome's.
  pub record IsSettled (o : Outcome Raw) (db db' : Database Raw Evidence)
      (r : TaskMutationResult Raw) : Type 0 where
    pub live : (o.is_final && is_task_terminal o.task.status) ≡ false
    pub authorized : IsAuthorized db (clock 0) o.task o.owner_id o.fence o.is_final
    pub stored : EventEnvelope Raw
    pub db1 : Database Raw Evidence
    pub appended : IsAppended o.event db db1 stored
    pub rows : db'.tasks ≡ update_task db.tasks o.workspace_id o.task.id (o.row (clock 1))
    pub events : db'.events ≡ db1.events
    pub is_new : r.deduped ≡ false
    pub latest : latest_event_for db'.events o.workspace_id o.idempotency_key stored ≡ ok r.event
    pub returned : find_task db'.tasks o.workspace_id o.task.id ≡ some r.task

  pub settle-IsSettled :
      (o : Outcome Raw) (db db' : Database Raw Evidence) (r : TaskMutationResult Raw)
      → settle calls env clock db o ≡ ok (r, db')
      → IsSettled o db db' r
  unfolding settle release_task_lease_and_session
  settle-IsSettled o db db' r h =
      let (c, h1) = guard-eq-ok (not (o.is_final && is_task_terminal o.task.status)) terminal _ h in
      let (u, a, h2) =
        >>=-eq-ok (authorize_task_mutation db (clock 0) o.task o.owner_id o.fence o.is_final) _
          h1 in
      let ((stored, db1), e, h3) = >>=-eq-ok (append_event calls env db o.event) _ h2 in
      let db2 : Database Raw Evidence = record db1 {
        tasks = update_task db1.tasks o.workspace_id o.task.id (o.row (clock 1));
      } in
      let db3 : Database Raw Evidence =
        if o.is_final
        then release_task_lease_and_session db2 (clock 2) (clock 3) o.task o.owner_id
        else db2 in
      let (latest, l, h4) =
        >>=-eq-ok (latest_event_for db3.events o.workspace_id o.idempotency_key stored) _ h3 in
      let (updated, q, h5) = >>=-eq-ok (read_task db3 o.workspace_id o.task.id) _ h4 in
      let whole = ok-injective h5 in
      let app = append_event-IsAppended o.event db db1 stored e in
      let tasks3 : db3.tasks ≡ db2.tasks = if_both (λ d. d.tasks) o.is_final _ db2 refl in
      let events3 : db3.events ≡ db1.events = if_both (λ d. d.events) o.is_final _ db2 refl in
      record {
        live = not-eq-true _ c;
        authorized =
            authorize_task_mutation-IsAuthorized db (clock 0) o.task o.owner_id o.fence o.is_final u
              a;
        stored = stored;
        db1 = db1;
        appended = app;
        rows =
            ap (λ x. x.1.tasks) (sym whole)
            ∙ tasks3
            ∙ ap (λ x. update_task x.tasks o.workspace_id o.task.id (o.row (clock 1))) app.others;
        events = ap (λ x. x.1.events) (sym whole) ∙ events3;
        is_new = ap (λ x. x.0.deduped) (sym whole);
        latest =
            ap (λ x. latest_event_for x.1.events o.workspace_id o.idempotency_key stored)
              (sym whole)
            ∙ l
            ∙ ap (λ x. ok x.0.event) whole;
        returned =
            ap (λ x. find_task x.1.tasks o.workspace_id o.task.id) (sym whole)
            ∙ read-found db3 o.workspace_id o.task.id updated q
            ∙ ap (λ x. some x.0.task) whole;
      }

  abbrev pub Resolution :
      Outcome Raw → Database Raw Evidence → Database Raw Evidence → TaskMutationResult Raw → Type 0
  Resolution o db db' r = ((r.deduped ≡ true) × (db' ≡ db)) ⊎ IsSettled o db db' r

  pub resolve_or_settle-Resolution :
      (o : Outcome Raw) (db db' : Database Raw Evidence) (r : TaskMutationResult Raw)
      → resolve_or_settle calls env clock db o ≡ ok (r, db')
      → Resolution o db db' r
  unfolding resolve_or_settle
  resolve_or_settle-Resolution o db db' r h =
      let (duplicate, k, h1) =
        >>=-eq-ok
          (resolve_existing_idempotency calls.events db.events o.workspace_id o.idempotency_key
            o.event)
          _ h in
      elim (Option-cases duplicate) [
        | inl n ↦ inr (settle-IsSettled o db db' r (rw n at h1))
        | inr (e, n) ↦
            let whole = ok-injective (rw n at h1) in
            inl (ap (λ x. x.0.deduped) (sym whole), ap (λ x. x.1) (sym whole))
      ]
