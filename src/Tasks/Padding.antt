-- ===== src/Tasks/Padding.antt =====
-- An outcome whose idempotency key has blanks around it (`latestEventForIdempotencyOrEvent`,
-- internal/store/tasks.go): the record is stored under the trimmed key, and read under the key as
-- it is.
use fornix.Base.{
  ◌≡◌, ◌≢◌, sym, ap, ◌∙◌, subst, inl, inr, String, str_eq, trim, trim_idem, is_empty, false, ◌&&◌,
  none, leb, if◌then◌else◌, Bool-cases, ok, >>=-eq-ok, guard-eq-ok, ok-injective, err-not-ok, Table,
  write_lem,
}
use fornix.Policy.Types.{byte_length, lower_trim}
use fornix.Event.Types.{
  EventEnvelope, event_id_too_long, bad_event_type, unsupported_schema, key_too_long, bad_payload,
}
use fornix.Event.Normalize.{
  Env, RawJson, normalize, normalize_scope, normalize_actor, normalize_policy, validate_entity_ref,
  on_some, normalize_delta, normalize_artifact, map_ok, is_event_type, is_one, event_schema,
  payload_of,
}
use fornix.Event.Append.{EventStore, IdempotencyRecord, with_record}
use fornix.Event.Append.History.{append_tx-AppendOutcome}
use fornix.Lease.{Clock}
use fornix.Tasks.Types.{Database, TaskMutationResult}
use fornix.Tasks.Events.{TaskCalls}
use fornix.Tasks.Idempotency.{latest_event_for}
use fornix.Tasks.Outcomes.{Outcome, settle}
use fornix.Tasks.Refinement.Outcomes.{settle-IsSettled}

normalize-key :
    {Raw : Type 0} (json : RawJson Raw) (env : Env) (event e : EventEnvelope Raw)
    → normalize json env event ≡ ok e
    → e.idempotency_key ≡ trim event.idempotency_key
unfolding normalize
normalize-key json env event e h =
    let scope = normalize_scope event.scope in
    let event_id = if is_empty (trim event.event_id) then env.new_id else trim event.event_id in
    let payload = payload_of json event.payload in
    let (_, h1) = guard-eq-ok (leb (byte_length event_id) 128) event_id_too_long _ h in
    let (_, h2) = guard-eq-ok (is_event_type (lower_trim event.event_type)) bad_event_type _ h1 in
    let (_, h3) =
      guard-eq-ok (is_one (event_schema event.schema_version)) unsupported_schema _ h2 in
    let (_, h4) =
      guard-eq-ok (leb (byte_length (trim event.idempotency_key)) 256) key_too_long _ h3 in
    let (actor, _, h5) = >>=-eq-ok (normalize_actor event.actor) _ h4 in
    let (task, _, h6) = >>=-eq-ok (on_some (validate_entity_ref "task") event.task) _ h5 in
    let (session, _, h7) = >>=-eq-ok (on_some (validate_entity_ref "session") event.session) _ h6 in
    let (policy, _, h8) =
      >>=-eq-ok (on_some (normalize_policy scope.workspace_id) event.policy) _ h7 in
    let (_, h9) =
      guard-eq-ok (leb (json.raw_length payload) 4194304 && json.is_valid payload) bad_payload _
        h8 in
    let (deltas, _, h10) = >>=-eq-ok (map_ok (normalize_delta json) event.state_deltas) _ h9 in
    let (artifacts, _, h11) = >>=-eq-ok (map_ok normalize_artifact event.artifacts) _ h10 in
    ap (λ x. x.idempotency_key) (sym (ok-injective h11))

latest-missing :
    {Raw Evidence : Type 0} (store : EventStore Raw Evidence) (w key : String)
    (event e : EventEnvelope Raw)
    → is_empty (trim key) ≡ false
    → store.records w key ≡ none
    → latest_event_for store w key event ≢ ok e
unfolding latest_event_for
latest-missing store w key event e p look h = err-not-ok (rw (p, look, latest_event_for) at h)

-- The record of an event leaves the other keys.
other-record :
    {Raw Evidence : Type 0} (calls : TaskCalls Raw Evidence) (t : Table IdempotencyRecord)
    (hash : String) (e : EventEnvelope Raw) (w key : String)
    → str_eq e.idempotency_key key ≡ false
    → t w key ≡ none
    → with_record calls.events t hash e w key ≡ none
other-record calls t hash e w key other look = elim (Bool-cases (is_empty e.idempotency_key)) [
  | inl p ↦ rw p look
  | inr p ↦ rw p (
      write_lem t e.scope.workspace_id e.idempotency_key _ w key
      ∙ elim (Bool-cases (str_eq e.scope.workspace_id w)) [
        | inl q ↦ rw (q, other) look
        | inr q ↦ rw q look
      ])
]

module _ {Raw Evidence : Type 0} (calls : TaskCalls Raw Evidence) (env : Env) (clock : Clock) where
  -- A padded key never succeeds: an outcome whose key is not blank and not trimmed, with an event
  -- that carries the trimmed key and no record under the padded one, returns no result. So a
  -- completion, failure or cancellation with such a key, once it is past the duplicates, is rolled
  -- back with an error.
  pub settle-padded :
      (o : Outcome Raw) (db db' : Database Raw Evidence) (r : TaskMutationResult Raw)
      → is_empty (trim o.idempotency_key) ≡ false
      → str_eq (trim o.idempotency_key) o.idempotency_key ≡ false
      → o.event.idempotency_key ≡ trim o.idempotency_key
      → db.events.records o.workspace_id o.idempotency_key ≡ none
      → settle calls env clock db o ≢ ok (r, db')
  settle-padded o db db' r filled padded key unused h =
      let s = settle-IsSettled calls env clock o db db' r h in
      let (e, n, outcome) =
        append_tx-AppendOutcome calls.events env o.event db.events s.db1.events s.appended.result
          s.appended.appended in
      let key' : e.idempotency_key ≡ trim o.idempotency_key =
        normalize-key calls.events.json env o.event e n
        ∙ ap trim key
        ∙ trim_idem o.idempotency_key in
      let look : s.db1.events.records o.workspace_id o.idempotency_key ≡ none = elim outcome [
        | inr d ↦ ap (λ x. x.records o.workspace_id o.idempotency_key) d.unchanged ∙ unused
        | inl i ↦
            let same : s.appended.result.event.idempotency_key ≡ trim o.idempotency_key =
              ap (λ x. x.idempotency_key) i.event ∙ key' in
            ap (λ t. t o.workspace_id o.idempotency_key) i.recorded
            ∙ other-record calls db.events.records i.hash s.appended.result.event o.workspace_id
                o.idempotency_key
                (subst (λ k. str_eq k o.idempotency_key ≡ false) (sym same) padded) unused
      ] in
      latest-missing db'.events o.workspace_id o.idempotency_key s.stored r.event filled
        (ap (λ x. x.records o.workspace_id o.idempotency_key) s.events ∙ look) s.latest
