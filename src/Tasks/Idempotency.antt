-- ===== src/Tasks/Idempotency.antt =====
-- The idempotency records that an outcome of a task reads (internal/store/tasks.go).
use fornix.Base.{
  String, str_eq, trim, is_empty, not, Option, none, some, ◌==◌, if◌then◌else◌, Result, ok, err,
  ◌>>=◌, ◌>>◌, guard,
}
use fornix.Event.Types.{EventEnvelope}
use fornix.Event.Append.{IdempotencyRecord, EventCalls, EventStore, read_event, request_hash}
use fornix.Tasks.Types.{
  TaskError, incomplete_idempotency, idempotency_conflict, event_missing, record_missing,
}
use fornix.Tasks.Events.{lift_event}

module _ {Raw Evidence : Type 0} where
  -- The event that a record names.
  unfoldable pub recorded_event :
      EventStore Raw Evidence → String → IdempotencyRecord → Result TaskError (EventEnvelope Raw)
  recorded_event store workspace_id r = elim r.event_sequence [
    | none ↦ err incomplete_idempotency
    | some n ↦
        if n == 0
        then err incomplete_idempotency
        else elim (read_event store.events workspace_id n) [
          | none ↦ err event_missing
          | some e ↦ ok e
        ]
  ]

  -- `resolveExistingIdempotencyTx`, of a key that is not blank and has a record.
  unfoldable pub resolve_record :
      EventCalls Raw Evidence
      → EventStore Raw Evidence
      → String
      → EventEnvelope Raw
      → IdempotencyRecord
      → Result TaskError (Option (EventEnvelope Raw))
  resolve_record calls store workspace_id candidate r = elim r.event_sequence [
    | none ↦ err incomplete_idempotency
    | some n ↦ do
      guard (not (n == 0)) incomplete_idempotency
      hash ← lift_event (request_hash calls candidate)
      guard (str_eq hash r.request_hash) idempotency_conflict
      event ← recorded_event store workspace_id r
      ok (some event)
  ]

  unfoldable pub resolve_existing_idempotency :
      EventCalls Raw Evidence
      → EventStore Raw Evidence
      → String
      → String
      → EventEnvelope Raw
      → Result TaskError (Option (EventEnvelope Raw))
  resolve_existing_idempotency calls store workspace_id key candidate =
      if is_empty (trim key) then ok none else elim (store.records workspace_id (trim key)) [
        | none ↦ ok none
        | some r ↦ resolve_record calls store workspace_id candidate r
      ]

  -- `existingIdempotencyEventTx`.
  unfoldable pub existing_idempotency_event :
      EventStore Raw Evidence → String → String → Result TaskError (Option (EventEnvelope Raw))
  existing_idempotency_event store workspace_id key =
      if is_empty (trim key) then ok none else elim (store.records workspace_id (trim key)) [
        | none ↦ ok none
        | some r ↦ recorded_event store workspace_id r >>= λ e. ok (some e)
      ]

  -- `latestEventForIdempotencyOrEvent`. The query takes the key as it is, with its blanks.
  unfoldable pub latest_event_for :
      EventStore Raw Evidence
      → String
      → String
      → EventEnvelope Raw
      → Result TaskError (EventEnvelope Raw)
  latest_event_for store workspace_id key event =
      if is_empty (trim key) then ok event else elim (store.records workspace_id key) [
        | none ↦ err record_missing
        | some r ↦ elim r.event_sequence [
          | none ↦ ok event
          | some n ↦ if n == 0 then ok event else elim (read_event store.events workspace_id n) [
            | none ↦ err event_missing
            | some e ↦ ok e
          ]
        ]
      ]
