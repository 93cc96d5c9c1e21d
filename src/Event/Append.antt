-- ===== src/Event/Append.antt =====
-- `EventStore.AppendTx` (internal/store/events.go) with its idempotency records. The rows of
-- `fornix.control_events` are a list in the order of their insertion, those of
-- `fornix.idempotency_records` a `Table` keyed by workspace and key. The evidence store, another
-- part of the repository, is an interface: its `PutTx`. The digest of a request is a parameter
-- (encoding/json and crypto/sha256), `none` where the request cannot be encoded. The reservation and the completion of a record are one write
-- here: they are of one transaction, and nothing reads in between.
pub mod History
pub mod Retry
use Prim.Native.String.{◌++◌ as append}
use fornix.Base.{
  ℕ, String, str_eq, is_empty, Bool, true, false, not, ◌&&◌, Option, none, some, ◌==◌,
  if◌then◌else◌, List, [], ◌∷◌, ◌++◌, any, All, ◌<◌, ℤ, Result, ok, err, ◌>>=◌, ◌>>◌, guard, Table,
  write, show_nat,
}
use fornix.Policy.Types.{ValidationPolicyRef}
use fornix.Event.Types.{
  EventError, Scope, ActorRef, EntityRef, ArtifactReference, Provenance, StateDelta, EventEnvelope,
  event_id_taken, invalid_sequence, evidence_error, idempotency_conflict, incomplete_idempotency,
  event_missing, hash_error,
}
use fornix.Event.Normalize.{Env, RawJson, normalize}

pub record IdempotencyRecord : Type 0 where
  pub request_hash : String
  pub event_sequence : Option ℕ
  pub event_id : String

-- The event of a result, and whether it was there before.
pub record AppendResult (Raw : Type 0) : Type 0 where
  pub event : EventEnvelope Raw
  pub duplicate : Bool

-- What `RequestHash` digests.
pub record HashInput (Raw : Type 0) : Type 0 where
  pub event_type : String
  pub schema_version : ℤ
  pub scope : Scope
  pub actor : ActorRef
  pub task : Option EntityRef
  pub session : Option EntityRef
  pub policy : Option ValidationPolicyRef
  pub causation_id : String
  pub correlation_id : String
  pub state_deltas : List (StateDelta Raw)
  pub artifacts : List ArtifactReference
  pub provenance : Provenance
  pub payload : Raw

pub record EvidencePutInput (Raw : Type 0) : Type 0 where
  pub workspace_id : String
  pub source_reference : String
  pub deduplication_key : String
  pub kind : String
  pub media_type : String
  pub gist : String
  pub detail : Raw
  pub raw_payload : Raw

-- What an append calls: `json.Compact`, the digest of a request, and the evidence store.
pub record EventCalls (Raw Evidence : Type 0) : Type 0 where
  pub json : RawJson Raw
  pub compact : Raw → Option Raw
  pub digest : HashInput Raw → Option String
  pub put_evidence : Evidence → EvidencePutInput Raw → Option Evidence

pub record EventStore (Raw Evidence : Type 0) : Type 0 where
  pub events : List (EventEnvelope Raw)
  pub records : Table IdempotencyRecord
  pub evidence : Evidence

module _ {Raw : Type 0} where
  -- The sequences rise strictly.
  abbrev pub IsOrdered : List (EventEnvelope Raw) → Type 0
  IsOrdered [] = Unit {0}
  IsOrdered (x ∷ xs) = All (λ (y : EventEnvelope Raw). x.sequence < y.sequence) xs × IsOrdered xs

  -- `readEventBySequenceTx`.
  unfoldable pub read_event : List (EventEnvelope Raw) → String → ℕ → Option (EventEnvelope Raw)
  read_event [] workspace_id sequence = none
  read_event (e ∷ es) workspace_id sequence =
      let rest = read_event es workspace_id sequence in
      if str_eq e.scope.workspace_id workspace_id && e.sequence == sequence then some e else rest

  abbrev pub found_event : Option (EventEnvelope Raw) → Result EventError (EventEnvelope Raw)
  found_event none = err event_missing
  found_event (some e) = ok e

module _ {Raw Evidence : Type 0} where
  module _ (calls : EventCalls Raw Evidence) where
    -- `canonicalJSON`: the raw text itself where it cannot be compacted.
    abbrev pub canonical_json : Raw → Raw
    canonical_json raw = elim (calls.compact raw) [ none ↦ raw | some c ↦ c ]

    abbrev digested : Option String → Result EventError String
    digested none = err hash_error
    digested (some hash) = ok hash

    unfoldable pub request_hash : EventEnvelope Raw → Result EventError String
    request_hash e = digested (
        calls.digest (record {
          event_type = e.event_type;
          schema_version = e.schema_version;
          scope = e.scope;
          actor = e.actor;
          task = e.task;
          session = e.session;
          policy = e.policy;
          causation_id = e.causation_id;
          correlation_id = e.correlation_id;
          state_deltas = e.state_deltas;
          artifacts = e.artifacts;
          provenance = e.provenance;
          payload = canonical_json e.payload;
        }))

    abbrev pub evidence_input : EventEnvelope Raw → EvidencePutInput Raw
    evidence_input e = record {
      workspace_id = e.scope.workspace_id;
      source_reference = append "event:" (show_nat e.sequence);
      deduplication_key = e.event_id;
      kind = "control_event";
      media_type = "application/json";
      gist = e.event_type;
      detail = e.payload;
      raw_payload = e.payload;
    }

    abbrev pub stored_evidence : Option Evidence → Result EventError Evidence
    stored_evidence none = err evidence_error
    stored_evidence (some ev) = ok ev

    -- The record that the event completes, where it has a key.
    abbrev pub with_record :
        Table IdempotencyRecord → String → EventEnvelope Raw → Table IdempotencyRecord
    with_record t hash e =
        if is_empty e.idempotency_key
        then t
        else write t e.scope.workspace_id e.idempotency_key (record {
          request_hash = hash;
          event_sequence = some e.sequence;
          event_id = e.event_id;
        })

    -- The insertion of a normalized event with its digest, and what follows it.
    unfoldable pub insert_event :
        Env
        → EventStore Raw Evidence
        → String
        → EventEnvelope Raw
        → Result EventError (AppendResult Raw × EventStore Raw Evidence)
    insert_event env store hash e = do
      let stored : EventEnvelope Raw = record e {
        sequence = env.sequence;
        recorded_at = env.recorded_at;
      }
      guard (not (any (λ x. str_eq x.event_id e.event_id) store.events)) event_id_taken
      guard (not (env.sequence == 0)) invalid_sequence
      evidence ← stored_evidence (calls.put_evidence store.evidence (evidence_input stored))
      ok (
        record { event = stored; duplicate = false },
        record {
          events = store.events ++ stored ∷ [];
          records = with_record store.records hash stored;
          evidence = evidence;
        },
      )

    -- A key that has a record: the same request gets the event again.
    unfoldable pub read_duplicate :
        EventStore Raw Evidence
        → String
        → EventEnvelope Raw
        → IdempotencyRecord
        → Result EventError (AppendResult Raw × EventStore Raw Evidence)
    read_duplicate store hash e r = do
      guard (str_eq r.request_hash hash) idempotency_conflict
      elim r.event_sequence [
        | none ↦ err incomplete_idempotency
        | some sequence ↦ do
          guard (not (sequence == 0)) incomplete_idempotency
          stored ← found_event (read_event store.events e.scope.workspace_id sequence)
          ok (record { event = stored; duplicate = true }, store)
      ]

    unfoldable pub append_normalized :
        Env
        → EventStore Raw Evidence
        → String
        → EventEnvelope Raw
        → Result EventError (AppendResult Raw × EventStore Raw Evidence)
    append_normalized env store hash e =
        if is_empty e.idempotency_key
        then insert_event env store hash e
        else elim (store.records e.scope.workspace_id e.idempotency_key) [
          | none ↦ insert_event env store hash e
          | some r ↦ read_duplicate store hash e r
        ]

    unfoldable pub append_tx :
        Env
        → EventStore Raw Evidence
        → EventEnvelope Raw
        → Result EventError (AppendResult Raw × EventStore Raw Evidence)
    append_tx env store event = do
      e ← normalize calls.json env event
      hash ← request_hash e
      append_normalized env store hash e
