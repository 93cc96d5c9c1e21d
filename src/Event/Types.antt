-- ===== src/Event/Types.antt =====
-- Events and what they hold (internal/contracts/events.go). Raw JSON is a parameter. A time is a
-- count of microseconds, and 0 is Go's zero time.
use fornix.Base.{ℕ, String, Option, List, ℤ}
use fornix.Policy.Types.{ValidationPolicyRef, PolicyError}

pub data EventError : Type 0 where
  event_id_too_long bad_event_type unsupported_schema key_too_long actor_too_large : EventError
  reference_incomplete reference_kind policy_workspace bad_payload : EventError
  delta_op delta_path delta_value : EventError
  artifact_ref artifact_too_large artifact_hash_length artifact_hash artifact_size : EventError
  policy_error : PolicyError → EventError
  event_id_taken invalid_sequence evidence_error hash_error : EventError
  idempotency_conflict incomplete_idempotency event_missing : EventError

pub record Scope : Type 0 where
  pub workspace_id : String
  pub visibility : String
  pub subject : String

pub record ActorRef : Type 0 where
  pub id : String
  pub kind : String
  pub name : String
  pub workspace_id : String

pub record EntityRef : Type 0 where
  pub id : String
  pub kind : String
  pub workspace_id : String

pub record ArtifactReference : Type 0 where
  pub ref : String
  pub kind : String
  pub sha256 : String
  pub media_type : String
  pub size_bytes : ℤ

pub record Provenance : Type 0 where
  pub source_event_ids : List String
  pub source_artifact_refs : List String
  pub source_paths : List String

pub record StateDelta (Raw : Type 0) : Type 0 where
  pub op : String
  pub path : String
  pub value : Raw
  pub evidence : List String

pub record EventEnvelope (Raw : Type 0) : Type 0 where
  pub event_id : String
  pub sequence : ℕ
  pub event_type : String
  pub schema_version : ℤ
  pub occurred_at : ℕ
  pub recorded_at : ℕ
  pub scope : Scope
  pub actor : ActorRef
  pub task : Option EntityRef
  pub session : Option EntityRef
  pub policy : Option ValidationPolicyRef
  pub causation_id : String
  pub correlation_id : String
  pub idempotency_key : String
  pub state_deltas : List (StateDelta Raw)
  pub artifacts : List ArtifactReference
  pub provenance : Provenance
  pub payload : Raw
