-- ===== src/Event/Normalize.antt =====
-- `EventEnvelope.Normalize` and the methods it calls (internal/contracts/events.go). The regular
-- expression of event types is written out as the states of its automaton. Parameters are what the
-- library does: the length of raw JSON and whether it is valid. `NewID` and `time.Now` are read
-- from an `Env`.
use Prim.Native.Char.{code}
use text.Mathlib.Text.{starts_with}
use fornix.Base.{
  ℕ, String, str_eq, trim, is_empty, Bool, true, false, not, ◌&&◌, ◌||◌, Option, none, some, ltb,
  leb, ◌==◌, if◌then◌else◌, List, [], ◌∷◌, any, map, ℤ, pos, negsuc, ltb_ℤ, Result, ok, err, ◌>>=◌,
  ◌>>◌, guard,
}
use fornix.Policy.Types.{ValidationPolicyRef, PolicyError, byte_length, lower_trim}
use fornix.Policy.Normalize.{normalize_ref, all_hex}
use fornix.Event.Types.{
  EventError, Scope, ActorRef, EntityRef, ArtifactReference, Provenance, StateDelta, EventEnvelope,
  event_id_too_long, bad_event_type, unsupported_schema, key_too_long, actor_too_large,
  reference_incomplete, reference_kind, policy_workspace, bad_payload, delta_op, delta_path,
  delta_value, artifact_ref, artifact_too_large, artifact_hash_length, artifact_hash, artifact_size,
  policy_error,
}

abbrev pub default_workspace_id : String
default_workspace_id = "default"

-- What a call reads from outside: a new identifier, the clock, and for an insertion the next value
-- of the sequence and the database's time.
pub record Env : Type 0 where
  pub new_id : String
  pub now : ℕ
  pub sequence : ℕ
  pub recorded_at : ℕ

abbrev is_lower : ℕ → Bool
is_lower c = leb b'a' c && leb c b'z'

-- [a-z0-9_-]
abbrev is_segment : ℕ → Bool
is_segment c = is_lower c || (leb b'0' c && leb c b'9') || c == b'_' || c == b'-'

-- The states of `^[a-z][a-z0-9_-]*(\.[a-z0-9_-]+)+$` behind its first character: in the first
-- segment, at the start of a later one, and in a later one, where a text may end.
pub data TypeState : Type 0 where
  in_first at_start in_later : TypeState

abbrev type_accepts : TypeState → Bool
type_accepts in_first = false
type_accepts at_start = false
type_accepts in_later = true

abbrev after_segment : TypeState → TypeState
after_segment in_first = in_first
after_segment at_start = in_later
after_segment in_later = in_later

abbrev is_start : TypeState → Bool
is_start in_first = false
is_start at_start = true
is_start in_later = false

unfoldable pub matches_from : TypeState → String → Bool
matches_from s String.[] = type_accepts s
matches_from s (String.◌∷◌ c cs) =
    let deeper = matches_from (after_segment s) cs in
    let dotted = matches_from at_start cs in
    if is_segment (code c) then deeper else not (is_start s) && code c == b'.' && dotted

unfoldable pub is_event_type : String → Bool
is_event_type String.[] = false
is_event_type (String.◌∷◌ c cs) = is_lower (code c) && matches_from in_first cs

abbrev pub normalize_scope : Scope → Scope
normalize_scope s = record {
  workspace_id =
      (if is_empty (trim s.workspace_id) then default_workspace_id else trim s.workspace_id);
  visibility = trim s.visibility;
  subject = trim s.subject;
}

unfoldable pub normalize_actor : ActorRef → Result EventError ActorRef
normalize_actor a = do
  guard
      (not (
        ltb 128 (byte_length (trim a.id))
        || ltb 64 (byte_length (trim a.kind))
        || ltb 256 (byte_length (trim a.name))
        || ltb 256 (byte_length (trim a.workspace_id))))
      actor_too_large
  ok (record {
    id = trim a.id;
    kind = trim a.kind;
    name = trim a.name;
    workspace_id = trim a.workspace_id;
  })

-- `validateEntityRef`, of a reference that is not nil.
unfoldable pub validate_entity_ref : String → EntityRef → Result EventError EntityRef
validate_entity_ref expected_kind ref = do
  guard (not (is_empty (trim ref.id) || is_empty (lower_trim ref.kind))) reference_incomplete
  guard (str_eq (lower_trim ref.kind) expected_kind) reference_kind
  ok (record { id = trim ref.id; kind = lower_trim ref.kind; workspace_id = trim ref.workspace_id })

abbrev pub on_some :
    {A B : Type 0} → (A → Result EventError B) → Option A → Result EventError (Option B)
on_some f none = ok none
on_some f (some a) = f a >>= λ b. ok (some b)

abbrev lift_policy : {A : Type 0} → Result PolicyError A → Result EventError A
lift_policy (ok a) = ok a
lift_policy (err e) = err (policy_error e)

unfoldable pub normalize_policy :
    String → ValidationPolicyRef → Result EventError ValidationPolicyRef
normalize_policy workspace_id ref = do
  r ← lift_policy (normalize_ref ref)
  guard (str_eq r.workspace_id workspace_id) policy_workspace
  ok r

unfoldable pub normalize_artifact : ArtifactReference → Result EventError ArtifactReference
normalize_artifact a = do
  let hash = lower_trim a.sha256
  guard (not (is_empty (trim a.ref))) artifact_ref
  guard
      (not (
        ltb 2048 (byte_length (trim a.ref))
        || ltb 128 (byte_length (trim a.kind))
        || ltb 64 (byte_length hash)
        || ltb 256 (byte_length (trim a.media_type))))
      artifact_too_large
  guard (is_empty hash || byte_length hash == 64) artifact_hash_length
  guard (is_empty hash || all_hex hash) artifact_hash
  guard (not (ltb_ℤ a.size_bytes (pos 0))) artifact_size
  ok (record {
    ref = trim a.ref;
    kind = trim a.kind;
    sha256 = hash;
    media_type = trim a.media_type;
    size_bytes = a.size_bytes;
  })

-- `cleanStrings`: trimmed, without blanks, and each once. `seen` is what is kept so far.
unfoldable pub clean_strings : List String → List String → List String
clean_strings seen [] = []
clean_strings seen (v ∷ vs) =
    let value = trim v in
    let skipped = clean_strings seen vs in
    let kept = value ∷ clean_strings (value ∷ seen) vs in
    if is_empty value || any (str_eq value) seen then skipped else kept

abbrev pub normalize_provenance : Provenance → Provenance
normalize_provenance p = record {
  source_event_ids = clean_strings [] p.source_event_ids;
  source_artifact_refs = clean_strings [] p.source_artifact_refs;
  source_paths = clean_strings [] p.source_paths;
}

abbrev pub map_ok : {A B : Type 0} → (A → Result EventError B) → List A → Result EventError (List B)
map_ok f [] = ok []
map_ok f (x ∷ xs) = f x >>= λ y. map_ok f xs >>= λ ys. ok (y ∷ ys)

-- `schema_version`, 1 where it is 0.
abbrev pub event_schema : ℤ → ℤ
event_schema (pos n) = if n == 0 then pos 1 else pos n
event_schema (negsuc n) = negsuc n

abbrev pub is_one : ℤ → Bool
is_one (pos n) = n == 1
is_one (negsuc n) = false

-- A JSON library: the bytes of raw JSON, whether it is valid, and the empty object.
pub record RawJson (Raw : Type 0) : Type 0 where
  pub raw_length : Raw → ℕ
  pub is_valid : Raw → Bool
  pub empty_object : Raw

module _ {Raw : Type 0} (json : RawJson Raw) where
  unfoldable pub normalize_delta : StateDelta Raw → Result EventError (StateDelta Raw)
  normalize_delta d = do
    let op = lower_trim d.op
    guard (str_eq op "set" || str_eq op "add" || str_eq op "remove" || str_eq op "delete") delta_op
    guard (not (is_empty (trim d.path)) && starts_with (trim d.path) "/") delta_path
    guard (str_eq op "delete" || not (json.raw_length d.value == 0) && json.is_valid d.value)
        delta_value
    ok (record { op = op; path = trim d.path; value = d.value; evidence = map trim d.evidence })

  -- The payload, `{}` where it is empty.
  abbrev pub payload_of : Raw → Raw
  payload_of raw = if json.raw_length raw == 0 then json.empty_object else raw

  unfoldable pub normalize : Env → EventEnvelope Raw → Result EventError (EventEnvelope Raw)
  normalize env e = do
    let event_id = if is_empty (trim e.event_id) then env.new_id else trim e.event_id
    let event_type = lower_trim e.event_type
    let scope = normalize_scope e.scope
    let payload = payload_of e.payload
    guard (leb (byte_length event_id) 128) event_id_too_long
    guard (is_event_type event_type) bad_event_type
    guard (is_one (event_schema e.schema_version)) unsupported_schema
    guard (leb (byte_length (trim e.idempotency_key)) 256) key_too_long
    actor ← normalize_actor e.actor
    task ← on_some (validate_entity_ref "task") e.task
    session ← on_some (validate_entity_ref "session") e.session
    policy ← on_some (normalize_policy scope.workspace_id) e.policy
    guard (leb (json.raw_length payload) 4194304 && json.is_valid payload) bad_payload
    deltas ← map_ok normalize_delta e.state_deltas
    artifacts ← map_ok normalize_artifact e.artifacts
    ok (record e {
      event_id = event_id;
      event_type = event_type;
      schema_version = event_schema e.schema_version;
      occurred_at = (if e.occurred_at == 0 then env.now else e.occurred_at);
      scope = scope;
      actor = actor;
      task = task;
      session = session;
      policy = policy;
      idempotency_key = trim e.idempotency_key;
      state_deltas = deltas;
      artifacts = artifacts;
      provenance = normalize_provenance e.provenance;
      payload = payload;
    })
