-- ===== src/Policy/Normalize.antt =====
-- Normalization of packs, references and requests (the `Normalize` methods of
-- internal/contracts/policy.go). `digest` stands for the SHA-256, in lower-case hexadecimal, of a
-- pack's JSON, and `document_bytes` for the length of that JSON. The pointers are not nil, and the
-- JSON encoding of a policy does not fail.
use Prim.Native.Char.{code}
use fornix.Base.{
  ℕ, String, str_eq, trim, is_empty, Bool, true, not, ◌&&◌, ◌||◌, Option, none, some, ltb, leb,
  ◌==◌, if◌then◌else◌, List, [], ◌∷◌, map, any, length, ℤ, pos, negsuc, Result, ok, err, ◌>>=◌,
  ◌>>◌, guard, sort_by,
}
use fornix.Policy.Types.{
  ValidatorRef, ApprovalMode, blank, automatic, required, denied, other, PolicyApprovalConfig,
  ValidationPolicyRef, ValidationPolicyRule, PolicySafetyFloors, ValidationPolicyPack,
  PolicyEvaluationRequest, PolicyError, unsupported_schema, identity_required, identity_too_large,
  bad_hash, unsupported_mode, too_many_scopes, scope_too_large, incomplete_validator,
  validator_too_large, duplicate_validator, too_many_validators, hash_mismatch, document_too_large,
  crosses_workspace, too_many_operation_types, operation_too_large, parse_mode, ref_key, has_key,
  trimmed_ref, byte_length, lower_trim,
}
use fornix.Policy.Budget.{normalize_policy_budget, validate_requested_policy_budget}
use fornix.Policy.Resolve.{ref_lt, text_lt, sort_refs}

-- `if version == 0 { version = 1 }; if version != 1 { error }`.
unfoldable pub normalize_schema : ℤ → Result PolicyError ℤ
normalize_schema (pos n) = if n == 0 || n == 1 then ok (pos 1) else err unsupported_schema
normalize_schema (negsuc n) = err unsupported_schema

-- The text that a lowered mode has, the default for a blank one.
abbrev pub mode_text : ApprovalMode → Result PolicyError String
mode_text blank = ok "required"
mode_text automatic = ok "automatic"
mode_text required = ok "required"
mode_text denied = ok "denied"
mode_text (other _) = err unsupported_mode

abbrev contains : String → List String → Bool
contains s = any (str_eq s)

-- The loop over scopes or operation types: blanks and repetitions are dropped, and one of more than
-- 128 bytes is an error. `seen` is the list of those that were kept, the last one first.
unfoldable pub distinct_names :
    PolicyError → List String → List String → Result PolicyError (List String)
distinct_names too_large seen [] = ok []
distinct_names too_large seen (given ∷ rest) =
    let name = trim given in
    let skipped = distinct_names too_large seen rest in
    let kept = (do names ← distinct_names too_large (name ∷ seen) rest; ok (name ∷ names)) in
    if is_empty name
    then skipped
    else if ltb 128 (byte_length name)
    then err too_large
    else if contains name seen
    then skipped
    else kept

unfoldable pub normalize_approval : PolicyApprovalConfig → Result PolicyError PolicyApprovalConfig
normalize_approval config = do
  mode ← mode_text (parse_mode config.mode)
  guard (leb (length config.require_for) 64) too_many_scopes
  scopes ← distinct_names scope_too_large [] config.require_for
  ok (record { mode = mode; require_for = sort_by text_lt scopes })

-- The characters of a lower-case SHA-256: `validSHA256`.
abbrev pub is_hex : ℕ → Bool
is_hex c = (leb b'0' c && leb c b'9') || (leb b'a' c && leb c b'f')

abbrev pub all_hex : String → Bool
all_hex String.[] = true
all_hex (String.◌∷◌ c cs) = is_hex (code c) && all_hex cs

unfoldable pub valid_sha256 : String → Bool
valid_sha256 value = (byte_length value == 64) && all_hex value

-- One reference of a list of rules or of requested validators: trimmed, complete, short, and new.
unfoldable pub check_ref : List ValidatorRef → ValidatorRef → Result PolicyError ValidatorRef
check_ref seen given = do
  let ref = trimmed_ref given
  guard (not (is_empty ref.id || is_empty ref.version)) incomplete_validator
  guard (not (ltb 128 (byte_length ref.id) || ltb 64 (byte_length ref.version))) validator_too_large
  guard (not (has_key (ref_key ref) seen)) duplicate_validator
  ok ref

-- The loop over the rules of a pack.
unfoldable pub normalize_rules :
    List ValidatorRef → List ValidationPolicyRule → Result PolicyError (List ValidationPolicyRule)
normalize_rules seen [] = ok []
normalize_rules seen (rule ∷ rules) = do
  ref ← check_ref seen rule.validator
  rest ← normalize_rules (ref ∷ seen) rules
  ok (record rule { validator = ref } ∷ rest)

-- `normalizeRequestedValidators`, without its bound on the length.
unfoldable pub normalize_refs :
    List ValidatorRef → List ValidatorRef → Result PolicyError (List ValidatorRef)
normalize_refs seen [] = ok []
normalize_refs seen (given ∷ refs) = do
  ref ← check_ref seen given
  rest ← normalize_refs (ref ∷ seen) refs
  ok (ref ∷ rest)

unfoldable pub normalize_requested_validators :
    List ValidatorRef → Result PolicyError (List ValidatorRef)
normalize_requested_validators refs =
    guard (leb (length refs) 64) too_many_validators >> normalize_refs [] refs

abbrev pub rule_lt : ValidationPolicyRule → ValidationPolicyRule → Bool
rule_lt a b = ref_lt a.validator b.validator

abbrev pub all_floors : PolicySafetyFloors
all_floors = record {
  workspace_isolation = true;
  actor_propagation = true;
  task_fencing = true;
  evidence_integrity = true;
  append_only_history = true;
  replay_safety = true;
}

-- The checks of a reference whose texts are trimmed.
abbrev normalized_ref : ValidationPolicyRef → Result PolicyError ValidationPolicyRef
normalized_ref t = do
  guard (not (is_empty t.workspace_id || is_empty t.policy_id || is_empty t.version))
      identity_required
  guard (not (ltb 128 (byte_length t.policy_id) || ltb 64 (byte_length t.version)))
      identity_too_large
  guard (is_empty t.policy_hash || valid_sha256 t.policy_hash) bad_hash
  ok t

-- The requested mode: blank stays blank.
abbrev request_mode : ApprovalMode → Result PolicyError String
request_mode blank = ok ""
request_mode mode = mode_text mode

-- `ValidationPolicyRef.Normalize`.
unfoldable pub normalize_ref : ValidationPolicyRef → Result PolicyError ValidationPolicyRef
normalize_ref r = do
  schema ← normalize_schema r.schema_version
  let t : ValidationPolicyRef = record {
    schema_version = schema;
    workspace_id = trim r.workspace_id;
    policy_id = trim r.policy_id;
    version = trim r.version;
    policy_hash = lower_trim r.policy_hash;
  }
  normalized_ref t

abbrev trimmed_rule : ValidationPolicyRule → ValidationPolicyRule
trimmed_rule rule = record rule { validator = trimmed_ref rule.validator }

module _ (digest : ValidationPolicyPack → String) (document_bytes : ValidationPolicyPack → ℕ) where
  -- `ComputeHash`: over a copy with no hash, trimmed and sorted.
  unfoldable pub compute_hash : ValidationPolicyPack → String
  compute_hash p = digest (record p {
    policy_hash = "";
    rules = sort_by rule_lt (map trimmed_rule p.rules);
    approval = record p.approval {
      require_for = sort_by text_lt (map trim p.approval.require_for);
    };
  })

  -- `ValidationPolicyPack.Normalize`.
  unfoldable pub normalize_pack : ValidationPolicyPack → Result PolicyError ValidationPolicyPack
  normalize_pack p = do
    schema ← normalize_schema p.schema_version
    let workspace_id = trim p.workspace_id
    let policy_id = trim p.policy_id
    let version = trim p.version
    guard (not (is_empty workspace_id || is_empty policy_id || is_empty version)) identity_required
    guard
        (not (
          ltb 128 (byte_length policy_id)
          || ltb 64 (byte_length version)
          || ltb 64 (length p.rules)))
        identity_too_large
    budget ← normalize_policy_budget p.budget
    approval ← normalize_approval p.approval
    rules ← normalize_rules [] p.rules
    let body : ValidationPolicyPack = record {
      schema_version = schema;
      workspace_id = workspace_id;
      policy_id = policy_id;
      version = version;
      policy_hash = p.policy_hash;
      rules = sort_by rule_lt rules;
      budget = budget;
      approval = approval;
      require_reindex = p.require_reindex;
      require_task_fence = true;
      safety_floors = all_floors;
    }
    let hash = compute_hash body
    let supplied = lower_trim p.policy_hash
    guard (is_empty supplied || str_eq supplied hash) hash_mismatch
    let normalized = record body { policy_hash = hash }
    guard (leb (document_bytes normalized) 65536) document_too_large
    ok normalized

-- The actor's workspace and the policy's are the request's.
unfoldable pub normalize_request_policy :
    String → Option ValidationPolicyRef → Result PolicyError (Option ValidationPolicyRef)
normalize_request_policy workspace_id none = ok none
normalize_request_policy workspace_id (some ref) = do
  r ← normalize_ref ref
  guard (str_eq r.workspace_id workspace_id) crosses_workspace
  ok (some r)

-- `PolicyEvaluationRequest.Normalize`.
unfoldable pub normalize_request :
    PolicyEvaluationRequest → Result PolicyError PolicyEvaluationRequest
normalize_request r = do
  schema ← normalize_schema r.schema_version
  let workspace_id = trim r.workspace_id
  let request_id = trim r.request_id
  let idempotency_key = trim r.idempotency_key
  let operation = trim r.operation
  guard (not (is_empty workspace_id)) identity_required
  guard
      (not (
        ltb 128 (byte_length request_id)
        || ltb 256 (byte_length idempotency_key)
        || ltb 128 (byte_length operation)))
      identity_too_large
  let actor = if is_empty r.actor_workspace_id then workspace_id else r.actor_workspace_id
  guard (str_eq actor workspace_id) crosses_workspace
  policy ← normalize_request_policy workspace_id r.policy
  validators ← normalize_requested_validators r.requested_validators
  validate_requested_policy_budget r.requested_budget
  mode ← request_mode (parse_mode r.requested_approval_mode)
  guard (leb (length r.operation_types) 64) too_many_operation_types
  types ← distinct_names operation_too_large [] r.operation_types
  ok (record {
    schema_version = schema;
    workspace_id = workspace_id;
    policy = policy;
    requested_validators = sort_refs validators;
    requested_budget = r.requested_budget;
    requested_approval_mode = mode;
    operation = operation;
    operation_types = sort_by text_lt types;
    require_reindex = r.require_reindex;
    actor_workspace_id = actor;
    request_id = request_id;
    idempotency_key = idempotency_key;
  })
