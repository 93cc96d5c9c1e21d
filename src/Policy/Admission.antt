-- ===== src/Policy/Admission.antt =====
-- `ValidatePack`, `Resolve` and `resolveCompatibility` of internal/policy/resolver.go. The registry
-- is `none` where the process configured none. `digest`, `document_bytes` and `resolution_hash`
-- stand for the SHA-256 and the JSON of a pack and of a resolution.
pub mod Validators
pub mod Decision
use fornix.Base.{
  ℕ, String, Bool, true, false, not, ◌&&◌, ◌||◌, Option, none, some, if◌then◌else◌, List, [], ◌∷◌,
  map, length, ℤ, pos, ltb_ℤ, Result, ok, err, ◌>>=◌, ◌>>◌, guard,
}
use fornix.Policy.Types.{
  ValidatorRef, PolicyBudget, ApprovalMode, PolicyApprovalConfig, ValidationPolicyRef,
  ValidationPolicyPack, PolicyEvaluationRequest, PolicyResolution, PolicyError, registry_missing,
  validators_over_budget, admission_denied,
}
use fornix.Policy.Budget.{tighten_budget, compatibility_budget}
use fornix.Policy.Approval.{effective_approval}
use fornix.Policy.Resolve.{
  Registry, collect, all_registered, sort_refs, check_reference, is_denied_mode, pack_ref, length_ℤ,
  default_validator_refs,
}
use fornix.Policy.Normalize.{normalize_pack, normalize_request}

pub record Encoding : Type 0 where
  pub digest : ValidationPolicyPack → String
  pub document_bytes : ValidationPolicyPack → ℕ
  pub resolution_hash : PolicyResolution → String

-- `resolution.ResolutionHash = resolutionHash(resolution)`; the hash is taken with the field blank.
abbrev with_hash : Encoding → PolicyResolution → PolicyResolution
with_hash enc r = record r {
  resolution_hash = enc.resolution_hash (record r { resolution_hash = "" });
}

abbrev the_registry : Registry → Result PolicyError (ValidatorRef → Bool)
the_registry none = err registry_missing
the_registry (some lookup) = ok lookup

unfoldable pub validate_pack :
    Encoding → Registry → ValidationPolicyPack → Result PolicyError ValidationPolicyPack
validate_pack enc registry given = do
  pack ← normalize_pack enc.digest enc.document_bytes given
  lookup ← the_registry registry
  all_registered lookup (map (λ rule. rule.validator) pack.rules)
  ok pack

-- The part of `Resolve` with a pack, once both are normalized.
unfoldable pub resolve_pack :
    Encoding
    → (ValidatorRef → Bool)
    → ValidationPolicyPack
    → PolicyEvaluationRequest
    → Result PolicyError PolicyResolution
resolve_pack enc lookup pack request = do
  check_reference request.policy pack
  collected ← collect lookup pack request
  let validators = sort_refs collected
  guard (not (ltb_ℤ pack.budget.validation.max_validators (length_ℤ validators)))
      validators_over_budget
  budget ← tighten_budget pack.budget request.requested_budget
  approval ←
      effective_approval pack.approval request.requested_approval_mode request.operation
        request.operation_types
  guard (not (is_denied_mode approval)) admission_denied
  ok (
      with_hash enc (record {
        schema_version = pos 1;
        workspace_id = request.workspace_id;
        selected = true;
        ref = some (pack_ref pack);
        snapshot = some pack;
        validators = validators;
        budget = budget;
        approval_mode = approval;
        require_reindex = pack.require_reindex || request.require_reindex;
        require_task_fence = true;
        resolution_hash = "";
      }))

-- `requested`, or the default validators where there are none.
abbrev or_default : List ValidatorRef → List ValidatorRef
or_default [] = default_validator_refs
or_default (r ∷ rs) = r ∷ rs

unfoldable pub resolve_compatibility :
    Encoding → Registry → PolicyEvaluationRequest → Result PolicyError PolicyResolution
resolve_compatibility enc registry request = do
  lookup ← the_registry registry
  let validators = or_default request.requested_validators
  all_registered lookup validators
  let budget = compatibility_budget request.requested_budget
  approval ←
      effective_approval (record { mode = "required"; require_for = [] })
        request.requested_approval_mode request.operation request.operation_types
  guard (not (is_denied_mode approval)) admission_denied
  ok (
      with_hash enc (record {
        schema_version = pos 1;
        workspace_id = request.workspace_id;
        selected = false;
        ref = none;
        snapshot = none;
        validators = validators;
        budget = budget;
        approval_mode = approval;
        require_reindex = request.require_reindex;
        require_task_fence = true;
        resolution_hash = "";
      }))

unfoldable pub resolve :
    Encoding
    → Registry
    → Option ValidationPolicyPack
    → PolicyEvaluationRequest
    → Result PolicyError PolicyResolution
resolve enc registry none given =
    normalize_request given >>= λ request. resolve_compatibility enc registry request
resolve enc registry (some given_pack) given = do
  request ← normalize_request given
  pack ← validate_pack enc registry given_pack
  lookup ← the_registry registry
  resolve_pack enc lookup pack request
