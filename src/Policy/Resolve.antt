-- ===== src/Policy/Resolve.antt =====
-- The resolver (internal/policy/resolver.go): from a normalized pack and request to the validators,
-- the budget and the approval mode of an admission.
-- The registry is a parameter (`none` where it is not configured), and so is `resolutionHash`, a
-- SHA-256 over JSON.
use Prim.Native.Nat.{Ordering}
use Prim.Native.String.{compare as compare_text}
use fornix.Base.{
  String, str_eq, is_empty, Bool, true, false, ◌&&◌, ◌||◌, Option, none, some, if◌then◌else◌, List,
  [], ◌∷◌, ◌++◌, map, length, ℤ, pos, Result, ok, err, ◌>>=◌, ◌>>◌, guard, sort_by,
}
use fornix.Policy.Types.{
  ValidatorRef, ApprovalMode, denied, ValidationPolicyRef, ValidationPolicyPack,
  PolicyEvaluationRequest, PolicyError, incomplete_validator, not_registered, hash_mismatch,
  reference_mismatch, ref_key, has_key, trimmed_ref,
}

abbrev pub Registry : Type 0
Registry = Option (ValidatorRef → Bool)

abbrev builtin : String → ValidatorRef
builtin id = record { id = id; version = "1" }

abbrev pub mandatory_refs : List ValidatorRef
mandatory_refs =
    builtin "change.preconditions"
    ∷ builtin "change.files"
    ∷ builtin "change.safety"
    ∷ builtin "change.tree"
    ∷ []

abbrev pub reindex_ref : ValidatorRef
reindex_ref = builtin "change.reindex"

-- `contracts.DefaultValidatorRefs`.
abbrev pub default_validator_refs : List ValidatorRef
default_validator_refs = mandatory_refs ++ reindex_ref ∷ []

abbrev pub is_lt : Ordering → Bool
is_lt Ordering.lt = true
is_lt o = false

abbrev pub text_lt : String → String → Bool
text_lt s t = is_lt (compare_text s t)

-- The order of `sort.Slice(validators, ...)`: by ID, then by version.
abbrev pub ref_lt : ValidatorRef → ValidatorRef → Bool
ref_lt a b = if str_eq a.id b.id then text_lt a.version b.version else text_lt a.id b.id

-- No two of the references that are sorted have one key.
abbrev pub sort_refs : List ValidatorRef → List ValidatorRef
sort_refs = sort_by ref_lt

module _ (lookup : ValidatorRef → Bool) where
  -- The closure `add`, over the validators collected so far, whose keys are the map `seen`.
  unfoldable pub add_ref : List ValidatorRef → ValidatorRef → Result PolicyError (List ValidatorRef)
  add_ref validators given =
      let ref = trimmed_ref given in
      if is_empty ref.id || is_empty ref.version
      then err incomplete_validator
      else if has_key (ref_key ref) validators
      then ok validators
      else if lookup ref
      then ok (validators ++ ref ∷ [])
      else err not_registered

  -- `for _, ref := range refs { if err := add(ref); err != nil { return err } }`.
  unfoldable pub add_refs :
      List ValidatorRef → List ValidatorRef → Result PolicyError (List ValidatorRef)
  add_refs validators [] = ok validators
  add_refs validators (r ∷ rs) = add_ref validators r >>= λ more. add_refs more rs

  -- The whole collection: the rules, the mandatory ones, the requested ones, the re-index.
  unfoldable pub collect :
      ValidationPolicyPack → PolicyEvaluationRequest → Result PolicyError (List ValidatorRef)
  collect pack request = do
    a ← add_refs [] (map (λ rule. rule.validator) pack.rules)
    b ← add_refs a mandatory_refs
    c ← add_refs b request.requested_validators
    if pack.require_reindex then add_ref c reindex_ref else ok c

  -- `for _, ref := range validators { if !r.Lookup(ref) { return error } }`.
  unfoldable pub all_registered : List ValidatorRef → Result PolicyError (Unit {0})
  all_registered [] = ok tt
  all_registered (r ∷ rs) = guard (lookup r) not_registered >> all_registered rs

-- The hash and the reference in a request are those of the pack.
unfoldable pub check_reference :
    Option ValidationPolicyRef → ValidationPolicyPack → Result PolicyError (Unit {0})
check_reference none pack = ok tt
check_reference (some ref) pack = do
  guard (is_empty ref.policy_hash || str_eq ref.policy_hash pack.policy_hash) hash_mismatch
  guard (str_eq ref.policy_id pack.policy_id && str_eq ref.version pack.version) reference_mismatch

abbrev pub is_denied_mode : ApprovalMode → Bool
is_denied_mode denied = true
is_denied_mode mode = false

abbrev pub pack_ref : ValidationPolicyPack → ValidationPolicyRef
pack_ref pack = record {
  schema_version = pos 1;
  workspace_id = pack.workspace_id;
  policy_id = pack.policy_id;
  version = pack.version;
  policy_hash = pack.policy_hash;
}

abbrev pub length_ℤ : List ValidatorRef → ℤ
length_ℤ l = pos (length l)
