-- ===== src/Policy/Approval.antt =====
-- The approval mode in force for an admission: `effectiveApproval` and `approvalRequiredFor` of
-- internal/policy/resolver.go.
pub mod Strictness
use fornix.Base.{
  String, str_eq, trim, is_empty, Bool, true, false, ◌&&◌, ◌||◌, if◌then◌else◌, List, [], ◌∷◌, any,
  Result, ok, err, ◌>>=◌,
}
use fornix.Policy.Types.{
  ApprovalMode, blank, automatic, required, denied, other, PolicyApprovalConfig, PolicyError,
  unsupported_mode, parse_mode,
}

abbrev is_nil : List String → Bool
is_nil [] = true
is_nil (_ ∷ _) = false

-- `scope == operation`, or one of the operation types.
unfoldable pub scope_matches : String → List String → String → Bool
scope_matches operation types scope =
    str_eq (trim scope) (trim operation) || any (λ type. str_eq (trim scope) (trim type)) types

unfoldable pub approval_required_for : List String → String → List String → Bool
approval_required_for [] operation types = false
approval_required_for (scope ∷ scopes) operation types =
    if is_empty (trim operation) && is_nil types
    then true
    else any (scope_matches operation types) (scope ∷ scopes)

-- `if policy == "" { policy = required }`.
abbrev pub policy_mode : ApprovalMode → ApprovalMode
policy_mode blank = required
policy_mode mode = mode

-- An automatic policy asks for approval in the scopes that it names.
abbrev scoped_mode : Bool → ApprovalMode → ApprovalMode
scoped_mode true automatic = required
scoped_mode need mode = mode

-- The last two `if`s: neither mode is denied.
abbrev stricter : ApprovalMode → ApprovalMode → ApprovalMode
stricter policy blank = policy
stricter required requested = required
stricter policy required = required
stricter policy requested = automatic

abbrev is_denied : ApprovalMode → Bool
is_denied denied = true
is_denied mode = false

-- The body of `effectiveApproval` once both modes are lowered and `approvalRequiredFor` is known.
unfoldable pub combine_modes : ApprovalMode → ApprovalMode → Bool → Result PolicyError ApprovalMode
combine_modes policy (other mode) need = err unsupported_mode
combine_modes policy requested need =
    if is_denied policy || is_denied requested
    then ok denied
    else ok (stricter (scoped_mode need policy) requested)

unfoldable pub effective_approval :
    PolicyApprovalConfig → String → String → List String → Result PolicyError ApprovalMode
effective_approval config requested operation types =
    combine_modes (policy_mode (parse_mode config.mode)) (parse_mode requested)
      (approval_required_for config.require_for operation types)
