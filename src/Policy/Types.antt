-- ===== src/Policy/Types.antt =====
-- The contracts of policy resolution (internal/contracts/policy.go, validation.go, change.go): the
-- records, their limits, and the strings that stand for an approval mode.
use Prim.Native.Char.{Char, code}
use Prim.Native.String.{len, char_at, ◌++◌ as append}
use fornix.Base.{
  ℕ, ◌-◌, String, str_eq, trim, is_empty, Bool, ◌&&◌, Option, leb, ◌==◌, if◌then◌else◌, List, ℤ,
  any,
}

pub record ValidatorRef : Type 0 where
  pub id : String
  pub version : String

pub record ChangeBudgets : Type 0 where
  pub max_operations : ℤ
  pub max_file_bytes : ℤ
  pub max_total_bytes : ℤ

pub record ValidationBudget : Type 0 where
  pub max_validators : ℤ
  pub max_files : ℤ
  pub max_bytes : ℤ
  pub max_output_bytes : ℤ
  pub max_wall_time_ms : ℤ
  pub max_sql_queries : ℤ
  pub max_retries : ℤ
  pub max_report_bytes : ℤ

pub record PolicyBudget : Type 0 where
  pub change : ChangeBudgets
  pub validation : ValidationBudget

-- An approval mode after `strings.ToLower(strings.TrimSpace(mode))`.
pub data ApprovalMode : Type 0 where
  blank automatic required denied : ApprovalMode
  other : String → ApprovalMode

pub record PolicyApprovalConfig : Type 0 where
  pub mode : String
  pub require_for : List String

pub record ValidationPolicyRef : Type 0 where
  pub schema_version : ℤ
  pub workspace_id : String
  pub policy_id : String
  pub version : String
  pub policy_hash : String

pub record ValidationPolicyRule : Type 0 where
  pub validator : ValidatorRef
  pub is_required : Bool

pub record PolicySafetyFloors : Type 0 where
  pub workspace_isolation : Bool
  pub actor_propagation : Bool
  pub task_fencing : Bool
  pub evidence_integrity : Bool
  pub append_only_history : Bool
  pub replay_safety : Bool

pub record ValidationPolicyPack : Type 0 where
  pub schema_version : ℤ
  pub workspace_id : String
  pub policy_id : String
  pub version : String
  pub policy_hash : String
  pub rules : List ValidationPolicyRule
  pub budget : PolicyBudget
  pub approval : PolicyApprovalConfig
  pub require_reindex : Bool
  pub require_task_fence : Bool
  pub safety_floors : PolicySafetyFloors

-- The fields of the request that resolution reads; the delivery identifiers that are only stored
-- (causation and correlation) are left out.
pub record PolicyEvaluationRequest : Type 0 where
  pub schema_version : ℤ
  pub workspace_id : String
  pub policy : Option ValidationPolicyRef
  pub requested_validators : List ValidatorRef
  pub requested_budget : PolicyBudget
  pub requested_approval_mode : String
  pub operation : String
  pub operation_types : List String
  pub require_reindex : Bool
  pub actor_workspace_id : String
  pub request_id : String
  pub idempotency_key : String

pub record PolicyResolution : Type 0 where
  pub schema_version : ℤ
  pub workspace_id : String
  pub selected : Bool
  pub ref : Option ValidationPolicyRef
  pub snapshot : Option ValidationPolicyPack
  pub validators : List ValidatorRef
  pub budget : PolicyBudget
  pub approval_mode : ApprovalMode
  pub require_reindex : Bool
  pub require_task_fence : Bool
  pub resolution_hash : String

pub data PolicyError : Type 0 where
  unsupported_schema identity_required identity_too_large bad_hash : PolicyError
  change_budget_out_of_bounds validation_budget_out_of_bounds : PolicyError
  change_budget_widens validation_budget_widens negative_budget : PolicyError
  unsupported_mode too_many_scopes scope_too_large : PolicyError
  incomplete_validator validator_too_large duplicate_validator too_many_validators : PolicyError
  hash_mismatch reference_mismatch document_too_large : PolicyError
  crosses_workspace too_many_operation_types operation_too_large : PolicyError
  registry_missing not_registered validators_over_budget admission_denied : PolicyError

-- `strings.ToLower` on one character, as far as a comparison with ASCII text can tell: the capitals
-- of ASCII, and the two others whose lower case is an ASCII letter. Any other character stays what
-- it is here, and its lower case is no ASCII character either.
unfoldable lower_char : Char → Char
lower_char c =
    if leb b'A' (code c) && leb (code c) b'Z'
    then char_at "abcdefghijklmnopqrstuvwxyz" (code c - b'A')
    else if code c == 0x130
    then "i"
    else if code c == 0x212a
    then "k"
    else c

unfoldable to_lower : String → String
unfolding lower_char
to_lower String.[] = String.[]
to_lower (String.◌∷◌ c s) = String.◌∷◌ (lower_char c) (to_lower s)

-- `strings.ToLower(strings.TrimSpace(s))`.
unfoldable pub lower_trim : String → String
unfolding to_lower trim
lower_trim s = to_lower (trim s)

-- The mode that a lowered text stands for.
abbrev read_mode : String → ApprovalMode
read_mode mode =
    if is_empty mode
    then blank
    else if str_eq mode "automatic"
    then automatic
    else if str_eq mode "required"
    then required
    else if str_eq mode "denied"
    then denied
    else other mode

unfoldable pub parse_mode : String → ApprovalMode
unfolding lower_trim
parse_mode mode = read_mode (lower_trim mode)

-- `ID + "\x00" + Version`, under which duplicates are found.
abbrev pub ref_key : ValidatorRef → String
ref_key r = append r.id (append "\0" r.version)

abbrev pub has_key : String → List ValidatorRef → Bool
has_key k = any (λ r. str_eq (ref_key r) k)

abbrev pub trimmed_ref : ValidatorRef → ValidatorRef
trimmed_ref r = record { id = trim r.id; version = trim r.version }

-- Bytes of UTF-8.
abbrev pub byte_length : String → ℕ
byte_length = len
