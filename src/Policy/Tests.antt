-- ===== src/Policy/Tests.antt =====
-- Runs of policy resolution, and the theorems at concrete inputs.
use fornix.Base.{
  ◌↔◌, ◌+◌, ◌≡◌, refl, Bool, true, false, none, some, arith, Result, ok, err, pos, [], ◌∷◌, ltb_ℤ,
  is_positive, max, trim, sort_by, length,
}
use fornix.Policy.Types.{
  ValidatorRef, PolicyBudget, ApprovalMode, required, denied, PolicyApprovalConfig,
  ValidationPolicyPack, PolicyEvaluationRequest, PolicyResolution, PolicyError, parse_mode,
}
use fornix.Policy.Budget.{
  zip_budget, default_budget, max_budget, override, tighten_budget, normalize_policy_budget,
  normalize_validation_budget, default_of, change_below, validation_below, wall_time_exceeds,
  constant_budget, validate_requested_policy_budget,
}
use fornix.Policy.Budget.Bounds.{
  EachLimit, Tightened, BudgetLe, tighten_budget-Tightened, tighten_budget_iff,
}
use fornix.Policy.Budget.Envelope.{min_budget, normalize_policy_budget-bounds, wall_time_escapes}
use fornix.Policy.Approval.{
  effective_approval, approval_required_for, scope_matches, combine_modes, policy_mode,
}
use fornix.Policy.Approval.Strictness.{rank, need_rank, effective_approval-rank}
use fornix.Policy.Resolve.{collect, add_ref, add_refs, all_registered, check_reference}
use fornix.Policy.Normalize.{
  normalize_pack, normalize_request, normalize_schema, normalize_approval, distinct_names,
  normalize_rules, check_ref, normalize_refs, normalize_requested_validators,
  normalize_request_policy, compute_hash,
}
use fornix.Policy.Admission.{Encoding, resolve, resolve_pack, validate_pack}
use fornix.Policy.Admission.Decision.{Admits, resolve-Admits}

-- A request for at most ten operations, and nothing else.
abbrev ten_operations : PolicyBudget
ten_operations = record (constant_budget (pos 0)) {
  change = record (constant_budget (pos 0)).change { max_operations = pos 10 };
}

tighten_budget-Tightened_example :
    EachLimit Tightened default_budget ten_operations
      (zip_budget override default_budget ten_operations)
unfolding tighten_budget change_below validation_below ltb_ℤ
tighten_budget-Tightened_example =
    tighten_budget-Tightened default_budget ten_operations
      (zip_budget override default_budget ten_operations) refl

normalize_policy_budget-bounds_example :
    BudgetLe min_budget default_budget × BudgetLe default_budget max_budget
unfolding normalize_policy_budget normalize_validation_budget zip_budget default_of change_below
    validation_below ltb_ℤ wall_time_exceeds
normalize_policy_budget-bounds_example =
    normalize_policy_budget-bounds (constant_budget (pos 0)) default_budget refl (omega arith)

-- A validation run of 584 years: more than a hundred times the age of the largest budget allowed.
wall_time_escapes_example :
    let asked = record default_budget {
      validation = record default_budget.validation { max_wall_time_ms = pos (18446744073710 + 7) };
    } in
    (normalize_policy_budget asked ≡ ok asked) × ¬ BudgetLe asked max_budget
wall_time_escapes_example = wall_time_escapes 7 (omega arith)

abbrev ask_for_apply : PolicyApprovalConfig
ask_for_apply = record { mode = " Automatic"; require_for = "apply" ∷ [] }

effective_approval-rank_example :
    (e : ApprovalMode) × (effective_approval ask_for_apply "" "apply" [] ≡ ok e)
    × (rank e
        ≡ max (rank (policy_mode (parse_mode ask_for_apply.mode))) (
            max
              (rank (parse_mode ""))
              (need_rank (approval_required_for ask_for_apply.require_for "apply" []))))
unfolding parse_mode
effective_approval-rank_example = effective_approval-rank ask_for_apply "" "apply" [] tt tt

abbrev small_pack : ValidationPolicyPack
small_pack = record {
  schema_version = pos 0;
  workspace_id = "acme ";
  policy_id = "default";
  version = "1";
  policy_hash = "";
  rules =
      record { validator = record { id = "change.tree"; version = "1" }; is_required = true } ∷ [];
  budget = constant_budget (pos 0);
  approval = ask_for_apply;
  require_reindex = true;
  require_task_fence = false;
  safety_floors = record {
    workspace_isolation = false;
    actor_propagation = false;
    task_fencing = false;
    evidence_integrity = false;
    append_only_history = false;
    replay_safety = false;
  };
}

abbrev small_request : PolicyEvaluationRequest
small_request = record {
  schema_version = pos 1;
  workspace_id = "acme";
  policy = none;
  requested_validators = record { id = "custom"; version = "2" } ∷ [];
  requested_budget = ten_operations;
  requested_approval_mode = "";
  operation = "apply";
  operation_types = [];
  require_reindex = false;
  actor_workspace_id = "";
  request_id = "r";
  idempotency_key = "k";
}

abbrev plain_encoding : Encoding
plain_encoding = record {
  digest = λ p. "hash";
  document_bytes = λ p. 100;
  resolution_hash = λ r. "decision";
}

abbrev decided_or : PolicyResolution → Result PolicyError PolicyResolution → PolicyResolution
decided_or r (ok d) = d
decided_or r (err e) = r

abbrev nothing_decided : PolicyResolution
nothing_decided = record {
  schema_version = pos 0;
  workspace_id = "";
  selected = false;
  ref = none;
  snapshot = none;
  validators = [];
  budget = default_budget;
  approval_mode = denied;
  require_reindex = false;
  require_task_fence = false;
  resolution_hash = "";
}

-- Every validator is registered.
abbrev open_registry : ValidatorRef → Bool
open_registry v = true

decision : PolicyResolution
decision =
    decided_or nothing_decided
      (resolve plain_encoding (some open_registry) (some small_pack) small_request)

-- The request is admitted, under approval, with six validators.
small_resolution :
    resolve plain_encoding (some open_registry) (some small_pack) small_request ≡ ok decision
unfolding decision resolve resolve_pack validate_pack normalize_pack normalize_request
    normalize_schema normalize_approval distinct_names normalize_rules check_ref normalize_refs
    normalize_requested_validators normalize_request_policy compute_hash normalize_policy_budget
    normalize_validation_budget zip_budget default_of change_below validation_below ltb_ℤ
    wall_time_exceeds tighten_budget override effective_approval approval_required_for scope_matches
    combine_modes parse_mode collect add_ref add_refs all_registered check_reference sort_by trim
    validate_requested_policy_budget is_positive
small_resolution = refl

resolve-Admits_example :
    (request : PolicyEvaluationRequest) × (pack : ValidationPolicyPack) × (normalize_request
        small_request
      ≡ ok request)
    × (normalize_pack plain_encoding.digest plain_encoding.document_bytes small_pack ≡ ok pack)
    × Admits open_registry pack request decision
resolve-Admits_example =
    resolve-Admits plain_encoding open_registry small_pack small_request decision small_resolution

-- The scope `apply` asked for approval; six validators are run, the default budget is tightened.
small_decision :
    (decision.approval_mode ≡ required)
    × (length decision.validators ≡ 6)
    × (decision.budget.change.max_operations ≡ pos 10)
unfolding decision resolve resolve_pack validate_pack normalize_pack normalize_request
    normalize_schema normalize_approval distinct_names normalize_rules check_ref normalize_refs
    normalize_requested_validators normalize_request_policy compute_hash normalize_policy_budget
    normalize_validation_budget zip_budget default_of change_below validation_below ltb_ℤ
    wall_time_exceeds tighten_budget override effective_approval approval_required_for scope_matches
    combine_modes parse_mode collect add_ref add_refs all_registered check_reference sort_by trim
    validate_requested_policy_budget is_positive
small_decision = (refl, refl, refl)

tighten_budget_iff_example :
    ((e : PolicyBudget) × (tighten_budget default_budget ten_operations ≡ ok e))
    ↔ BudgetLe ten_operations default_budget
tighten_budget_iff_example = tighten_budget_iff default_budget ten_operations
