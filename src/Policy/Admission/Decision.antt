-- ===== src/Policy/Admission/Decision.antt =====
-- What an admission under a policy guarantees.
use fornix.Base.{
  ◌≡◌, ◌≢◌, refl, ap, ◌∙◌, Bool, true, false, ◌||◌, some, map, length, All, pos, ◌≤ℤ◌, ltb_ℤ-false,
  ok, arith, >>=-eq-ok, guard-eq-ok, not-eq-true, ok-injective, subst, IsSorted, sort_by-IsSorted,
}
use fornix.Policy.Types.{
  ValidatorRef, ValidationPolicyPack, PolicyEvaluationRequest, PolicyResolution, ApprovalMode,
  denied,
}
use fornix.Policy.Budget.{tighten_budget}
use fornix.Policy.Budget.Bounds.{EachLimit, Tightened, tighten_budget-Tightened}
use fornix.Policy.Approval.{effective_approval}
use fornix.Policy.Resolve.{
  collect, all_registered, ref_lt, check_reference, is_denied_mode, pack_ref,
}
use fornix.Policy.Order.{ref_lt-asym}
use fornix.Policy.Normalize.{normalize_pack, normalize_request}
use fornix.Policy.Admission.{Encoding, resolve_pack, resolve, validate_pack}
use fornix.Policy.Admission.Validators.{Distinct, Covers, collect-Covers, sort_refs-Covers}

-- The decision, over the normalized pack and request.
pub record Admits (lookup : ValidatorRef → Bool) (pack : ValidationPolicyPack)
    (request : PolicyEvaluationRequest) (r : PolicyResolution) : Type 0 where
  pub registered : All (λ v. lookup v ≡ true) r.validators
  pub sorted : IsSorted ref_lt r.validators
  pub distinct : Distinct r.validators
  pub covers : Covers lookup pack request r.validators
  pub within : pos (length r.validators) ≤ℤ pack.budget.validation.max_validators
  pub budget : EachLimit Tightened pack.budget request.requested_budget r.budget
  pub approved :
      (effective_approval pack.approval request.requested_approval_mode request.operation
          request.operation_types
        ≡ ok r.approval_mode)
      × (r.approval_mode ≢ denied)
  pub pinned : (r.ref ≡ some (pack_ref pack)) × (r.snapshot ≡ some pack)
  pub fenced : r.require_task_fence ≡ true
  pub reindexes : r.require_reindex ≡ (pack.require_reindex || request.require_reindex)

not_denied : (m : ApprovalMode) → is_denied_mode m ≡ false → m ≢ denied
not_denied m h e = ground arith

resolve_pack-Admits :
    (enc : Encoding) (lookup : ValidatorRef → Bool) (pack : ValidationPolicyPack)
    (request : PolicyEvaluationRequest) (r : PolicyResolution)
    → resolve_pack enc lookup pack request ≡ ok r
    → Admits lookup pack request r
unfolding resolve_pack
resolve_pack-Admits enc lookup pack request r h =
    let (_, _, h₁) = >>=-eq-ok (check_reference request.policy pack) _ h in
    let (vs, p, h₂) = >>=-eq-ok (collect lookup pack request) _ h₁ in
    let (t, h₃) = guard-eq-ok _ _ _ h₂ in
    let (b, pb, h₄) = >>=-eq-ok (tighten_budget pack.budget request.requested_budget) _ h₃ in
    let (m, pm, h₅) =
      >>=-eq-ok
        (effective_approval pack.approval request.requested_approval_mode request.operation
          request.operation_types)
        _ h₄ in
    let (d, h₆) = guard-eq-ok _ _ _ h₅ in
    let ((reg, dis), cov) =
      sort_refs-Covers lookup pack request vs (collect-Covers lookup pack request vs p) in
    subst (Admits lookup pack request) (ok-injective h₆) (record {
      registered = reg;
      sorted = sort_by-IsSorted ref_lt ref_lt-asym vs;
      distinct = dis;
      covers = cov;
      within = ltb_ℤ-false _ _ (not-eq-true _ t);
      budget = tighten_budget-Tightened pack.budget request.requested_budget b pb;
      approved = (pm, not_denied m (not-eq-true _ d));
      pinned = (refl, refl);
      fenced = refl;
      reindexes = refl;
    })

-- A resolution under a pack, from a configured registry, is a decision over the pack and the
-- request as they are normalized: every validator is registered, they are sorted and
-- no two have one key, the four
-- mandatory ones, those of the rules, the requested ones and, where the pack asks for it, the
-- re-index are among them, their number is within the pack's budget; the budget is the pack's,
-- tightened; the approval mode is the one in force and not `denied`; the pack is pinned whole, and
-- the task fence is on.
pub resolve-Admits :
    (enc : Encoding) (lookup : ValidatorRef → Bool) (given_pack : ValidationPolicyPack)
    (given : PolicyEvaluationRequest) (r : PolicyResolution)
    → resolve enc (some lookup) (some given_pack) given ≡ ok r
    → (request : PolicyEvaluationRequest) × (pack : ValidationPolicyPack) × (normalize_request given
        ≡ ok request)
      × (normalize_pack enc.digest enc.document_bytes given_pack ≡ ok pack)
      × Admits lookup pack request r
unfolding resolve validate_pack
resolve-Admits enc lookup given_pack given r h =
    let (request, p, h₁) = >>=-eq-ok (normalize_request given) _ h in
    let (pack, q, h₂) = >>=-eq-ok (validate_pack enc (some lookup) given_pack) _ h₁ in
    let (pack', n, q₁) = >>=-eq-ok (normalize_pack enc.digest enc.document_bytes given_pack) _ q in
    let (_, _, q₂) =
      >>=-eq-ok (all_registered lookup (map (λ rule. rule.validator) pack'.rules)) _ q₁ in
    (
      request,
      pack,
      p,
      n ∙ ap ok (ok-injective q₂),
      resolve_pack-Admits enc lookup pack request r h₂,
    )
