-- ===== src/Policy/Budget/Envelope.antt =====
-- The envelope of a normalized budget, and the one limit that escapes it.
use fornix.Base.{
  ℕ, ◌+◌, ◌*◌, ◌^◌, ◌<◌, ◌≡◌, Bool, false, ◌||◌, ℤ, pos, negsuc, pos_part, ltb_ℤ, ok, ◌≤ℤ◌, arith,
  or-eq-false, not-eq-true, >>=-eq-ok, guard-eq-ok, ok-injective, subst,
}
use fornix.Policy.Types.{ValidationBudget, PolicyBudget}
use fornix.Policy.Budget.{
  zip_budget, default_of, change_below, validation_below, normalize_validation_budget,
  normalize_policy_budget, wall_time_exceeds, min_validation, constant_budget, default_budget,
  max_budget,
}
use fornix.Policy.Budget.Bounds.{BudgetLe, BudgetLe-of_tests}

-- The smallest budget: one of everything, but no retries.
abbrev pub min_budget : PolicyBudget
min_budget = record { change = (constant_budget (pos 1)).change; validation = min_validation }

-- A wall time whose nanoseconds fit an `int64` is checked as it should be.
wall_time_checked :
    (ms : ℤ) → pos_part ms * 1000000 < 2 ^ 63 → wall_time_exceeds ms ≡ false → ms ≤ℤ pos 86400000
unfolding wall_time_exceeds
wall_time_checked (pos ms) h e = ground arith
wall_time_checked (negsuc ms) h e = omega arith

abbrev out_of_bounds : ValidationBudget → Bool
out_of_bounds n =
    validation_below n min_validation
    || validation_below (record max_budget.validation { max_wall_time_ms = n.max_wall_time_ms }) n
    || wall_time_exceeds n.max_wall_time_ms

normalize_validation-tests :
    (b n : ValidationBudget) → normalize_validation_budget b ≡ ok n → out_of_bounds n ≡ false
unfolding normalize_validation_budget
normalize_validation-tests b n h =
    let (t, e) = guard-eq-ok _ _ _ h in
    subst (λ m. out_of_bounds m ≡ false) (ok-injective e) (not-eq-true _ t)

-- A wall time left as it is, for the comparison of the other limits.
abbrev but_wall_time : PolicyBudget → PolicyBudget
but_wall_time n = record max_budget {
  validation = record max_budget.validation { max_wall_time_ms = n.validation.max_wall_time_ms };
}

out_of_bounds-false :
    (n : PolicyBudget)
    → out_of_bounds n.validation ≡ false
    → (validation_below n.validation min_validation ≡ false)
      × (validation_below (but_wall_time n).validation n.validation ≡ false)
      × (wall_time_exceeds n.validation.max_wall_time_ms ≡ false)
out_of_bounds-false n h = ground arith

normalize-tests :
    (b n : PolicyBudget)
    → normalize_policy_budget b ≡ ok n
    → ((change_below n.change min_budget.change || change_below max_budget.change n.change) ≡ false)
      × (out_of_bounds n.validation ≡ false)
unfolding normalize_policy_budget
normalize-tests b n h =
    let (t, h') = guard-eq-ok _ _ _ h in
    let (v, p, q) = >>=-eq-ok (normalize_validation_budget b.validation) _ h' in
    subst
      (λ (m : PolicyBudget).
        ((change_below m.change min_budget.change || change_below max_budget.change m.change)
          ≡ false)
        × (out_of_bounds m.validation ≡ false))
      (ok-injective q) (not-eq-true _ t, normalize_validation-tests b.validation v p)

-- A budget that normalization accepts lies between the smallest and the largest one, at each of
-- the eleven limits, if its wall time, in nanoseconds, fits an `int64`.
pub normalize_policy_budget-bounds :
    (b n : PolicyBudget)
    → normalize_policy_budget b ≡ ok n
    → pos_part n.validation.max_wall_time_ms * 1000000 < 2 ^ 63
    → BudgetLe min_budget n × BudgetLe n max_budget
normalize_policy_budget-bounds b n h fits =
    let (c, v) = normalize-tests b n h in
    let (c₁, c₂) = or-eq-false _ _ c in
    let (v₁, v₂, v₃) = out_of_bounds-false n v in
    let le = BudgetLe-of_tests (but_wall_time n) n c₂ v₂ in
    (
      BudgetLe-of_tests n min_budget c₁ v₁,
      record {
        operations = le.operations;
        file_bytes = le.file_bytes;
        total_bytes = le.total_bytes;
        validators = le.validators;
        files = le.files;
        bytes = le.bytes;
        output_bytes = le.output_bytes;
        wall_time = wall_time_checked n.validation.max_wall_time_ms fits v₃;
        sql_queries = le.sql_queries;
        retries = le.retries;
        report_bytes = le.report_bytes;
      },
    )

-- The limit of 24 hours is compared after the product with a million nanoseconds has wrapped: each of
-- the 86 399 999 wall times from 18 446 744 073 710 ms on, more than 584 years, is accepted as it
-- stands in a budget that is otherwise the default one, although that budget exceeds the largest.
pub wall_time_escapes :
    (j : ℕ)
    → j < 86399999
    → let ms = pos (18446744073710 + j) in
      let asked = record default_budget {
        validation = record default_budget.validation { max_wall_time_ms = ms };
      } in
      (normalize_policy_budget asked ≡ ok asked) × ¬ BudgetLe asked max_budget
unfolding normalize_policy_budget normalize_validation_budget zip_budget default_of change_below
    validation_below ltb_ℤ wall_time_exceeds
wall_time_escapes j h = (ground arith, λ le. omega (arith, le.wall_time))
