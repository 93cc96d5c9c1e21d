-- ===== src/Policy/Budget/Bounds.antt =====
-- What a budget can be after each operation: an order on budgets, limit by limit.
use fornix.Base.{
  ◌≡◌, ◌↔◌, true, false, ℤ, is_positive, ok, ◌≤ℤ◌, arith, ltb_ℤ-false, ltb_ℤ-of_le, not-eq-true,
  guard-eq-ok, ok-injective, subst,
}
use fornix.Policy.Types.{ChangeBudgets, ValidationBudget, PolicyBudget}
use fornix.Policy.Budget.{zip_budget, override, change_below, validation_below, tighten_budget}

-- A relation between the limits of three budgets, which holds at each limit.
pub record EachLimit (R : ℤ → ℤ → ℤ → Type 0) (a b c : PolicyBudget) : Type 0 where
  pub operations : R a.change.max_operations b.change.max_operations c.change.max_operations
  pub file_bytes : R a.change.max_file_bytes b.change.max_file_bytes c.change.max_file_bytes
  pub total_bytes : R a.change.max_total_bytes b.change.max_total_bytes c.change.max_total_bytes
  pub validators :
      R a.validation.max_validators b.validation.max_validators c.validation.max_validators
  pub files : R a.validation.max_files b.validation.max_files c.validation.max_files
  pub bytes : R a.validation.max_bytes b.validation.max_bytes c.validation.max_bytes
  pub output_bytes :
      R a.validation.max_output_bytes b.validation.max_output_bytes c.validation.max_output_bytes
  pub wall_time :
      R a.validation.max_wall_time_ms b.validation.max_wall_time_ms c.validation.max_wall_time_ms
  pub sql_queries :
      R a.validation.max_sql_queries b.validation.max_sql_queries c.validation.max_sql_queries
  pub retries : R a.validation.max_retries b.validation.max_retries c.validation.max_retries
  pub report_bytes :
      R a.validation.max_report_bytes b.validation.max_report_bytes c.validation.max_report_bytes

-- Every limit of the first is at most that of the second.
abbrev pub BudgetLe : PolicyBudget → PolicyBudget → Type 0
BudgetLe a b = EachLimit (λ x y _. x ≤ℤ y) a b b

-- What a `||` of tests that fails says of each of them.
change_below-false :
    (a b : ChangeBudgets)
    → change_below a b ≡ false
    → (b.max_operations ≤ℤ a.max_operations)
      × (b.max_file_bytes ≤ℤ a.max_file_bytes)
      × (b.max_total_bytes ≤ℤ a.max_total_bytes)
unfolding change_below
change_below-false a b h = (
  ltb_ℤ-false a.max_operations b.max_operations (ground arith),
  ltb_ℤ-false a.max_file_bytes b.max_file_bytes (ground arith),
  ltb_ℤ-false a.max_total_bytes b.max_total_bytes (ground arith),
)

validation_below-false :
    (a b : ValidationBudget)
    → validation_below a b ≡ false
    → (b.max_validators ≤ℤ a.max_validators)
      × (b.max_files ≤ℤ a.max_files)
      × (b.max_bytes ≤ℤ a.max_bytes)
      × (b.max_output_bytes ≤ℤ a.max_output_bytes)
      × (b.max_wall_time_ms ≤ℤ a.max_wall_time_ms)
      × (b.max_sql_queries ≤ℤ a.max_sql_queries)
      × (b.max_retries ≤ℤ a.max_retries)
      × (b.max_report_bytes ≤ℤ a.max_report_bytes)
unfolding validation_below
validation_below-false a b h = (
  ltb_ℤ-false a.max_validators b.max_validators (ground arith),
  ltb_ℤ-false a.max_files b.max_files (ground arith),
  ltb_ℤ-false a.max_bytes b.max_bytes (ground arith),
  ltb_ℤ-false a.max_output_bytes b.max_output_bytes (ground arith),
  ltb_ℤ-false a.max_wall_time_ms b.max_wall_time_ms (ground arith),
  ltb_ℤ-false a.max_sql_queries b.max_sql_queries (ground arith),
  ltb_ℤ-false a.max_retries b.max_retries (ground arith),
  ltb_ℤ-false a.max_report_bytes b.max_report_bytes (ground arith),
)

pub BudgetLe-of_tests :
    (p r : PolicyBudget)
    → change_below p.change r.change ≡ false
    → validation_below p.validation r.validation ≡ false
    → BudgetLe r p
BudgetLe-of_tests p r hc hv =
    let (a, b, c) = change_below-false p.change r.change hc in
    let (d, e, f, g, h, i, j, k) = validation_below-false p.validation r.validation hv in
    record {
      operations = a;
      file_bytes = b;
      total_bytes = c;
      validators = d;
      files = e;
      bytes = f;
      output_bytes = g;
      wall_time = h;
      sql_queries = i;
      retries = j;
      report_bytes = k;
    }

-- The limit in force: what was requested where that is positive, else the policy's; within both.
pub record Tightened (policy requested effective : ℤ) : Type 0 where
  pub within_policy : effective ≤ℤ policy
  pub as_requested : is_positive requested ≡ true → effective ≡ requested
  pub as_policy : is_positive requested ≡ false → effective ≡ policy

override-Tightened : (p r : ℤ) → r ≤ℤ p → Tightened p r (override p r)
unfolding override is_positive
override-Tightened p r h = ground arith

overridden : (p r : PolicyBudget) → BudgetLe r p → EachLimit Tightened p r (zip_budget override p r)
unfolding zip_budget
overridden p r le = record {
  operations = override-Tightened _ _ le.operations;
  file_bytes = override-Tightened _ _ le.file_bytes;
  total_bytes = override-Tightened _ _ le.total_bytes;
  validators = override-Tightened _ _ le.validators;
  files = override-Tightened _ _ le.files;
  bytes = override-Tightened _ _ le.bytes;
  output_bytes = override-Tightened _ _ le.output_bytes;
  wall_time = override-Tightened _ _ le.wall_time;
  sql_queries = override-Tightened _ _ le.sql_queries;
  retries = override-Tightened _ _ le.retries;
  report_bytes = override-Tightened _ _ le.report_bytes;
}

-- When the tightening of a policy's budget by a request is accepted, each of the eleven limits that
-- it gives is the requested one where that is positive, the policy's where not, and never above the
-- policy's.
pub tighten_budget-Tightened :
    (p r e : PolicyBudget) → tighten_budget p r ≡ ok e → EachLimit Tightened p r e
unfolding tighten_budget
tighten_budget-Tightened p r e h =
    let (hc, h') = guard-eq-ok _ _ _ h in
    let (hv, h'') = guard-eq-ok _ _ _ h' in
    let le = BudgetLe-of_tests p r (not-eq-true _ hc) (not-eq-true _ hv) in
    subst (EachLimit Tightened p r) (ok-injective h'') (overridden p r le)

-- A request that exceeds no limit of the policy is accepted.
tighten_budget_accepts :
    (p r : PolicyBudget) → BudgetLe r p → tighten_budget p r ≡ ok (zip_budget override p r)
unfolding tighten_budget change_below validation_below
tighten_budget_accepts p r le = rw (
  ltb_ℤ-of_le _ _ le.operations,
  ltb_ℤ-of_le _ _ le.file_bytes,
  ltb_ℤ-of_le _ _ le.total_bytes,
  ltb_ℤ-of_le _ _ le.validators,
  ltb_ℤ-of_le _ _ le.files,
  ltb_ℤ-of_le _ _ le.bytes,
  ltb_ℤ-of_le _ _ le.output_bytes,
  ltb_ℤ-of_le _ _ le.wall_time,
  ltb_ℤ-of_le _ _ le.sql_queries,
  ltb_ℤ-of_le _ _ le.retries,
  ltb_ℤ-of_le _ _ le.report_bytes,
)

-- Tightening accepts exactly the requests that widen none of the eleven limits.
pub tighten_budget_iff :
    (p r : PolicyBudget) → ((e : PolicyBudget) × (tighten_budget p r ≡ ok e)) ↔ BudgetLe r p
unfolding tighten_budget
tighten_budget_iff p r = (
  λ t.
      let (hc, h') = guard-eq-ok _ _ _ t.1 in
      let (hv, _) = guard-eq-ok _ _ _ h' in
      BudgetLe-of_tests p r (not-eq-true _ hc) (not-eq-true _ hv),
  λ le. (zip_budget override p r, tighten_budget_accepts p r le),
)
