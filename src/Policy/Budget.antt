-- ===== src/Policy/Budget.antt =====
-- Budgets: defaults, limits, and how a request tightens those of a policy
-- (internal/policy/resolver.go and the budget methods of internal/contracts). Eleven limits are
-- handled alike, one `if` each in the source: `zip_budget` applies a rule to every one of them.
pub mod Bounds
pub mod Envelope
use fornix.Base.{
  ℕ, ◌+◌, ◌*◌, ◌%◌, ◌^◌, Bool, true, false, not, ◌&&◌, ◌||◌, ltb, if◌then◌else◌, ℤ, pos, negsuc,
  pos_part, neg_part, ltb_ℤ, is_positive, Result, ok, err, ◌>>=◌, ◌>>◌, guard, ◌==◌,
}
use fornix.Policy.Types.{
  ChangeBudgets, ValidationBudget, PolicyBudget, PolicyError, change_budget_out_of_bounds,
  validation_budget_out_of_bounds, change_budget_widens, validation_budget_widens, negative_budget,
}

unfoldable pub zip_budget : (ℤ → ℤ → ℤ) → PolicyBudget → PolicyBudget → PolicyBudget
zip_budget f a b = record {
  change = record {
    max_operations = f a.change.max_operations b.change.max_operations;
    max_file_bytes = f a.change.max_file_bytes b.change.max_file_bytes;
    max_total_bytes = f a.change.max_total_bytes b.change.max_total_bytes;
  };
  validation = record {
    max_validators = f a.validation.max_validators b.validation.max_validators;
    max_files = f a.validation.max_files b.validation.max_files;
    max_bytes = f a.validation.max_bytes b.validation.max_bytes;
    max_output_bytes = f a.validation.max_output_bytes b.validation.max_output_bytes;
    max_wall_time_ms = f a.validation.max_wall_time_ms b.validation.max_wall_time_ms;
    max_sql_queries = f a.validation.max_sql_queries b.validation.max_sql_queries;
    max_retries = f a.validation.max_retries b.validation.max_retries;
    max_report_bytes = f a.validation.max_report_bytes b.validation.max_report_bytes;
  };
}

-- `DefaultChange...` and `DefaultValidationBudget`; the wall time is 15 minutes.
abbrev pub default_budget : PolicyBudget
default_budget = record {
  change = record {
    max_operations = pos 32;
    max_file_bytes = pos 4194304;
    max_total_bytes = pos 16777216;
  };
  validation = record {
    max_validators = pos 16;
    max_files = pos 10000;
    max_bytes = pos 536870912;
    max_output_bytes = pos 1048576;
    max_wall_time_ms = pos 900000;
    max_sql_queries = pos 512;
    max_retries = pos 2;
    max_report_bytes = pos 65536;
  };
}

-- `MaxChange...` and `MaxValidation...`; the wall time is 24 hours.
abbrev pub max_budget : PolicyBudget
max_budget = record {
  change = record {
    max_operations = pos 128;
    max_file_bytes = pos 67108864;
    max_total_bytes = pos 268435456;
  };
  validation = record {
    max_validators = pos 64;
    max_files = pos 100000;
    max_bytes = pos 1073741824;
    max_output_bytes = pos 16777216;
    max_wall_time_ms = pos 86400000;
    max_sql_queries = pos 10000;
    max_retries = pos 10;
    max_report_bytes = pos 1048576;
  };
}

-- `if requested > 0 { effective = requested }`.
unfoldable pub override : ℤ → ℤ → ℤ
override base requested = if is_positive requested then requested else base

-- `if value == 0 { value = default }`.
unfoldable pub default_of : ℤ → ℤ → ℤ
default_of (pos n) d = if n == 0 then d else pos n
default_of (negsuc n) d = negsuc n

-- Some limit of the first is below that of the second: the change limits, the validation limits.
unfoldable pub change_below : ChangeBudgets → ChangeBudgets → Bool
change_below a b =
    ltb_ℤ a.max_operations b.max_operations
    || ltb_ℤ a.max_file_bytes b.max_file_bytes
    || ltb_ℤ a.max_total_bytes b.max_total_bytes

unfoldable pub validation_below : ValidationBudget → ValidationBudget → Bool
validation_below a b =
    ltb_ℤ a.max_validators b.max_validators
    || ltb_ℤ a.max_files b.max_files
    || ltb_ℤ a.max_bytes b.max_bytes
    || ltb_ℤ a.max_output_bytes b.max_output_bytes
    || ltb_ℤ a.max_wall_time_ms b.max_wall_time_ms
    || ltb_ℤ a.max_sql_queries b.max_sql_queries
    || ltb_ℤ a.max_retries b.max_retries
    || ltb_ℤ a.max_report_bytes b.max_report_bytes

unfoldable pub compatibility_budget : PolicyBudget → PolicyBudget
unfolding zip_budget
compatibility_budget requested = zip_budget override default_budget requested

unfoldable pub tighten_budget : PolicyBudget → PolicyBudget → Result PolicyError PolicyBudget
tighten_budget policy requested = do
  guard (not (change_below policy.change requested.change)) change_budget_widens
  guard (not (validation_below policy.validation requested.validation)) validation_budget_widens
  ok (zip_budget override policy requested)

abbrev pub constant_budget : ℤ → PolicyBudget
constant_budget n = record {
  change = record { max_operations = n; max_file_bytes = n; max_total_bytes = n };
  validation = record {
    max_validators = n;
    max_files = n;
    max_bytes = n;
    max_output_bytes = n;
    max_wall_time_ms = n;
    max_sql_queries = n;
    max_retries = n;
    max_report_bytes = n;
  };
}

-- `validateRequestedPolicyBudget`.
unfoldable pub validate_requested_policy_budget : PolicyBudget → Result PolicyError (Unit {0})
unfolding change_below validation_below
validate_requested_policy_budget b = do
  guard
      (not (
        change_below b.change (constant_budget (pos 0)).change
        || validation_below b.validation (constant_budget (pos 0)).validation))
      negative_budget
  guard (not (change_below max_budget.change b.change)) change_budget_out_of_bounds
  guard (not (validation_below max_budget.validation b.validation)) validation_budget_out_of_bounds

-- `time.Duration(ms) * time.Millisecond > 24 * time.Hour` for a positive `ms`: the product is an
-- `int64` and wraps.
unfoldable pub wall_time_exceeds : ℤ → Bool
wall_time_exceeds (pos ms) =
    let wrapped = ms * 1000000 % 2 ^ 64 in ltb wrapped (2 ^ 63) && ltb 86400000000000 wrapped
wall_time_exceeds (negsuc ms) = false

-- The smallest value of each validation limit: one, but no retries.
abbrev pub min_validation : ValidationBudget
min_validation = record (constant_budget (pos 1)).validation { max_retries = pos 0 }

-- `ValidationBudget.Normalize`.
unfoldable pub normalize_validation_budget : ValidationBudget → Result PolicyError ValidationBudget
unfolding zip_budget
normalize_validation_budget b = do
  let n =
      (zip_budget default_of (record { change = max_budget.change; validation = b })
        default_budget).validation
  guard
      (not (
        validation_below n min_validation
        || validation_below (record max_budget.validation { max_wall_time_ms = n.max_wall_time_ms })
            n
        || wall_time_exceeds n.max_wall_time_ms))
      validation_budget_out_of_bounds
  ok n

-- `PolicyBudget.Normalize`.
unfoldable pub normalize_policy_budget : PolicyBudget → Result PolicyError PolicyBudget
unfolding zip_budget
normalize_policy_budget b = do
  let c = (zip_budget default_of b default_budget).change
  guard (not (change_below c (constant_budget (pos 1)).change || change_below max_budget.change c))
      change_budget_out_of_bounds
  v ← normalize_validation_budget b.validation
  ok (record { change = c; validation = v })
