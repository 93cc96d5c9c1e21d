-- ===== src/Tasks/Rules.antt =====
-- The pure rules of tasks: bounds, classes, and the backoff of retries. Durations are nanoseconds.
pub mod Backoff
use fornix.Base.{
  ℕ, zero, suc, ◌+◌, ◌*◌, String, str_eq, trim, is_empty, Bool, true, false, not, ◌&&◌, ◌||◌,
  Option, none, some, ltb, leb, ◌==◌, if◌then◌else◌, List, [], ◌∷◌, any, ℤ, pos, negsuc, pos_part,
  is_positive, Result, ok, err, ◌>>=◌, ◌>>◌, guard, sort_by,
}
use fornix.Policy.Resolve.{text_lt}
use fornix.Event.Normalize.{default_workspace_id, clean_strings}
use fornix.Tasks.Types.{
  TaskError, bad_max_attempts, workspace_required, task_required, owner_required,
}

abbrev pub default_task_lease_ttl : ℕ
default_task_lease_ttl = 30_000_000_000

abbrev pub max_task_lease_ttl : ℕ
max_task_lease_ttl = 600_000_000_000

abbrev pub max_task_attempts : ℕ
max_task_attempts = 20

abbrev pub max_task_retry_backoff : ℕ
max_task_retry_backoff = 300_000_000_000

abbrev pub max_task_fence : ℕ
max_task_fence = 9223372036854775807

abbrev pub normalize_workspace : String → String
normalize_workspace workspace_id =
    if is_empty (trim workspace_id) then default_workspace_id else trim workspace_id

unfoldable pub normalize_max_attempts : ℤ → Result TaskError ℕ
normalize_max_attempts (pos n) =
    if n == 0 then ok 3 else if ltb max_task_attempts n then err bad_max_attempts else ok n
normalize_max_attempts (negsuc n) = err bad_max_attempts

unfoldable pub bounded_task_lease_ttl : ℤ → ℕ
bounded_task_lease_ttl ttl =
    if not (is_positive ttl)
    then default_task_lease_ttl
    else if ltb max_task_lease_ttl (pos_part ttl)
    then max_task_lease_ttl
    else pos_part ttl

-- `for i := 1; i < attempt && delay < max; i++ { delay *= 2 }`, on the rounds left.
unfoldable pub doubled : ℕ → ℕ → ℕ
doubled zero delay = delay
doubled (suc rounds) delay =
    let next = doubled rounds (delay * 2) in
    if ltb delay max_task_retry_backoff then next else delay

-- The rounds of the loop: one less than the attempt.
abbrev rounds_of : ℕ → ℕ
rounds_of zero = 0
rounds_of (suc n) = n

unfoldable pub retry_delay : ℕ → Option ℤ → ℕ
retry_delay attempt (some (negsuc n)) = 0
retry_delay attempt (some (pos n)) =
    if ltb max_task_retry_backoff n then max_task_retry_backoff else n
retry_delay attempt none =
    let delay = doubled (rounds_of attempt) 100_000_000 in
    if ltb max_task_retry_backoff delay then max_task_retry_backoff else delay

-- The positive ones, each once. `seen` is what is kept so far.
abbrev distinct_ids : List ℕ → List ℤ → List ℕ
distinct_ids seen [] = []
distinct_ids seen (v ∷ vs) =
    let skipped = distinct_ids seen vs in
    let kept = pos_part v ∷ distinct_ids (pos_part v ∷ seen) vs in
    if not (is_positive v) || any (λ n. n == pos_part v) seen then skipped else kept

unfoldable pub normalize_task_ids : List ℤ → List ℕ
normalize_task_ids values = sort_by ltb (distinct_ids [] values)

-- `cleanStrings` of internal/store/tasks.go: the one of the events, sorted.
unfoldable pub sorted_strings : List String → List String
sorted_strings values = sort_by text_lt (clean_strings [] values)

unfoldable pub is_task_terminal : String → Bool
is_task_terminal status =
    let s = trim status in
    str_eq s "done" || str_eq s "failed" || str_eq s "cancelled" || str_eq s "deadletter"

unfoldable pub is_failure_class : String → Bool
is_failure_class value =
    let v = trim value in
    str_eq v "transient"
    || str_eq v "timeout"
    || str_eq v "rate_limited"
    || str_eq v "permanent"
    || str_eq v "dependency"
    || str_eq v "unknown"

unfoldable pub validate_task_lease_identity : String → String → ℕ → Result TaskError (Unit {0})
validate_task_lease_identity workspace_id owner_id task_id = do
  guard (not (is_empty (trim workspace_id))) workspace_required
  guard (not (task_id == 0)) task_required
  guard (not (is_empty (trim owner_id))) owner_required
