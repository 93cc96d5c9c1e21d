-- ===== src/Tasks/Rules/Backoff.antt =====
-- The backoff of retries, against its closed form.
use fornix.Base.{
  ℕ, zero, suc, ◌-◌, ◌*◌, ◌^◌, ◌≤◌, ◌≡◌, refl, sym, ap, ◌∙◌, min, none, ltb, if◌then◌else◌, arith,
  Bool-cases, inl, inr,
}
use native.Mathlib.Nat.{mul_assoc, mul-le-mul}
use fornix.Tasks.Rules.{doubled, retry_delay, max_task_retry_backoff}

power-positive : (n : ℕ) → 1 ≤ 2 ^ n
power-positive zero = omega arith
power-positive (suc n) = omega (arith, power-positive n)

power_suc : (n : ℕ) → 2 ^ suc n ≡ 2 * 2 ^ n
power_suc n = omega arith

product-above : (delay p limit : ℕ) → limit ≤ delay → 1 ≤ p → limit ≤ delay * p
product-above delay p limit h k = omega (arith, mul-le-mul h k)

past_limit :
    (a b : ℕ)
    → max_task_retry_backoff ≤ a
    → max_task_retry_backoff ≤ b
    → min a max_task_retry_backoff ≡ min b max_task_retry_backoff
past_limit a b h k = omega arith

-- Once the loop has passed the limit, more doubling changes nothing.
doubled-closed :
    (n delay : ℕ)
    → min (doubled n delay) max_task_retry_backoff ≡ min (delay * 2 ^ n) max_task_retry_backoff
unfolding doubled
doubled-closed zero delay = omega arith
doubled-closed (suc n) delay = elim (Bool-cases (ltb delay max_task_retry_backoff)) [
  | inl p ↦ rw p (
      doubled-closed n (delay * 2)
      ∙ ap (λ x. min x max_task_retry_backoff)
          (mul_assoc delay 2 (2 ^ n) ∙ ap (λ x. delay * x) (sym (power_suc n))))
  | inr p ↦
      let k =
        product-above delay (2 ^ suc n) max_task_retry_backoff (ground (arith, p))
          (power-positive (suc n)) in
      rw p (past_limit delay (delay * 2 ^ suc n) (ground (arith, p)) k)
]

before_suc : (n : ℕ) → n ≡ suc n - 1
before_suc n = omega arith

capped :
    (n : ℕ)
    → (if ltb max_task_retry_backoff n then max_task_retry_backoff else n)
      ≡ min n max_task_retry_backoff
capped n = ground arith

-- Without a requested delay, the delay of an attempt is 100 ms doubled once for every attempt before
-- it, and at most 5 minutes: the loop's early exit loses nothing.
pub retry_delay-closed :
    (attempt : ℕ)
    → retry_delay attempt none ≡ min (100_000_000 * 2 ^ (attempt - 1)) max_task_retry_backoff
unfolding retry_delay doubled
retry_delay-closed zero = refl
retry_delay-closed (suc n) =
    capped (doubled n 100_000_000)
    ∙ doubled-closed n 100_000_000
    ∙ ap (λ k. min (100_000_000 * 2 ^ k) max_task_retry_backoff) (before_suc n)
