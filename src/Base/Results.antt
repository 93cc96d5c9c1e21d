-- ===== src/Base/Results.antt =====
-- Fallible code: a value or one of the component's errors, and `do` blocks over it.
use mathlib.Core.Path.{◌≡◌, refl}
use mathlib.Core.Logic.{◌⊎◌, inl, inr}
use mathlib.Core.Bool.{Bool, true, false}

pub data Result (E : Type 0) (A : Type 0) : Type 0 where
  ok : A → Result E A
  err : E → Result E A

-- `if !test { return cause }`.
abbrev pub guard : {E : Type 0} → Bool → E → Result E (Unit {0})
guard false cause = err cause
guard true cause = ok tt

infixl 5 ◌>>◌ ◌>>=◌
-- The first error ends the block.
abbrev pub ◌>>=◌ : {E A B : Type 0} → Result E A → (A → Result E B) → Result E B
err cause >>= next = err cause
ok value >>= next = next value

-- A check, and what follows it.
abbrev pub ◌>>◌ : {E B : Type 0} → Result E (Unit {0}) → Result E B → Result E B
check >> rest = check >>= λ done. rest

pub >>=-eq-ok :
    {E A B : Type 0} (action : Result E A) (next : A → Result E B) {b : B}
    → (action >>= next) ≡ ok b
    → (value : A) × (action ≡ ok value) × (next value ≡ ok b)
>>=-eq-ok (err cause) next h = cc
>>=-eq-ok (ok value) next h = (value, refl, h)

pub Result-cases :
    {E A : Type 0} (r : Result E A) → ((e : E) × (r ≡ err e)) ⊎ ((a : A) × (r ≡ ok a))
Result-cases (ok a) = inr (a, refl)
Result-cases (err e) = inl (e, refl)

pub guard-eq-ok :
    {E B : Type 0} (b : Bool) (e : E) (k : Result E B) {v : B}
    → (guard b e >> k) ≡ ok v
    → (b ≡ true) × (k ≡ ok v)
guard-eq-ok true e k h = (refl, h)
guard-eq-ok false e k h = cc

pub ok-injective : {E A : Type 0} {a b : A} → (let r : Result E A = ok a in r) ≡ ok b → a ≡ b
ok-injective h = cc

-- An error is no value.
pub err-not-ok : {E A B : Type 0} {e : E} {a : A} → (let r : Result E A = err e in r) ≡ ok a → B
err-not-ok h = absurd (cc h)
