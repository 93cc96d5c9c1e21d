-- ===== src/Base/Sort.antt =====
-- Sorting by a strict order, by insertion: what `sort.Slice` gives where no two elements are equal
-- under the order, and `sort.SliceStable` always.
use Prim.Native.Nat.{◌+◌}
use mathlib.Core.Path.{◌≡◌, refl}
use mathlib.Core.Logic.{inl, inr}
use mathlib.Core.Bool.{Bool, true, false}
use mathlib.Core.List.{List, [], ◌∷◌}
use native.Mathlib.Omega.{arith}
use fornix.Base.Tests.{if◌then◌else◌, Bool-cases}
use fornix.Base.Lists.{length, All, any}

module _ {A : Type 0} (lt : A → A → Bool) where
  -- Before the first element that is not below `r`; as the list is folded from its end, an element
  -- comes before the equal ones that stood behind it.
  unfoldable pub insert_by : A → List A → List A
  insert_by r [] = r ∷ []
  insert_by r (x ∷ xs) = let rest = insert_by r xs in if lt x r then x ∷ rest else r ∷ x ∷ xs

  unfoldable pub sort_by : List A → List A
  unfolding insert_by
  sort_by [] = []
  sort_by (x ∷ xs) = insert_by x (sort_by xs)

  length-insert_by : (r : A) (xs : List A) → length (insert_by r xs) ≡ length xs + 1
  unfolding insert_by
  length-insert_by r [] = omega arith
  length-insert_by r (x ∷ xs) = ground (arith, length-insert_by r xs)

  pub length-sort_by : (xs : List A) → length (sort_by xs) ≡ length xs
  unfolding sort_by
  length-sort_by [] = refl
  length-sort_by (x ∷ xs) = omega (arith, length-insert_by x (sort_by xs), length-sort_by xs)

  pub any-insert_by :
      (test : A → Bool) (r : A) (xs : List A) → any test (insert_by r xs) ≡ any test (r ∷ xs)
  unfolding insert_by
  any-insert_by test r [] = refl
  any-insert_by test r (x ∷ xs) = ground (arith, any-insert_by test r xs)

  pub any-sort_by : (test : A → Bool) (xs : List A) → any test (sort_by xs) ≡ any test xs
  unfolding sort_by
  any-sort_by test [] = refl
  any-sort_by test (x ∷ xs) = ground (arith, any-insert_by test x (sort_by xs), any-sort_by test xs)

  module _ {κ} (P : A → Type κ) where
    All-insert_by : (r : A) (xs : List A) → P r → All P xs → All P (insert_by r xs)
    unfolding insert_by
    All-insert_by r [] p h = (p, h)
    All-insert_by r (x ∷ xs) p h = elim (Bool-cases (lt x r)) [
      | inl e ↦ rw e (h.0, All-insert_by r xs p h.1)
      | inr e ↦ rw e (p, h)
    ]

    pub All-sort_by : (xs : List A) → All P xs → All P (sort_by xs)
    unfolding sort_by
    All-sort_by [] h = h
    All-sort_by (x ∷ xs) h = All-insert_by x (sort_by xs) h.0 (All-sort_by xs h.1)

  -- No element is above the next one.
  abbrev pub Head : A → List A → Type 0
  Head x [] = Unit {0}
  Head x (y ∷ ys) = lt y x ≡ false

  abbrev pub IsSorted : List A → Type 0
  IsSorted [] = Unit {0}
  IsSorted (x ∷ xs) = Head x xs × IsSorted xs

  module _ (asym : (a b : A) → lt a b ≡ true → lt b a ≡ false) where
    Head-insert_by : (y r : A) (xs : List A) → Head y xs → lt r y ≡ false → Head y (insert_by r xs)
    unfolding insert_by
    Head-insert_by y r [] h k = k
    Head-insert_by y r (x ∷ xs) h k = elim (Bool-cases (lt x r)) [ inl e ↦ rw e h | inr e ↦ rw e k ]

    insert_by-IsSorted : (r : A) (xs : List A) → IsSorted xs → IsSorted (insert_by r xs)
    unfolding insert_by
    insert_by-IsSorted r [] s = (tt, tt)
    insert_by-IsSorted r (x ∷ xs) s = elim (Bool-cases (lt x r)) [
      | inl e ↦ rw e (Head-insert_by x r xs s.0 (asym x r e), insert_by-IsSorted r xs s.1)
      | inr e ↦ rw e (e, s)
    ]

    pub sort_by-IsSorted : (xs : List A) → IsSorted (sort_by xs)
    unfolding sort_by
    sort_by-IsSorted [] = tt
    sort_by-IsSorted (x ∷ xs) = insert_by-IsSorted x (sort_by xs) (sort_by-IsSorted xs)
