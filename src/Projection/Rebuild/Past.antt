-- ===== src/Projection/Rebuild/Past.antt =====
-- The events behind a sequence: how many they are, and the last of the first ones.
use fornix.Base.{
  ℕ, zero, suc, ◌≤◌, ◌<◌, ◌≡◌, inl, inr, String, Bool, true, List, [], ◌∷◌, length, take, filter,
  any, All, ltb, ◌==◌, Bool-cases, arith,
}
use fornix.Event.Types.{EventEnvelope}
use fornix.Projection.Runner.{last_sequence}

module _ {Raw : Type 0} where
  abbrev pub past : ℕ → EventEnvelope Raw → Bool
  past n e = ltb n e.sequence

  abbrev pub at : ℕ → EventEnvelope Raw → Bool
  at n e = e.sequence == n

  filter-shorter :
      (es : List (EventEnvelope Raw)) (n m : ℕ)
      → n ≤ m
      → length (filter (past m) es) ≤ length (filter (past n) es)
  filter-shorter [] n m h = omega arith
  filter-shorter (e ∷ es) n m h = ground (arith, filter-shorter es n m h)

  -- An event at `m` is past `n` and not past `m`.
  pub filter-drop :
      (es : List (EventEnvelope Raw)) (n m : ℕ)
      → n < m
      → any (at m) es ≡ true
      → length (filter (past m) es) < length (filter (past n) es)
  filter-drop [] n m h k = absurd (cc k)
  filter-drop (e ∷ es) n m h k = elim (Bool-cases (e.sequence == m)) [
    | inl p ↦ let rest = filter-shorter es n m (omega arith) in ground arith
    | inr p ↦ let rest = filter-drop es n m h (rw p at k) in ground arith
  ]

  pub any-take :
      (p : EventEnvelope Raw → Bool) (k : ℕ) (es : List (EventEnvelope Raw))
      → any p (take k es) ≡ true
      → any p es ≡ true
  any-take p zero es h = absurd (cc h)
  any-take p (suc k) [] h = absurd (cc h)
  any-take p (suc k) (e ∷ es) h = let rest = any-take p k es in ground (arith, rest)

  pub any-filter :
      (p q : EventEnvelope Raw → Bool) (es : List (EventEnvelope Raw))
      → any p (filter q es) ≡ true
      → any p es ≡ true
  any-filter p q [] h = h
  any-filter p q (e ∷ es) h = let rest = any-filter p q es in ground (arith, rest)

  pub All-filter :
      (n : ℕ) (es : List (EventEnvelope Raw)) → All (λ e. past n e ≡ true) (filter (past n) es)
  All-filter n [] = tt
  All-filter n (e ∷ es) = elim (Bool-cases (past n e)) [
    | inl p ↦ rw p (p, All-filter n es)
    | inr p ↦ rw p (All-filter n es)
  ]

  pub All-take :
      (P : EventEnvelope Raw → Type 0) (k : ℕ) (es : List (EventEnvelope Raw))
      → All P es
      → All P (take k es)
  All-take P zero es a = tt
  All-take P (suc k) [] a = tt
  All-take P (suc k) (e ∷ es) a = (a.0, All-take P k es a.1)

  pub length-take_positive :
      (k : ℕ) (es : List (EventEnvelope Raw)) → 0 < k → 0 < length es → 0 < length (take k es)
  length-take_positive zero es h g = omega arith
  length-take_positive (suc k) [] h g = omega arith
  length-take_positive (suc k) (e ∷ es) h g = omega arith

  module _ (events : String → List (EventEnvelope Raw)) where
    -- The last of some events past `n` is one of them.
    pub last-past :
        (n before : ℕ) (es : List (EventEnvelope Raw))
        → 0 < length es
        → All (λ e. past n e ≡ true) es
        → (n < last_sequence events before es)
          × (any (at (last_sequence events before es)) es ≡ true)
    last-past n before [] g a = absurd (omega (arith, g))
    last-past n before (e ∷ []) g a = (ground (arith, a.0), ground arith)
    last-past n before (e ∷ f ∷ es) g a =
        let (p, q) = last-past n e.sequence (f ∷ es) (omega arith) a.1 in (p, ground (arith, q))
