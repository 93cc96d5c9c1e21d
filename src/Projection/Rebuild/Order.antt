-- ===== src/Projection/Rebuild/Order.antt =====
-- The events behind a sequence, in a history that is in order.
use fornix.Base.{
  ℕ, zero, suc, ◌≤◌, ◌<◌, ◌≡◌, refl, ap, inl, inr, String, Bool, true, false, List, [], ◌∷◌, take,
  drop, filter, All, Bool-cases, arith,
}
use fornix.Event.Types.{EventEnvelope}
use fornix.Event.Append.{IsOrdered}
use fornix.Projection.Runner.{last_sequence}
use fornix.Projection.Rebuild.Past.{past}

module _ {Raw : Type 0} where
  pub filter_same :
      (n : ℕ) (es : List (EventEnvelope Raw))
      → All (λ (e : EventEnvelope Raw). n < e.sequence) es
      → filter (past n) es ≡ es
  filter_same n [] a = refl
  filter_same n (e ∷ es) a =
      let p : past n e ≡ true = ground (arith, a.0) in rw p (ap (◌∷◌ e) (filter_same n es a.1))

  pub filter_both :
      (n m : ℕ) (es : List (EventEnvelope Raw))
      → n ≤ m
      → filter (past m) (filter (past n) es) ≡ filter (past m) es
  filter_both n m [] h = refl
  filter_both n m (e ∷ es) h = elim (Bool-cases (past n e)) [
    | inl p ↦ rw p (elim (Bool-cases (past m e)) [
      | inl q ↦ rw q (ap (◌∷◌ e) (filter_both n m es h))
      | inr q ↦ rw q (filter_both n m es h)
    ])
    | inr p ↦ let q : past m e ≡ false = ground (arith, p, h) in rw (p, q) (filter_both n m es h)
  ]

  All-filter :
      (P : EventEnvelope Raw → Type 0) (p : EventEnvelope Raw → Bool)
      (es : List (EventEnvelope Raw))
      → All P es
      → All P (filter p es)
  All-filter P p [] a = tt
  All-filter P p (e ∷ es) a = elim (Bool-cases (p e)) [
    | inl q ↦ rw q (a.0, All-filter P p es a.1)
    | inr q ↦ rw q (All-filter P p es a.1)
  ]

  pub IsOrdered-filter :
      (p : EventEnvelope Raw → Bool) (es : List (EventEnvelope Raw))
      → IsOrdered es
      → IsOrdered (filter p es)
  IsOrdered-filter p [] o = tt
  IsOrdered-filter p (e ∷ es) o = elim (Bool-cases (p e)) [
    | inl q ↦ rw q (
      All-filter (λ (y : EventEnvelope Raw). e.sequence < y.sequence) p es o.0,
      IsOrdered-filter p es o.1,
    )
    | inr q ↦ rw q (IsOrdered-filter p es o.1)
  ]

  module _ (events : String → List (EventEnvelope Raw)) where
    last-above :
        (n : ℕ) (k before : ℕ) (es : List (EventEnvelope Raw))
        → n ≤ before
        → All (λ (e : EventEnvelope Raw). n < e.sequence) es
        → n ≤ last_sequence events before (take k es)
    last-above n zero before es h a = h
    last-above n (suc k) before [] h a = h
    last-above n (suc k) before (e ∷ es) h a = last-above n k e.sequence es (omega (arith, a.0)) a.1

    -- Past the last of the first `suc k` events come the others.
    past-last :
        (k before : ℕ) (es : List (EventEnvelope Raw))
        → IsOrdered es
        → filter (past (last_sequence events before (take (suc k) es))) es ≡ drop (suc k) es
    past-last k before [] o = refl
    past-last zero before (e ∷ es) o =
        let p : past e.sequence e ≡ false = ground arith in rw p (filter_same e.sequence es o.0)
    past-last (suc k) before (e ∷ []) o = ground arith
    past-last (suc k) before (e ∷ f ∷ es) o =
        let up = last-above f.sequence k f.sequence es (omega arith) o.1.0 in
        let p : past (last_sequence events f.sequence (take k es)) e ≡ false =
          ground (arith, o.0.0, up) in
        rw p (past-last k e.sequence (f ∷ es) o.1)

pub take-take :
    {Raw : Type 0} (a b : ℕ) (es : List (EventEnvelope Raw))
    → a ≤ b
    → take a (take b es) ≡ take a es
take-take zero b es h = refl
take-take (suc a) zero es h = absurd (omega (arith, h))
take-take (suc a) (suc b) [] h = refl
take-take (suc a) (suc b) (e ∷ es) h = ap (◌∷◌ e) (take-take a b es (omega (arith, h)))

pub past-last_positive :
    {Raw : Type 0} (events : String → List (EventEnvelope Raw)) (s before : ℕ)
    (es : List (EventEnvelope Raw))
    → 0 < s
    → IsOrdered es
    → filter (past (last_sequence events before (take s es))) es ≡ drop s es
past-last_positive events zero before es h o = absurd (omega (arith, h))
past-last_positive events (suc k) before es h o = past-last events k before es o
