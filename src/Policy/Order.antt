-- ===== src/Policy/Order.antt =====
-- The order in which validators are sorted is a strict one.
use Prim.Native.Char.{Char, code}
use Prim.Native.Nat.{Ordering, compare as compare_ℕ}
use Prim.Native.String.{then, compare as compare_text}
use Prim.Native.String.compare
use fornix.Base.{◌≡◌, refl, String, eq_iff, true, false, arith}
use fornix.Policy.Types.{ValidatorRef}
use fornix.Policy.Resolve.{is_lt, text_lt, ref_lt}

text_lt-cons :
    (c d : Char) (s t : String)
    → text_lt (String.◌∷◌ c s) (String.◌∷◌ d t) ≡ (
        let o = then (compare_ℕ (code c) (code d)) (compare_text s t) in
        elim o [ Ordering.lt ↦ true | _ ↦ false ])
text_lt-cons c d s t = rw (compare.cons-cons c d s t)

text_lt-asym : (s t : String) → text_lt s t ≡ true → text_lt t s ≡ false
text_lt-asym String.[] String.[] h = refl
text_lt-asym String.[] (String.◌∷◌ d t) h = rw (compare.cons-nil d t)
text_lt-asym (String.◌∷◌ c s) String.[] h =
    let h' : is_lt Ordering.gt ≡ true = rw (compare.cons-nil c s) at h in cc h'
text_lt-asym (String.◌∷◌ c s) (String.◌∷◌ d t) h =
    ground (arith, text_lt-cons c d s t, text_lt-cons d c t s, text_lt-asym s t)

pub ref_lt-asym : (a b : ValidatorRef) → ref_lt a b ≡ true → ref_lt b a ≡ false
ref_lt-asym a b h = ground (
  arith,
  eq_iff a.id b.id,
  eq_iff b.id a.id,
  text_lt-asym a.id b.id,
  text_lt-asym a.version b.version,
)
