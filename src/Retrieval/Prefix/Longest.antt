-- ===== src/Retrieval/Prefix/Longest.antt =====
-- The binary search finds the longest prefix that fits.
use native.Mathlib.Decide.{dec_lt}
use fornix.Base.{
  ℕ, zero, suc, ◌+◌, ◌-◌, ◌/◌, ◌≤◌, ◌<◌, ◌≡◌, refl, Bool, true, false, ltb, ◌==◌, [], ◌∷◌, length,
  take, take_all, length-take, ap, sym, ◌⊎◌, ◌↔◌, arith, Bool-cases, inl, inr,
}
use fornix.Retrieval.Prefix.{
  Runes, rune_bytes, byte_count, estimate_tokens, fits, search, bounded_prefix,
}

-- With the test true at `low`, false above `high`, and closed downwards, the search ends at the
-- largest value that passes, if the fuel is no less than the distance.
module _ (test : ℕ → Bool) (down : (m n : ℕ) → n ≤ m → test m ≡ true → test n ≡ true) where
  below_failure : (m k : ℕ) → test m ≡ true → test k ≡ false → m < k
  below_failure m k h p = elim (dec_lt m k) [
    | yes q ↦ q
    | no q ↦ absurd (cc (down m k (omega arith) h))
  ]

  search-largest :
      (fuel low high : ℕ)
      → high ≤ low + fuel
      → low ≤ high
      → test low ≡ true
      → ((m : ℕ) → test m ≡ true → m ≤ high)
      → (test (search test fuel low high) ≡ true)
        × ((m : ℕ) → test m ≡ true → m ≤ search test fuel low high)
  unfolding search
  search-largest zero low high f le t above = (t, λ m h. omega (arith, above m h))
  search-largest (suc fuel) low high f le t above =
      let mid : ℕ = low + (high - low + 1) / 2 in
      elim (Bool-cases (ltb low high)) [
        | inr e ↦ rw e (t, λ m h. ground (arith, above m h))
        | inl e ↦ rw e (elim (Bool-cases (test mid)) [
          | inl p ↦ rw p (search-largest fuel mid high (ground arith) (ground arith) p above)
          | inr p ↦ rw p (
              search-largest fuel low (mid - 1) (ground arith) (ground arith) t
                (λ m h. omega (arith, below_failure m mid h p)))
        ])
      ]

-- Prefixes grow with their length, in bytes and in tokens.
byte_count-take :
    (m n : ℕ) (text : Runes) → n ≤ m → byte_count (take n text) ≤ byte_count (take m text)
byte_count-take m zero text h = omega arith
byte_count-take zero (suc n) text h = absurd (omega arith)
byte_count-take (suc m) (suc n) [] h = omega arith
byte_count-take (suc m) (suc n) (c ∷ cs) h = omega (arith, byte_count-take m n cs (omega arith))

tokens-length : (text : Runes) → estimate_tokens text ≡ (length text + 3) / 4
unfolding estimate_tokens
tokens-length [] = refl
tokens-length (c ∷ cs) = refl

pub fits_iff :
    (b t : ℕ) (text : Runes)
    → (fits b t text ≡ true) ↔ ((byte_count text ≤ b) × (estimate_tokens text ≤ t))
unfolding fits
fits_iff b t text = ground arith

fits-take :
    (b t m n : ℕ) (text : Runes)
    → n ≤ m
    → fits b t (take m text) ≡ true
    → fits b t (take n text) ≡ true
fits-take b t m n text h f =
    let (x, y) = (fits_iff b t (take m text)).0 f in
    (fits_iff b t (take n text)).1 (
      omega (arith, byte_count-take m n text h),
      omega (
        arith,
        tokens-length (take m text),
        tokens-length (take n text),
        length-take m text,
        length-take n text,
      ),
    )

-- What the code promises of a prefix: it is one, it fits, and no longer one does.
pub record IsLongestFitting (b t : ℕ) (text prefix : Runes) : Type 0 where
  pub size : ℕ
  pub is_prefix : prefix ≡ take size text
  pub in_bytes : byte_count prefix ≤ b
  pub in_tokens : estimate_tokens prefix ≤ t
  pub longest : (m : ℕ) → m ≤ length text → fits b t (take m text) ≡ true → m ≤ size

search-IsLongestFitting :
    (b t : ℕ) (text : Runes)
    → fits b t text ≡ false
    → IsLongestFitting b t text
        (take (search (λ n. fits b t (take n text)) (length text) 0 (length text)) text)
search-IsLongestFitting b t text no_fit =
    let test : ℕ → Bool = λ n. fits b t (take n text) in
    let (p, top) =
      search-largest test (λ m n. fits-take b t m n text) (length text) 0 (length text)
        (omega arith) (omega arith)
        ((fits_iff b t []).1 (omega arith, omega (arith, tokens-length [])))
        (λ m h. elim (dec_lt (length text) m) [
          | no q ↦ omega arith
          | yes q ↦ absurd (cc (ap (fits b t) (take_all m text (omega arith))))
        ]) in
    let (x, y) = (fits_iff b t _).0 p in
    record {
      size = search test (length text) 0 (length text);
      is_prefix = refl;
      in_bytes = x;
      in_tokens = y;
      longest = λ m _ h. top m h;
    }

nothing-IsLongestFitting :
    (b t : ℕ) (text : Runes)
    → ((m : ℕ) → fits b t (take m text) ≡ true → m ≤ 0)
    → IsLongestFitting b t text []
nothing-IsLongestFitting b t text none_fits = record {
  size = 0;
  is_prefix = refl;
  in_bytes = omega arith;
  in_tokens = omega (arith, tokens-length []);
  longest = λ m _ f. none_fits m f;
}

pub whole-IsLongestFitting :
    (b t : ℕ) (text : Runes) → fits b t text ≡ true → IsLongestFitting b t text text
whole-IsLongestFitting b t text f =
    let (x, y) = (fits_iff b t text).0 f in
    record {
      size = length text;
      is_prefix = sym (take_all (length text) text (omega arith));
      in_bytes = x;
      in_tokens = y;
      longest = λ m h _. h;
    }

rune_bytes-positive : (c : ℕ) → 1 ≤ rune_bytes c
rune_bytes-positive c = ground arith

-- A prefix that is not empty takes at least a byte and a token.
take-positive :
    (m c : ℕ) (cs : Runes)
    → (m ≡ 0) ⊎ ((1 ≤ byte_count (take m (c ∷ cs))) × (1 ≤ estimate_tokens (take m (c ∷ cs))))
take-positive zero c cs = inl refl
take-positive (suc m) c cs =
    inr (omega (arith, rune_bytes-positive c), omega (arith, tokens-length (c ∷ take m cs)))

-- `boundedPrefix` returns the longest prefix of a text that fits both limits.
pub bounded_prefix-IsLongestFitting :
    (text : Runes) (b t : ℕ) → IsLongestFitting b t text (bounded_prefix text b t)
unfolding bounded_prefix
bounded_prefix-IsLongestFitting [] b t = record {
  size = 0;
  is_prefix = refl;
  in_bytes = omega arith;
  in_tokens = omega (arith, tokens-length []);
  longest = λ m h _. h;
}
bounded_prefix-IsLongestFitting (c ∷ cs) b t = elim (Bool-cases (b == 0)) [
  | inl e ↦ rw e (
      nothing-IsLongestFitting b t (c ∷ cs)
        (λ m f. ground (arith, (fits_iff b t (take m (c ∷ cs))).0 f, take-positive m c cs)))
  | inr e ↦ rw e (elim (Bool-cases (t == 0)) [
    | inl k ↦ rw k (
        nothing-IsLongestFitting b t (c ∷ cs)
          (λ m f. ground (arith, (fits_iff b t (take m (c ∷ cs))).0 f, take-positive m c cs)))
    | inr k ↦ rw k (elim (Bool-cases (fits b t (c ∷ cs))) [
      | inl f ↦ rw f (whole-IsLongestFitting b t (c ∷ cs) f)
      | inr f ↦ rw f (search-IsLongestFitting b t (c ∷ cs) f)
    ])
  ])
]
