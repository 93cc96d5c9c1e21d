-- ===== src/Ingest/Chunk/Cover.antt =====
-- The windows cover the file.
use mathlib.Core.List.{append-nil}
use fornix.Base.{
  ℕ, zero, suc, ◌+◌, ◌-◌, ◌≤◌, ◌<◌, ◌≡◌, ◌≢◌, refl, sym, ap, ◌∙◌, true, false, ◌||◌, not, ltb, ◌==◌,
  List, [], ◌∷◌, ◌++◌, length, take, drop, length-drop, take-append-drop, take_all, drop-take,
  drop-drop, take_add, All, Option, none, some, ℤ, pos, pos_part, ltb_ℤ, Result, ok, err, arith,
  subst, Bool-cases, Option-cases, ◌⊎◌, ◌^◌, ◌%◌, inl, inr,
}
use fornix.Ingest.Chunk.{
  Runes, ChunkError, invalid_overlap, not_utf8, negative_capacity, capacity, ChunkWindow, newlines,
  window_size, window_end, window_at, windows, chunk,
}

-- What stands in a window: a slice of the file, no longer than the size, and the lines of its ends.
-- It is the first, or the size is below the number of runes.
pub record IsSlice (runes : Runes) (size : ℕ) (w : ChunkWindow) : Type 0 where
  pub ordered : w.rune_start < w.rune_end
  pub inside : w.rune_end ≤ length runes
  pub bounded : w.rune_end ≤ w.rune_start + size
  pub first_or_small : (w.rune_start ≡ 0) ⊎ (size < length runes)
  pub is_slice : w.text ≡ take (w.rune_end - w.rune_start) (drop w.rune_start runes)
  pub starts_at_line : w.line_start ≡ 1 + newlines (take w.rune_start runes)
  pub ends_at_line : w.line_end ≡ 1 + newlines (take w.rune_end runes)

-- The windows but the first, each without what it repeats.
abbrev pub continue_with : ℕ → List ChunkWindow → Runes
continue_with overlap [] = []
continue_with overlap (w ∷ ws) = drop overlap w.text ++ continue_with overlap ws

abbrev pub rejoin : ℕ → List ChunkWindow → Runes
rejoin overlap [] = []
rejoin overlap (w ∷ ws) = w.text ++ continue_with overlap ws

newlines-append : (s t : Runes) → newlines (s ++ t) ≡ newlines s + newlines t
newlines-append [] t = omega arith
newlines-append (c ∷ s) t = ground (arith, newlines-append s t)

take-split :
    (m n : ℕ) (runes : Runes) → m ≤ n → take n runes ≡ take m runes ++ take (n - m) (drop m runes)
take-split m n runes h =
    let e : n ≡ m + (n - m) = omega arith in ap (λ k. take k runes) e ∙ take_add m (n - m) runes

module _ (runes : Runes) (size step : ℕ) (step_pos : 1 ≤ step) (size_pos : 1 ≤ size) where
  window_end-bounds :
      (start : ℕ)
      → start < length runes
      → (start < window_end runes size step start)
        × (window_end runes size step start ≤ length runes)
        × (window_end runes size step start ≤ start + size)
  unfolding window_end
  window_end-bounds start h = ground arith

  window_at-IsSlice :
      (start index : ℕ)
      → start < length runes
      → (start ≡ 0) ⊎ (size < length runes)
      → IsSlice runes size (window_at runes size step start index)
  unfolding window_at
  window_at-IsSlice start index h f =
      let (a, b, c) = window_end-bounds start h in
      let e = window_end runes size step start in
      record {
        ordered = a;
        inside = b;
        bounded = c;
        first_or_small = f;
        is_slice = refl;
        starts_at_line = refl;
        ends_at_line = omega (
          arith,
          ap newlines (take-split start e runes (omega arith)),
          newlines-append (take start runes) (take (e - start) (drop start runes)),
        );
      }

  windows-IsSlice :
      (fuel start index : ℕ)
      → (start ≡ 0) ⊎ (size < length runes)
      → All (IsSlice runes size) (windows runes size step fuel start index)
  unfolding windows window_end
  windows-IsSlice zero start index f = tt
  windows-IsSlice (suc fuel) start index f = elim (Bool-cases (ltb start (length runes))) [
    | inr e ↦ rw e tt
    | inl e ↦ rw e (
      window_at-IsSlice start index (ground arith) f,
      elim (Bool-cases (window_end runes size step start == length runes)) [
        | inl k ↦ rw k tt
        | inr k ↦ rw k (windows-IsSlice fuel (start + step) (index + 1) (inr (ground arith)))
      ],
    )
  ]

module _ (runes : Runes) (step overlap : ℕ) (step_pos : 1 ≤ step) where
  -- A window that begins `overlap` runes before `from` adds what stands from there to its end.
  window-drop :
      (start index : ℕ)
      → start + overlap < length runes
      → drop overlap (window_at runes (overlap + step) step start index).text
        ≡ take
            (window_end runes (overlap + step) step start - start - overlap)
            (drop (start + overlap) runes)
  unfolding window_at
  window-drop start index h =
      let end_at = window_end runes (overlap + step) step start in
      drop-take overlap (end_at - start) (drop start runes)
      ∙ ap (take (end_at - start - overlap)) (drop-drop overlap start runes)

  drop-all : (n : ℕ) (xs : Runes) → length xs ≤ n → drop n xs ≡ []
  drop-all zero [] h = refl
  drop-all zero (x ∷ xs) h = absurd (omega arith)
  drop-all (suc n) [] h = refl
  drop-all (suc n) (x ∷ xs) h = drop-all n xs (omega arith)

  continue_with-windows :
      (fuel start index : ℕ)
      → start + overlap < length runes
      → length runes ≤ start + fuel
      → continue_with overlap (windows runes (overlap + step) step fuel start index)
        ≡ drop (start + overlap) runes
  unfolding windows window_end
  continue_with-windows zero start index h f = absurd (omega arith)
  continue_with-windows (suc fuel) start index h f =
      let end_at = window_end runes (overlap + step) step start in
      let rest_of = drop (start + overlap) runes in
      let e : ltb start (length runes) ≡ true = ground arith in
      rw e (elim (Bool-cases (end_at == length runes)) [
        | inl k ↦ rw k (
            append-nil _
            ∙ window-drop start index h
            ∙ take_all (end_at - start - overlap) rest_of
                (ground (arith, length-drop (start + overlap) runes)))
        | inr k ↦ rw k (
            let ih =
              continue_with-windows fuel (start + step) (index + 1) (ground arith) (omega arith) in
            let m : end_at - start - overlap ≡ step = ground arith in
            let n : start + step + overlap ≡ start + overlap + step = omega arith in
            rw (window-drop start index h, ih, m, n)
              (sym (ap (λ r. take step rest_of ++ r) (drop-drop step (start + overlap) runes))
                ∙ take-append-drop step rest_of))
      ])

  rejoin-windows :
      (fuel : ℕ)
      → length runes ≤ fuel
      → rejoin overlap (windows runes (overlap + step) step fuel 0 0) ≡ runes
  unfolding windows window_end window_at
  rejoin-windows zero f = take_all zero runes f
  rejoin-windows (suc fuel) f =
      let end_at = window_end runes (overlap + step) step 0 in
      elim (Bool-cases (ltb 0 (length runes))) [
        | inr e ↦ rw e (take_all zero runes (ground arith))
        | inl e ↦ rw e (elim (Bool-cases (end_at == length runes)) [
          | inl k ↦ rw k (append-nil _ ∙ take_all (end_at - 0) runes (ground arith))
          | inr k ↦ rw k (
              let m : end_at - 0 ≡ 0 + step + overlap = ground arith in
              rw (continue_with-windows fuel (0 + step) (0 + 1) (ground arith) (omega arith)) (
                ap (λ n. take n runes ++ drop (0 + step + overlap) runes) m
                ∙ take-append-drop (0 + step + overlap) runes))
        ])
      ]

pos-not_negative : (n : ℕ) → ltb_ℤ (pos n) (pos 0) ≢ true
unfolding ltb_ℤ
pos-not_negative n h = ground arith

-- Where the capacity is negative, its sum is not an `int`.
capacity-wrapped :
    (count step : ℕ) → ltb_ℤ (capacity count step) (pos 0) ≡ true → 2 ^ 63 ≤ count + step - 1
unfolding capacity ltb_ℤ
capacity-wrapped count step h = elim (Bool-cases (ltb (count + step - 1) (2 ^ 63))) [
  | inr e ↦ ground arith
  | inl e ↦
      let m : (count + step - 1) % 2 ^ 64 ≡ count + step - 1 = ground arith in
      absurd (pos-not_negative _ (rw (m, e) at h))
]

length-nil : (runes : Runes) → length runes ≡ 0 → runes ≡ []
length-nil [] h = refl
length-nil (c ∷ runes) h = absurd (omega arith)

-- What the windows of a file promise: each is a slice of the file with its lines, and they join to the file.
pub record Tiles (runes : Runes) (size overlap : ℕ) (ws : List ChunkWindow) : Type 0 where
  pub all_slices : All (IsSlice runes size) ws
  pub joined : rejoin overlap ws ≡ runes

module _ {Bytes : Type 0} (decode : Bytes → Option Runes) (data_bytes : Bytes)
    (size overlap : ℤ) where
  -- The outcome of a call, on each branch.
  abbrev pub IsOutcome : Result ChunkError (List ChunkWindow) → Type 0
  IsOutcome (err invalid_overlap) =
      (ltb_ℤ overlap (pos 0) || not (ltb_ℤ overlap (pos (window_size size)))) ≡ true
  IsOutcome (err not_utf8) = decode data_bytes ≡ none
  IsOutcome (err negative_capacity) =
      (runes : Runes) × (decode data_bytes ≡ some runes)
      × (0 < length runes)
      × (ltb_ℤ (capacity (length runes) (window_size size - pos_part overlap)) (pos 0) ≡ true)
      × (2 ^ 63 ≤ length runes + (window_size size - pos_part overlap) - 1)
  IsOutcome (ok ws) =
      (runes : Runes) × (decode data_bytes ≡ some runes)
      × ((length runes ≡ 0)
          ⊎ (ltb_ℤ (capacity (length runes) (window_size size - pos_part overlap)) (pos 0) ≡ false))
      × Tiles runes (window_size size) (pos_part overlap) ws

  -- `Chunk` of a file that decodes, with an overlap that is at least 0 and below the window size,
  -- gives windows that each are a slice of the file, not empty and at most the size long, with the
  -- lines at their ends counted right, and that join to the file when each but the first leaves out
  -- its overlap. It refuses only another overlap, or a file that does not decode, and it panics
  -- exactly where the file is not empty and the capacity that it asks for is negative, which takes a
  -- number of runes and a step whose sum less one is 2 ^ 63 or more.
  pub chunk-IsOutcome : IsOutcome (chunk decode data_bytes size overlap)
  unfolding chunk ltb_ℤ
  chunk-IsOutcome =
      let w : ℕ = window_size size in
      let o : ℕ = pos_part overlap in
      elim (Bool-cases (ltb_ℤ overlap (pos 0) || not (ltb_ℤ overlap (pos w)))) [
        | inl e ↦ rw e e
        | inr e ↦ rw e (elim (Option-cases (decode data_bytes)) [
          | inl k ↦ rw k k
          | inr (runes, k) ↦ rw k (
              let small : o < w = ground arith in
              let f : w ≡ o + (w - o) = omega arith in
              elim (Bool-cases (length runes == 0)) [
                | inl z ↦ rw z (
                    let empty : length runes ≡ 0 = ground arith in
                    (
                      runes,
                      k,
                      inl empty,
                      record { all_slices = tt; joined = sym (length-nil runes empty) },
                    ))
                | inr z ↦
                    rw z (elim (Bool-cases (ltb_ℤ (capacity (length runes) (w - o)) (pos 0))) [
                      | inl n ↦
                          rw n
                            (runes, k, ground arith, n, capacity-wrapped (length runes) (w - o) n)
                      | inr n ↦ rw n (
                        runes,
                        k,
                        inr n,
                        record {
                          all_slices =
                              windows-IsSlice runes w (w - o) (omega arith) (omega arith)
                                (length runes) 0 0 (inl refl);
                          joined =
                              subst
                                (λ n. rejoin o (windows runes n (w - o) (length runes) 0 0) ≡ runes)
                                (sym f)
                                (rejoin-windows runes (w - o) o (omega arith) (length runes)
                                  (omega arith));
                        },
                      )
                    ])
              ])
        ])
      ]
