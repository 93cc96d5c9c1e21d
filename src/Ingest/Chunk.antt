-- ===== src/Ingest/Chunk.antt =====
-- The windows of a source file: `Chunk` of internal/ingest/chunker.go. The decoding of UTF-8 is a
-- parameter: `utf8.Valid` and the conversion to runes, of the library. `int` has 64 bits: the capacity
-- of the windows wraps as the code's does, and `make` panics where it is negative. The sum of a start
-- and the size is written without a wrap: the first start is 0 and the size is an `int`, and every
-- later window is only made when the size is below the number of runes (a field of `IsSlice`), which
-- take four bytes each, so that the sum is below twice that number.
pub mod Cover
use fornix.Base.{
  ℕ, zero, suc, ◌+◌, ◌-◌, ◌/◌, ◌%◌, ◌^◌, Bool, true, false, ◌||◌, not, ltb, ◌==◌, if◌then◌else◌,
  List, [], ◌∷◌, length, take, drop, filter, Option, none, some, ℤ, pos, negsuc, pos_part, ltb_ℤ,
  is_positive, Result, ok, err,
}

abbrev pub Runes : Type 0
Runes = List ℕ

pub data ChunkError : Type 0 where
  invalid_overlap : ChunkError
  not_utf8 : ChunkError
  -- The panic of `make`.
  negative_capacity : ChunkError

pub record ChunkWindow : Type 0 where
  pub index : ℕ
  pub rune_start : ℕ
  pub rune_end : ℕ
  pub line_start : ℕ
  pub line_end : ℕ
  pub text : Runes

-- `strings.Count(text, "\n")`.
abbrev pub newlines : Runes → ℕ
newlines text = length (filter (λ c. c == 10) text)

-- `if size <= 0 { size = 4096 }`.
abbrev pub window_size : ℤ → ℕ
window_size size = if is_positive size then pos_part size else 4096

abbrev negated : ℕ → ℤ
negated zero = pos 0
negated (suc n) = negsuc n

-- `(len(runes) + step - 1) / step`, for a step that is not 0: the sum is a word of 64 bits, which stands
-- for a negative number from 2 ^ 63 on, and the quotient is cut towards 0.
unfoldable pub capacity : ℕ → ℕ → ℤ
capacity count step =
    let sum = (count + step - 1) % 2 ^ 64 in
    if ltb sum (2 ^ 63) then pos (sum / step) else negated ((2 ^ 64 - sum) / step)

module _ (runes : Runes) (size step : ℕ) where
  -- `end` of the window that begins at `start`.
  unfoldable pub window_end : ℕ → ℕ
  window_end start = if ltb (length runes) (start + size) then length runes else start + size

  unfoldable pub window_at : ℕ → ℕ → ChunkWindow
  unfolding window_end
  window_at start index =
      let text = take (window_end start - start) (drop start runes) in
      let line_start = 1 + newlines (take start runes) in
      record {
        index = index;
        rune_start = start;
        rune_end = window_end start;
        line_start = line_start;
        line_end = line_start + newlines text;
        text = text;
      }

  -- The loop, on fuel: each round begins at a later rune, so the number of runes is enough.
  unfoldable pub windows : ℕ → ℕ → ℕ → List ChunkWindow
  windows zero start index = []
  windows (suc fuel) start index =
      let rest = windows fuel (start + step) (index + 1) in
      if ltb start (length runes)
      then window_at start index ∷ (if window_end start == length runes then [] else rest)
      else []

module _ {Bytes : Type 0} (decode : Bytes → Option Runes) where
  unfoldable pub chunk : Bytes → ℤ → ℤ → Result ChunkError (List ChunkWindow)
  chunk data_bytes size overlap =
      let size = window_size size in
      if ltb_ℤ overlap (pos 0) || not (ltb_ℤ overlap (pos size))
      then err invalid_overlap
      else elim (decode data_bytes) [
        | none ↦ err not_utf8
        | some runes ↦
            let step = size - pos_part overlap in
            if length runes == 0
            then ok []
            else if ltb_ℤ (capacity (length runes) step) (pos 0)
            then err negative_capacity
            else ok (windows runes size step (length runes) 0 0)
      ]
