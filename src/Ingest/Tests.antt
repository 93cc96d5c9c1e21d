-- ===== src/Ingest/Tests.antt =====
-- Chunks of small files.
use fornix.Base.{◌≡◌, refl, ◌∷◌, [], Option, some, pos, ok, err, ◌^◌, ◌-◌, List, ltb_ℤ, is_positive}
use fornix.Ingest.Chunk.{
  Runes, negative_capacity, chunk, capacity, windows, window_at, window_end, ChunkWindow,
}
use fornix.Ingest.Chunk.Cover.{IsOutcome, chunk-IsOutcome}

-- Five runes, the second a line break, in windows of three with one rune shared.
abbrev decode_all : Runes → Option Runes
decode_all r = some r

abbrev two_lines : Runes
two_lines = 97 ∷ 10 ∷ 98 ∷ 99 ∷ 100 ∷ []

abbrev two_windows : List ChunkWindow
two_windows =
    record {
      index = 0;
      rune_start = 0;
      rune_end = 3;
      line_start = 1;
      line_end = 2;
      text = 97 ∷ 10 ∷ 98 ∷ [];
    }
    ∷ record {
      index = 1;
      rune_start = 2;
      rune_end = 5;
      line_start = 2;
      line_end = 2;
      text = 98 ∷ 99 ∷ 100 ∷ [];
    }
    ∷ []

two_lines_run : chunk decode_all two_lines (pos 3) (pos 1) ≡ ok two_windows
unfolding chunk capacity windows window_at window_end ltb_ℤ is_positive
two_lines_run = refl

-- Two runes in windows of the largest `int`.
largest_size_run :
    chunk decode_all (97 ∷ 98 ∷ []) (pos (2 ^ 63 - 1)) (pos 0) ≡ err negative_capacity
unfolding chunk capacity ltb_ℤ is_positive
largest_size_run = refl

chunk-IsOutcome_example :
    IsOutcome decode_all two_lines (pos 3) (pos 1) (chunk decode_all two_lines (pos 3) (pos 1))
chunk-IsOutcome_example = chunk-IsOutcome decode_all two_lines (pos 3) (pos 1)
