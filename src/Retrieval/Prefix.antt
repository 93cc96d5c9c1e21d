-- ===== src/Retrieval/Prefix.antt =====
-- The size of a text and its longest prefix within a budget: `EstimateTokens` of
-- internal/contracts/retrieval.go and `boundedPrefix` of internal/retrieval/compiler.go.
-- A text is the list of its runes: texts come from Postgres and are valid UTF-8. The limits are not
-- negative: a normalized request has limits of at least one.
pub mod Longest
use fornix.Base.{
  ℕ, zero, suc, ◌+◌, ◌-◌, ◌/◌, Bool, true, false, ◌&&◌, ◌||◌, ltb, leb, ◌==◌, if◌then◌else◌, List,
  [], ◌∷◌, length, take,
}

abbrev pub Runes : Type 0
Runes = List ℕ

-- The bytes of a rune in UTF-8.
abbrev pub rune_bytes : ℕ → ℕ
rune_bytes c = if ltb c 0x80 then 1 else if ltb c 0x800 then 2 else if ltb c 0x10000 then 3 else 4

-- `len([]byte(text))`.
abbrev pub byte_count : Runes → ℕ
byte_count [] = 0
byte_count (c ∷ cs) = rune_bytes c + byte_count cs

abbrev pub is_nil : Runes → Bool
is_nil [] = true
is_nil (c ∷ cs) = false

unfoldable pub estimate_tokens : Runes → ℕ
estimate_tokens text = if is_nil text then 0 else (length text + 3) / 4

-- Both limits hold.
unfoldable pub fits : ℕ → ℕ → Runes → Bool
fits max_bytes max_tokens text =
    leb (byte_count text) max_bytes && leb (estimate_tokens text) max_tokens

-- `for low < high { ... }`, on fuel: each round makes `high - low` smaller, so as much fuel as that
-- is enough.
unfoldable pub search : (ℕ → Bool) → ℕ → ℕ → ℕ → ℕ
search test zero low high = low
search test (suc fuel) low high =
    let mid = low + (high - low + 1) / 2 in
    let up = search test fuel mid high in
    let down = search test fuel low (mid - 1) in
    if ltb low high then (if test mid then up else down) else low

unfoldable pub bounded_prefix : Runes → ℕ → ℕ → Runes
bounded_prefix text max_bytes max_tokens =
    if is_nil text || max_bytes == 0 || max_tokens == 0
    then []
    else if fits max_bytes max_tokens text
    then text
    else take (search (λ n. fits max_bytes max_tokens (take n text)) (length text) 0 (length text))
        text
