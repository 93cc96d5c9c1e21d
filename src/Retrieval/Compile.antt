-- ===== src/Retrieval/Compile.antt =====
-- The compilation of a context pack: `Compile` of internal/retrieval/compiler.go, with the types of
-- internal/contracts/retrieval.go. The scores are a parameter with the two comparisons that the code
-- makes of them; so is the digest of the pack, which the code leaves to encoding/json and
-- crypto/sha256. The totals stay within the budget, so the remaining sizes are not negative.
pub mod Bounds
pub mod Totals
pub mod Whole
use fornix.Base.{
  ℕ, ◌+◌, ◌-◌, Bool, true, false, ◌&&◌, ◌||◌, not, ltb, leb, ◌==◌, if◌then◌else◌, List, [], ◌∷◌,
  ◌++◌, length, Option, none, some, String, str_eq, trim, sort_by,
}
use fornix.Policy.Resolve.{text_lt}
use fornix.Retrieval.Prefix.{Runes, byte_count, estimate_tokens, is_nil, bounded_prefix}

abbrev retrieval_schema_version : ℕ
retrieval_schema_version = 1

pub record ContextItem (Score : Type 0) : Type 0 where
  pub workspace_id : String
  pub source_reference : String
  pub kind : String
  pub representation : String
  pub text : Runes
  pub evidence_hash : String
  pub score : Score
  pub stage : String
  pub original_bytes : ℕ
  pub original_tokens : ℕ
  pub truncated : Bool

pub record RetrievalBudget : Type 0 where
  pub max_items : ℕ
  pub max_bytes : ℕ
  pub max_tokens : ℕ

pub record ContextPack (Score : Type 0) : Type 0 where
  pub schema_version : ℕ
  pub workspace_id : String
  pub request_hash : String
  pub items : List (ContextItem Score)
  pub total_bytes : ℕ
  pub total_tokens : ℕ
  pub truncated : Bool
  pub abstained : Bool
  pub content_hash : String

-- What the loop has collected.
pub record Packing (Score : Type 0) : Type 0 where
  pub items : List (ContextItem Score)
  pub total_bytes : ℕ
  pub total_tokens : ℕ
  pub truncated : Bool

-- The test `==` on two texts.
abbrev same_text : Runes → Runes → Bool
same_text [] [] = true
same_text [] (d ∷ ds) = false
same_text (c ∷ cs) [] = false
same_text (c ∷ cs) (d ∷ ds) = c == d && same_text cs ds

module _ {Score : Type 0} where
  -- The item with its sizes, and with its text cut to what remains of the budget.
  unfoldable pub cut_item : ℕ → ℕ → ContextItem Score → ContextItem Score
  cut_item bytes tokens source =
      let full_bytes = byte_count source.text in
      let full_tokens = estimate_tokens source.text in
      let text = bounded_prefix source.text bytes tokens in
      if ltb bytes full_bytes || ltb tokens full_tokens
      then record source {
        original_bytes = full_bytes;
        original_tokens = full_tokens;
        text = text;
        truncated = not (same_text text source.text);
      }
      else record source { original_bytes = full_bytes; original_tokens = full_tokens }

  -- `truncated = truncated || item.Truncated`, which only a cut item reaches.
  unfoldable pub is_cut : ℕ → ℕ → ContextItem Score → Bool
  is_cut bytes tokens source =
      if ltb bytes (byte_count source.text) || ltb tokens (estimate_tokens source.text)
      then (cut_item bytes tokens source).truncated
      else false

  -- The end of one round: the item is skipped or added.
  unfoldable pub add_item : ℕ → ℕ → ContextItem Score → Packing Score → Packing Score
  add_item bytes tokens item s =
      let item_bytes = byte_count item.text in
      let item_tokens = estimate_tokens item.text in
      if is_nil item.text || ltb bytes item_bytes || ltb tokens item_tokens then s else record {
        items = s.items ++ item ∷ [];
        total_bytes = s.total_bytes + item_bytes;
        total_tokens = s.total_tokens + item_tokens;
        truncated = s.truncated;
      }

  -- One round of the loop: `none` is `break`.
  unfoldable pub consider :
      String → RetrievalBudget → Packing Score → ContextItem Score → Option (Packing Score)
  consider workspace_id budget s source =
      let bytes = budget.max_bytes - s.total_bytes in
      let tokens = budget.max_tokens - s.total_tokens in
      if leb budget.max_items (length s.items)
      then none
      else if not (str_eq (trim source.workspace_id) workspace_id)
      then some s
      else if bytes == 0 || tokens == 0
      then none
      else some (
          add_item bytes tokens (cut_item bytes tokens source)
            (record s { truncated = s.truncated || is_cut bytes tokens source }))

  unfoldable pub pack_items :
      String → RetrievalBudget → List (ContextItem Score) → Packing Score → Packing Score
  pack_items workspace_id budget [] s = s
  pack_items workspace_id budget (x ∷ xs) s = elim (consider workspace_id budget s x) [
    | none ↦ s
    | some s' ↦ pack_items workspace_id budget xs s'
  ]

  abbrev pub nothing_packed : Packing Score
  nothing_packed = record { items = []; total_bytes = 0; total_tokens = 0; truncated = false }

  module _ (score_ne score_gt : Score → Score → Bool) where
    -- The order of `sort.SliceStable(ordered, ...)`.
    unfoldable pub comes_before : ContextItem Score → ContextItem Score → Bool
    comes_before a b =
        if score_ne a.score b.score
        then score_gt a.score b.score
        else if not (str_eq a.kind b.kind)
        then text_lt a.kind b.kind
        else text_lt a.source_reference b.source_reference

    module _ (digest : String → String → List (ContextItem Score) → RetrievalBudget → String) where
      unfoldable pub compile :
          String → String → RetrievalBudget → List (ContextItem Score) → ContextPack Score
      compile request_hash workspace_id budget candidates =
          let s : Packing Score =
            pack_items workspace_id budget (sort_by comes_before candidates) nothing_packed in
          record {
            schema_version = retrieval_schema_version;
            workspace_id = workspace_id;
            request_hash = request_hash;
            items = s.items;
            total_bytes = s.total_bytes;
            total_tokens = s.total_tokens;
            truncated = s.truncated;
            abstained = length s.items == 0;
            content_hash = digest request_hash workspace_id s.items budget;
          }
