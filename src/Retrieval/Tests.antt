-- ===== src/Retrieval/Tests.antt =====
-- A small pack, and the theorems at it.
use fornix.Base.{
  ℕ, ◌≡◌, refl, String, Bool, true, false, not, ltb, ◌==◌, List, [], ◌∷◌, trim, sort_by, insert_by,
  arith,
}
use fornix.Retrieval.Prefix.{Runes, bounded_prefix, fits, search, estimate_tokens}
use fornix.Retrieval.Prefix.Longest.{IsLongestFitting, bounded_prefix-IsLongestFitting}
use fornix.Retrieval.Compile.{
  ContextItem, RetrievalBudget, compile, comes_before, pack_items, consider, cut_item, is_cut,
  add_item,
}
use fornix.Retrieval.Compile.Bounds.{IsBounded, compile-IsBounded}
use fornix.Retrieval.Compile.Whole.{measure_all, compile-whole}

-- "a€bc": the second rune takes three bytes.
abbrev mixed : Runes
mixed = 97 ∷ 0x20ac ∷ 98 ∷ 99 ∷ []

prefix_run : bounded_prefix mixed 4 9 ≡ 97 ∷ 0x20ac ∷ []
unfolding bounded_prefix fits search estimate_tokens
prefix_run = refl

bounded_prefix-IsLongestFitting_example : IsLongestFitting 4 9 mixed (bounded_prefix mixed 4 9)
bounded_prefix-IsLongestFitting_example = bounded_prefix-IsLongestFitting mixed 4 9

abbrev score_gt : ℕ → ℕ → Bool
score_gt a b = ltb b a

abbrev score_ne : ℕ → ℕ → Bool
score_ne a b = not (a == b)

abbrev digest : String → String → List (ContextItem ℕ) → RetrievalBudget → String
digest request_hash workspace_id items budget = request_hash

abbrev item : String → ℕ → Runes → ContextItem ℕ
item w score text = record {
  workspace_id = w;
  source_reference = "r";
  kind = "file";
  representation = "text";
  text = text;
  evidence_hash = "h";
  score = score;
  stage = "lexical";
  original_bytes = 0;
  original_tokens = 0;
  truncated = false;
}

abbrev candidates : List (ContextItem ℕ)
candidates = item "acme" 1 mixed ∷ item "other" 9 mixed ∷ item " acme" 5 (97 ∷ 98 ∷ []) ∷ []

abbrev small : RetrievalBudget
small = record { max_items = 4; max_bytes = 6; max_tokens = 9 }

-- The better item stands whole, the next one is cut to the six bytes, the other workspace's is left out.
compile_run :
    (compile score_ne score_gt digest "q" "acme" small candidates).items
    ≡ record (item " acme" 5 (97 ∷ 98 ∷ [])) { original_bytes = 2; original_tokens = 1 }
      ∷ record (item "acme" 1 (97 ∷ 0x20ac ∷ [])) {
        original_bytes = 6;
        original_tokens = 1;
        truncated = true;
      }
      ∷ []
unfolding compile comes_before pack_items consider cut_item is_cut add_item bounded_prefix fits
    search estimate_tokens sort_by insert_by trim
compile_run = refl

compile-IsBounded_example :
    IsBounded
      (λ x. ltb 0 x.score ≡ true)
      "acme"
      small
      (compile score_ne score_gt digest "q" "acme" small candidates)
compile-IsBounded_example =
    compile-IsBounded score_ne score_gt digest (λ x. ltb 0 x.score ≡ true) "q" "acme" small
      candidates (refl, (refl, (refl, tt)))

abbrev usable : List (ContextItem ℕ)
usable = item "acme" 1 (97 ∷ []) ∷ item " acme" 5 (97 ∷ 98 ∷ []) ∷ []

compile-whole_example :
    ((compile score_ne score_gt digest "q" "acme" small usable).items
      ≡ measure_all (sort_by (comes_before score_ne score_gt) usable))
    × ((compile score_ne score_gt digest "q" "acme" small usable).truncated ≡ false)
unfolding trim estimate_tokens
compile-whole_example =
    compile-whole score_ne score_gt digest "q" "acme" small usable
      ((refl, refl), ((refl, refl), tt)) (omega arith) (omega arith) (omega arith)
