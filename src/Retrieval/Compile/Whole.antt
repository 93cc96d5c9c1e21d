-- ===== src/Retrieval/Compile/Whole.antt =====
-- Candidates that fit the budget together are packed whole.
use mathlib.Core.List.{append-nil, append_assoc}
use fornix.Base.{
  ℕ, ◌+◌, ◌-◌, ◌≤◌, ◌<◌, ◌≡◌, refl, Bool, true, false, ◌||◌, ltb, leb, ◌==◌, List, [], ◌∷◌, ◌++◌,
  length, length-append, All, some, String, str_eq, trim, sort_by, length-sort_by, All-sort_by,
  arith, Bool-cases, inl, inr, sym, ◌∙◌, insert_by,
}
use fornix.Retrieval.Prefix.{byte_count, estimate_tokens, is_nil}
use fornix.Retrieval.Compile.{
  ContextItem, RetrievalBudget, Packing, cut_item, is_cut, add_item, consider, pack_items,
  nothing_packed, comes_before, compile,
}
use fornix.Retrieval.Compile.Totals.{bytes_of, tokens_of}

module _ {Score : Type 0} where
  -- The item with its sizes written in.
  abbrev pub measured : ContextItem Score → ContextItem Score
  measured x = record x {
    original_bytes = byte_count x.text;
    original_tokens = estimate_tokens x.text;
  }

  abbrev pub measure_all : List (ContextItem Score) → List (ContextItem Score)
  measure_all [] = []
  measure_all (x ∷ xs) = measured x ∷ measure_all xs

  -- The item is the workspace's and has a text.
  abbrev pub IsUsable : String → ContextItem Score → Type 0
  IsUsable ws x = (str_eq (trim x.workspace_id) ws ≡ true) × (is_nil x.text ≡ false)

  cut_item-fits :
      (b t : ℕ) (x : ContextItem Score)
      → byte_count x.text ≤ b
      → estimate_tokens x.text ≤ t
      → (cut_item b t x ≡ measured x) × (is_cut b t x ≡ false)
  unfolding cut_item is_cut
  cut_item-fits b t x hb ht =
      let e : (ltb b (byte_count x.text) || ltb t (estimate_tokens x.text)) ≡ false =
        ground arith in
      rw e (refl, refl)

  add_item-fits :
      (b t : ℕ) (x : ContextItem Score) (s : Packing Score)
      → byte_count x.text ≤ b
      → estimate_tokens x.text ≤ t
      → is_nil x.text ≡ false
      → add_item b t x s ≡ record {
        items = s.items ++ x ∷ [];
        total_bytes = s.total_bytes + byte_count x.text;
        total_tokens = s.total_tokens + estimate_tokens x.text;
        truncated = s.truncated;
      }
  unfolding add_item
  add_item-fits b t x s hb ht n =
      let e : (is_nil x.text || ltb b (byte_count x.text) || ltb t (estimate_tokens x.text))
          ≡ false =
        ground arith in
      rw e refl

  positive_size :
      (x : ContextItem Score)
      → is_nil x.text ≡ false
      → (1 ≤ byte_count x.text) × (1 ≤ estimate_tokens x.text)
  unfolding estimate_tokens
  positive_size x h = of_text x.text h
    where
      of_text : (t : List ℕ) → is_nil t ≡ false → (1 ≤ byte_count t) × (1 ≤ estimate_tokens t)
      of_text [] h = absurd (cc h)
      of_text (c ∷ cs) h = ground arith

  consider-fits :
      (ws : String) (budget : RetrievalBudget) (s : Packing Score) (x : ContextItem Score)
      → IsUsable ws x
      → length s.items < budget.max_items
      → s.total_bytes + byte_count x.text ≤ budget.max_bytes
      → s.total_tokens + estimate_tokens x.text ≤ budget.max_tokens
      → consider ws budget s x
        ≡ some (record {
          items = s.items ++ measured x ∷ [];
          total_bytes = s.total_bytes + byte_count x.text;
          total_tokens = s.total_tokens + estimate_tokens x.text;
          truncated = s.truncated || false;
        })
  unfolding consider
  consider-fits ws budget s x u room hb ht =
      let b = budget.max_bytes - s.total_bytes in
      let t = budget.max_tokens - s.total_tokens in
      let (p, q) = positive_size x u.1 in
      let e1 : leb budget.max_items (length s.items) ≡ false = ground arith in
      let e2 : (b == 0 || t == 0) ≡ false = ground arith in
      let (c, k) = cut_item-fits b t x (omega arith) (omega arith) in
      rw
        (
          e1,
          u.0,
          e2,
          c,
          k,
          add_item-fits b t (measured x) (record s { truncated = s.truncated || false })
              (omega arith) (omega arith) u.1,
        )
        refl

  pack_items-fits :
      (ws : String) (budget : RetrievalBudget) (xs : List (ContextItem Score)) (s : Packing Score)
      → All (IsUsable ws) xs
      → length s.items + length xs ≤ budget.max_items
      → s.total_bytes + bytes_of xs ≤ budget.max_bytes
      → s.total_tokens + tokens_of xs ≤ budget.max_tokens
      → ((pack_items ws budget xs s).items ≡ s.items ++ measure_all xs)
        × ((pack_items ws budget xs s).truncated ≡ s.truncated)
  unfolding pack_items
  pack_items-fits ws budget [] s u hn hb ht = (sym (append-nil s.items), refl)
  pack_items-fits ws budget (x ∷ xs) s u hn hb ht =
      let s' : Packing Score = record {
        items = s.items ++ measured x ∷ [];
        total_bytes = s.total_bytes + byte_count x.text;
        total_tokens = s.total_tokens + estimate_tokens x.text;
        truncated = s.truncated || false;
      } in
      let (e, k) =
        pack_items-fits ws budget xs s' u.1 (omega (arith, length-append s.items (measured x ∷ [])))
          (omega arith) (omega arith) in
      rw (consider-fits ws budget s x u.0 (omega arith) (omega arith) (omega arith), pack_items)
        (e ∙ append_assoc s.items (measured x ∷ []) (measure_all xs), k ∙ ground arith)

  module _ (lt : ContextItem Score → ContextItem Score → Bool) where
    sizes-insert_by :
        (x : ContextItem Score) (xs : List (ContextItem Score))
        → (bytes_of (insert_by lt x xs) ≡ byte_count x.text + bytes_of xs)
          × (tokens_of (insert_by lt x xs) ≡ estimate_tokens x.text + tokens_of xs)
    unfolding insert_by
    sizes-insert_by x [] = (refl, refl)
    sizes-insert_by x (y ∷ ys) = elim (Bool-cases (lt y x)) [
      | inl e ↦
          rw e (omega (arith, (sizes-insert_by x ys).0), omega (arith, (sizes-insert_by x ys).1))
      | inr e ↦ rw e (refl, refl)
    ]

    sizes-sort_by :
        (xs : List (ContextItem Score))
        → (bytes_of (sort_by lt xs) ≡ bytes_of xs) × (tokens_of (sort_by lt xs) ≡ tokens_of xs)
    unfolding sort_by
    sizes-sort_by [] = (refl, refl)
    sizes-sort_by (x ∷ xs) = (
      omega (arith, (sizes-insert_by x (sort_by lt xs)).0, (sizes-sort_by xs).0),
      omega (arith, (sizes-insert_by x (sort_by lt xs)).1, (sizes-sort_by xs).1),
    )

  module _ (score_ne score_gt : Score → Score → Bool)
      (digest : String → String → List (ContextItem Score) → RetrievalBudget → String) where
    -- Candidates of the workspace that have a text, and that fit the three limits together, are all
    -- packed whole, each with its sizes, in the order of the comparison, and the pack is not marked as truncated.
    pub compile-whole :
        (request_hash ws : String) (budget : RetrievalBudget)
        (candidates : List (ContextItem Score))
        → All (IsUsable ws) candidates
        → length candidates ≤ budget.max_items
        → bytes_of candidates ≤ budget.max_bytes
        → tokens_of candidates ≤ budget.max_tokens
        → ((compile score_ne score_gt digest request_hash ws budget candidates).items
            ≡ measure_all (sort_by (comes_before score_ne score_gt) candidates))
          × ((compile score_ne score_gt digest request_hash ws budget candidates).truncated ≡ false)
    unfolding compile
    compile-whole request_hash ws budget candidates u hn hb ht =
        let before = comes_before score_ne score_gt in
        let (p, q) = sizes-sort_by before candidates in
        pack_items-fits ws budget (sort_by before candidates) nothing_packed
          (All-sort_by before (IsUsable ws) candidates u)
          (omega (arith, length-sort_by before candidates)) (omega arith) (omega arith)
