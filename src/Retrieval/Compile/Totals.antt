-- ===== src/Retrieval/Compile/Totals.antt =====
-- The totals of a pack: `totalBytes` and `totalTokens` of internal/retrieval/compiler.go are those of
-- the items packed so far, and stay within the budget.
use fornix.Base.{
  ℕ, ◌+◌, ◌-◌, ◌≤◌, ◌<◌, ◌≡◌, refl, Bool, true, ◌||◌, ltb, List, [], ◌∷◌, ◌++◌, length,
  length-append, some, String, str_eq, trim, arith, Bool-cases, Option-cases, inl, inr, ◌⊎◌,
}
use fornix.Retrieval.Prefix.{byte_count, estimate_tokens, is_nil}
use fornix.Retrieval.Compile.{
  ContextItem, RetrievalBudget, Packing, cut_item, is_cut, add_item, consider, pack_items,
  nothing_packed,
}

module _ {Score : Type 0} where
  abbrev pub bytes_of : List (ContextItem Score) → ℕ
  bytes_of [] = 0
  bytes_of (x ∷ xs) = byte_count x.text + bytes_of xs

  abbrev pub tokens_of : List (ContextItem Score) → ℕ
  tokens_of [] = 0
  tokens_of (x ∷ xs) = estimate_tokens x.text + tokens_of xs

  -- The counted totals are those of the items, and none is above its limit.
  pub record IsWithin (budget : RetrievalBudget) (s : Packing Score) : Type 0 where
    pub few_items : length s.items ≤ budget.max_items
    pub bytes_counted : s.total_bytes ≡ bytes_of s.items
    pub tokens_counted : s.total_tokens ≡ tokens_of s.items
    pub in_bytes : s.total_bytes ≤ budget.max_bytes
    pub in_tokens : s.total_tokens ≤ budget.max_tokens

  bytes_of-append :
      (xs : List (ContextItem Score)) (x : ContextItem Score)
      → bytes_of (xs ++ x ∷ []) ≡ bytes_of xs + byte_count x.text
  bytes_of-append [] x = omega arith
  bytes_of-append (y ∷ ys) x = omega (arith, bytes_of-append ys x)

  tokens_of-append :
      (xs : List (ContextItem Score)) (x : ContextItem Score)
      → tokens_of (xs ++ x ∷ []) ≡ tokens_of xs + estimate_tokens x.text
  tokens_of-append [] x = omega arith
  tokens_of-append (y ∷ ys) x = omega (arith, tokens_of-append ys x)

  pub nothing_packed-IsWithin : (budget : RetrievalBudget) → IsWithin budget nothing_packed
  nothing_packed-IsWithin budget = record {
    few_items = omega arith;
    bytes_counted = refl;
    tokens_counted = refl;
    in_bytes = omega arith;
    in_tokens = omega arith;
  }

  add_item-IsWithin :
      (budget : RetrievalBudget) (s : Packing Score) (item : ContextItem Score) (cut : Bool)
      → length s.items < budget.max_items
      → IsWithin budget s
      → IsWithin budget (
          add_item
            (budget.max_bytes - s.total_bytes)
            (budget.max_tokens - s.total_tokens)
            item
            (record s { truncated = cut }))
  unfolding add_item
  add_item-IsWithin budget s item cut room w =
      let bytes = budget.max_bytes - s.total_bytes in
      let tokens = budget.max_tokens - s.total_tokens in
      elim (Bool-cases (
        is_nil item.text
        || ltb bytes (byte_count item.text)
        || ltb tokens (estimate_tokens item.text))) [
          | inl e ↦ rw e (record {
            few_items = w.few_items;
            bytes_counted = w.bytes_counted;
            tokens_counted = w.tokens_counted;
            in_bytes = w.in_bytes;
            in_tokens = w.in_tokens;
          })
          | inr e ↦ rw e (record {
            few_items = omega (arith, length-append s.items (item ∷ []));
            bytes_counted = omega (arith, w.bytes_counted, bytes_of-append s.items item);
            tokens_counted = omega (arith, w.tokens_counted, tokens_of-append s.items item);
            in_bytes = ground (arith, w.in_bytes);
            in_tokens = ground (arith, w.in_tokens);
          })
        ]

  -- A round either leaves the state or ends with an item of the workspace.
  pub consider-some :
      (ws : String) (budget : RetrievalBudget) (s s' : Packing Score) (x : ContextItem Score)
      → consider ws budget s x ≡ some s'
      → (s' ≡ s)
        ⊎ ((length s.items < budget.max_items)
            × (str_eq (trim x.workspace_id) ws ≡ true)
            × (s'
                ≡ add_item
                    (budget.max_bytes - s.total_bytes)
                    (budget.max_tokens - s.total_tokens)
                    (cut_item
                      (budget.max_bytes - s.total_bytes)
                      (budget.max_tokens - s.total_tokens)
                      x)
                    (record s {
                      truncated =
                          s.truncated
                          || is_cut
                              (budget.max_bytes - s.total_bytes)
                              (budget.max_tokens - s.total_tokens)
                              x;
                    })))
  unfolding consider
  consider-some ws budget s s' x h = ground arith

  pub consider-IsWithin :
      (ws : String) (budget : RetrievalBudget) (s s' : Packing Score) (x : ContextItem Score)
      → IsWithin budget s
      → consider ws budget s x ≡ some s'
      → IsWithin budget s'
  unfolding consider
  consider-IsWithin ws budget s s' x w h = elim (consider-some ws budget s s' x h) [
    | inl e ↦ rw e w
    | inr (room, _, e) ↦ rw e (add_item-IsWithin budget s _ _ room w)
  ]

  pub pack_items-IsWithin :
      (ws : String) (budget : RetrievalBudget) (xs : List (ContextItem Score)) (s : Packing Score)
      → IsWithin budget s
      → IsWithin budget (pack_items ws budget xs s)
  unfolding pack_items
  pack_items-IsWithin ws budget [] s w = w
  pack_items-IsWithin ws budget (x ∷ xs) s w = elim (Option-cases (consider ws budget s x)) [
    | inl e ↦ rw (e, pack_items) w
    | inr (s', e) ↦
        rw (e, pack_items)
          (pack_items-IsWithin ws budget xs s' (consider-IsWithin ws budget s s' x w e))
  ]
