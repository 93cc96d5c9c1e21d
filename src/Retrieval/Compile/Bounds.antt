-- ===== src/Retrieval/Compile/Bounds.antt =====
-- What a pack may hold: the budget, the workspace and the texts of the candidates.
use fornix.Base.{
  ℕ, ◌-◌, ◌≤◌, ◌≡◌, refl, sym, ap, subst, Bool, true, false, ◌||◌, ltb, List, [], ◌∷◌, ◌++◌, length,
  All, String, str_eq, trim, sort_by, All-sort_by, arith, Bool-cases, Option-cases, inl, inr,
}
use fornix.Retrieval.Prefix.{byte_count, estimate_tokens, is_nil}
use fornix.Retrieval.Prefix.Longest.{
  IsLongestFitting, fits_iff, whole-IsLongestFitting, bounded_prefix-IsLongestFitting,
}
use fornix.Retrieval.Compile.{
  ContextItem, RetrievalBudget, ContextPack, Packing, cut_item, add_item, consider, pack_items,
  nothing_packed, comes_before, compile,
}
use fornix.Retrieval.Compile.Totals.{
  bytes_of, tokens_of, IsWithin, nothing_packed-IsWithin, consider-some, consider-IsWithin,
  pack_items-IsWithin,
}

module _ {Score : Type 0} where
  -- A served item, after those of `before`: it is a candidate of the workspace whose text is not
  -- empty and is the longest prefix of the candidate's that fits what `before` leaves of the budget.
  pub record IsServed (P : ContextItem Score → Type 0) (ws : String) (budget : RetrievalBudget)
      (before : List (ContextItem Score)) (item : ContextItem Score) : Type 0 where
    pub source : ContextItem Score
    pub is_candidate : P source
    pub of_workspace : str_eq (trim source.workspace_id) ws ≡ true
    pub is_cut_item :
        item
        ≡ cut_item
            (budget.max_bytes - bytes_of before)
            (budget.max_tokens - tokens_of before)
            source
    pub longest :
        IsLongestFitting
          (budget.max_bytes - bytes_of before)
          (budget.max_tokens - tokens_of before)
          source.text
          item.text
    pub not_empty : is_nil item.text ≡ false

  -- Each of the items is served after those of `before` and the items in front of it.
  abbrev pub AreServed :
      (ContextItem Score → Type 0)
      → String
      → RetrievalBudget
      → List (ContextItem Score)
      → List (ContextItem Score)
      → Type 0
  AreServed P ws budget before [] = Unit
  AreServed P ws budget before (x ∷ xs) =
      IsServed P ws budget before x × AreServed P ws budget (before ++ x ∷ []) xs

  snoc-append :
      (xs : List (ContextItem Score)) (y : ContextItem Score) (ys : List (ContextItem Score))
      → (xs ++ y ∷ []) ++ ys ≡ xs ++ y ∷ ys
  snoc-append [] y ys = refl
  snoc-append (x ∷ xs) y ys = ap (λ zs. x ∷ zs) (snoc-append xs y ys)

  append-empty : (xs : List (ContextItem Score)) → xs ++ [] ≡ xs
  append-empty [] = refl
  append-empty (x ∷ xs) = ap (λ zs. x ∷ zs) (append-empty xs)

  cut_item-longest :
      (b t : ℕ) (x : ContextItem Score) → IsLongestFitting b t x.text (cut_item b t x).text
  unfolding cut_item
  cut_item-longest b t x =
      elim (Bool-cases (ltb b (byte_count x.text) || ltb t (estimate_tokens x.text))) [
        | inl e ↦ rw e (bounded_prefix-IsLongestFitting x.text b t)
        | inr e ↦ rw e (
            whole-IsLongestFitting b t x.text
              ((fits_iff b t x.text).1 (ground arith, ground arith)))
      ]

  module _ (P : ContextItem Score → Type 0) (ws : String) (budget : RetrievalBudget) where
    AreServed-append :
        (before xs : List (ContextItem Score)) (x : ContextItem Score)
        → AreServed P ws budget before xs
        → IsServed P ws budget (before ++ xs) x
        → AreServed P ws budget before (xs ++ x ∷ [])
    AreServed-append before [] x a k =
        (subst (λ l. IsServed P ws budget l x) (append-empty before) k, tt)
    AreServed-append before (y ∷ ys) x a k = (
      a.0,
      AreServed-append (before ++ y ∷ []) ys x a.1
          (subst (λ l. IsServed P ws budget l x) (sym (snoc-append before y ys)) k),
    )

    add_item-AreServed :
        (b t : ℕ) (s : Packing Score) (x : ContextItem Score)
        → budget.max_bytes - bytes_of s.items ≡ b
        → budget.max_tokens - tokens_of s.items ≡ t
        → P x
        → str_eq (trim x.workspace_id) ws ≡ true
        → AreServed P ws budget [] s.items
        → AreServed P ws budget [] (add_item b t (cut_item b t x) s).items
    unfolding add_item
    add_item-AreServed b t s x hb ht p w a =
        let item = cut_item b t x in
        elim (Bool-cases
          (is_nil item.text || ltb b (byte_count item.text) || ltb t (estimate_tokens item.text))) [
            | inl e ↦ rw e a
            | inr e ↦ rw e (
                AreServed-append [] s.items item a (record {
                  source = x;
                  is_candidate = p;
                  of_workspace = w;
                  is_cut_item = rw (hb, ht) refl;
                  longest = rw (hb, ht) (cut_item-longest b t x);
                  not_empty = ground arith;
                }))
          ]

    pack_items-AreServed :
        (xs : List (ContextItem Score)) (s : Packing Score)
        → All P xs
        → IsWithin budget s
        → AreServed P ws budget [] s.items
        → AreServed P ws budget [] (pack_items ws budget xs s).items
    unfolding pack_items
    pack_items-AreServed [] s p within a = a
    pack_items-AreServed (x ∷ xs) s p within a = elim (Option-cases (consider ws budget s x)) [
      | inl e ↦ rw (e, pack_items) a
      | inr (s', e) ↦
          rw (e, pack_items)
            (pack_items-AreServed xs s' p.1 (consider-IsWithin ws budget s s' x within e)
              (elim (consider-some ws budget s s' x e) [
                | inl k ↦ rw k a
                | inr (_, w, k) ↦ rw k (
                    add_item-AreServed _ _ _ x
                      (ap (λ n. budget.max_bytes - n) (sym within.bytes_counted))
                      (ap (λ n. budget.max_tokens - n) (sym within.tokens_counted)) p.0 w a)
              ]))
    ]

  -- What `Compile` promises of a pack. `P` is what is known of the candidates.
  pub record IsBounded (P : ContextItem Score → Type 0) (ws : String) (budget : RetrievalBudget)
      (pack : ContextPack Score) : Type 0 where
    pub few_items : length pack.items ≤ budget.max_items
    pub bytes_counted : pack.total_bytes ≡ bytes_of pack.items
    pub tokens_counted : pack.total_tokens ≡ tokens_of pack.items
    pub in_bytes : bytes_of pack.items ≤ budget.max_bytes
    pub in_tokens : tokens_of pack.items ≤ budget.max_tokens
    pub all_served : AreServed P ws budget [] pack.items

  module _ (score_ne score_gt : Score → Score → Bool)
      (digest : String → String → List (ContextItem Score) → RetrievalBudget → String) where
    -- A compiled pack keeps all three limits of the budget, its totals are those of its items, and
    -- each item is a candidate of the workspace, cut to the longest prefix that fits the bytes and
    -- the tokens that the items in front of it leave of the budget, and not empty. With `P` the membership in the candidates, each item stems from one of them.
    pub compile-IsBounded :
        (P : ContextItem Score → Type 0) (request_hash ws : String) (budget : RetrievalBudget)
        (candidates : List (ContextItem Score))
        → All P candidates
        → IsBounded P ws budget (compile score_ne score_gt digest request_hash ws budget candidates)
    unfolding compile
    compile-IsBounded P request_hash ws budget candidates p =
        let ordered = sort_by (comes_before score_ne score_gt) candidates in
        let within =
          pack_items-IsWithin ws budget ordered nothing_packed (nothing_packed-IsWithin budget) in
        record {
          few_items = within.few_items;
          bytes_counted = within.bytes_counted;
          tokens_counted = within.tokens_counted;
          in_bytes = omega (arith, within.in_bytes, within.bytes_counted);
          in_tokens = omega (arith, within.in_tokens, within.tokens_counted);
          all_served =
              pack_items-AreServed P ws budget ordered nothing_packed (All-sort_by _ P candidates p)
                (nothing_packed-IsWithin budget) tt;
        }
