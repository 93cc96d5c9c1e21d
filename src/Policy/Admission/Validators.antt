-- ===== src/Policy/Admission/Validators.antt =====
-- The set of validators that resolution collects.
use fornix.Base.{
  ◌≡◌, refl, ◌∙◌, String, str_eq, eq_iff, eq_refl, Bool, true, false, if◌then◌else◌, List, [], ◌∷◌,
  ◌++◌, map, All, All-append, All-imp, ok, arith, Bool-cases, inl, inr, >>=-eq-ok, insert_by,
  sort_by, any-sort_by, any-insert_by, All-sort_by, ok-injective, subst,
}
use fornix.Policy.Types.{
  ValidatorRef, ValidationPolicyPack, PolicyEvaluationRequest, ref_key, has_key, trimmed_ref,
}
use fornix.Policy.Resolve.{
  add_ref, add_refs, collect, mandatory_refs, reindex_ref, ref_lt, sort_refs,
}

-- No two references have one key.
abbrev pub Distinct : List ValidatorRef → Type 0
Distinct [] = Unit {0}
Distinct (x ∷ xs) = (has_key (ref_key x) xs ≡ false) × Distinct xs

has_key-append_last :
    (k : String) (xs : List ValidatorRef) (r : ValidatorRef)
    → has_key k (xs ++ r ∷ []) ≡ (if has_key k xs then true else str_eq (ref_key r) k)
has_key-append_last k [] r = ground arith
has_key-append_last k (x ∷ xs) r = ground (arith, has_key-append_last k xs r)

Distinct-append_last :
    (xs : List ValidatorRef) (r : ValidatorRef)
    → has_key (ref_key r) xs ≡ false
    → Distinct xs
    → Distinct (xs ++ r ∷ [])
Distinct-append_last [] r h d = (refl, tt)
Distinct-append_last (x ∷ xs) r h d = ground (
  arith,
  has_key-append_last (ref_key x) xs r,
  Distinct-append_last xs r,
  eq_iff (ref_key x) (ref_key r),
  eq_iff (ref_key r) (ref_key x),
)

module _ (lt : ValidatorRef → ValidatorRef → Bool) where
  Distinct-insert_by :
      (r : ValidatorRef) (xs : List ValidatorRef)
      → has_key (ref_key r) xs ≡ false
      → Distinct xs
      → Distinct (insert_by lt r xs)
  unfolding insert_by
  Distinct-insert_by r [] h d = (h, tt)
  Distinct-insert_by r (x ∷ xs) h d = elim (Bool-cases (lt x r)) [
    | inl e ↦ rw e (
        ground (
          arith,
          any-insert_by lt (λ y. str_eq (ref_key y) (ref_key x)) r xs,
          Distinct-insert_by r xs,
          eq_iff (ref_key x) (ref_key r),
          eq_iff (ref_key r) (ref_key x),
        ))
    | inr e ↦ rw e (h, d)
  ]

  Distinct-sort_by : (xs : List ValidatorRef) → Distinct xs → Distinct (sort_by lt xs)
  unfolding sort_by
  Distinct-sort_by [] d = tt
  Distinct-sort_by (x ∷ xs) d =
      Distinct-insert_by x (sort_by lt xs)
        (any-sort_by lt (λ y. str_eq (ref_key y) (ref_key x)) xs ∙ d.0) (Distinct-sort_by xs d.1)

module _ (lookup : ValidatorRef → Bool) where
  -- What a collected set is: registered, with no key twice.
  abbrev pub IsAdmissible : List ValidatorRef → Type 0
  IsAdmissible vs = All (λ r. lookup r ≡ true) vs × Distinct vs

  -- Collecting goes on from `vs` to `more`: the set stays admissible and loses no key.
  record Extends (vs more : List ValidatorRef) : Type 0 where
    admissible : IsAdmissible vs → IsAdmissible more
    keeps : (k : String) → has_key k vs ≡ true → has_key k more ≡ true

  Extends-trans : (a b c : List ValidatorRef) → Extends a b → Extends b c → Extends a c
  Extends-trans a b c h k = record {
    admissible = λ x. k.admissible (h.admissible x);
    keeps = λ key x. k.keeps key (h.keeps key x);
  }

  Extends-refl : (a : List ValidatorRef) → Extends a a
  Extends-refl a = record { admissible = λ x. x; keeps = λ k x. x }

  Extends-last :
      (vs : List ValidatorRef) (r : ValidatorRef)
      → has_key (ref_key r) vs ≡ false
      → lookup r ≡ true
      → Extends vs (vs ++ r ∷ [])
  Extends-last vs r new reg = record {
    admissible = λ x. (All-append _ vs (r ∷ []) x.0 (reg, tt), Distinct-append_last vs r new x.1);
    keeps = λ k x. ground (arith, has_key-append_last k vs r);
  }

  add_ref-Extends :
      (vs : List ValidatorRef) (given : ValidatorRef) (more : List ValidatorRef)
      → add_ref lookup vs given ≡ ok more
      → Extends vs more × (has_key (ref_key (trimmed_ref given)) more ≡ true)
  unfolding add_ref
  add_ref-Extends vs given more h =
      let r : ValidatorRef = trimmed_ref given in
      elim (Bool-cases (has_key (ref_key r) vs)) [
        | inl old ↦
            let e : vs ≡ more = ground arith in
            (subst (Extends vs) e (Extends-refl vs), rw (← e) old)
        | inr new ↦
            let (e, reg) = let x : (vs ++ r ∷ [] ≡ more) × (lookup r ≡ true) = ground arith in x in
            (
              subst (Extends vs) e (Extends-last vs r new reg),
              rw (← e) (ground (arith, has_key-append_last (ref_key r) vs r, eq_refl (ref_key r))),
            )
      ]

  add_refs-Extends :
      (vs rs more : List ValidatorRef)
      → add_refs lookup vs rs ≡ ok more
      → Extends vs more × All (λ r. has_key (ref_key (trimmed_ref r)) more ≡ true) rs
  unfolding add_refs
  add_refs-Extends vs [] more h = (subst (Extends vs) (ok-injective h) (Extends-refl vs), tt)
  add_refs-Extends vs (r ∷ rs) more h =
      let (mid, p, q) = >>=-eq-ok (add_ref lookup vs r) _ h in
      let (a, here) = add_ref-Extends vs r mid p in
      let (b, rest) = add_refs-Extends mid rs more q in
      (Extends-trans vs mid more a b, (b.keeps _ here, rest))

  -- The validators that an admission must run, each by its key.
  pub record Covers (pack : ValidationPolicyPack) (request : PolicyEvaluationRequest)
      (vs : List ValidatorRef) : Type 0 where
    pub rules :
        All
          (λ r. has_key (ref_key (trimmed_ref r)) vs ≡ true)
          (map (λ rule. rule.validator) pack.rules)
    pub mandatory : All (λ r. has_key (ref_key (trimmed_ref r)) vs ≡ true) mandatory_refs
    pub requested :
        All (λ r. has_key (ref_key (trimmed_ref r)) vs ≡ true) request.requested_validators
    pub reindexed :
        pack.require_reindex ≡ true → has_key (ref_key (trimmed_ref reindex_ref)) vs ≡ true

  still :
      (vs more rs : List ValidatorRef)
      → Extends vs more
      → All (λ r. has_key (ref_key (trimmed_ref r)) vs ≡ true) rs
      → All (λ r. has_key (ref_key (trimmed_ref r)) more ≡ true) rs
  still vs more rs e h = All-imp _ _ (λ r k. e.keeps (ref_key (trimmed_ref r)) k) rs h

  reindex-Extends :
      (required : Bool) (c vs : List ValidatorRef)
      → (if required then add_ref lookup c reindex_ref else ok c) ≡ ok vs
      → Extends c vs × (required ≡ true → has_key (ref_key (trimmed_ref reindex_ref)) vs ≡ true)
  reindex-Extends true c vs h = let (a, b) = add_ref-Extends c reindex_ref vs h in (a, λ _. b)
  reindex-Extends false c vs h = (subst (Extends c) (ok-injective h) (Extends-refl c), λ e. cc)

  pub collect-Covers :
      (pack : ValidationPolicyPack) (request : PolicyEvaluationRequest) (vs : List ValidatorRef)
      → collect lookup pack request ≡ ok vs
      → IsAdmissible vs × Covers pack request vs
  unfolding collect
  collect-Covers pack request vs h =
      let (a, p₁, h₁) =
        >>=-eq-ok (add_refs lookup [] (map (λ rule. rule.validator) pack.rules)) _ h in
      let (b, p₂, h₂) = >>=-eq-ok (add_refs lookup a mandatory_refs) _ h₁ in
      let (c, p₃, h₃) = >>=-eq-ok (add_refs lookup b request.requested_validators) _ h₂ in
      let (e₁, k₁) = add_refs-Extends [] (map (λ rule. rule.validator) pack.rules) a p₁ in
      let (e₂, k₂) = add_refs-Extends a mandatory_refs b p₂ in
      let (e₃, k₃) = add_refs-Extends b request.requested_validators c p₃ in
      let (e₄, k₄) = reindex-Extends pack.require_reindex c vs h₃ in
      let e₃₄ = Extends-trans b c vs e₃ e₄ in
      let e₂₄ = Extends-trans a b vs e₂ e₃₄ in
      (
        e₂₄.admissible (e₁.admissible (tt, tt)),
        record {
          rules = still a vs (map (λ rule. rule.validator) pack.rules) e₂₄ k₁;
          mandatory = still b vs mandatory_refs e₃₄ k₂;
          requested = still c vs request.requested_validators e₄ k₃;
          reindexed = k₄;
        },
      )

  -- Sorting changes none of this.
  pub sort_refs-Covers :
      (pack : ValidationPolicyPack) (request : PolicyEvaluationRequest) (vs : List ValidatorRef)
      → IsAdmissible vs × Covers pack request vs
      → IsAdmissible (sort_refs vs) × Covers pack request (sort_refs vs)
  sort_refs-Covers pack request vs (adm, cov) =
      let sorted : Extends vs (sort_refs vs) = record {
        admissible = λ x. (All-sort_by ref_lt _ vs x.0, Distinct-sort_by ref_lt vs x.1);
        keeps = λ k x. any-sort_by ref_lt (λ y. str_eq (ref_key y) k) vs ∙ x;
      } in
      (
        sorted.admissible adm,
        record {
          rules = still vs _ (map (λ rule. rule.validator) pack.rules) sorted cov.rules;
          mandatory = still vs _ mandatory_refs sorted cov.mandatory;
          requested = still vs _ request.requested_validators sorted cov.requested;
          reindexed = λ r. sorted.keeps _ (cov.reindexed r);
        },
      )
