-- ===== src/Lease/History.antt =====
-- Leases over time: any sequence of operations, each with its own clock readings, by any owners.
use fornix.Base.{
  ℕ, ◌<◌, ◌≤◌, ◌≡◌, ◌≢◌, refl, sym, String, str_eq, eq_iff, trim, true, false, ◌&&◌, Option, none,
  some, arith, Result, ok, err, inl, inr, ◌⊎◌, write, write_lem, write_self, Bool-cases,
  and-eq-true, Result-cases, ℤ, List, [], ◌∷◌,
}
use fornix.Lease.{
  LeaseTable, Clock, ConsumerLease, ConsumerLeaseResult, LeaseError, acquire_consumer_lease,
  renew_consumer_lease, release_consumer_lease, renewed, released, validate_consumer_lease,
}
use fornix.Lease.Reads.{IsCurrent, validate-IsCurrent}
use fornix.Lease.Fence.{fence_of, fence_of_row, Acquires, acquire-effect}
use fornix.Lease.Holder.{renew-effect, release-effect, lease_ws, lease_cs}

pub data LeaseOp : Type 0 where
  acquires : String → String → String → ℤ → LeaseOp
  renews : ConsumerLease → ℤ → LeaseOp
  releases : ConsumerLease → LeaseOp

-- The table after a transaction: the new one if it commits, the old one if it rolls back.
abbrev pub committed :
    {A : Type 0} → (A → LeaseTable) → LeaseTable → Result LeaseError A → LeaseTable
committed f t (ok a) = f a
committed f t (err e) = t

unfoldable pub step : LeaseTable → Clock × LeaseOp → LeaseTable
step t (clock, acquires w c o ttl) =
    committed (λ x. x.1) t (acquire_consumer_lease t clock w c o ttl)
step t (clock, renews lease ttl) = committed (λ x. x.1) t (renew_consumer_lease t clock lease ttl)
step t (clock, releases lease) = committed (λ x. x) t (release_consumer_lease t clock lease)

unfoldable pub run : LeaseTable → List (Clock × LeaseOp) → LeaseTable
run t [] = t
run t (x ∷ xs) = run (step t x) xs

-- A token of fence `f` is dead at a key: the row has moved on, or was released under that fence.
abbrev pub IsDeadRow : ℕ → Option ConsumerLease → Type 0
IsDeadRow f none = ⊥
IsDeadRow f (some l) = (f < l.fence) ⊎ ((f ≡ l.fence) × (l.released_at ≢ none))

abbrev pub IsDead : LeaseTable → String → String → ℕ → Type 0
IsDead t w c f = IsDeadRow f (t w c)

IsDeadRow-le : (f : ℕ) (row : Option ConsumerLease) → IsDeadRow f row → f ≤ fence_of_row row
IsDeadRow-le f none d = absurd d
IsDeadRow-le f (some l) d = omega arith

IsDead-of_newer :
    (t : LeaseTable) (w c : String) (f : ℕ) (l : ConsumerLease)
    → t w c ≡ some l
    → f < l.fence
    → IsDead t w c f
IsDead-of_newer t w c f l e h = rw e (inl h)

acquire-IsDead :
    (t t' : LeaseTable) (w c o : String) (r : ConsumerLeaseResult) (a b : String) (f : ℕ)
    → Acquires t t' w c o r
    → IsDead t a b f
    → IsDead t' a b f
acquire-IsDead t t' w c o r a b f h d = elim (Bool-cases r.acquired) [
  | inr old ↦ rw (h.reuses old) d
  | inl new ↦ elim (Bool-cases (str_eq w a && str_eq c b)) [
    | inr other ↦ rw (h.elsewhere a b other) d
    | inl same ↦
        let (ka, kb) = and-eq-true _ _ same in
        let ea : w ≡ a = (eq_iff w a).0 ka in
        let eb : c ≡ b = (eq_iff c b).0 kb in
        IsDead-of_newer t' a b f r.lease (rw (ea, eb) at h.at_key)
          (omega (arith, rw (ea, eb) at (h.raises new), IsDeadRow-le f (t a b) d))
  ]
]

write-IsDead :
    (t : LeaseTable) (w c a b : String) (f : ℕ) (old new : ConsumerLease)
    → t w c ≡ some old
    → old.released_at ≡ none
    → old.fence ≡ new.fence
    → IsDead t a b f
    → IsDead (write t w c new) a b f
write-IsDead t w c a b f old new e u s d =
    rw (write_lem t w c new a b) (elim (Bool-cases (str_eq w a && str_eq c b)) [
      | inr other ↦ rw other d
      | inl same ↦
          let (ka, kb) = and-eq-true _ _ same in
          let dead : IsDeadRow f (some old) =
            rw (rw ((eq_iff w a).0 ka, (eq_iff c b).0 kb) at e) at d in
          rw same (ground arith)
    ])

step-IsDead :
    (t : LeaseTable) (x : Clock × LeaseOp) (a b : String) (f : ℕ)
    → IsDead t a b f
    → IsDead (step t x) a b f
unfolding step renewed released
step-IsDead t (clock, acquires w c o ttl) a b f d =
    elim (Result-cases (acquire_consumer_lease t clock w c o ttl)) [
      | inl (e, p) ↦ rw p d
      | inr ((r, t'), p) ↦
          rw p (acquire-IsDead t t' _ _ _ r a b f (acquire-effect t clock w c o ttl r t' p) d)
    ]
step-IsDead t (clock, renews lease ttl) a b f d =
    elim (Result-cases (renew_consumer_lease t clock lease ttl)) [
      | inl (e, p) ↦ rw p d
      | inr ((u, t'), p) ↦
          let (row, cur, e, n, _) = renew-effect t clock lease ttl u t' p in
          rw (p, e)
            (write-IsDead t (lease_ws lease) (lease_cs lease) a b f row u cur.at_key cur.unreleased
              (rw n refl) d)
    ]
step-IsDead t (clock, releases lease) a b f d =
    elim (Result-cases (release_consumer_lease t clock lease)) [
      | inl (e, p) ↦ rw p d
      | inr (t', p) ↦
          let (row, cur, e) = release-effect t clock lease t' p in
          rw (p, e)
            (write-IsDead t (lease_ws lease) (lease_cs lease) a b f row _ cur.at_key cur.unreleased
              refl d)
    ]

run-IsDead :
    (t : LeaseTable) (xs : List (Clock × LeaseOp)) (a b : String) (f : ℕ)
    → IsDead t a b f
    → IsDead (run t xs) a b f
unfolding run
run-IsDead t [] a b f d = d
run-IsDead t (x ∷ xs) a b f d = run-IsDead (step t x) xs a b f (step-IsDead t x a b f d)

-- The token authorizes nothing: not a checkpoint, not a renewal, not a release.
pub record IsRefused (t : LeaseTable) (lease : ConsumerLease) : Type 0 where
  pub no_validation : (now : ℕ) (row : ConsumerLease) → validate_consumer_lease t now lease ≢ ok row
  pub no_renewal :
      (clock : Clock) (ttl : ℤ) (u : ConsumerLease) (t' : LeaseTable)
      → renew_consumer_lease t clock lease ttl ≢ ok (u, t')
  pub no_release : (clock : Clock) (t' : LeaseTable) → release_consumer_lease t clock lease ≢ ok t'

IsDead-not-IsCurrent :
    (t : LeaseTable) (now : ℕ) (lease row : ConsumerLease)
    → IsDead t (lease_ws lease) (lease_cs lease) lease.fence
    → ¬ IsCurrent t now lease row
IsDead-not-IsCurrent t now lease row d h = ground (arith, h, rw h.at_key at d)

IsDead-IsRefused :
    (t : LeaseTable) (lease : ConsumerLease)
    → IsDead t (lease_ws lease) (lease_cs lease) lease.fence
    → IsRefused t lease
IsDead-IsRefused t lease d = record {
  no_validation =
      λ now row e. IsDead-not-IsCurrent t now lease row d (validate-IsCurrent t now lease row e);
  no_renewal = λ clock ttl u t' e.
      let (row, cur, _, _, _) = renew-effect t clock lease ttl u t' e in
      IsDead-not-IsCurrent t (clock 0) lease row d cur;
  no_release = λ clock t' e.
      let (row, cur, _) = release-effect t clock lease t' e in
      IsDead-not-IsCurrent t (clock 0) lease row d cur;
}

-- Once a consumer lease is newly acquired, every token that was issued for the same consumer
-- before (its fence is at most the row's fence before the acquisition) is refused forever:
-- whatever operations follow, by whomever, it can neither be validated, renewed nor released.
pub superseded_forever :
    (t t' : LeaseTable) (clock : Clock) (w c o : String) (ttl : ℤ) (r : ConsumerLeaseResult)
    (old : ConsumerLease) (later : List (Clock × LeaseOp))
    → acquire_consumer_lease t clock w c o ttl ≡ ok (r, t')
    → r.acquired ≡ true
    → lease_ws old ≡ trim w
    → lease_cs old ≡ trim c
    → old.fence ≤ fence_of t (trim w) (trim c)
    → IsRefused (run t' later) old
superseded_forever t t' clock w c o ttl r old later e new kw kc h =
    let eff = acquire-effect t clock w c o ttl r t' e in
    IsDead-IsRefused (run t' later) old (
      run-IsDead t' later (lease_ws old) (lease_cs old) old.fence (
        rw (kw, kc)
          (IsDead-of_newer t' (trim w) (trim c) old.fence r.lease eff.at_key
            (omega (arith, eff.raises new)))))

-- A lease that was released is refused forever, whatever operations follow: the next holder gets
-- another fence.
pub released_forever :
    (t t' : LeaseTable) (clock : Clock) (lease : ConsumerLease) (later : List (Clock × LeaseOp))
    → release_consumer_lease t clock lease ≡ ok t'
    → IsRefused (run t' later) lease
unfolding released
released_forever t t' clock lease later e =
    let (row, cur, w) = release-effect t clock lease t' e in
    IsDead-IsRefused (run t' later) lease (
      run-IsDead t' later (lease_ws lease) (lease_cs lease) lease.fence (
        rw w (
          rw (write_self t (lease_ws lease) (lease_cs lease) (released (clock 1) row))
            (inr (sym cur.same_fence, λ k. cc)))))

-- The key that an operation names.
abbrev pub op_workspace : LeaseOp → String
op_workspace (acquires w c o ttl) = trim w
op_workspace (renews lease ttl) = lease_ws lease
op_workspace (releases lease) = lease_ws lease

abbrev pub op_consumer : LeaseOp → String
op_consumer (acquires w c o ttl) = trim c
op_consumer (renews lease ttl) = lease_cs lease
op_consumer (releases lease) = lease_cs lease

-- An operation touches no row but that of the workspace and consumer that it names.
pub step_isolated :
    (t : LeaseTable) (clock : Clock) (op : LeaseOp) (a b : String)
    → (str_eq (op_workspace op) a && str_eq (op_consumer op) b) ≡ false
    → step t (clock, op) a b ≡ t a b
unfolding step
step_isolated t clock (acquires w c o ttl) a b h =
    elim (Result-cases (acquire_consumer_lease t clock w c o ttl)) [
      | inl (e, p) ↦ rw p
      | inr ((r, t'), p) ↦ rw p ((acquire-effect t clock w c o ttl r t' p).elsewhere a b h)
    ]
step_isolated t clock (renews lease ttl) a b h =
    elim (Result-cases (renew_consumer_lease t clock lease ttl)) [
      | inl (e, p) ↦ rw p
      | inr ((u, t'), p) ↦
          let (row, cur, e, n, _) = renew-effect t clock lease ttl u t' p in
          rw (p, e) (rw (write_lem t (lease_ws lease) (lease_cs lease) u a b) (rw h))
    ]
step_isolated t clock (releases lease) a b h =
    elim (Result-cases (release_consumer_lease t clock lease)) [
      | inl (e, p) ↦ rw p
      | inr (t', p) ↦
          let (row, cur, e) = release-effect t clock lease t' p in
          rw (p, e)
            (rw (write_lem t (lease_ws lease) (lease_cs lease) (released (clock 1) row) a b) (rw h))
    ]
