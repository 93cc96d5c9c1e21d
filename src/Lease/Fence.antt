-- ===== src/Lease/Fence.antt =====
-- Fences only rise, at every key, whatever is done to the table.
use fornix.Base.{
  ℕ, ◌<◌, ◌≤◌, ◌≡◌, refl, String, str_eq, eq_iff, trim, trim_idem, Bool, true, false, ◌&&◌, Option,
  none, some, arith, ◌==◌, ok, Option-cases, inl, inr, write, write_lem, update_where,
  update_where-hit, update_where-miss, update_where-none, ◌∙◌, ap, Bool-cases, Result-cases,
  >>=-eq-ok, ℤ,
}
use fornix.Lease.{
  LeaseTable, Clock, ConsumerLease, ConsumerLeaseResult, insert_lease, acquire_trimmed,
  acquire_current, take_over, taken_over, read_consumer_lease, acquire_consumer_lease,
  validate_consumer_lease_identity, bounded_consumer_lease_ttl,
}
use fornix.Lease.Reads.{read-row}

-- The fence of the row at a key, 0 where there is none.
abbrev pub fence_of_row : Option ConsumerLease → ℕ
fence_of_row none = 0
fence_of_row (some l) = l.fence

abbrev pub fence_of : LeaseTable → String → String → ℕ
fence_of t w c = fence_of_row (t w c)

fence_of-write :
    (t : LeaseTable) (w c : String) (v : ConsumerLease)
    → fence_of t w c ≤ v.fence
    → (a b : String) → fence_of t a b ≤ fence_of (write t w c v) a b
unfolding write
fence_of-write t w c v h a b = ground (arith, eq_iff w a, eq_iff c b)

fence_of-update_where :
    (t : LeaseTable) (w c : String) (test : ConsumerLease → Bool)
    (f : ConsumerLease → ConsumerLease)
    → ((v : ConsumerLease) → v.fence ≤ (f v).fence)
    → (a b : String) → fence_of t a b ≤ fence_of (update_where t w c test f).0 a b
fence_of-update_where t w c test f up a b = elim (Option-cases (t w c)) [
  | inl e ↦ rw (update_where-none t w c test f e) (omega arith)
  | inr (v, e) ↦ elim (Bool-cases (test v)) [
    | inl h ↦
        rw (update_where-hit t w c test f v e h) (fence_of-write t w c (f v) (rw e (up v)) a b)
    | inr h ↦ rw (update_where-miss t w c test f v e h) (omega arith)
  ]
]

fence_of-insert :
    (t : LeaseTable) (now : ℕ) (w c o : String) (ttl : ℕ) (a b : String)
    → fence_of t a b ≤ fence_of (insert_lease t now w c o ttl).0 a b
unfolding insert_lease
fence_of-insert t now w c o ttl a b = elim (Option-cases (t w c)) [
  | inl e ↦ rw (e, insert_lease) (fence_of-write t w c _ (rw e (omega arith)) a b)
  | inr (v, e) ↦ rw (e, insert_lease) (omega arith)
]

-- The table of a takeover, and the lease that it hands out.
take_over-effect :
    (t : LeaseTable) (clock : Clock) (w c o : String) (ttl : ℕ) (inserted : Bool)
    (l : ConsumerLease) (r : ConsumerLeaseResult) (t' : LeaseTable)
    → take_over t clock w c o ttl inserted l ≡ ok (r, t')
    → (t' ≡ (update_where t w c (λ row. row.fence == l.fence) (taken_over (clock 2) o ttl)).0)
      × (t' (trim w) (trim c) ≡ some r.lease)
      × (l.fence < r.lease.fence)
      × (r.lease.owner_id ≡ o)
      × (r.acquired ≡ true)
unfolding take_over
take_over-effect t clock w c o ttl inserted l r t' h =
    let t'' : LeaseTable =
      (update_where t w c (λ row. row.fence == l.fence) (taken_over (clock 2) o ttl)).0 in
    elim (Result-cases (read_consumer_lease t'' (clock 3) w c)) [
      | inl (e, p) ↦ ground arith
      | inr ((row, live), p) ↦
          ground (arith, read-row t'' (clock 3) w c row live p, eq_iff row.owner_id o)
    ]

-- What an acquisition that succeeds leaves behind: the lease that it returns is the row, for the
-- owner that asked; the fences only rise, and one that is newly acquired rises strictly.
pub record Acquires (t t' : LeaseTable) (w c o : String) (r : ConsumerLeaseResult) : Type 0 where
  pub at_key : t' w c ≡ some r.lease
  pub by_owner : r.lease.owner_id ≡ o
  pub raises : r.acquired ≡ true → fence_of t w c < r.lease.fence
  pub reuses : r.acquired ≡ false → t' ≡ t
  pub keeps : (a b : String) → fence_of t a b ≤ fence_of t' a b
  pub elsewhere : (a b : String) → (str_eq w a && str_eq c b) ≡ false → t' a b ≡ t a b

insert_lease-old :
    (t : LeaseTable) (now : ℕ) (w c o : String) (ttl : ℕ) (l : ConsumerLease)
    → t w c ≡ some l
    → insert_lease t now w c o ttl ≡ (t, false)
unfolding insert_lease
insert_lease-old t now w c o ttl l e = rw (e, insert_lease)

insert_lease-row :
    (t : LeaseTable) (now : ℕ) (w c o : String) (ttl : ℕ) (l : ConsumerLease)
    → (insert_lease t now w c o ttl).0 w c ≡ some l
    → 0 < l.fence
    → (insert_lease t now w c o ttl).1 ≡ true
    → fence_of t w c < l.fence
insert_lease-row t now w c o ttl l h p i = elim (Option-cases (t w c)) [
  | inl e ↦ rw e p
  | inr (v, e) ↦ cc (insert_lease-old t now w c o ttl v e)
]

update_where-elsewhere :
    (t : LeaseTable) (w c : String) (test : ConsumerLease → Bool)
    (f : ConsumerLease → ConsumerLease) (a b : String)
    → (str_eq w a && str_eq c b) ≡ false
    → (update_where t w c test f).0 a b ≡ t a b
update_where-elsewhere t w c test f a b h = elim (Option-cases (t w c)) [
  | inl e ↦ rw (update_where-none t w c test f e)
  | inr (v, e) ↦ elim (Bool-cases (test v)) [
    | inl k ↦ rw (update_where-hit t w c test f v e k) (rw (write_lem t w c (f v) a b) (rw h))
    | inr k ↦ rw (update_where-miss t w c test f v e k)
  ]
]

insert_lease-elsewhere :
    (t : LeaseTable) (now : ℕ) (w c o : String) (ttl : ℕ) (a b : String)
    → (str_eq w a && str_eq c b) ≡ false
    → (insert_lease t now w c o ttl).0 a b ≡ t a b
unfolding insert_lease write
insert_lease-elsewhere t now w c o ttl a b h = elim (Option-cases (t w c)) [
  | inl e ↦ rw (e, insert_lease) (rw h)
  | inr (v, e) ↦ rw (e, insert_lease)
]

insert_lease-reuses :
    (t : LeaseTable) (now : ℕ) (w c o : String) (ttl : ℕ)
    → (insert_lease t now w c o ttl).1 ≡ false
    → (insert_lease t now w c o ttl).0 ≡ t
unfolding insert_lease
insert_lease-reuses t now w c o ttl = elim (Option-cases (t w c)) [
  | inl e ↦ rw (e, insert_lease) (λ h. cc)
  | inr (v, e) ↦ rw (e, insert_lease) (λ h. refl)
]

take_over-fences :
    (t : LeaseTable) (clock : Clock) (w c o : String) (ttl : ℕ) (l : ConsumerLease) (a b : String)
    → fence_of t a b
      ≤ fence_of
          (update_where t w c (λ row. row.fence == l.fence) (taken_over (clock 2) o ttl)).0
          a
          b
unfolding taken_over
take_over-fences t clock w c o ttl l a b = fence_of-update_where t w c _ _ (λ v. omega arith) a b

module _ (t : LeaseTable) (clock : Clock) (w c o : String) (ttl : ℕ) (kw : trim w ≡ w)
    (kc : trim c ≡ c) (r : ConsumerLeaseResult) (t' : LeaseTable) where
  abbrev mid : LeaseTable
  mid = (insert_lease t (clock 0) w c o ttl).0

  abbrev ins : Bool
  ins = (insert_lease t (clock 0) w c o ttl).1

  acquire_current-effect :
      (row : ConsumerLease) (live : Bool)
      → mid w c ≡ some row
      → 0 < row.fence
      → acquire_current mid clock w c o ttl ins (row, live) ≡ ok (r, t')
      → Acquires t t' w c o r
  unfolding acquire_current
  acquire_current-effect row true at p h = ground (
    arith,
    eq_iff row.owner_id o,
    fence_of-insert t (clock 0) w c o ttl,
    insert_lease-row t (clock 0) w c o ttl row at p,
    insert_lease-reuses t (clock 0) w c o ttl,
    insert_lease-elsewhere t (clock 0) w c o ttl,
  )
  acquire_current-effect row false at p h =
      let (step, found, more, owner, fresh) = take_over-effect mid clock w c o ttl ins row r t' h in
      record {
        at_key = rw (kw, kc) at found;
        by_owner = owner;
        reuses = λ e. cc fresh;
        elsewhere = λ a b k. rw step (
            update_where-elsewhere mid w c _ _ a b k
            ∙ insert_lease-elsewhere t (clock 0) w c o ttl a b k);
        raises =
            λ _. omega (arith, fence_of-insert t (clock 0) w c o ttl w c, ap fence_of_row at, more);
        keeps = λ a b. rw step (
            omega (
              arith,
              fence_of-insert t (clock 0) w c o ttl a b,
              take_over-fences mid clock w c o ttl row a b,
            ));
      }

  acquire_trimmed-effect : acquire_trimmed t clock w c o ttl ≡ ok (r, t') → Acquires t t' w c o r
  unfolding acquire_trimmed
  acquire_trimmed-effect h =
      let ((row, live), p, q) =
        >>=-eq-ok (read_consumer_lease mid (clock 1) w c) (acquire_current mid clock w c o ttl ins)
          h in
      let (at, pos, _) = read-row mid (clock 1) w c row live p in
      acquire_current-effect row live (rw (kw, kc) at at) pos q

pub acquire-effect :
    (t : LeaseTable) (clock : Clock) (w c o : String) (ttl : ℤ) (r : ConsumerLeaseResult)
    (t' : LeaseTable)
    → acquire_consumer_lease t clock w c o ttl ≡ ok (r, t')
    → Acquires t t' (trim w) (trim c) (trim o) r
unfolding acquire_consumer_lease
acquire-effect t clock w c o ttl r t' h =
    let (_, _, q) = >>=-eq-ok (validate_consumer_lease_identity w c o) _ h in
    acquire_trimmed-effect t clock (trim w) (trim c) (trim o) (bounded_consumer_lease_ttl ttl)
      (trim_idem w) (trim_idem c) r t' q
