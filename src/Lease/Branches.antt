-- ===== src/Lease/Branches.antt =====
-- Every branch of an acquisition, as a function of the row at the key.
use fornix.Base.{
  ℤ, ℕ, ◌<◌, ◌≤◌, ◌≡◌, ◌≢◌, refl, String, str_eq, eq_iff, eq_refl, trim, trim_idem, is_empty, true,
  false, none, some, arith, ltb, ◌==◌, if◌then◌else◌, Result, ok, err, Option-cases, inl, inr,
  write, write_self, update_where-hit, ==_iff,
}
use fornix.Lease.{
  LeaseTable, Clock, ConsumerLease, ConsumerLeaseResult, LeaseError, is_active, insert_lease,
  lease_end, acquire_trimmed, take_over, taken_over, read_consumer_lease, lease_held,
  fence_exhausted, max_consumer_fence, acquire_consumer_lease, bounded_consumer_lease_ttl,
  validate_consumer_lease_identity,
}
use fornix.Lease.Reads.{read-some}

-- The row of a lease that is granted at `now` under a given fence.
unfoldable pub granted : String → String → String → ℕ → ℕ → ℕ → ConsumerLease
unfolding lease_end
granted w c o fence now ttl = record {
  workspace_id = w;
  consumer_id = c;
  owner_id = o;
  fence = fence;
  lease_until = lease_end now ttl;
  acquired_at = now;
  renewed_at = now;
  released_at = none;
}

-- What an acquisition does, as a table of cases over the row at the key.
unfoldable pub acquire_table :
    LeaseTable
    → Clock
    → String
    → String
    → String
    → ℕ
    → Result LeaseError (ConsumerLeaseResult × LeaseTable)
unfolding granted is_active taken_over
acquire_table t clock w c o ttl = elim (t w c) [
  | none ↦
      let row = granted w c o 1 (clock 0) ttl in
      ok
        (record { lease = row; acquired = true; takeover = false; reused = false }, write t w c row)
  | some l ↦
      if is_active l (clock 1)
      then if str_eq l.owner_id o
        then ok (record { lease = l; acquired = false; takeover = false; reused = true }, t)
        else err lease_held
      else if ltb l.fence max_consumer_fence
      then (let row = taken_over (clock 2) o ttl l in
          ok (
            record { lease = row; acquired = true; takeover = true; reused = false },
            write t w c row,
          ))
      else err fence_exhausted
]

module _ (t : LeaseTable) (clock : Clock) (w c o : String) (ttl : ℕ) (kw : trim w ≡ w)
    (kc : trim c ≡ c) where
  read_trimmed :
      (t : LeaseTable) (now : ℕ) (l : ConsumerLease)
      → t w c ≡ some l
      → 0 < l.fence
      → read_consumer_lease t now w c ≡ ok (l, is_active l now)
  read_trimmed t now l e p = read-some t now w c l (rw (kw, kc) e) p

  acquire_fresh :
      t w c ≡ none
      → clock 1 < lease_end (clock 0) ttl
      → acquire_trimmed t clock w c o ttl
        ≡ ok (
          record {
            lease = granted w c o 1 (clock 0) ttl;
            acquired = true;
            takeover = false;
            reused = false;
          },
          write t w c (granted w c o 1 (clock 0) ttl),
        )
  unfolding acquire_trimmed granted is_active
  acquire_fresh e live =
      rw (e, acquire_trimmed, insert_lease)
        (rw
          (read_trimmed (write t w c (granted w c o 1 (clock 0) ttl)) (clock 1)
            (granted w c o 1 (clock 0) ttl) (write_self t w c _) (omega arith))
          (ground (arith, eq_refl o)))

  -- An active row of the same owner is handed back unchanged.
  acquire_reuses :
      (l : ConsumerLease)
      → t w c ≡ some l
      → 0 < l.fence
      → is_active l (clock 1) ≡ true
      → l.owner_id ≡ o
      → acquire_trimmed t clock w c o ttl
        ≡ ok (record { lease = l; acquired = false; takeover = false; reused = true }, t)
  unfolding acquire_trimmed
  acquire_reuses l e p live own =
      rw (e, acquire_trimmed, insert_lease)
        (rw (read_trimmed t (clock 1) l e p) (ground (arith, eq_iff l.owner_id o)))

  -- An active row of another owner is refused.
  acquire_held :
      (l : ConsumerLease)
      → t w c ≡ some l
      → 0 < l.fence
      → is_active l (clock 1) ≡ true
      → l.owner_id ≢ o
      → acquire_trimmed t clock w c o ttl ≡ err lease_held
  unfolding acquire_trimmed
  acquire_held l e p live other =
      rw (e, acquire_trimmed, insert_lease)
        (rw (read_trimmed t (clock 1) l e p) (ground (arith, eq_iff l.owner_id o)))

  acquire_inactive :
      (l : ConsumerLease)
      → t w c ≡ some l
      → 0 < l.fence
      → is_active l (clock 1) ≡ false
      → acquire_trimmed t clock w c o ttl ≡ take_over t clock w c o ttl false l
  unfolding acquire_trimmed
  acquire_inactive l e p dead =
      rw (e, acquire_trimmed, insert_lease) (rw (read_trimmed t (clock 1) l e p) (ground arith))

  take_over_exhausted :
      (l : ConsumerLease)
      → max_consumer_fence ≤ l.fence
      → take_over t clock w c o ttl false l ≡ err fence_exhausted
  unfolding take_over
  take_over_exhausted l h = ground arith

  take_over_row :
      (l : ConsumerLease)
      → t w c ≡ some l
      → l.fence < max_consumer_fence
      → clock 3 < lease_end (clock 2) ttl
      → let row = taken_over (clock 2) o ttl l in
        take_over t clock w c o ttl false l
        ≡ ok (
          record { lease = row; acquired = true; takeover = true; reused = false },
          write t w c row,
        )
  unfolding take_over taken_over is_active
  take_over_row l e h live =
      rw
        (
          update_where-hit t w c (λ row. row.fence == l.fence) (taken_over (clock 2) o ttl) l e
              ((==_iff l.fence l.fence).1 refl),
          take_over,
        )
        (rw
          (read_trimmed (write t w c (taken_over (clock 2) o ttl l)) (clock 3)
            (taken_over (clock 2) o ttl l) (write_self t w c _) (omega arith))
          (ground (arith, eq_refl o)))

  acquire_trimmed-table :
      clock 1 < lease_end (clock 0) ttl
      → clock 3 < lease_end (clock 2) ttl
      → ((l : ConsumerLease) → t w c ≡ some l → 0 < l.fence)
      → acquire_trimmed t clock w c o ttl ≡ acquire_table t clock w c o ttl
  unfolding acquire_table
  acquire_trimmed-table quick quick' valid = elim (Option-cases (t w c)) [
    | inl e ↦ rw (e, acquire_table) (acquire_fresh e quick)
    | inr (l, e) ↦
        rw (e, acquire_table)
          (ground (
            arith,
            eq_iff l.owner_id o,
            acquire_reuses l e (valid l e),
            acquire_held l e (valid l e),
            acquire_inactive l e (valid l e),
            take_over_exhausted l,
            take_over_row l e,
          ))
  ]

-- An acquisition with an identity that is not blank, where the fence of the row is not 0 and the
-- clock does not run past the end of a lease between its grant and the next statement, decides by
-- the row of the consumer: no row is a first grant, an active row is handed out again to its
-- owner and refused to another, and a row that is not active is taken over under the next fence,
-- unless the fences are exhausted.
pub acquire-table :
    (t : LeaseTable) (clock : Clock) (w c o : String) (ttl : ℤ)
    → is_empty (trim w) ≡ false
    → is_empty (trim c) ≡ false
    → is_empty (trim o) ≡ false
    → clock 1 < lease_end (clock 0) (bounded_consumer_lease_ttl ttl)
    → clock 3 < lease_end (clock 2) (bounded_consumer_lease_ttl ttl)
    → ((l : ConsumerLease) → t (trim w) (trim c) ≡ some l → 0 < l.fence)
    → acquire_consumer_lease t clock w c o ttl
      ≡ acquire_table t clock (trim w) (trim c) (trim o) (bounded_consumer_lease_ttl ttl)
unfolding acquire_consumer_lease validate_consumer_lease_identity
acquire-table t clock w c o ttl nw nc nn quick quick' valid =
    rw (nw, nc, nn)
      (acquire_trimmed-table t clock (trim w) (trim c) (trim o) _ (trim_idem w) (trim_idem c) quick
        quick' valid)
