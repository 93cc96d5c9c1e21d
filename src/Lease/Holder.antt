-- ===== src/Lease/Holder.antt =====
-- Renewal and release, which only the current holder can make.
use fornix.Base.{
  ℕ, ◌<◌, ◌≡◌, String, eq_iff, trim, true, arith, ok, write, write_self, update_where-hit,
  >>=-eq-ok, ℤ,
}
use fornix.Lease.{
  LeaseTable, Clock, ConsumerLease, is_active, read_consumer_lease, read_renewed,
  renew_consumer_lease, release_consumer_lease, renewed, released, holds, validate_consumer_lease,
  bounded_consumer_lease_ttl,
}
use fornix.Lease.Reads.{read-row, IsCurrent, validate-IsCurrent}

-- The key that a lease names.
abbrev pub lease_ws : ConsumerLease → String
lease_ws lease = trim lease.workspace_id

abbrev pub lease_cs : ConsumerLease → String
lease_cs lease = trim lease.consumer_id

holds_current :
    (t : LeaseTable) (now : ℕ) (lease row : ConsumerLease)
    → IsCurrent t now lease row
    → holds lease row ≡ true
unfolding holds
holds_current t now lease row h = ground (arith, h, eq_iff row.owner_id (trim lease.owner_id))

-- The end of a renewal, once the new row is written: it is read back and must be active.
renewed_row :
    (t : LeaseTable) (now : ℕ) (lease new updated : ConsumerLease) (t' : LeaseTable)
    → read_renewed (write t (lease_ws lease) (lease_cs lease) new) now lease ≡ ok (updated, t')
    → (updated ≡ new)
      × ((t' ≡ write t (lease_ws lease) (lease_cs lease) new) × (now < updated.lease_until))
unfolding is_active read_renewed
renewed_row t now lease new updated t' h =
    let t'' : LeaseTable = write t (lease_ws lease) (lease_cs lease) new in
    let ((row, live), p, q) =
      >>=-eq-ok (read_consumer_lease t'' now lease.workspace_id lease.consumer_id) _ h in
    ground (
      arith,
      read-row t'' now lease.workspace_id lease.consumer_id row live p,
      write_self t (lease_ws lease) (lease_cs lease) new,
    )

-- A renewal that succeeds was made by the current holder. It writes one row: the old one with its
-- renewal at the clock's second reading and its end there plus the bounded duration, which may be
-- before the old end. The row is not yet over at the third reading and keeps its owner and fence.
pub renew-effect :
    (t : LeaseTable) (clock : Clock) (lease : ConsumerLease) (ttl : ℤ) (updated : ConsumerLease)
    (t' : LeaseTable)
    → renew_consumer_lease t clock lease ttl ≡ ok (updated, t')
    → (row : ConsumerLease) × IsCurrent t (clock 0) lease row
      × (t' ≡ write t (lease_ws lease) (lease_cs lease) updated)
      × (updated ≡ renewed (clock 1) (bounded_consumer_lease_ttl ttl) row)
      × (clock 2 < updated.lease_until)
unfolding renew_consumer_lease
renew-effect t clock lease ttl updated t' h =
    let (row, p, q) = >>=-eq-ok (validate_consumer_lease t (clock 0) lease) _ h in
    let cur = validate-IsCurrent t (clock 0) lease row p in
    let d : ℕ = bounded_consumer_lease_ttl ttl in
    let hit =
      update_where-hit t (lease_ws lease) (lease_cs lease) (holds lease) (renewed (clock 1) d) row
        cur.at_key (holds_current t (clock 0) lease row cur) in
    let (e, live) =
      renewed_row t (clock 2) lease (renewed (clock 1) d row) updated t' (rw hit at q) in
    (row, cur, rw e live.0, e, live.1)

-- A release that succeeds was made by the current holder, and marks the row released.
pub release-effect :
    (t : LeaseTable) (clock : Clock) (lease : ConsumerLease) (t' : LeaseTable)
    → release_consumer_lease t clock lease ≡ ok t'
    → (row : ConsumerLease) × IsCurrent t (clock 0) lease row
      × (t' ≡ write t (lease_ws lease) (lease_cs lease) (released (clock 1) row))
unfolding release_consumer_lease
release-effect t clock lease t' h =
    let (row, p, q) = >>=-eq-ok (validate_consumer_lease t (clock 0) lease) _ h in
    let cur = validate-IsCurrent t (clock 0) lease row p in
    let hit =
      update_where-hit t (lease_ws lease) (lease_cs lease) (holds lease) (released (clock 1)) row
        cur.at_key (holds_current t (clock 0) lease row cur) in
    (row, cur, ground (arith, hit))
