-- ===== src/Lease/Reads.antt =====
-- What a successful read or validation of a lease says about the row.
use fornix.Base.{
  ℕ, ◌<◌, ◌≡◌, String, eq_iff, trim, Bool, none, some, arith, ok, Option-cases, inl, inr,
}
use fornix.Lease.{
  LeaseTable, ConsumerLease, is_active, read_consumer_lease, validate_consumer_lease,
  validate_consumer_lease_identity,
}

-- A read that succeeds returns the row at the key, whose fence is positive.
pub read-row :
    (t : LeaseTable) (now : ℕ) (w c : String) (l : ConsumerLease) (a : Bool)
    → read_consumer_lease t now w c ≡ ok (l, a)
    → (t (trim w) (trim c) ≡ some l) × (0 < l.fence) × (a ≡ is_active l now)
unfolding read_consumer_lease
read-row t now w c l a h = ground arith

pub read-some :
    (t : LeaseTable) (now : ℕ) (w c : String) (l : ConsumerLease)
    → t (trim w) (trim c) ≡ some l
    → 0 < l.fence
    → read_consumer_lease t now w c ≡ ok (l, is_active l now)
unfolding read_consumer_lease
read-some t now w c l e p = ground arith

-- What a lease token must meet to be valid: it is the row's own, and the row is live.
pub record IsCurrent (t : LeaseTable) (now : ℕ) (lease row : ConsumerLease) : Type 0 where
  pub at_key : t (trim lease.workspace_id) (trim lease.consumer_id) ≡ some row
  pub same_fence : row.fence ≡ lease.fence
  pub same_owner : row.owner_id ≡ trim lease.owner_id
  pub unreleased : row.released_at ≡ none
  pub unexpired : now < row.lease_until

pub validate-IsCurrent :
    (t : LeaseTable) (now : ℕ) (lease row : ConsumerLease)
    → validate_consumer_lease t now lease ≡ ok row
    → IsCurrent t now lease row
unfolding validate_consumer_lease read_consumer_lease validate_consumer_lease_identity is_active
validate-IsCurrent t now lease row h =
    elim (Option-cases (t (trim lease.workspace_id) (trim lease.consumer_id))) [
      | inl e ↦ ground arith
      | inr (r, e) ↦ ground (arith, eq_iff r.owner_id (trim lease.owner_id))
    ]
