-- ===== src/Lease.antt =====
-- Consumer leases (internal/store/leases.go, internal/contracts/leases.go): who may advance a
-- projection. The rows of `fornix.consumer_leases` are a `Table`, keyed by workspace and consumer.
-- An operation runs in one transaction: it reads and writes the table that it is given, and an
-- error hands back no table, so a caller keeps the old one (`tx.Rollback`).
-- `clock_timestamp()` is read anew by each statement: `clock k` is what the k-th statement of the
-- transaction reads, in microseconds. Durations are Go's, in nanoseconds. Statements that fail at
-- the connection are not modelled; they end in a rollback too.
pub mod Reads
pub mod Branches
pub mod Fence
pub mod Holder
pub mod History
mod Tests
use fornix.Base.{
  ℕ, ◌+◌, ◌*◌, ◌/◌, String, str_eq, trim, is_empty, Bool, true, false, not, ◌&&◌, ◌||◌, Option,
  none, some, ltb, ◌==◌, if◌then◌else◌, Result, ok, err, ◌>>=◌, ◌>>◌, guard, ℤ, pos_part,
  is_positive, Table, write, update_where,
}

pub data LeaseError : Type 0 where
  workspace_required consumer_required owner_required : LeaseError
  lease_held lease_missing lease_owned lease_fenced lease_expired lease_released : LeaseError
  fence_exhausted invalid_fence takeover_failed : LeaseError

pub record ConsumerLease : Type 0 where
  pub workspace_id : String
  pub consumer_id : String
  pub owner_id : String
  pub fence : ℕ
  pub lease_until : ℕ
  pub acquired_at : ℕ
  pub renewed_at : ℕ
  pub released_at : Option ℕ

pub record ConsumerLeaseResult : Type 0 where
  pub lease : ConsumerLease
  pub acquired : Bool
  pub takeover : Bool
  pub reused : Bool

abbrev pub LeaseTable : Type 0
LeaseTable = Table ConsumerLease

abbrev pub Clock : Type 0
Clock = ℕ → ℕ

-- 30 seconds, 10 minutes, a millisecond.
abbrev default_consumer_lease_ttl : ℕ
default_consumer_lease_ttl = 30_000_000_000

abbrev max_consumer_lease_ttl : ℕ
max_consumer_lease_ttl = 600_000_000_000

abbrev millisecond : ℕ
millisecond = 1_000_000

abbrev pub max_consumer_fence : ℕ
max_consumer_fence = 9223372036854775807

unfoldable pub bounded_consumer_lease_ttl : ℤ → ℕ
unfolding is_positive
bounded_consumer_lease_ttl ttl =
    let given = if is_positive ttl then pos_part ttl else default_consumer_lease_ttl in
    let capped = if ltb max_consumer_lease_ttl given then max_consumer_lease_ttl else given in
    if ltb capped millisecond then millisecond else capped

-- `clock_timestamp() + ttl.Milliseconds()`, in microseconds.
unfoldable pub lease_end : ℕ → ℕ → ℕ
lease_end now ttl = now + ttl / millisecond * 1000

unfoldable pub validate_consumer_lease_identity :
    String → String → String → Result LeaseError (Unit {0})
validate_consumer_lease_identity workspace_id consumer_id owner_id = do
  guard (not (is_empty (trim workspace_id))) workspace_required
  guard (not (is_empty (trim consumer_id))) consumer_required
  guard (not (is_empty (trim owner_id))) owner_required

abbrev is_none : Option ℕ → Bool
is_none none = true
is_none (some _) = false

-- released_at IS NULL AND lease_until > clock_timestamp()
unfoldable pub is_active : ConsumerLease → ℕ → Bool
is_active lease now = is_none lease.released_at && ltb now lease.lease_until

-- `readConsumerLease`: the row and whether it is active.
unfoldable pub read_consumer_lease :
    LeaseTable → ℕ → String → String → Result LeaseError (ConsumerLease × Bool)
unfolding is_active
read_consumer_lease t now workspace_id consumer_id =
    elim (t (trim workspace_id) (trim consumer_id)) [
      | none ↦ err lease_missing
      | some lease ↦ if lease.fence == 0 then err invalid_fence else ok (lease, is_active lease now)
    ]

-- INSERT ... ON CONFLICT DO NOTHING: the table, and whether a row was inserted.
unfoldable pub insert_lease : LeaseTable → ℕ → String → String → String → ℕ → LeaseTable × Bool
unfolding lease_end
insert_lease t now workspace_id consumer_id owner_id ttl = elim (t workspace_id consumer_id) [
  | some _ ↦ (t, false)
  | none ↦ (
    write t workspace_id consumer_id (record {
      workspace_id = workspace_id;
      consumer_id = consumer_id;
      owner_id = owner_id;
      fence = 1;
      lease_until = lease_end now ttl;
      acquired_at = now;
      renewed_at = now;
      released_at = none;
    }),
    true,
  )
]

-- The row of the `UPDATE` that takes a lease over.
unfoldable pub taken_over : ℕ → String → ℕ → ConsumerLease → ConsumerLease
unfolding lease_end
taken_over now owner_id ttl lease = record lease {
  owner_id = owner_id;
  fence = lease.fence + 1;
  lease_until = lease_end now ttl;
  acquired_at = now;
  renewed_at = now;
  released_at = none;
}

-- The part of `AcquireConsumerLeaseTx` after the first read, for a row that is not active.
unfoldable pub take_over :
    LeaseTable
    → Clock
    → String
    → String
    → String
    → ℕ
    → Bool
    → ConsumerLease
    → Result LeaseError (ConsumerLeaseResult × LeaseTable)
unfolding taken_over
take_over t clock workspace_id consumer_id owner_id ttl inserted current = do
  guard (ltb current.fence max_consumer_fence) fence_exhausted
  let t' =
      (update_where t workspace_id consumer_id (λ row. row.fence == current.fence)
        (taken_over (clock 2) owner_id ttl)).0
  (updated, active) ← read_consumer_lease t' (clock 3) workspace_id consumer_id
  guard (active && str_eq updated.owner_id owner_id && ltb current.fence updated.fence)
      takeover_failed
  ok (record { lease = updated; acquired = true; takeover = not inserted; reused = false }, t')

-- The part after the first read of the row.
unfoldable pub acquire_current :
    LeaseTable
    → Clock
    → String
    → String
    → String
    → ℕ
    → Bool
    → ConsumerLease × Bool
    → Result LeaseError (ConsumerLeaseResult × LeaseTable)
acquire_current t clock workspace_id consumer_id owner_id ttl inserted (current, active) =
    if active
    then if str_eq current.owner_id owner_id
      then ok (
        record { lease = current; acquired = inserted; takeover = false; reused = not inserted },
        t,
      )
      else err lease_held
    else take_over t clock workspace_id consumer_id owner_id ttl inserted current

-- The part after the identity checks.
unfoldable pub acquire_trimmed :
    LeaseTable
    → Clock
    → String
    → String
    → String
    → ℕ
    → Result LeaseError (ConsumerLeaseResult × LeaseTable)
unfolding insert_lease acquire_current
acquire_trimmed t clock workspace_id consumer_id owner_id ttl = do
  let (t', inserted) = insert_lease t (clock 0) workspace_id consumer_id owner_id ttl
  current ← read_consumer_lease t' (clock 1) workspace_id consumer_id
  acquire_current t' clock workspace_id consumer_id owner_id ttl inserted current

-- `AcquireConsumerLeaseTx`; with the commit or the rollback around it, `AcquireConsumerLease`.
unfoldable pub acquire_consumer_lease :
    LeaseTable
    → Clock
    → String
    → String
    → String
    → ℤ
    → Result LeaseError (ConsumerLeaseResult × LeaseTable)
acquire_consumer_lease t clock workspace_id consumer_id owner_id ttl = do
  validate_consumer_lease_identity workspace_id consumer_id owner_id
  acquire_trimmed t clock (trim workspace_id) (trim consumer_id) (trim owner_id)
      (bounded_consumer_lease_ttl ttl)

-- `ValidateConsumerLeaseTx`, at the reading `now`.
unfoldable pub validate_consumer_lease :
    LeaseTable → ℕ → ConsumerLease → Result LeaseError ConsumerLease
validate_consumer_lease t now lease = do
  validate_consumer_lease_identity lease.workspace_id lease.consumer_id lease.owner_id
  guard (not (lease.fence == 0 || ltb max_consumer_fence lease.fence)) lease_fenced
  (current, active) ← read_consumer_lease t now lease.workspace_id lease.consumer_id
  guard (current.fence == lease.fence) lease_fenced
  guard (str_eq current.owner_id (trim lease.owner_id)) lease_owned
  guard (is_none current.released_at) lease_released
  guard active lease_expired
  ok current

-- owner_id = ... AND fence = ...: the rows that a renewal or a release touches.
unfoldable pub holds : ConsumerLease → ConsumerLease → Bool
holds lease row = str_eq row.owner_id (trim lease.owner_id) && row.fence == lease.fence

unfoldable pub renewed : ℕ → ℕ → ConsumerLease → ConsumerLease
renewed now ttl lease = record lease { lease_until = lease_end now ttl; renewed_at = now }

-- The end of a renewal: the row is read back, and must be active.
unfoldable pub read_renewed :
    LeaseTable → ℕ → ConsumerLease → Result LeaseError (ConsumerLease × LeaseTable)
read_renewed t now lease = do
  (updated, active) ← read_consumer_lease t now lease.workspace_id lease.consumer_id
  guard active lease_expired
  ok (updated, t)

-- `RenewConsumerLeaseTx`.
unfoldable pub renew_consumer_lease :
    LeaseTable → Clock → ConsumerLease → ℤ → Result LeaseError (ConsumerLease × LeaseTable)
renew_consumer_lease t clock lease ttl = do
  _ ← validate_consumer_lease t (clock 0) lease
  let t' =
      (update_where t (trim lease.workspace_id) (trim lease.consumer_id) (holds lease)
        (renewed (clock 1) (bounded_consumer_lease_ttl ttl))).0
  read_renewed t' (clock 2) lease

unfoldable pub released : ℕ → ConsumerLease → ConsumerLease
released now lease = record lease { lease_until = now; released_at = some now; renewed_at = now }

-- `ReleaseConsumerLeaseTx`.
unfoldable pub release_consumer_lease :
    LeaseTable → Clock → ConsumerLease → Result LeaseError LeaseTable
release_consumer_lease t clock lease = do
  _ ← validate_consumer_lease t (clock 0) lease
  ok (
      (update_where t (trim lease.workspace_id) (trim lease.consumer_id) (holds lease)
        (released (clock 1))).0)
