-- ===== src/Lease/Tests.antt =====
-- Runs of the lease operations on one consumer, and the theorems at concrete inputs.
use fornix.Base.{
  ℕ, ◌+◌, ◌<◌, ◌≡◌, refl, true, false, none, arith, ok, err, pos, negsuc, [], ◌∷◌, write, trim,
  update_where,
}
use fornix.Lease.{
  LeaseTable, Clock, ConsumerLease, acquire_consumer_lease, release_consumer_lease,
  renew_consumer_lease, validate_consumer_lease, bounded_consumer_lease_ttl, lease_held, lease_end,
  acquire_trimmed, take_over, read_consumer_lease, validate_consumer_lease_identity, read_renewed,
  holds, renewed, released,
}
use fornix.Lease.Branches.{acquire_table, acquire-table}
use fornix.Lease.Holder.{renew-effect}
use fornix.Lease.Reads.{IsCurrent}
use fornix.Lease.History.{
  acquires, renews, releases, run, step, IsRefused, superseded_forever, released_forever,
  step_isolated,
}

abbrev empty_table : LeaseTable
empty_table w c = none

-- Statement k of a transaction that starts at `start` runs k microseconds later.
abbrev ticking : ℕ → Clock
ticking start k = start + k

abbrev first : ConsumerLease
first = record {
  workspace_id = "acme";
  consumer_id = "tasks";
  owner_id = "a";
  fence = 1;
  lease_until = 30_000_000;
  acquired_at = 0;
  renewed_at = 0;
  released_at = none;
}

abbrev held_table : LeaseTable
held_table = write empty_table "acme" "tasks" first

-- A blank-padded identity is trimmed, and the default time to live is 30 seconds.
first_acquire :
    acquire_consumer_lease empty_table (ticking 0) " acme" "tasks " "a" (pos 0)
    ≡ ok (record { lease = first; acquired = true; takeover = false; reused = false }, held_table)
unfolding acquire_consumer_lease acquire_trimmed validate_consumer_lease_identity trim
    read_consumer_lease write bounded_consumer_lease_ttl
first_acquire = refl

abbrev second : ConsumerLease
second = record first {
  owner_id = "b";
  fence = 2;
  lease_until = 32_000_002;
  acquired_at = 31_000_002;
  renewed_at = 31_000_002;
}

abbrev second_table : LeaseTable
second_table = write held_table "acme" "tasks" second

-- After 31 seconds another owner takes the lease over, for a second, under fence 2.
second_acquire :
    acquire_consumer_lease held_table (ticking 31_000_000) "acme" "tasks" "b" (pos 1_000_000_000)
    ≡ ok (record { lease = second; acquired = true; takeover = true; reused = false }, second_table)
unfolding acquire_consumer_lease acquire_trimmed validate_consumer_lease_identity trim
    read_consumer_lease write bounded_consumer_lease_ttl take_over update_where
second_acquire = refl

acquire-table_example :
    acquire_consumer_lease held_table (ticking 5) "acme" "tasks" "b" (negsuc 0)
    ≡ acquire_table held_table
        (ticking 5)
        (trim "acme")
        (trim "tasks")
        (trim "b")
        (bounded_consumer_lease_ttl (negsuc 0))
unfolding write trim bounded_consumer_lease_ttl lease_end
acquire-table_example =
    acquire-table held_table (ticking 5) "acme" "tasks" "b" (negsuc 0) refl refl refl (omega arith)
      (omega arith) (λ l e. ground arith)

-- Which is a refusal: the first owner still holds the lease.
acquire_while_held :
    acquire_consumer_lease held_table (ticking 5) "acme" "tasks" "b" (negsuc 0) ≡ err lease_held
unfolding acquire_consumer_lease acquire_trimmed validate_consumer_lease_identity trim
    read_consumer_lease write
acquire_while_held = refl

superseded_forever_example :
    IsRefused
      (run second_table (
        (ticking 32_500_000, renews first (pos 0))
        ∷ (ticking 33_000_000, acquires "acme" "tasks" "a" (pos 0))
        ∷ []))
      first
unfolding write trim
superseded_forever_example =
    superseded_forever held_table second_table (ticking 31_000_000) "acme" "tasks" "b"
      (pos 1_000_000_000)
      (record { lease = second; acquired = true; takeover = true; reused = false }) first
      ((ticking 32_500_000, renews first (pos 0))
        ∷ (ticking 33_000_000, acquires "acme" "tasks" "a" (pos 0))
        ∷ [])
      second_acquire refl refl refl (omega arith)

abbrev released_table : LeaseTable
released_table = write held_table "acme" "tasks" (released 7 first)

first_release : release_consumer_lease held_table (ticking 6) first ≡ ok released_table
unfolding release_consumer_lease validate_consumer_lease validate_consumer_lease_identity trim
    read_consumer_lease write update_where holds released
first_release = refl

released_forever_example :
    IsRefused (run released_table ((ticking 9, acquires "acme" "tasks" "a" (pos 0)) ∷ [])) first
released_forever_example =
    released_forever held_table released_table (ticking 6) first
      ((ticking 9, acquires "acme" "tasks" "a" (pos 0)) ∷ []) first_release

step_isolated_example :
    step held_table (ticking 6, releases first) "other" "tasks" ≡ held_table "other" "tasks"
unfolding trim
step_isolated_example = step_isolated held_table (ticking 6) (releases first) "other" "tasks" refl

abbrev renewed_first : ConsumerLease
renewed_first = record first { lease_until = 2_000_021; renewed_at = 21 }

abbrev renewed_table : LeaseTable
renewed_table = write held_table "acme" "tasks" renewed_first

first_renewal :
    renew_consumer_lease held_table (ticking 20) first (pos 2_000_000_000)
    ≡ ok (renewed_first, renewed_table)
unfolding renew_consumer_lease validate_consumer_lease validate_consumer_lease_identity trim
    read_consumer_lease write update_where holds renewed bounded_consumer_lease_ttl lease_end
    read_renewed
first_renewal = refl

renew-effect_example :
    (row : ConsumerLease) × IsCurrent held_table 20 first row
    × (renewed_table ≡ write held_table (trim "acme") (trim "tasks") renewed_first)
    × (renewed_first ≡ renewed 21 (bounded_consumer_lease_ttl (pos 2_000_000_000)) row)
    × (22 < renewed_first.lease_until)
renew-effect_example =
    renew-effect held_table (ticking 20) first (pos 2_000_000_000) renewed_first renewed_table
      first_renewal
