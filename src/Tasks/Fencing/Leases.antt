-- ===== src/Tasks/Fencing/Leases.antt =====
-- The lease rows that a claim writes and that a dead letter closes, and their fences.
use fornix.Base.{
  ℕ, ◌<◌, ◌≡◌, refl, sym, ap, ◌∙◌, subst, inl, inr, String, str_eq, eq_iff, eq_refl, Bool, true,
  false, not, ◌&&◌, Option, none, some, Option-cases, ltb, ◌==◌, ==_iff, Bool-cases, and-eq-true,
  ok, guard-eq-ok, ok-injective, err-not-ok, arith,
}
use fornix.Tasks.Types.{TaskExecutionLease, Database, lease_held, fence_exhausted}
use fornix.Tasks.Rules.{max_task_fence}
use fornix.Tasks.Rows.{LeaseRows, write_lease, update_lease, read_task_lease}
use fornix.Tasks.Rows.Authority.{read_task_lease-row}
use fornix.Tasks.Claim.{next_fence, claimed_leases, fence_before, taken_lease, first_lease}
use fornix.Tasks.Fencing.{fence_in}

write_lease_self :
    (rows : LeaseRows) (w : String) (i : ℕ) (l : TaskExecutionLease)
    → write_lease rows w i l w i ≡ some l
write_lease_self rows w i l =
    let p : (str_eq w w && i == i) ≡ true = rw (eq_refl w) (ground arith) in rw p refl

update_lease-none :
    (rows : LeaseRows) (w : String) (i : ℕ) (test : TaskExecutionLease → Bool)
    (f : TaskExecutionLease → TaskExecutionLease)
    → rows w i ≡ none
    → update_lease rows w i test f ≡ rows
update_lease-none rows w i test f k = rw (k, update_lease) refl

update_lease-miss :
    (rows : LeaseRows) (w : String) (i : ℕ) (test : TaskExecutionLease → Bool)
    (f : TaskExecutionLease → TaskExecutionLease) (l : TaskExecutionLease)
    → rows w i ≡ some l
    → test l ≡ false
    → update_lease rows w i test f ≡ rows
update_lease-miss rows w i test f l k p = rw (k, update_lease) (rw p refl)

update_lease-hit :
    (rows : LeaseRows) (w : String) (i : ℕ) (test : TaskExecutionLease → Bool)
    (f : TaskExecutionLease → TaskExecutionLease) (l : TaskExecutionLease)
    → rows w i ≡ some l
    → test l ≡ true
    → update_lease rows w i test f ≡ write_lease rows w i (f l)
update_lease-hit rows w i test f l k p = rw (k, update_lease) (rw p refl)

fence-write :
    (rows : LeaseRows) (w : String) (i : ℕ) (l l' : TaskExecutionLease) (a : String) (b : ℕ)
    → rows w i ≡ some l
    → l'.fence ≡ l.fence
    → fence_in (write_lease rows w i l' a b) ≡ fence_in (rows a b)
fence-write rows w i l l' a b k same = elim (Bool-cases (str_eq w a && i == b)) [
  | inr q ↦ rw (q, write_lease) refl
  | inl q ↦
      let (q1, q2) = and-eq-true (str_eq w a) (i == b) q in
      let here : rows a b ≡ some l =
        subst (λ x. rows x b ≡ some l) ((eq_iff w a).0 q1)
          (subst (λ y. rows w y ≡ some l) ((==_iff i b).0 q2) k) in
      rw (q, write_lease) (same ∙ ap fence_in (sym here))
]

-- An update that leaves the fence of its row leaves all fences.
pub fence-update :
    (rows : LeaseRows) (w : String) (i : ℕ) (test : TaskExecutionLease → Bool)
    (f : TaskExecutionLease → TaskExecutionLease)
    → ((l : TaskExecutionLease) → (f l).fence ≡ l.fence)
    → (a : String) (b : ℕ) → fence_in (update_lease rows w i test f a b) ≡ fence_in (rows a b)
fence-update rows w i test f keeps a b = elim (Option-cases (rows w i)) [
  | inl k ↦ ap (λ r. fence_in (r a b)) (update_lease-none rows w i test f k)
  | inr (l, k) ↦ elim (Bool-cases (test l)) [
    | inr p ↦ ap (λ r. fence_in (r a b)) (update_lease-miss rows w i test f l k p)
    | inl p ↦
        ap (λ r. fence_in (r a b)) (update_lease-hit rows w i test f l k p)
        ∙ fence-write rows w i l (f l) a b k (keeps l)
  ]
]

read-some-not-none :
    {Raw Evidence : Type 0} {A : Type 0} (db : Database Raw Evidence) (now : ℕ) (w : String) (i : ℕ)
    (l : TaskExecutionLease)
    → db.leases w i ≡ some l
    → read_task_lease db now w i ≡ ok none
    → A
unfolding read_task_lease
read-some-not-none db now w i l n h = elim (Bool-cases (l.fence == 0)) [
  | inl p ↦ err-not-ok (rw (n, p, read_task_lease) at h)
  | inr p ↦ absurd (cc (ok-injective (rw (n, p, read_task_lease) at h)))
]

-- The lease that a claim writes, above the row that it read.
pub claimed_leases-row :
    {Raw Evidence : Type 0} (db : Database Raw Evidence) (now : ℕ) (w session_id : String)
    (i fence : ℕ) (takeover : Bool) (until at start : ℕ)
    (found : Option (TaskExecutionLease × Bool))
    → read_task_lease db now w i ≡ ok found
    → next_fence found ≡ ok (fence, takeover)
    → (l : TaskExecutionLease) × (claimed_leases db.leases w i session_id fence takeover until at
          start w i
        ≡ some l)
      × (l.fence ≡ fence)
      × (l.owner_id ≡ session_id)
      × (fence_in (db.leases w i) < l.fence)
unfolding next_fence read_task_lease
claimed_leases-row db now w session_id i fence takeover until at start none h k =
    let shape = ok-injective k in
    let none' : db.leases w i ≡ none = elim (Option-cases (db.leases w i)) [
      | inl n ↦ n
      | inr (l, n) ↦ absurd (read-some-not-none db now w i l n h)
    ] in
    let first = first_lease w i session_id until start in
    let e : claimed_leases db.leases w i session_id fence takeover until at start
        ≡ write_lease db.leases w i first =
      rw (sym (ap (λ x. x.1) shape)) refl in
    (
      first,
      ap (λ r. r w i) e ∙ write_lease_self db.leases w i first,
      ap (λ x. x.0) shape,
      refl,
      rw none' (omega arith),
    )
claimed_leases-row db now w session_id i fence takeover until at start (some (l, active)) h k =
    let (_, k1) = guard-eq-ok (not active) lease_held _ k in
    let (_, k2) = guard-eq-ok (ltb l.fence max_task_fence) fence_exhausted _ k1 in
    let shape = ok-injective k2 in
    let (here, _) = read_task_lease-row db now w i l active h in
    let taken = taken_lease session_id fence until at l in
    let next : fence_before fence l ≡ true = ground (arith, ap (λ x. x.0) shape) in
    let e : claimed_leases db.leases w i session_id fence takeover until at start
        ≡ write_lease db.leases w i taken =
      rw (sym (ap (λ x. x.1) shape)) (
        update_lease-hit db.leases w i (fence_before fence) (taken_lease session_id fence until at)
          l here next) in
    (
      taken,
      ap (λ r. r w i) e ∙ write_lease_self db.leases w i taken,
      refl,
      refl,
      rw here (omega (arith, ap (λ x. x.0) shape)),
    )
