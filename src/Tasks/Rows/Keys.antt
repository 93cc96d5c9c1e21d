-- ===== src/Tasks/Rows/Keys.antt =====
-- The rows of tasks by their primary key: what an update and an insertion leave at a key.
use fornix.Base.{
  ℕ, ◌≡◌, refl, sym, ap, ◌∙◌, inl, inr, String, str_eq, eq_iff, eq_refl, true, false, ◌&&◌, none,
  some, ◌==◌, ==_iff, if◌then◌else◌, Bool-cases, List, [], ◌∷◌, ◌++◌, All, and-eq-true, arith,
  All-append, All-imp, subst,
}
use fornix.Tasks.Types.{Task}
use fornix.Tasks.Rows.{is_task, find_task, update_task}

-- The update of a row leaves its key.
abbrev pub KeepsKey : (Task → Task) → Type 0
KeepsKey f = (t : Task) → ((f t).workspace_id ≡ t.workspace_id) × ((f t).id ≡ t.id)

keeps-is_task :
    (f : Task → Task)
    → KeepsKey f
    → (w : String) (i : ℕ) (t : Task) → is_task w i (f t) ≡ is_task w i t
keeps-is_task f keeps w i t = rw ((keeps t).0, (keeps t).1) refl

pub find_task-is_task :
    (xs : List Task) (w : String) (i : ℕ) (t : Task)
    → find_task xs w i ≡ some t
    → (t.workspace_id ≡ w) × (t.id ≡ i)
unfolding find_task
find_task-is_task [] w i t h = cc
find_task-is_task (x ∷ xs) w i t h = elim (Bool-cases (is_task w i x)) [
  | inl p ↦ ground (arith, eq_iff x.workspace_id w)
  | inr p ↦ find_task-is_task xs w i t (rw p at h)
]

pub find-update_same :
    (xs : List Task) (w : String) (i : ℕ) (f : Task → Task) (t : Task)
    → KeepsKey f
    → find_task xs w i ≡ some t
    → find_task (update_task xs w i f) w i ≡ some (f t)
unfolding find_task update_task
find-update_same [] w i f t keeps h = cc
find-update_same (x ∷ xs) w i f t keeps h = elim (Bool-cases (is_task w i x)) [
  | inl p ↦
      let same : x ≡ t = cc (rw p at h) in
      rw (p, keeps-is_task f keeps w i x, p) (ap (λ z. some (f z)) same)
  | inr p ↦ rw (p, p) (find-update_same xs w i f t keeps (rw p at h))
]

pub find-update_other :
    (xs : List Task) (w a : String) (i b : ℕ) (f : Task → Task)
    → KeepsKey f
    → (str_eq w a && i == b) ≡ false
    → find_task (update_task xs w i f) a b ≡ find_task xs a b
unfolding find_task update_task
find-update_other [] w a i b f keeps h = refl
find-update_other (x ∷ xs) w a i b f keeps h = elim (Bool-cases (is_task w i x)) [
  | inl p ↦
      let q : is_task a b x ≡ false =
        ground (arith, h, p, eq_iff x.workspace_id w, eq_iff w a, eq_iff x.workspace_id a) in
      rw (p, keeps-is_task f keeps a b x, q) (find-update_other xs w a i b f keeps h)
  | inr p ↦
      rw p (ap (λ r. if is_task a b x then some x else r) (find-update_other xs w a i b f keeps h))
]

pub find-update_none :
    (xs : List Task) (w a : String) (i b : ℕ) (f : Task → Task)
    → KeepsKey f
    → find_task xs a b ≡ none
    → find_task (update_task xs w i f) a b ≡ none
unfolding find_task update_task
find-update_none [] w a i b f keeps h = refl
find-update_none (x ∷ xs) w a i b f keeps h = elim (Bool-cases (is_task a b x)) [
  | inl p ↦ absurd (cc (rw p at h))
  | inr p ↦
      let rest = find-update_none xs w a i b f keeps (rw p at h) in
      elim (Bool-cases (is_task w i x)) [
        | inl q ↦ rw (q, keeps-is_task f keeps a b x, p) rest
        | inr q ↦ rw (q, p) rest
      ]
]

pub find_task-append :
    (xs ys : List Task) (w : String) (i : ℕ) (t : Task)
    → find_task xs w i ≡ some t
    → find_task (xs ++ ys) w i ≡ some t
unfolding find_task
find_task-append [] ys w i t h = cc
find_task-append (x ∷ xs) ys w i t h = elim (Bool-cases (is_task w i x)) [
  | inl p ↦ rw p (rw p at h)
  | inr p ↦ rw p (find_task-append xs ys w i t (rw p at h))
]

-- The primary key: a row is the first with its key.
abbrev pub IsKeyed : List Task → Type 0
IsKeyed xs = All (λ (t : Task). find_task xs t.workspace_id t.id ≡ some t) xs

All-update :
    (P Q : Task → Type 0) (xs : List Task) (w : String) (i : ℕ) (f : Task → Task)
    → ((x : Task) → is_task w i x ≡ true → P x → Q (f x))
    → ((x : Task) → is_task w i x ≡ false → P x → Q x)
    → All P xs
    → All Q (update_task xs w i f)
unfolding update_task
All-update P Q [] w i f here there a = tt
All-update P Q (x ∷ xs) w i f here there a = elim (Bool-cases (is_task w i x)) [
  | inl p ↦ rw p (here x p a.0, All-update P Q xs w i f here there a.1)
  | inr p ↦ rw p (there x p a.0, All-update P Q xs w i f here there a.1)
]

-- An update that leaves the key keeps the key unique.
pub IsKeyed-update :
    (xs : List Task) (w : String) (i : ℕ) (f : Task → Task)
    → KeepsKey f
    → IsKeyed xs
    → IsKeyed (update_task xs w i f)
IsKeyed-update xs w i f keeps keyed =
    let ys = update_task xs w i f in
    All-update (λ t. find_task xs t.workspace_id t.id ≡ some t)
      (λ t. find_task ys t.workspace_id t.id ≡ some t) xs w i f
      (λ x p h.
        let (p1, p2) = and-eq-true (str_eq x.workspace_id w) (x.id == i) p in
        let w' = (eq_iff x.workspace_id w).0 p1 in
        let i' = (==_iff x.id i).0 p2 in
        let found : find_task xs w i ≡ some x =
          subst (λ a. find_task xs a i ≡ some x) w'
            (subst (λ b. find_task xs x.workspace_id b ≡ some x) i' h) in
        subst (λ a. find_task ys a (f x).id ≡ some (f x)) (sym w' ∙ sym (keeps x).0)
          (subst (λ b. find_task ys w b ≡ some (f x)) (sym i' ∙ sym (keeps x).1)
            (find-update_same xs w i f x keeps found)))
      (λ x p h.
        find-update_other xs w x.workspace_id i x.id f keeps
          (ground (arith, p, eq_iff x.workspace_id w, eq_iff w x.workspace_id))
        ∙ h)
      keyed

find_task-new :
    (xs : List Task) (row : Task)
    → find_task xs row.workspace_id row.id ≡ none
    → find_task (xs ++ row ∷ []) row.workspace_id row.id ≡ some row
unfolding find_task
find_task-new [] row h =
    let p : is_task row.workspace_id row.id row ≡ true =
      rw (eq_refl row.workspace_id) (ground arith) in
    rw p refl
find_task-new (x ∷ xs) row h = elim (Bool-cases (is_task row.workspace_id row.id x)) [
  | inl p ↦ absurd (cc (rw p at h))
  | inr p ↦ rw p (find_task-new xs row (rw p at h))
]

-- What an insertion of a row adds.
pub find_task-added :
    (xs : List Task) (row : Task) (w : String) (i : ℕ) (u : Task)
    → find_task xs w i ≡ none
    → find_task (xs ++ row ∷ []) w i ≡ some u
    → u ≡ row
unfolding find_task
find_task-added [] row w i u h k = elim (Bool-cases (is_task w i row)) [
  | inl p ↦ cc (rw p at k)
  | inr p ↦ absurd (cc (rw p at k))
]
find_task-added (x ∷ xs) row w i u h k = elim (Bool-cases (is_task w i x)) [
  | inl p ↦ absurd (cc (rw p at h))
  | inr p ↦ find_task-added xs row w i u (rw p at h) (rw p at k)
]

pub IsKeyed-append :
    (xs : List Task) (row : Task)
    → find_task xs row.workspace_id row.id ≡ none
    → IsKeyed xs
    → IsKeyed (xs ++ row ∷ [])
IsKeyed-append xs row fresh keyed =
    let P : Task → Type 0 = λ t. find_task (xs ++ row ∷ []) t.workspace_id t.id ≡ some t in
    All-append P xs (row ∷ [])
      (All-imp (λ t. find_task xs t.workspace_id t.id ≡ some t) P
        (λ t h. find_task-append xs (row ∷ []) t.workspace_id t.id t h) xs keyed)
      (find_task-new xs row fresh, tt)
