-- ===== src/Tasks/Refinement.antt =====
-- Every operation of the task store, seen at the key of a task, is moves of the machine.
pub mod Outcomes
pub mod Effect
pub mod Calls
pub mod Claims
pub mod Creation
pub mod History
use fornix.Base.{
  some-injective, ℕ, ◌≡◌, refl, sym, ap, ◌∙◌, subst, inl, inr, String, str_eq, eq_iff, Option-cases,
  [], ◌∷◌, Bool, ◌&&◌, Option, none, some, ◌==◌, ==_iff, Bool-cases, and-eq-true, List, ◌++◌,
}
use fornix.Tasks.Types.{Task}
use fornix.Tasks.Machine.{view, Moves, IsStart, stay, Moves-trans, then_move, Move}
use fornix.Tasks.Rows.{find_task, update_task}
use fornix.Tasks.Rows.Keys.{
  KeepsKey, find-update_same, find-update_other, find-update_none, find_task-append,
  find_task-added,
}

-- Every task of `xs` is in `ys`, and got there by moves; and every other task of `ys` was new, and
-- got there by moves.
pub record Refines (xs ys : List Task) : Type 0 where
  pub forward :
      (w : String) (i : ℕ) (t : Task)
      → find_task xs w i ≡ some t
      → (u : Task) × (find_task ys w i ≡ some u) × Moves (view t) (view u)
  pub fresh :
      (w : String) (i : ℕ) (u : Task)
      → find_task xs w i ≡ none
      → find_task ys w i ≡ some u
      → (t : Task) × IsStart (view t) × Moves (view t) (view u)

pub Refines-refl : (xs : List Task) → Refines xs xs
Refines-refl xs = record {
  forward = λ w i t h. (t, h, stay);
  fresh = λ w i u h k. absurd (cc (sym h ∙ k));
}

pub Refines-trans : (xs ys zs : List Task) → Refines xs ys → Refines ys zs → Refines xs zs
Refines-trans xs ys zs f g = record {
  forward = λ w i t h.
      let (u, k, m) = f.forward w i t h in
      let (v, l, n) = g.forward w i u k in (v, l, Moves-trans m n);
  fresh = λ w i u h k. elim (Option-cases (find_task ys w i)) [
    | inl n ↦ g.fresh w i u n k
    | inr (v, e) ↦
        let (t, start, m) = f.fresh w i v h e in
        let (u', l, n) = g.forward w i v e in
        (
          t,
          start,
          subst (λ x. Moves (view t) (view x)) (some-injective (sym l ∙ k)) (Moves-trans m n),
        )
  ];
}

-- A new row.
pub Refines-append :
    (xs : List Task) (row : Task) → IsStart (view row) → Refines xs (xs ++ row ∷ [])
Refines-append xs row start = record {
  forward = λ w i t h. (t, find_task-append xs (row ∷ []) w i t h, stay);
  fresh = λ w i u h k. (
    row,
    start,
    subst (λ x. Moves (view row) (view x)) (sym (find_task-added xs row w i u h k)) stay,
  );
}

-- An update whose row is a move refines.
pub Refines-update :
    (xs : List Task) (w : String) (i : ℕ) (f : Task → Task) (t : Task)
    → KeepsKey f
    → find_task xs w i ≡ some t
    → Move (view t) (view (f t))
    → Refines xs (update_task xs w i f)
Refines-update xs w i f t keeps found move = record {
  forward = λ a b u h. elim (Bool-cases (str_eq w a && i == b)) [
    | inl p ↦
        let (p1, p2) = and-eq-true (str_eq w a) (i == b) p in
        let same : u ≡ t = cc (h, found, (eq_iff w a).0 p1, (==_iff i b).0 p2) in
        (
          f t,
          rw (sym ((eq_iff w a).0 p1), sym ((==_iff i b).0 p2))
              (find-update_same xs w i f t keeps found),
          rw same (then_move stay move),
        )
    | inr p ↦ (u, find-update_other xs w a i b f keeps p ∙ h, stay)
  ];
  fresh = λ a b u h k. absurd (cc (sym (find-update_none xs w a i b f keeps h) ∙ k));
}
