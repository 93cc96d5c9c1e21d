-- ===== src/Tasks/Refinement/Claims.antt =====
-- `ClaimNext`, `Create` and `Renew` as moves.
use fornix.Base.{
  ℕ, zero, suc, ◌≡◌, refl, sym, ap, ◌∙◌, subst, inl, inr, String, str_eq, eq_iff, trim, is_empty,
  Bool, true, not, ◌&&◌, ◌||◌, Option, some, Option-cases, leb, Bool-cases, and-eq-true, List, [],
  ◌∷◌, All, ok, >>=-eq-ok, guard-eq-ok, ok-injective, err-not-ok, arith,
}
use fornix.Tasks.Types.{
  Task, Database, TaskClaimResult, TaskClaimInput, session_required, session_busy,
}
use fornix.Tasks.Rules.{normalize_workspace}
use fornix.Tasks.Machine.{view, Move, claim, exhaust, is_open}
use fornix.Tasks.Rows.{find_task, update_task, LeaseRows, read_task, read_task_lease, active_lease}
use fornix.Tasks.Rows.Keys.{KeepsKey, IsKeyed, IsKeyed-update}
use fornix.Tasks.Events.{TaskCalls, append_event, new_task_event}
use fornix.Tasks.Claim.{
  Round, earliest, is_due, is_claimable, is_earlier, select_claimable_task, transition_dead_letter,
  claim_task, claim_rounds, claim_next, dead_row, claimed_row, next_fence, is_busy,
}
use fornix.Tasks.Refinement.{Refines, Refines-refl, Refines-trans, Refines-update}
use fornix.Tasks.Refinement.Outcomes.{append_event-IsAppended}

-- What the selection returns passes the test, and is a row.
earliest-test :
    (P : Task → Type 0) (test : Task → Bool) (xs : List Task) (t : Task)
    → All P xs
    → earliest test xs ≡ some t
    → (test t ≡ true) × P t
unfolding earliest
earliest-test P test [] t a h = absurd (cc h)
earliest-test P test (x ∷ xs) t a h = elim (Bool-cases (test x)) [
  | inr p ↦ earliest-test P test xs t a.1 (rw p at h)
  | inl p ↦ elim (Option-cases (earliest test xs)) [
    | inl k ↦ let same : x ≡ t = cc (rw (p, k) at h) in (rw (sym same) p, subst P same a.0)
    | inr (u, k) ↦ elim (Bool-cases (is_earlier u x)) [
      | inl q ↦ earliest-test P test xs t a.1 (k ∙ (rw (p, k, q) at h))
      | inr q ↦ let same : x ≡ t = cc (rw (p, k, q) at h) in (rw (sym same) p, subst P same a.0)
    ]
  ]
]

-- Moves, with the primary key kept.
abbrev pub Advances : List Task → List Task → Type 0
Advances xs ys = Refines xs ys × IsKeyed ys

Advances-update :
    (xs ys : List Task) (w : String) (i : ℕ) (f : Task → Task) (t : Task)
    → KeepsKey f
    → IsKeyed xs
    → find_task xs w i ≡ some t
    → Move (view t) (view (f t))
    → ys ≡ update_task xs w i f
    → Advances xs ys
Advances-update xs ys w i f t keeps keyed found move e =
    rw e (Refines-update xs w i f t keeps found move, IsKeyed-update xs w i f keeps keyed)

first_two : (a b c d e f : Bool) → (a && b && c && d && e && f) ≡ true → (a ≡ true) × (b ≡ true)
first_two a b c d e f h = ground arith

due-is_open :
    (leases : LeaseRows) (now : ℕ) (t : Task) → is_due leases now t ≡ true → is_open t.status ≡ true
due-is_open leases now t h = elim (Bool-cases (str_eq t.status "pending")) [
  | inl p ↦ rw p refl
  | inr p ↦
      rw p
        (and-eq-true (str_eq t.status "claimed" || str_eq t.status "in_progress") _ (rw p at h)).0
]

module _ {Raw Evidence : Type 0} where
  -- A selected task is open, of the workspace, and the row at its key.
  pub select-open :
      (db : Database Raw Evidence) (now : ℕ) (w : String) (capabilities : List String) (i : ℕ)
      (is_locked : Task → Bool) (t : Task)
      → IsKeyed db.tasks
      → select_claimable_task db now w capabilities i is_locked ≡ some t
      → (is_open t.status ≡ true) × (t.workspace_id ≡ w) × (find_task db.tasks w t.id ≡ some t)
  unfolding select_claimable_task is_claimable
  select-open db now w capabilities i is_locked t keyed h =
      let (test, row) =
        earliest-test (λ u. find_task db.tasks u.workspace_id u.id ≡ some u)
          (is_claimable db now w capabilities i is_locked) db.tasks t keyed h in
      let (p, due) = first_two (str_eq t.workspace_id w) (is_due db.leases now t) _ _ _ _ test in
      let here = (eq_iff t.workspace_id w).0 p in
      (
        due-is_open db.leases now t due,
        here,
        subst (λ x. find_task db.tasks x t.id ≡ some t) here row,
      )

module _ {Raw Evidence : Type 0} (calls : TaskCalls Raw Evidence) where
  -- The dead letter of an open task without attempts left.
  transition-tasks :
      (round : Round) (db db' : Database Raw Evidence) (t : Task) (reason : String)
      → transition_dead_letter calls round db t reason ≡ ok db'
      → db'.tasks ≡ update_task db.tasks t.workspace_id t.id (dead_row reason (round.clock 1))
  unfolding transition_dead_letter
  transition-tasks round db db' t reason h =
      let (event, _, h1) = >>=-eq-ok (new_task_event calls round.env _ _ _ _ _ _ _) _ h in
      let ((stored, db2), a, h2) = >>=-eq-ok (append_event calls round.env _ event) _ h1 in
      let app = append_event-IsAppended calls round.env (round.clock) event _ db2 stored a in
      ap (λ d. d.tasks) (sym (ok-injective h2)) ∙ ap (λ d. d.tasks) app.others

  claim_task-tasks :
      (round : Round) (start : ℕ) (db db' : Database Raw Evidence) (w session_id : String) (ttl : ℕ)
      (actor_id : String) (t : Task) (r : TaskClaimResult Raw)
      → claim_task calls round start db w session_id ttl actor_id t ≡ ok (r, db')
      → (fence : ℕ) × (db'.tasks
          ≡ update_task db.tasks w t.id (claimed_row session_id fence (round.clock 4)))
  unfolding claim_task
  claim_task-tasks round start db db' w session_id ttl actor_id t r h =
      let (found, _, h1) = >>=-eq-ok (read_task_lease db (round.clock 1) w t.id) _ h in
      let ((fence, takeover), _, h2) = >>=-eq-ok (next_fence found) _ h1 in
      let (refound, _, h3) = >>=-eq-ok (read_task_lease _ (round.clock 3) w t.id) _ h2 in
      let (lease, _, h4) = >>=-eq-ok (active_lease refound) _ h3 in
      let (event, _, h5) = >>=-eq-ok (new_task_event calls round.env _ _ _ _ _ _ _) _ h4 in
      let ((stored, db3), a, h6) = >>=-eq-ok (append_event calls round.env _ event) _ h5 in
      let (claimed, _, h7) = >>=-eq-ok (read_task db3 w t.id) _ h6 in
      let app = append_event-IsAppended calls round.env (round.clock) event _ db3 stored a in
      (fence, ap (λ x. x.1.tasks) (sym (ok-injective h7)) ∙ ap (λ d. d.tasks) app.others)

  claim_rounds-Advances :
      (left : ℕ) (rounds : ℕ → Round) (start : ℕ) (db db' : Database Raw Evidence)
      (w session_id : String) (capabilities : List String) (i ttl : ℕ) (actor_id : String)
      (r : Option (TaskClaimResult Raw))
      → IsKeyed db.tasks
      → claim_rounds calls left rounds start db w session_id capabilities i ttl actor_id
        ≡ ok (r, db')
      → Advances db.tasks db'.tasks
  unfolding claim_rounds
  claim_rounds-Advances zero rounds start db db' w session_id capabilities i ttl actor_id r keyed
        h =
      subst (λ x. Advances db.tasks x.1.tasks) (ok-injective h) (Refines-refl db.tasks, keyed)
  claim_rounds-Advances (suc left) rounds start db db' w session_id capabilities i ttl actor_id r
        keyed h =
      let round = rounds left in
      elim (Option-cases
        (select_claimable_task db (round.clock 0) w capabilities i round.is_locked)) [
          | inl k ↦
              subst (λ x. Advances db.tasks x.1.tasks) (ok-injective (rw (k, claim_rounds) at h))
                (Refines-refl db.tasks, keyed)
          | inr (t, k) ↦
              let (is_ready, here, found) =
                select-open db (round.clock 0) w capabilities i round.is_locked t keyed k in
              elim (Bool-cases (leb t.max_attempts t.attempts)) [
                | inl q ↦
                    let (db1, d, h1) =
                      >>=-eq-ok (transition_dead_letter calls round db t "retry budget exhausted") _
                        (rw (k, q, claim_rounds) at h) in
                    let found' : find_task db.tasks t.workspace_id t.id ≡ some t =
                      subst (λ x. find_task db.tasks x t.id ≡ some t) (sym here) found in
                    let (f, keyed1) =
                      Advances-update db.tasks db1.tasks t.workspace_id t.id
                        (dead_row "retry budget exhausted" (round.clock 1)) t (λ u. (refl, refl))
                        keyed found' (exhaust is_ready (ground (arith, q)))
                        (transition-tasks round db db1 t _ d) in
                    let (g, keyed2) =
                      claim_rounds-Advances left rounds start db1 db' w session_id capabilities i
                        ttl actor_id r keyed1 h1 in
                    (Refines-trans db.tasks db1.tasks db'.tasks f g, keyed2)
                | inr q ↦
                    let ((r', db1), d, h1) =
                      >>=-eq-ok (claim_task calls round start db w session_id ttl actor_id t) _
                        (rw (k, q, claim_rounds) at h) in
                    let (fence, e) =
                      claim_task-tasks round start db db1 w session_id ttl actor_id t r' d in
                    subst (λ x. Advances db.tasks x.1.tasks) (ok-injective h1)
                      (Advances-update db.tasks db1.tasks w t.id
                        (claimed_row session_id fence (round.clock 4)) t (λ u. (refl, refl)) keyed
                        found (claim session_id is_ready (ground (arith, q))) e)
              ]
        ]

  pub claim_next-Advances :
      (rounds : ℕ → Round) (start : ℕ) (db db' : Database Raw Evidence) (input : TaskClaimInput)
      (r : Option (TaskClaimResult Raw))
      → IsKeyed db.tasks
      → claim_next calls rounds start db input ≡ ok (r, db')
      → Advances db.tasks db'.tasks
  unfolding claim_next
  claim_next-Advances rounds start db db' input r keyed h =
      let w = normalize_workspace input.workspace_id in
      let (_, h1) = guard-eq-ok (not (is_empty (trim input.session_id))) session_required _ h in
      elim (Option-cases (db.sessions w (trim input.session_id))) [
        | inl k ↦ err-not-ok (rw k at h1)
        | inr (s, k) ↦
            let (_, h2) = guard-eq-ok (not (is_busy s)) session_busy _ (rw k at h1) in
            claim_rounds-Advances 100 rounds start db db' w (trim input.session_id) s.capabilities
              input.task_id _ input.actor_id r keyed h2
      ]
