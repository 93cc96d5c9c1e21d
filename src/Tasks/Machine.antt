-- ===== src/Tasks/Machine.antt =====
-- What the task store promises of a task: a state machine on its status, its owner and its attempts
-- (internal/store/tasks.go, the doc comments of `ClaimNext`, `Complete`, `Fail` and `Cancel`).
use fornix.Base.{
  ℕ, zero, suc, ◌+◌, ◌≤◌, ◌<◌, ◌≡◌, refl, sym, ap, ◌∙◌, subst, ◌⊎◌, inl, inr, String, str_eq,
  eq_iff, Bool, true, false, ◌&&◌, ◌||◌, Option, none, some, Bool-cases, arith,
}
use fornix.Tasks.Types.{Task}
use fornix.Tasks.Rules.{is_task_terminal}

pub record MachineState : Type 0 where
  pub status : String
  pub assigned : Option String
  pub attempts : ℕ
  pub max_attempts : ℕ

abbrev pub view : Task → MachineState
view t = record {
  status = t.status;
  assigned = t.assigned_session;
  attempts = t.attempts;
  max_attempts = t.max_attempts;
}

-- The statuses that a claim may find.
abbrev pub is_open : String → Bool
is_open status = str_eq status "pending" || (str_eq status "claimed" || str_eq status "in_progress")

abbrev pub is_final_status : String → Bool
is_final_status s =
    str_eq s "done" || str_eq s "failed" || str_eq s "cancelled" || str_eq s "deadletter"

-- A claim spends an attempt; a task without attempts left becomes a dead letter; a session that the
-- task is assigned to reports progress; and an outcome frees the task, for good or for a retry.
pub data Move (s : MachineState) : MachineState → Type 0 where
  claim :
      (session : String)
      → is_open s.status ≡ true
      → s.attempts < s.max_attempts
      → Move s (record s { status = "claimed"; assigned = some session; attempts = s.attempts + 1 })
  exhaust :
      is_open s.status ≡ true
      → s.max_attempts ≤ s.attempts
      → Move s (record s { status = "deadletter"; assigned = none })
  progress :
      (session owner : String)
      → s.assigned ≡ some session
      → Move s (record s { status = "in_progress"; assigned = some owner })
  retry :
      is_task_terminal s.status ≡ false
      → s.attempts < s.max_attempts
      → Move s (record s { status = "pending"; assigned = none })
  finish :
      (status : String)
      → is_task_terminal s.status ≡ false
      → is_final_status status ≡ true
      → Move s (record s { status = status; assigned = none })

pub data Moves (s : MachineState) : MachineState → Type 0 where
  stay : Moves s s
  then_move : {t u : MachineState} → Moves s t → Move t u → Moves s u

pub Moves-trans : {s t u : MachineState} → Moves s t → Moves t u → Moves s u
Moves-trans m stay = m
Moves-trans m (then_move n k) = then_move (Moves-trans m n) k

-- A task that has ended and that no session owns.
abbrev pub IsEnded : MachineState → Type 0
IsEnded s = (is_task_terminal s.status ≡ true) × (s.assigned ≡ none)

-- A test has one outcome.
clash : {A : Type 0} (b : Bool) → b ≡ true → b ≡ false → A
clash true h k = absurd (cc k)
clash false h k = absurd (cc h)

open_status : (status : String) → is_open status ≡ true → is_task_terminal status ≡ false
unfolding is_task_terminal fornix.Base.trim
open_status status h = elim (Bool-cases (str_eq status "pending")) [
  | inl p ↦ rw ((eq_iff _ _).0 p) refl
  | inr p ↦ elim (Bool-cases (str_eq status "claimed")) [
    | inl q ↦ rw ((eq_iff _ _).0 q) refl
    | inr q ↦ rw ((eq_iff status "in_progress").0 (ground (arith, p, q, h))) refl
  ]
]

Move-IsEnded : {s t : MachineState} → IsEnded s → Move s t → t ≡ s
Move-IsEnded {s = s} e (claim session o _) =
    clash (is_task_terminal s.status) e.0 (open_status s.status o)
Move-IsEnded {s = s} e (exhaust o _) =
    clash (is_task_terminal s.status) e.0 (open_status s.status o)
Move-IsEnded e (progress session owner a) = absurd (cc (sym a ∙ e.1))
Move-IsEnded {s = s} e (retry n _) = clash (is_task_terminal s.status) e.0 n
Move-IsEnded {s = s} e (finish status n _) = clash (is_task_terminal s.status) e.0 n

-- An ended task does not move.
pub Moves-IsEnded : {s t : MachineState} → IsEnded s → Moves s t → t ≡ s
Moves-IsEnded e stay = refl
Moves-IsEnded e (then_move m k) =
    let same = Moves-IsEnded e m in Move-IsEnded (subst IsEnded (sym same) e) k ∙ same

-- The attempts stay within their limit, and an ended task has no owner.
pub record IsSound (s : MachineState) : Type 0 where
  pub within : s.attempts ≤ s.max_attempts
  pub unowned : is_task_terminal s.status ≡ true → s.assigned ≡ none

Move-IsSound : {s t : MachineState} → IsSound s → Move s t → IsSound t
unfolding is_task_terminal fornix.Base.trim
Move-IsSound i (claim session o k) = record {
  within = omega (arith, k);
  unowned = λ h. clash false h refl;
}
Move-IsSound i (exhaust o k) = record { within = i.within; unowned = λ h. refl }
Move-IsSound i (progress session owner a) = record {
  within = i.within;
  unowned = λ h. clash false h refl;
}
Move-IsSound i (retry n k) = record { within = i.within; unowned = λ h. refl }
Move-IsSound i (finish status n k) = record { within = i.within; unowned = λ h. refl }

pub Moves-IsSound : {s t : MachineState} → IsSound s → Moves s t → IsSound t
Moves-IsSound i stay = i
Moves-IsSound i (then_move m k) = Move-IsSound (Moves-IsSound i m) k

-- A new task.
pub record IsStart (s : MachineState) : Type 0 where
  pub pending : s.status ≡ "pending"
  pub free : s.assigned ≡ none
  pub unspent : s.attempts ≡ 0

pub IsStart-IsSound : {s : MachineState} → IsStart s → IsSound s
IsStart-IsSound {s = s} b = record { within = rw b.unspent (omega arith); unowned = λ h. b.free }
