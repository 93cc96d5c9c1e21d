-- ===== src/Projection/Task/Replay.antt =====
-- Events are delivered at least once: what a redelivered event, and a replayed history, does.
use fornix.Base.{
  ◌≡◌, refl, sym, ap, ◌∙◌, subst, ◌⊎◌, inl, inr, String, str_eq, eq_iff, true, false, ◌&&◌, Option,
  some, List, [], ◌∷◌, if◌then◌else◌, Bool-cases, Result, ok, ◌>>=◌, >>=-eq-ok, ok-injective,
  write_self, write_lem, All, arith,
}
use fornix.Event.Types.{EventEnvelope}
use fornix.Projection.Types.{ProjectionError, JsonValue, ApplyResult, was_past}
use fornix.Projection.Task.{TaskTable, is_past, apply_owned, apply}
use fornix.Projection.Task.Effect.{
  IsIgnored, IsOwned, HasWritten, IsBehind, apply_owned-effect, apply-Route, read-readable,
}

module _ {Raw : Type 0} (parse : Raw → Option JsonValue)
    (hash : String → String → String → String → String) where
  -- The table is past the event: it was applied, or is none of the projection's.
  abbrev pub IsSettled : EventEnvelope Raw → TaskTable → Type 0
  IsSettled e t =
      ((r : ApplyResult) × IsIgnored parse hash e r)
      ⊎ ((w : String) × (c : String) × IsOwned parse hash e w c × IsBehind parse hash e w c t)

  -- An event that a table is past changes nothing.
  IsSettled-apply :
      (e : EventEnvelope Raw) (t : TaskTable)
      → IsSettled e t
      → (r : ApplyResult) × (apply parse hash t e ≡ ok (r, t)) × (r.applied ≡ false)
  unfolding apply_owned is_past
  IsSettled-apply e t (inl (r, i)) = (r, i.leaves t, i.not_applied)
  IsSettled-apply e t (inr (w, c, o, b)) =
      let p : is_past parse hash e.sequence (some b.row) ≡ true = ground (arith, b.behind) in
      let q : apply_owned parse hash t e o.status w c ≡ ok (was_past, t) =
        rw (read-readable parse hash t w c b.row b.found b.readable, p) refl in
      (was_past, o.reaches t ∙ q, refl)

  -- The row that an event wrote is behind it.
  written-IsBehind :
      (e : EventEnvelope Raw) (w c : String) (t t' : TaskTable)
      → HasWritten parse hash e w c t t'
      → IsBehind parse hash e w c t'
  written-IsBehind e w c t t' h = record {
    row = h.row;
    found = ap (λ x. x w c) h.written ∙ write_self t w c h.row;
    readable = h.readable;
    behind = omega (arith, h.row_sequence);
  }

  -- An event that is applied is settled.
  apply-IsSettled :
      (e : EventEnvelope Raw) (t t' : TaskTable) (r : ApplyResult)
      → apply parse hash t e ≡ ok (r, t')
      → IsSettled e t'
  apply-IsSettled e t t' r h = elim (apply-Route parse hash t t' e r h) [
    | inl i ↦ inl (r, i)
    | inr (w, c, o) ↦
        elim (apply_owned-effect parse hash t t' e o.status w c r o.is_status o.numbered
          (sym (o.reaches t) ∙ h)) [
            | inl (x, _) ↦ inr (w, c, o, written-IsBehind e w c t t' x)
            | inr (b, k, _) ↦ inr (w, c, o, subst (IsBehind parse hash e w c) (sym k) b)
          ]
  ]

  -- A later write keeps what is behind.
  IsBehind-HasWritten :
      (e e1 : EventEnvelope Raw) (w c w1 c1 : String) (t t' : TaskTable)
      → IsBehind parse hash e w c t
      → HasWritten parse hash e1 w1 c1 t t'
      → IsBehind parse hash e w c t'
  IsBehind-HasWritten e e1 w c w1 c1 t t' b h =
      let at_key : t' w c ≡ (if str_eq w1 w && str_eq c1 c then some h.row else t w c) =
        ap (λ x. x w c) h.written ∙ write_lem t w1 c1 h.row w c in
      elim (Bool-cases (str_eq w1 w && str_eq c1 c)) [
        | inr p ↦ record {
          row = b.row;
          found = at_key ∙ rw p b.found;
          readable = b.readable;
          behind = b.behind;
        }
        | inl p ↦
            let kw : w1 ≡ w = (eq_iff w1 w).0 (ground arith) in
            let kc : c1 ≡ c = (eq_iff c1 c).0 (ground arith) in
            let before : t w1 c1 ≡ some b.row = rw (kw, kc) b.found in
            record {
              row = h.row;
              found = at_key ∙ rw p refl;
              readable = rw (sym kw, sym kc) h.readable;
              behind = omega (arith, h.later b.row before, h.row_sequence, b.behind);
            }
      ]

  IsSettled-step :
      (e e1 : EventEnvelope Raw) (t t' : TaskTable) (r : ApplyResult)
      → IsSettled e t
      → apply parse hash t e1 ≡ ok (r, t')
      → IsSettled e t'
  IsSettled-step e e1 t t' r (inl i) h = inl i
  IsSettled-step e e1 t t' r (inr (w, c, o, b)) h = elim (apply-Route parse hash t t' e1 r h) [
    | inl i ↦ inr (
      w,
      c,
      o,
      subst (IsBehind parse hash e w c) (ap (λ x. x.1) (ok-injective (sym (i.leaves t) ∙ h))) b,
    )
    | inr (w1, c1, o1) ↦
        elim (apply_owned-effect parse hash t t' e1 o1.status w1 c1 r o1.is_status o1.numbered
          (sym (o1.reaches t) ∙ h)) [
            | inl (x, _) ↦ inr (w, c, o, IsBehind-HasWritten e e1 w c w1 c1 t t' b x)
            | inr (_, k, _) ↦ inr (w, c, o, subst (IsBehind parse hash e w c) (sym k) b)
          ]
  ]

  -- `for _, event := range events { Apply }`, the results aside.
  abbrev pub apply_all : TaskTable → List (EventEnvelope Raw) → Result ProjectionError TaskTable
  apply_all t [] = ok t
  apply_all t (e ∷ es) = apply parse hash t e >>= λ x. apply_all x.1 es

  IsSettled-apply_all :
      (e : EventEnvelope Raw) (es : List (EventEnvelope Raw)) (t t' : TaskTable)
      → IsSettled e t
      → apply_all t es ≡ ok t'
      → IsSettled e t'
  IsSettled-apply_all e [] t t' s h = subst (IsSettled e) (ok-injective h) s
  IsSettled-apply_all e (e1 ∷ es) t t' s h =
      let ((r, t1), h1, h2) = >>=-eq-ok (apply parse hash t e1) _ h in
      IsSettled-apply_all e es t1 t' (IsSettled-step e e1 t t1 r s h1) h2

  All-IsSettled :
      (es : List (EventEnvelope Raw)) (t t' : TaskTable)
      → apply_all t es ≡ ok t'
      → All (λ e. IsSettled e t') es
  All-IsSettled [] t t' h = tt
  All-IsSettled (e ∷ es) t t' h =
      let ((r, t1), h1, h2) = >>=-eq-ok (apply parse hash t e) _ h in
      (IsSettled-apply_all e es t1 t' (apply-IsSettled e t t1 r h1) h2, All-IsSettled es t1 t' h2)

  replay_settled :
      (es : List (EventEnvelope Raw)) (t : TaskTable)
      → All (λ e. IsSettled e t) es
      → apply_all t es ≡ ok t
  replay_settled [] t s = refl
  replay_settled (e ∷ es) t s =
      let (r, h, _) = IsSettled-apply e t s.0 in rw h (replay_settled es t s.1)

  -- A history that was applied can be applied again, whatever its order and wherever the table began:
  -- every event is accepted and none changes a row.
  pub apply_all-again :
      (es : List (EventEnvelope Raw)) (t t' : TaskTable)
      → apply_all t es ≡ ok t'
      → apply_all t' es ≡ ok t'
  apply_all-again es t t' h = replay_settled es t' (All-IsSettled es t t' h)

  -- An event that was applied, and then any others after it, changes nothing when it comes again, and
  -- is reported as not applied.
  pub apply-redelivered :
      (e : EventEnvelope Raw) (es : List (EventEnvelope Raw)) (t t1 t2 : TaskTable)
      (r : ApplyResult)
      → apply parse hash t e ≡ ok (r, t1)
      → apply_all t1 es ≡ ok t2
      → (r2 : ApplyResult) × (apply parse hash t2 e ≡ ok (r2, t2)) × (r2.applied ≡ false)
  apply-redelivered e es t t1 t2 r h k =
      IsSettled-apply e t2 (IsSettled-apply_all e es t1 t2 (apply-IsSettled e t t1 r h) k)
