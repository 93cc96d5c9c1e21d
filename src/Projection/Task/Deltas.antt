-- ===== src/Projection/Task/Deltas.antt =====
-- The deltas of an event give its row the status of its type.
use Prim.Native.String.{◌++◌ as append}
use fornix.Base.{
  ◌≡◌, refl, ◌∙◌, subst, inl, inr, String, str_eq, eq_iff, trim, Bool, true, false, not, ◌&&◌,
  Option, Option-cases, List, [], ◌∷◌, Bool-cases, Result, ok, err, ◌>>=◌, >>=-eq-ok, guard-eq-ok,
  ok-injective,
}
use fornix.Event.Types.{StateDelta, EventEnvelope}
use fornix.Projection.Types.{ProjectionError, JsonValue, TaskDelta}
use fornix.Projection.Task.{
  decode_status, decode_task_result, status_delta, apply_delta, apply_deltas, no_delta,
  task_delta_state,
}

module _ {Raw : Type 0} (parse : Raw → Option JsonValue) where
  -- Once a status is found, it is the expected one.
  abbrev HasStatus : String → TaskDelta × Bool → Type 0
  HasStatus expected (d, found) = found ≡ true → d.status ≡ expected

  status_delta-HasStatus :
      (expected : String) (d : TaskDelta) (found : Bool) (raw : Raw) (s' : TaskDelta × Bool)
      → status_delta parse expected d found raw ≡ ok s'
      → HasStatus expected s'
  unfolding status_delta
  status_delta-HasStatus expected d found raw s' h = elim (Option-cases (decode_status parse raw)) [
    | inl e ↦ let h' : err _ ≡ ok s' = rw (e, status_delta) at h in absurd (cc h')
    | inr (text, e) ↦
        let h1 = rw (e, status_delta) at h in
        let (_, h2) = guard-eq-ok _ _ _ h1 in
        let (p, h3) = guard-eq-ok _ _ _ h2 in
        let (_, h4) = guard-eq-ok _ _ _ h3 in
        subst (HasStatus expected) (ok-injective h4) (λ _. (eq_iff (trim text) expected).0 p)
  ]

  -- A delta that leaves the status.
  keeps_status :
      (expected : String) (d : TaskDelta) (found : Bool) (m : Result ProjectionError String)
      (f : String → TaskDelta) (s' : TaskDelta × Bool)
      → ((x : String) → (f x).status ≡ d.status)
      → HasStatus expected (d, found)
      → (m >>= λ x. ok (f x, found)) ≡ ok s'
      → HasStatus expected s'
  keeps_status expected d found m f s' keep p h =
      let (x, _, h') = >>=-eq-ok m _ h in
      subst (HasStatus expected) (ok-injective h') (λ k. keep x ∙ p k)

  apply_delta-HasStatus :
      (expected task_id : String) (s s' : TaskDelta × Bool) (delta : StateDelta Raw)
      → HasStatus expected s
      → apply_delta parse expected task_id s delta ≡ ok s'
      → HasStatus expected s'
  unfolding apply_delta
  apply_delta-HasStatus expected task_id (d, found) s' delta p h =
      let status_path = append (append "/tasks/" task_id) "/status" in
      let result_path = append (append "/tasks/" task_id) "/result" in
      let assigned_path = append (append "/tasks/" task_id) "/assigned_session" in
      elim (Bool-cases (
        not (str_eq delta.path status_path)
        && not (str_eq delta.path result_path)
        && not (str_eq delta.path assigned_path))) [
          | inl e ↦ subst (HasStatus expected) (ok-injective (rw e at h)) p
          | inr e ↦ elim (Bool-cases (str_eq delta.op "set")) [
            | inr e1 ↦ let h' : err _ ≡ ok s' = rw (e, e1) at h in absurd (cc h')
            | inl e1 ↦ elim (Bool-cases (str_eq delta.path status_path)) [
              | inl e2 ↦
                  status_delta-HasStatus expected d found delta.value s' (rw (e, e1, e2) at h)
              | inr e2 ↦ elim (Bool-cases (str_eq delta.path assigned_path)) [
                | inl e3 ↦
                    keeps_status expected d found (decode_task_result parse delta.value) _ s'
                      (λ _. refl) p (rw (e, e1, e2, e3) at h)
                | inr e3 ↦
                    keeps_status expected d found (decode_task_result parse delta.value) _ s'
                      (λ _. refl) p (rw (e, e1, e2, e3) at h)
              ]
            ]
          ]
        ]

  apply_deltas-HasStatus :
      (expected task_id : String) (ds : List (StateDelta Raw)) (s s' : TaskDelta × Bool)
      → HasStatus expected s
      → apply_deltas parse expected task_id s ds ≡ ok s'
      → HasStatus expected s'
  apply_deltas-HasStatus expected task_id [] s s' p h =
      subst (HasStatus expected) (ok-injective h) p
  apply_deltas-HasStatus expected task_id (x ∷ ds) s s' p h =
      let (s1, h1, h2) = >>=-eq-ok (apply_delta parse expected task_id s x) _ h in
      apply_deltas-HasStatus expected task_id ds s1 s'
        (apply_delta-HasStatus expected task_id s s1 x p h1) h2

  pub task_delta_state-status :
      (event : EventEnvelope Raw) (expected task_id : String) (d : TaskDelta)
      → task_delta_state parse event expected task_id ≡ ok d
      → d.status ≡ expected
  unfolding task_delta_state
  task_delta_state-status event expected task_id d h =
      let ((d1, found), h1, h2) =
        >>=-eq-ok (apply_deltas parse expected task_id (no_delta, false) event.state_deltas) _ h in
      let (f, h3) = guard-eq-ok _ _ _ h2 in
      subst (λ d'. d'.status ≡ expected) (ok-injective h3)
        (apply_deltas-HasStatus expected task_id event.state_deltas (no_delta, false) (d1, found)
          (λ k. absurd (cc k)) h1 f)
