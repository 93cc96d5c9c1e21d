-- ===== src/Event/Append/History.antt =====
-- What an append does to the history: it adds one event at its end, or nothing.
use fornix.Base.{
  ℕ, ◌<◌, ◌≡◌, sym, ap, ◌∙◌, ◌⊎◌, inl, inr, String, str_eq, is_empty, true, false, not, Option,
  none, some, Option-cases, [], ◌∷◌, ◌++◌, any, ◌==◌, Bool-cases, All, ok, >>=-eq-ok, guard-eq-ok,
  ok-injective, err-not-ok, arith,
}
use fornix.Event.Types.{
  EventEnvelope, event_id_taken, invalid_sequence, idempotency_conflict, incomplete_idempotency,
}
use fornix.Event.Normalize.{Env, normalize}
use fornix.Event.Append.{
  IdempotencyRecord, AppendResult, EventCalls, EventStore, read_event, found_event, request_hash,
  evidence_input, stored_evidence, with_record, insert_event, read_duplicate, append_normalized,
  append_tx,
}

found-event :
    {Raw : Type 0} (o : Option (EventEnvelope Raw)) {e : EventEnvelope Raw}
    → found_event o ≡ ok e
    → o ≡ some e
found-event none h = err-not-ok h
found-event (some x) h = ap some (ok-injective h)

module _ {Raw Evidence : Type 0} (calls : EventCalls Raw Evidence) where
  -- The normalized event `e` went in: with the next sequence, at the end, and with its record.
  pub record IsInserted (env : Env) (e : EventEnvelope Raw) (st st' : EventStore Raw Evidence)
      (r : AppendResult Raw) : Type 0 where
    pub event : r.event ≡ record e { sequence = env.sequence; recorded_at = env.recorded_at }
    pub not_duplicate : r.duplicate ≡ false
    pub numbered : 0 < env.sequence
    pub new_id : any (λ x. str_eq x.event_id e.event_id) st.events ≡ false
    pub at_end : st'.events ≡ st.events ++ r.event ∷ []
    pub hash : String
    pub hashed : request_hash calls e ≡ ok hash
    pub recorded : st'.records ≡ with_record calls st.records hash r.event
    pub new_key :
        (is_empty e.idempotency_key ≡ true)
        ⊎ (st.records e.scope.workspace_id e.idempotency_key ≡ none)

  -- A record of the same request names a stored event, and nothing changes.
  pub record IsDuplicate (e : EventEnvelope Raw) (st st' : EventStore Raw Evidence)
      (r : AppendResult Raw) : Type 0 where
    pub idempotency : IdempotencyRecord
    pub found : st.records e.scope.workspace_id e.idempotency_key ≡ some idempotency
    pub hash : String
    pub hashed : request_hash calls e ≡ ok hash
    pub same_request : str_eq idempotency.request_hash hash ≡ true
    pub sequence : ℕ
    pub names : idempotency.event_sequence ≡ some sequence
    pub numbered : 0 < sequence
    pub stored : read_event st.events e.scope.workspace_id sequence ≡ some r.event
    pub is_duplicate : r.duplicate ≡ true
    pub unchanged : st' ≡ st

  insert_event-IsInserted :
      (env : Env) (e : EventEnvelope Raw) (st st' : EventStore Raw Evidence) (r : AppendResult Raw)
      (hash : String)
      → request_hash calls e ≡ ok hash
      → (is_empty e.idempotency_key ≡ true)
        ⊎ (st.records e.scope.workspace_id e.idempotency_key ≡ none)
      → insert_event calls env st hash e ≡ ok (r, st')
      → IsInserted env e st st' r
  unfolding insert_event
  insert_event-IsInserted env e st st' r hash hashed key h =
      let stored : EventEnvelope Raw = record e {
        sequence = env.sequence;
        recorded_at = env.recorded_at;
      } in
      let (p, h1) =
        guard-eq-ok (not (any (λ x. str_eq x.event_id e.event_id) st.events)) event_id_taken _ h in
      let (q, h2) = guard-eq-ok (not (env.sequence == 0)) invalid_sequence _ h1 in
      let (ev, _, h3) =
        >>=-eq-ok
          (stored_evidence calls (calls.put_evidence st.evidence (evidence_input calls stored))) _
          h2 in
      let whole = ok-injective h3 in
      record {
        event = ap (λ x. x.0.event) (sym whole);
        not_duplicate = ap (λ x. x.0.duplicate) (sym whole);
        numbered = ground arith;
        new_id = ground arith;
        at_end = ap (λ x. x.1.events) (sym whole) ∙ ap (λ x. st.events ++ x.0.event ∷ []) whole;
        hash = hash;
        hashed = hashed;
        recorded =
            ap (λ x. x.1.records) (sym whole)
            ∙ ap (λ x. with_record calls st.records hash x.0.event) whole;
        new_key = key;
      }

  -- The part of `read_duplicate` behind the test of the hash.
  read_duplicate-IsDuplicate :
      (e : EventEnvelope Raw) (st st' : EventStore Raw Evidence) (i : IdempotencyRecord)
      (r : AppendResult Raw) (hash : String)
      → request_hash calls e ≡ ok hash
      → st.records e.scope.workspace_id e.idempotency_key ≡ some i
      → read_duplicate calls st hash e i ≡ ok (r, st')
      → IsDuplicate e st st' r
  unfolding read_duplicate
  read_duplicate-IsDuplicate e st st' i r hash hashed look h =
      elim (Option-cases i.event_sequence) [
        | inl k ↦
            let (_, h1) =
              guard-eq-ok (str_eq i.request_hash hash) idempotency_conflict _ (rw k at h) in
            err-not-ok h1
        | inr (n, k) ↦
            let (p, h1) =
              guard-eq-ok (str_eq i.request_hash hash) idempotency_conflict _ (rw k at h) in
            let (q, h2) = guard-eq-ok (not (n == 0)) incomplete_idempotency _ h1 in
            let (x, f, h3) =
              >>=-eq-ok (found_event (read_event st.events e.scope.workspace_id n)) _ h2 in
            let whole = ok-injective h3 in
            record {
              idempotency = i;
              found = look;
              hash = hash;
              hashed = hashed;
              same_request = p;
              sequence = n;
              names = k;
              numbered = ground arith;
              stored = found-event _ f ∙ ap (λ x. some x.0.event) whole;
              is_duplicate = ap (λ x. x.0.duplicate) (sym whole);
              unchanged = ap (λ x. x.1) (sym whole);
            }
      ]

  abbrev pub AppendOutcome :
      Env
      → EventEnvelope Raw
      → EventStore Raw Evidence
      → EventStore Raw Evidence
      → AppendResult Raw
      → Type 0
  AppendOutcome env e st st' r = IsInserted env e st st' r ⊎ IsDuplicate e st st' r

  pub append_normalized-AppendOutcome :
      (env : Env) (e : EventEnvelope Raw) (st st' : EventStore Raw Evidence) (r : AppendResult Raw)
      (hash : String)
      → request_hash calls e ≡ ok hash
      → append_normalized calls env st hash e ≡ ok (r, st')
      → AppendOutcome env e st st' r
  unfolding append_normalized
  append_normalized-AppendOutcome env e st st' r hash hashed h =
      elim (Bool-cases (is_empty e.idempotency_key)) [
        | inl p ↦ inl (insert_event-IsInserted env e st st' r hash hashed (inl p) (rw p at h))
        | inr p ↦ elim (Option-cases (st.records e.scope.workspace_id e.idempotency_key)) [
          | inl k ↦
              inl (insert_event-IsInserted env e st st' r hash hashed (inr k) (rw (p, k) at h))
          | inr (i, k) ↦
              inr (read_duplicate-IsDuplicate e st st' i r hash hashed k (rw (p, k) at h))
        ]
      ]

  -- `AppendTx` that returns no error normalized the event and did one of two things: it added the
  -- event at the end of the history, under the next sequence and with its idempotency record, or
  -- the record of the same request named an event of the workspace, which it returned as a
  -- duplicate and left the store as it was.
  pub append_tx-AppendOutcome :
      (env : Env) (event : EventEnvelope Raw) (st st' : EventStore Raw Evidence)
      (r : AppendResult Raw)
      → append_tx calls env st event ≡ ok (r, st')
      → (e : EventEnvelope Raw) × (normalize calls.json env event ≡ ok e)
        × AppendOutcome env e st st' r
  unfolding append_tx
  append_tx-AppendOutcome env event st st' r h =
      let (e, n, h1) = >>=-eq-ok (normalize calls.json env event) _ h in
      let (hash, hashed, h2) = >>=-eq-ok (request_hash calls e) _ h1 in
      (e, n, append_normalized-AppendOutcome env e st st' r hash hashed h2)

  -- Every sequence is below the one that the database gives next.
  abbrev pub IsNext : Env → EventStore Raw Evidence → Type 0
  IsNext env st = All (λ (x : EventEnvelope Raw). x.sequence < env.sequence) st.events
