-- ===== src/Event/Append/Retry.antt =====
-- A request that comes again gets its first event.
use fornix.Base.{
  ℕ, ◌<◌, ◌≡◌, refl, sym, ap, ◌∙◌, subst, inl, inr, String, str_eq, eq_iff, eq_refl, is_empty, true,
  false, ◌&&◌, and-eq-true, none, some, List, [], ◌∷◌, ◌++◌, All, ◌==◌, Bool-cases, Result, ok, err,
  ◌>>=◌, >>=-eq-ok, ok-injective, write, write_self, write_lem, arith,
}
use fornix.Event.Types.{EventError, EventEnvelope, idempotency_conflict}
use fornix.Event.Normalize.{Env, normalize}
use fornix.Event.Append.{
  IdempotencyRecord, AppendResult, EventCalls, EventStore, read_event, request_hash, with_record,
  read_duplicate, append_normalized, append_tx,
}
use fornix.Event.Append.History.{
  IsInserted, IsDuplicate, append_tx-AppendOutcome, AppendOutcome, IsNext,
}

module _ {Raw : Type 0} where
  read_event-append :
      (xs ys : List (EventEnvelope Raw)) (w : String) (n : ℕ) (e : EventEnvelope Raw)
      → read_event xs w n ≡ some e
      → read_event (xs ++ ys) w n ≡ some e
  unfolding read_event
  read_event-append [] ys w n e h = absurd (cc h)
  read_event-append (x ∷ xs) ys w n e h =
      elim (Bool-cases (str_eq x.scope.workspace_id w && x.sequence == n)) [
        | inl p ↦ rw p (rw p at h)
        | inr p ↦ rw p (read_event-append xs ys w n e (rw p at h))
      ]

  read_event-last :
      (xs : List (EventEnvelope Raw)) (e : EventEnvelope Raw)
      → All (λ (x : EventEnvelope Raw). x.sequence < e.sequence) xs
      → read_event (xs ++ e ∷ []) e.scope.workspace_id e.sequence ≡ some e
  unfolding read_event
  read_event-last [] e a =
      let p : (str_eq e.scope.workspace_id e.scope.workspace_id && e.sequence == e.sequence)
          ≡ true =
        rw (eq_refl e.scope.workspace_id) (ground arith) in
      rw p refl
  read_event-last (x ∷ xs) e a =
      let p : (str_eq x.scope.workspace_id e.scope.workspace_id && x.sequence == e.sequence)
          ≡ false =
        ground (arith, a.0) in
      rw p (read_event-last xs e a.1)

module _ {Raw Evidence : Type 0} (calls : EventCalls Raw Evidence) where
  -- The key's record is complete: it has the hash, and names the stored event.
  pub record IsRecorded (st : EventStore Raw Evidence) (w k hash : String)
      (event : EventEnvelope Raw) : Type 0 where
    pub idempotency : IdempotencyRecord
    pub found : st.records w k ≡ some idempotency
    pub hashed : idempotency.request_hash ≡ hash
    pub sequence : ℕ
    pub names : idempotency.event_sequence ≡ some sequence
    pub numbered : 0 < sequence
    pub stored : read_event st.events w sequence ≡ some event

  -- An append of a key leaves its record complete.
  inserted-IsRecorded :
      (env : Env) (e : EventEnvelope Raw) (st st' : EventStore Raw Evidence) (r : AppendResult Raw)
      → is_empty e.idempotency_key ≡ false
      → IsNext calls env st
      → (i : IsInserted calls env e st st' r)
      → IsRecorded st' e.scope.workspace_id e.idempotency_key i.hash r.event
  inserted-IsRecorded env e st st' r key next i =
      let stored : EventEnvelope Raw = record e {
        sequence = env.sequence;
        recorded_at = env.recorded_at;
      } in
      let row : IdempotencyRecord = record {
        request_hash = i.hash;
        event_sequence = some env.sequence;
        event_id = e.event_id;
      } in
      let records : st'.records ≡ write st.records e.scope.workspace_id e.idempotency_key row =
        i.recorded ∙ ap (with_record calls st.records i.hash) i.event ∙ rw key refl in
      record {
        idempotency = row;
        found =
            ap (λ t. t e.scope.workspace_id e.idempotency_key) records
            ∙ write_self st.records e.scope.workspace_id e.idempotency_key row;
        hashed = refl;
        sequence = env.sequence;
        names = refl;
        numbered = i.numbered;
        stored = rw (i.at_end, i.event) (read_event-last st.events stored next);
      }

  duplicate-IsRecorded :
      (e : EventEnvelope Raw) (st st' : EventStore Raw Evidence) (r : AppendResult Raw)
      → (d : IsDuplicate calls e st st' r)
      → IsRecorded st' e.scope.workspace_id e.idempotency_key d.hash r.event
  duplicate-IsRecorded e st st' r d =
      subst (λ t. IsRecorded t e.scope.workspace_id e.idempotency_key d.hash r.event)
        (sym d.unchanged)
        (record {
          idempotency = d.idempotency;
          found = d.found;
          hashed = (eq_iff _ _).0 d.same_request;
          sequence = d.sequence;
          names = d.names;
          numbered = d.numbered;
          stored = d.stored;
        })

  -- A record that is found is not overwritten by the insertion of another event.
  inserted-records :
      (env : Env) (e : EventEnvelope Raw) (st st' : EventStore Raw Evidence) (r : AppendResult Raw)
      (w k : String) (row : IdempotencyRecord)
      → IsInserted calls env e st st' r
      → st.records w k ≡ some row
      → st'.records w k ≡ some row
  inserted-records env e st st' r w k row i look =
      let stored : EventEnvelope Raw = record e {
        sequence = env.sequence;
        recorded_at = env.recorded_at;
      } in
      let records : st'.records ≡ with_record calls st.records i.hash stored =
        i.recorded ∙ ap (with_record calls st.records i.hash) i.event in
      elim i.new_key [
        | inl p ↦ ap (λ t. t w k) records ∙ rw p look
        | inr p ↦ ap (λ t. t w k) records ∙ elim (Bool-cases (is_empty e.idempotency_key)) [
          | inl q ↦ rw q look
          | inr q ↦ rw q (
              write_lem st.records e.scope.workspace_id e.idempotency_key _ w k
              ∙ elim (Bool-cases (str_eq e.scope.workspace_id w && str_eq e.idempotency_key k)) [
                | inr m ↦ rw m look
                | inl m ↦
                    let (a, b) =
                      and-eq-true (str_eq e.scope.workspace_id w) (str_eq e.idempotency_key k) m in
                    let none' : st.records w k ≡ none =
                      rw ((eq_iff e.scope.workspace_id w).0 a, (eq_iff e.idempotency_key k).0 b) at
                        p in
                    absurd (cc (sym none' ∙ look))
              ])
        ]
      ]

  -- Any further append keeps it.
  append_tx-IsRecorded :
      (env : Env) (event : EventEnvelope Raw) (st st' : EventStore Raw Evidence)
      (r : AppendResult Raw) (w k hash : String) (first : EventEnvelope Raw)
      → append_tx calls env st event ≡ ok (r, st')
      → IsRecorded st w k hash first
      → IsRecorded st' w k hash first
  append_tx-IsRecorded env event st st' r w k hash first h c =
      let (e, _, outcome) = append_tx-AppendOutcome calls env event st st' r h in
      elim outcome [
        | inr d ↦ rw d.unchanged c
        | inl i ↦ record {
          idempotency = c.idempotency;
          found = inserted-records env e st st' r w k c.idempotency i c.found;
          hashed = c.hashed;
          sequence = c.sequence;
          names = c.names;
          numbered = c.numbered;
          stored =
              rw i.at_end (read_event-append st.events (r.event ∷ []) w c.sequence first c.stored);
        }
      ]

  -- `AppendTx` over a list of requests, each with its own environment; the first error ends it.
  abbrev pub append_all :
      EventStore Raw Evidence
      → List (Env × EventEnvelope Raw)
      → Result EventError (EventStore Raw Evidence)
  append_all st [] = ok st
  append_all st ((env, event) ∷ rest) = append_tx calls env st event >>= λ x. append_all x.1 rest

  append_all-IsRecorded :
      (xs : List (Env × EventEnvelope Raw)) (st st' : EventStore Raw Evidence) (w k hash : String)
      (first : EventEnvelope Raw)
      → append_all st xs ≡ ok st'
      → IsRecorded st w k hash first
      → IsRecorded st' w k hash first
  append_all-IsRecorded [] st st' w k hash first h c =
      subst (λ t. IsRecorded t w k hash first) (ok-injective h) c
  append_all-IsRecorded ((env, event) ∷ rest) st st' w k hash first h c =
      let ((r, st1), h1, h2) = >>=-eq-ok (append_tx calls env st event) _ h in
      append_all-IsRecorded rest st1 st' w k hash first h2
        (append_tx-IsRecorded env event st st1 r w k hash first h1 c)

  -- A complete record answers the request again.
  recorded-append_tx :
      (env : Env) (event e : EventEnvelope Raw) (st : EventStore Raw Evidence)
      (first : EventEnvelope Raw) (hash : String)
      → normalize calls.json env event ≡ ok e
      → is_empty e.idempotency_key ≡ false
      → request_hash calls e ≡ ok hash
      → IsRecorded st e.scope.workspace_id e.idempotency_key hash first
      → append_tx calls env st event ≡ ok (record { event = first; duplicate = true }, st)
  unfolding append_tx append_normalized read_duplicate
  recorded-append_tx env event e st first hash n key hashed c =
      let same : str_eq c.idempotency.request_hash hash ≡ true = (eq_iff _ _).1 c.hashed in
      let positive : (c.sequence == 0) ≡ false = ground (arith, c.numbered) in
      rw (n, hashed, key, c.found, same, c.names, positive, c.stored) refl

  -- What an accepted request leaves, after any further appends.
  accepted-IsRecorded :
      (env : Env) (event e : EventEnvelope Raw) (st st1 st2 : EventStore Raw Evidence)
      (r : AppendResult Raw) (later : List (Env × EventEnvelope Raw))
      → IsNext calls env st
      → normalize calls.json env event ≡ ok e
      → is_empty e.idempotency_key ≡ false
      → append_tx calls env st event ≡ ok (r, st1)
      → append_all st1 later ≡ ok st2
      → (hash : String) × (request_hash calls e ≡ ok hash)
        × IsRecorded st2 e.scope.workspace_id e.idempotency_key hash r.event
  accepted-IsRecorded env event e st st1 st2 r later next n key h k =
      let (e1, n1, outcome) = append_tx-AppendOutcome calls env event st st1 r h in
      let same : e1 ≡ e = ok-injective (sym n1 ∙ n) in
      elim (subst (λ x. AppendOutcome calls env x st st1 r) same outcome) [
        | inl i ↦ (
          i.hash,
          i.hashed,
          append_all-IsRecorded later st1 st2 _ _ _ _ k
              (inserted-IsRecorded env e st st1 r key next i),
        )
        | inr d ↦ (
          d.hash,
          d.hashed,
          append_all-IsRecorded later st1 st2 _ _ _ _ k (duplicate-IsRecorded e st st1 r d),
        )
      ]

  -- Exactly once: when a request with a key was accepted, and the database's next sequence was above
  -- all stored ones, then after any further appends a request that normalizes to the same workspace,
  -- key and digest, sent from any environment, returns the first event as a duplicate and leaves the
  -- store as it is.
  pub append_tx-retry :
      (env env' : Env) (event event' e e' : EventEnvelope Raw)
      (st st1 st2 : EventStore Raw Evidence) (r : AppendResult Raw)
      (later : List (Env × EventEnvelope Raw))
      → IsNext calls env st
      → normalize calls.json env event ≡ ok e
      → is_empty e.idempotency_key ≡ false
      → append_tx calls env st event ≡ ok (r, st1)
      → append_all st1 later ≡ ok st2
      → normalize calls.json env' event' ≡ ok e'
      → e'.scope.workspace_id ≡ e.scope.workspace_id
      → e'.idempotency_key ≡ e.idempotency_key
      → request_hash calls e' ≡ request_hash calls e
      → append_tx calls env' st2 event' ≡ ok (record { event = r.event; duplicate = true }, st2)
  append_tx-retry env env' event event' e e' st st1 st2 r later next n key h k n' kw kk kh =
      let (hash, hashed, c) = accepted-IsRecorded env event e st st1 st2 r later next n key h k in
      let keyed = subst (λ x. IsRecorded st2 e.scope.workspace_id x hash r.event) (sym kk) c in
      recorded-append_tx env' event' e' st2 r.event hash n' (rw kk key) (kh ∙ hashed)
        (subst (λ x. IsRecorded st2 x e'.idempotency_key hash r.event) (sym kw) keyed)

  -- A key that a request with a digest has taken, accepted where the database's next sequence was
  -- above all stored ones, refuses a request of the same workspace with another digest: it is a
  -- conflict, after any further appends.
  pub append_tx-conflict :
      (env env' : Env) (event event' e e' : EventEnvelope Raw)
      (st st1 st2 : EventStore Raw Evidence) (r : AppendResult Raw)
      (later : List (Env × EventEnvelope Raw)) (hash hash' : String)
      → IsNext calls env st
      → normalize calls.json env event ≡ ok e
      → is_empty e.idempotency_key ≡ false
      → append_tx calls env st event ≡ ok (r, st1)
      → append_all st1 later ≡ ok st2
      → normalize calls.json env' event' ≡ ok e'
      → e'.scope.workspace_id ≡ e.scope.workspace_id
      → e'.idempotency_key ≡ e.idempotency_key
      → request_hash calls e ≡ ok hash
      → request_hash calls e' ≡ ok hash'
      → str_eq hash hash' ≡ false
      → append_tx calls env' st2 event' ≡ err idempotency_conflict
  unfolding append_tx append_normalized read_duplicate
  append_tx-conflict env env' event event' e e' st st1 st2 r later hash hash' next n key h k n' kw
        kk h1 h2 kh =
      let (first, f, c) = accepted-IsRecorded env event e st st1 st2 r later next n key h k in
      let same : first ≡ hash = ok-injective (sym f ∙ h1) in
      let other : str_eq c.idempotency.request_hash hash' ≡ false = rw (c.hashed, same) kh in
      let found : st2.records e'.scope.workspace_id e'.idempotency_key ≡ some c.idempotency =
        subst (λ x. st2.records x e'.idempotency_key ≡ some c.idempotency) (sym kw)
          (subst (λ x. st2.records e.scope.workspace_id x ≡ some c.idempotency) (sym kk) c.found) in
      let key' : is_empty e'.idempotency_key ≡ false = rw kk key in
      rw (n', h2, key', found, other) refl
