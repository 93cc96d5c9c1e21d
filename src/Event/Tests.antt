-- ===== src/Event/Tests.antt =====
-- Two appends under one key, and one under the key with another payload.
use Prim.Native.String.{◌++◌ as append}
use fornix.Base.{
  ℕ, ◌+◌, ◌≡◌, refl, String, trim, true, false, none, some, [], ◌∷◌, ok, err, pos, Table, write,
  show_nat,
}
use fornix.Policy.Types.{byte_length, lower_trim}
use fornix.Event.Types.{EventEnvelope, idempotency_conflict}
use fornix.Event.Normalize.{
  Env, RawJson, normalize, matches_from, is_event_type, normalize_actor, clean_strings,
}
use fornix.Event.Append.{
  IdempotencyRecord, EventCalls, EventStore, request_hash, insert_event, append_normalized,
  append_tx,
}
use fornix.Event.Append.History.{AppendOutcome, append_tx-AppendOutcome}
use fornix.Event.Append.Retry.{append_all, append_tx-retry, append_tx-conflict}

-- Raw JSON is its text, a digest is the type and the payload, and the evidence store takes anything.
abbrev text_json : RawJson String
text_json = record { raw_length = byte_length; is_valid = λ raw. true; empty_object = "{}" }

abbrev plain_calls : EventCalls String (Unit {0})
plain_calls = record {
  json = text_json;
  compact = some;
  digest = λ h. some (append h.event_type h.payload);
  put_evidence = λ ev i. some tt;
}

abbrev plain_event : ℕ → String → EventEnvelope String
plain_event n payload = record {
  event_id = append "e" (show_nat n);
  sequence = 0;
  event_type = "task.created";
  schema_version = pos 1;
  occurred_at = 1;
  recorded_at = 0;
  scope = record { workspace_id = "acme"; visibility = ""; subject = "" };
  actor = record { id = "bo"; kind = "principal"; name = ""; workspace_id = "acme" };
  task = none;
  session = none;
  policy = none;
  causation_id = "";
  correlation_id = "";
  idempotency_key = "k";
  state_deltas = [];
  artifacts = [];
  provenance = record { source_event_ids = []; source_artifact_refs = []; source_paths = [] };
  payload = payload;
}

abbrev env_at : ℕ → Env
env_at n = record { new_id = "new"; now = 9; sequence = n; recorded_at = n + 10 }

abbrev no_records : Table IdempotencyRecord
no_records w k = none

abbrev no_events : EventStore String (Unit {0})
no_events = record { events = []; records = no_records; evidence = tt }

abbrev first_stored : EventEnvelope String
first_stored = record (plain_event 1 "1") { sequence = 1; recorded_at = 11 }

abbrev one_event : EventStore String (Unit {0})
one_event = record {
  events = first_stored ∷ [];
  records =
      write no_records "acme" "k"
        (record { request_hash = "task.created1"; event_sequence = some 1; event_id = "e1" });
  evidence = tt;
}

first_append :
    append_tx plain_calls (env_at 1) no_events (plain_event 1 "1")
    ≡ ok (record { event = first_stored; duplicate = false }, one_event)
unfolding append_tx append_normalized insert_event request_hash normalize normalize_actor
    is_event_type matches_from clean_strings trim show_nat write lower_trim
first_append = refl

-- A request without the key is appended after it.
abbrev keyless : EventEnvelope String
keyless = record (plain_event 2 "2") { idempotency_key = "" }

abbrev second_stored : EventEnvelope String
second_stored = record keyless { sequence = 2; recorded_at = 12 }

abbrev two_events : EventStore String (Unit {0})
two_events = record {
  events = first_stored ∷ second_stored ∷ [];
  records = one_event.records;
  evidence = tt;
}

second_append : append_all plain_calls one_event ((env_at 2, keyless) ∷ []) ≡ ok two_events
unfolding append_tx append_normalized insert_event request_hash normalize normalize_actor
    is_event_type matches_from clean_strings trim show_nat write lower_trim
second_append = refl

normal_first : normalize text_json (env_at 1) (plain_event 1 "1") ≡ ok (plain_event 1 "1")
unfolding normalize normalize_actor is_event_type matches_from clean_strings trim show_nat
    lower_trim
normal_first = refl

normal_again : normalize text_json (env_at 7) (plain_event 7 "1") ≡ ok (plain_event 7 "1")
unfolding normalize normalize_actor is_event_type matches_from clean_strings trim show_nat
    lower_trim
normal_again = refl

normal_other : normalize text_json (env_at 7) (plain_event 7 "3") ≡ ok (plain_event 7 "3")
unfolding normalize normalize_actor is_event_type matches_from clean_strings trim show_nat
    lower_trim
normal_other = refl

append_tx-AppendOutcome_example :
    (e : EventEnvelope String) × (normalize text_json (env_at 1) (plain_event 1 "1") ≡ ok e)
    × AppendOutcome plain_calls
        (env_at 1)
        e
        no_events
        one_event
        (record { event = first_stored; duplicate = false })
append_tx-AppendOutcome_example =
    append_tx-AppendOutcome plain_calls (env_at 1) (plain_event 1 "1") no_events one_event
      (record { event = first_stored; duplicate = false }) first_append

append_tx-retry_example :
    append_tx plain_calls (env_at 7) two_events (plain_event 7 "1")
    ≡ ok (record { event = first_stored; duplicate = true }, two_events)
unfolding request_hash
append_tx-retry_example =
    append_tx-retry plain_calls (env_at 1) (env_at 7) (plain_event 1 "1") (plain_event 7 "1")
      (plain_event 1 "1") (plain_event 7 "1") no_events one_event two_events
      (record { event = first_stored; duplicate = false }) ((env_at 2, keyless) ∷ []) tt
      normal_first refl first_append second_append normal_again refl refl refl

append_tx-conflict_example :
    append_tx plain_calls (env_at 7) two_events (plain_event 7 "3") ≡ err idempotency_conflict
unfolding request_hash
append_tx-conflict_example =
    append_tx-conflict plain_calls (env_at 1) (env_at 7) (plain_event 1 "1") (plain_event 7 "3")
      (plain_event 1 "1") (plain_event 7 "3") no_events one_event two_events
      (record { event = first_stored; duplicate = false }) ((env_at 2, keyless) ∷ [])
      "task.created1" "task.created3" tt normal_first refl first_append second_append normal_other
      refl refl refl refl refl
