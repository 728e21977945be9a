-- ===== src/Journal/Waits.antt =====
-- internal/journal/interactions.go: a run that waits for a reply, and waits that end unanswered.
use az_agent_platform_go.Prelude.{
  ℕ, ◌+◌, Bool, true, false, not, ◌&&◌, ◌||◌, List, [], ◌∷◌, ◌++◌, Option, none, some, GoString,
  str_eq, is_empty, leb, ◌==◌, anyb, filterb, find_row, update_rows, if◌then◌else◌,
}
use az_agent_platform_go.Journal.{
  Tx, database, bad_state, pending_commands, Interaction, InteractionRow, InteractionState, Marker,
  Owner, RunRow, RunState, EventKind, Reason, External,
}
use az_agent_platform_go.Journal.Transactions.{
  ◌>>=◌, ◌>>◌, pure, throw, get, put, require, require_some, append_event, event, lock_owner,
  find_run,
}
use az_agent_platform_go.Journal.Operations.{bind_call, is_approval, coalesce, non_empty}
use az_agent_platform_go.Journal.Outcomes.{has_waiting}
use az_agent_platform_go.Journal.Interactions.{validate}

-- settings.DefaultInteractionTTL: five minutes, in milliseconds.
abbrev pub default_wait : ℕ
default_wait = 300000

abbrev pub is_unanswered : InteractionState → Bool
is_unanswered InteractionState.pending = true
is_unanswered _ = false

abbrev pub is_expired : InteractionState → Bool
is_expired InteractionState.expired = true
is_expired _ = false

abbrev pub is_awaiting : RunState → Bool
is_awaiting RunState.awaiting_input = true
is_awaiting _ = false

module _ (x : External) where
  -- The settings' own value where it is positive; `none` where they do not decode.
  unfoldable pub recorded_interaction_ttl : Option GoString → Option ℕ
  recorded_interaction_ttl none = some default_wait
  recorded_interaction_ttl (some []) = some default_wait
  recorded_interaction_ttl (some (c ∷ s)) = elim (x.settings_ttl (c ∷ s)) [
    | none ↦ none
    | some t ↦ some (if t == 0 then default_wait else t)
  ]

  abbrev pub waiting_row : Interaction → GoString → GoString → RunRow → InteractionRow
  waiting_row i checkpoint history r = record {
    id = i.id;
    run_id = r.id;
    journey_id = coalesce (non_empty i.journey_id) r.journey_id;
    definition_digest = r.definition_digest;
    kind = i.kind;
    artifact = i;
    checkpoint = checkpoint;
    history = history;
    expires_at = i.expires_at;
    state = InteractionState.pending;
    continuation_run_id = none;
    reply = none;
    marker = if is_approval i.kind then some Marker.requested else none;
    operation_key = i.operation_key;
    name_digest = i.name_digest;
    schema_digest = i.schema_digest;
  }

  -- The inserts and updates of a wait; a second pending interaction breaks the unique index, a
  -- second row of the ID the primary key.
  unfoldable pub record_wait : Interaction → GoString → GoString → RunRow → Tx (Unit {0})
  unfolding append_event
  record_wait i checkpoint history r = do
    j ← get
    require
        (not
          (anyb (λ (a : InteractionRow). str_eq a.id i.id || is_unanswered a.state) j.interactions))
        database
    put (record j {
      interactions = j.interactions ++ waiting_row i checkpoint history r ∷ [];
      history = history;
      runs =
          update_rows (λ (a : RunRow). str_eq a.id r.id)
            (λ (a : RunRow). record a {
              state = RunState.awaiting_input;
              owner_id = [];
              lease_until = j.now;
            })
            j.runs;
    })
    append_event (record (event r.id EventKind.run_awaiting_input) { call_id = i.call.call_id })

  unfoldable pub wait_body : Owner → Interaction → GoString → GoString → Tx (Unit {0})
  unfolding lock_owner bind_call recorded_interaction_ttl record_wait
  wait_body o i checkpoint history = do
    lock_owner o
    j ← get
    require (not (has_waiting o.command.run_id j)) pending_commands
    require (not (is_approval i.kind && (is_empty i.journey_id || is_empty i.operation_key)))
        bad_state
    r ← require_some (find_run o.command.run_id j) database
    version ← require_some r.product_version bad_state
    digest ← require_some r.definition_digest bad_state
    ttl ← require_some (recorded_interaction_ttl r.settings) bad_state
    expected ←
        require_some
          (bind_call x (record {
            journey_id = i.journey_id;
            operation_key = i.operation_key;
            name_digest = i.name_digest;
            schema_digest = i.schema_digest;
            arguments = i.call.arguments;
            product_version = version;
            principal = j.principal;
            conversation = o.command.thread_id;
            definition_set = digest;
          }))
          bad_state
    require (str_eq expected i.call.binding) bad_state
    record_wait (record i { expires_at = j.now + ttl }) checkpoint history r

  -- Wait: the interaction is valid and both documents are JSON.
  unfoldable pub wait : Owner → Interaction → GoString → GoString → Tx (Unit {0})
  unfolding validate wait_body
  wait o i checkpoint history =
      if validate i && x.is_json checkpoint && x.is_json history
      then wait_body o i checkpoint history
      else throw bad_state

  abbrev pub is_due : ℕ → InteractionRow → Bool
  is_due now i = is_unanswered i.state && leb i.expires_at now

  abbrev pub expire_row : InteractionRow → InteractionRow
  expire_row i = record i {
    state = InteractionState.expired;
    marker = if is_approval i.kind then some Marker.denied else none;
  }

  -- The call of an expired interaction is answered in the history, and its run fails.
  unfoldable pub fail_waiting_run : GoString → Tx (Unit {0})
  unfolding append_event
  fail_waiting_run run = do
    j ← get
    i ←
        require_some
          (find_row (λ (i : InteractionRow). str_eq i.run_id run && is_expired i.state)
            j.interactions)
          database
    closed ← require_some (x.close_history i.history i.artifact.call.provider_call_id) bad_state
    put (record j {
      history = closed;
      runs =
          update_rows (λ (r : RunRow). str_eq r.id run && is_awaiting r.state)
            (λ (r : RunRow). record r { state = RunState.failed }) j.runs;
    })
    append_event (event run EventKind.interaction_expired)
    append_event (record (event run EventKind.run_failed) { reason = Reason.interaction_expired })

  unfoldable pub fail_waiting_runs : List InteractionRow → Tx (Unit {0})
  unfolding fail_waiting_run
  fail_waiting_runs [] = pure tt
  fail_waiting_runs (i ∷ rest) = do fail_waiting_run i.run_id; fail_waiting_runs rest

  unfoldable pub expire_interactions : Tx (Unit {0})
  unfolding fail_waiting_runs
  expire_interactions = do
    j ← get
    put (record j { interactions = update_rows (is_due j.now) expire_row j.interactions })
    fail_waiting_runs (filterb (is_due j.now) j.interactions)
