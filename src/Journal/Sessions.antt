-- ===== src/Journal/Sessions.antt =====
-- internal/journal/sessions.go, active.go, scope.go, and usage.go (FinishLimitExceeded): the start of
-- a run, its scope, its active journeys, and its end.
use az_agent_platform_go.Prelude.{
  ℕ, Bool, true, false, not, ◌&&◌, ◌||◌, List, [], ◌∷◌, Option, none, some, GoString, codes, str_eq,
  is_empty, length, contains, anyb, ◌==◌, if◌then◌else◌, sort_strings,
}
use az_agent_platform_go.Journal.{
  Tx, definition, bad_state, database, outcome_unknown, pending_commands, Owner, RunRow, RunState,
  OperationRow, InteractionRow, Event, EventKind, Reason, Outcome,
}
use az_agent_platform_go.Journal.Transactions.{
  ◌>>=◌, ◌>>◌, pure, throw, get, put, require, require_some, append_event, event, lock_owner,
  find_run, update_run,
}
use az_agent_platform_go.Journal.Operations.{
  is_unresolved, is_decided, is_approval, or_empty, non_empty, coalesce, equals_option, is_consumed,
}
use az_agent_platform_go.Journal.Outcomes.{mark_operations_unknown, dispose_pending, has_waiting}
use az_agent_platform_go.Journal.Waits.{is_unanswered}

-- An unpinned conversation pins to the current set, which is the given one where there is none.
unfoldable pub pin_definition : GoString → Tx (Unit {0})
pin_definition digest = do
  j ← get
  elim j.definition_digest [
    | some pin ↦ require (str_eq pin digest) definition
    | none ↦ elim j.definition_current [
      | none ↦ put (record j { definition_current = some digest; definition_digest = some digest })
      | some current ↦ (do
        require (str_eq current digest) definition
        put (record j { definition_digest = some digest }))
    ]
  ]

-- The run's journey may be set once.
abbrev pub takes_journey : GoString → RunRow → Bool
takes_journey [] r = true
takes_journey (c ∷ s) r = elim r.journey_id [ none ↦ true | some t ↦ str_eq t (c ∷ s) ]

unfoldable pub start_body : Owner → GoString → GoString → Tx GoString
unfolding lock_owner pin_definition
start_body o journey digest = do
  lock_owner o
  j ← get
  require (not (anyb (λ (u : OperationRow). is_unresolved u.outcome) j.operations)) outcome_unknown
  pin_definition digest
  k ← get
  r ← require_some (find_run o.command.run_id k) definition
  require (takes_journey journey r) definition
  put (
      update_run o.command.run_id
        (λ (r : RunRow). record r {
          journey_id = coalesce (non_empty journey) r.journey_id;
          definition_digest = some digest;
        })
        k)
  pure k.history

unfoldable pub start : Owner → GoString → GoString → Tx GoString
unfolding start_body
start o journey digest =
    if length digest == 64 then start_body o journey digest else throw definition

abbrev pub is_completed : RunState → Bool
is_completed RunState.completed = true
is_completed _ = false

abbrev pub is_pinned : Option GoString → Bool
is_pinned none = false
is_pinned (some s) = true

-- Before the end: a completed run has no command left, any other disposes of what it has.
unfoldable pub settle : GoString → RunState → Tx (Unit {0})
unfolding mark_operations_unknown dispose_pending
settle run state = do
  j ← get
  if is_completed state
      then require (not (has_waiting run j)) pending_commands
      else (do mark_operations_unknown run; dispose_pending run state)

unfoldable pub keep_history : Bool → GoString → Tx (Unit {0})
keep_history pinned [] = pure tt
keep_history pinned (c ∷ s) = do
  j ← get
  if pinned then put (record j { history = c ∷ s }) else pure tt

unfoldable pub announce_answer :
    GoString → RunState → GoString → GoString → GoString → Tx (Unit {0})
unfolding append_event
announce_answer run state answer call tool =
    if is_completed state
    then (do
      if is_empty call
          then pure tt
          else append_event (record (event run (EventKind.tool_ended Outcome.completed)) {
            call_id = call;
            tool_name = tool;
          })
      append_event (record (event run EventKind.message_completed) { answer = answer }))
    else pure tt

abbrev pub end_event : GoString → RunState → Option Reason → Event
end_event run RunState.limit_exceeded (some reason) =
    record (event run (EventKind.run_finished RunState.limit_exceeded)) { reason = reason }
end_event run state (some reason) = record (event run EventKind.run_failed) { reason = reason }
end_event run RunState.auth_required none = event run EventKind.auth_required
end_event run RunState.failed none = event run EventKind.run_failed
end_event run state none = event run (EventKind.run_finished state)

-- finish; a reason stands for the terminal event of FinishFailed and of FinishLimitExceeded.
unfoldable pub finish :
    Owner → RunState → GoString → GoString → GoString → GoString → Option Reason → Tx (Unit {0})
unfolding lock_owner settle keep_history announce_answer append_event
finish o state history answer call tool reason = do
  lock_owner o
  j ← get
  r ← require_some (find_run o.command.run_id j) database
  settle o.command.run_id state
  keep_history (is_pinned r.definition_digest) history
  announce_answer o.command.run_id state answer call tool
  k ← get
  put (update_run o.command.run_id (λ (r : RunRow). record r { state = state; answer = answer }) k)
  append_event (end_event o.command.run_id state reason)

abbrev pub may_finish : RunState → Bool
may_finish RunState.completed = true
may_finish RunState.failed = true
may_finish RunState.auth_required = true
may_finish RunState.dependency_unavailable = true
may_finish _ = false

-- Finish
unfoldable pub finish_run :
    Owner → RunState → GoString → GoString → GoString → GoString → Tx (Unit {0})
unfolding finish
finish_run o state history answer call tool =
    if may_finish state then finish o state history answer call tool none else throw bad_state

abbrev pub is_client_reason : Reason → Bool
is_client_reason Reason.journey_unavailable = true
is_client_reason Reason.policy_conflict = true
is_client_reason Reason.activation_refused = true
is_client_reason _ = false

-- FinishFailed
unfoldable pub finish_failed : Owner → GoString → Reason → Tx (Unit {0})
unfolding finish
finish_failed o history reason =
    if is_client_reason reason
    then finish o RunState.failed history [] [] [] (some reason)
    else throw bad_state

-- FinishLimitExceeded; `retry` is the duration in seconds, rounded up, and 0 where it is negative.
unfoldable pub finish_limit_exceeded : Owner → GoString → GoString → ℕ → Tx (Unit {0})
unfolding finish
finish_limit_exceeded o history kind retry =
    if str_eq kind (codes "budget") || str_eq kind (codes "rate")
    then finish o RunState.limit_exceeded history [] [] [] (some (Reason.limit_hit kind retry))
    else throw bad_state

-- An approval that pins its journey: waiting, or decided for this run and not dispatched.
abbrev pub pins : GoString → InteractionRow → Bool
pins run i =
    is_approval i.kind
    && not (is_empty (or_empty i.journey_id))
    && (is_unanswered i.state
        || is_consumed i.state && equals_option i.continuation_run_id run && is_decided i.marker)

abbrev pub operation_pins : OperationRow → Bool
operation_pins u = not (is_empty (or_empty u.journey_id)) && is_unresolved u.outcome

abbrev pub add_journey : Option GoString → List GoString → List GoString
add_journey none js = js
add_journey (some j) js = if contains js j then js else j ∷ js

abbrev pub approval_journeys : GoString → List InteractionRow → List GoString
approval_journeys run [] = []
approval_journeys run (i ∷ rest) =
    let js = approval_journeys run rest in if pins run i then add_journey i.journey_id js else js

abbrev pub operation_journeys : List OperationRow → List GoString → List GoString
operation_journeys [] js = js
operation_journeys (u ∷ rest) js =
    let more = operation_journeys rest js in
    if operation_pins u then add_journey u.journey_id more else more

-- ActiveJourneys: the active set, and the pinned journeys, distinct and in order.
unfoldable pub active_journeys_of : Owner → Tx (List GoString × List GoString)
unfolding lock_owner
active_journeys_of o = do
  lock_owner o
  j ← get
  pure (
    j.active_journeys,
    sort_strings
        (operation_journeys j.operations (approval_journeys o.command.run_id j.interactions)),
  )

abbrev pub is_set_after : List GoString → List GoString → Bool
is_set_after seen [] = true
is_set_after seen (j ∷ js) = not (is_empty j) && not (contains seen j) && is_set_after (j ∷ seen) js

unfoldable pub set_active_journeys : Owner → List GoString → Tx (Unit {0})
unfolding lock_owner
set_active_journeys o active =
    if is_set_after [] active
    then (do lock_owner o; j ← get; put (record j { active_journeys = active }))
    else throw bad_state
