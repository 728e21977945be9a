-- ===== src/Journal/Replies.antt =====
-- internal/journal/interactions.go: the reply to a waiting interaction, and the continuation of it.
use az_agent_platform_go.Prelude.{
  Bool, true, false, not, ◌&&◌, ◌||◌, Option, none, some, GoString, str_eq, is_empty, codes, ltb,
  find_row, update_rows, if◌then◌else◌, Result, ok, err,
}
use az_agent_platform_go.Journal.{
  Journal, Tx, JournalError, conflict, expired, bad_state, database, Command, CommandRow,
  InteractionRow, InteractionState, Interaction, Kind, Marker, Reply, RunRow, RunState, Terminal,
  EventKind, External, Owner,
}
use az_agent_platform_go.Journal.Transactions.{
  ◌>>=◌, ◌>>◌, pure, get, put, require, require_some, append_event, event, lock_conversation,
  lock_owner,
}
use az_agent_platform_go.Journal.Operations.{is_approval, or_empty}
use az_agent_platform_go.Journal.Owners.{command_eq, is_continuation}
use az_agent_platform_go.Journal.Interactions.{validate_reply}
use az_agent_platform_go.Journal.Waits.{expire_interactions, is_unanswered, is_expired, is_awaiting}
use az_agent_platform_go.Journal.Admission.{
  Receipt, receipt_for, insert_command, insert_run, find_accepted,
}

-- The kind's name in a command.
abbrev pub kind_name : Kind → GoString
kind_name Kind.clarification = codes "clarification"
kind_name Kind.approval = codes "approval"
kind_name (Kind.other_kind s) = s

-- The reply approves the call of an approval.
abbrev pub approves : Interaction → Reply → Bool
approves i r = is_approval i.kind && str_eq r.decision (codes "approve")

abbrev pub answered_marker : Interaction → Reply → Option Marker
answered_marker i r =
    if is_approval i.kind
    then (if str_eq r.decision (codes "approve") then some Marker.decided else some Marker.denied)
    else none

abbrev pub is_misdirected : Command → InteractionRow → Bool
is_misdirected c i =
    not (str_eq (kind_name i.artifact.kind) c.reply_kind)
    || not (is_empty c.target_journey)
      && not (is_empty (or_empty i.journey_id))
      && not (str_eq c.target_journey (or_empty i.journey_id))

abbrev pub consume_row : Command → Option Marker → InteractionRow → InteractionRow
consume_row c marker i = record i {
  state = InteractionState.consumed;
  continuation_run_id = some c.run_id;
  reply = some c.reply_json;
  marker = marker;
}

abbrev pub end_awaiting : GoString → Journal → Journal
end_awaiting run j = record j {
  runs =
      update_rows (λ (r : RunRow). str_eq r.id run && is_awaiting r.state)
        (λ (r : RunRow). record r { state = RunState.completed }) j.runs;
}

-- The command of an approval is consumed with it: there is no text to send to the provider.
unfoldable pub consume_command : Command → Tx (Unit {0})
unfolding append_event
consume_command c = do
  j ← get
  put (record j {
    commands =
        update_rows (λ (m : CommandRow). str_eq m.communication_id c.communication_id)
          (λ (m : CommandRow). record m { terminal_reason = Terminal.consumed }) j.commands;
  })
  append_event
      (record (event c.run_id EventKind.command_consumed) { communication_id = c.communication_id })

-- The writes of a reply that is accepted.
unfoldable pub record_reply : Command → Reply → InteractionRow → Tx (Unit {0})
unfolding insert_command insert_run append_event consume_command
record_reply c answer i = do
  insert_command c c.run_id database
  insert_run c.run_id i.journey_id i.definition_digest database
  j ← get
  put (
      end_awaiting i.run_id (record j {
        interactions =
            update_rows (λ (a : InteractionRow). str_eq a.id c.interaction_id)
              (consume_row c (answered_marker i.artifact answer)) j.interactions;
      }))
  append_event (event i.run_id EventKind.interaction_consumed)
  append_event
      (record (event c.run_id EventKind.command_accepted) { communication_id = c.communication_id })
  if approves i.artifact answer then consume_command c else pure tt

-- What a reply's transaction commits: nothing new, an expiry, or a continuation.
pub data Replied : Type 0 where
  repeated : GoString → Replied
  lapsed fresh : Replied

module _ (x : External) where
  unfoldable pub reply_body : Command → Reply → Tx Replied
  unfolding lock_conversation expire_interactions validate_reply record_reply
  reply_body c answer = do
    lock_conversation c.principal
    j ← get
    elim (find_accepted c.communication_id j) [
      | some m ↦ (do require (command_eq m.payload c) conflict; pure (repeated m.execution_run_id))
      | none ↦ (do
        i ←
            require_some
              (find_row (λ (a : InteractionRow). str_eq a.id c.interaction_id) j.interactions)
              bad_state
        let valid = ltb j.now i.expires_at
        if not valid && is_unanswered i.state then (do expire_interactions x; pure lapsed) else (do
          require (not (is_expired i.state)) expired
          require (valid && is_unanswered i.state) conflict
          require (not (is_misdirected c i)) bad_state
          require (validate_reply i.artifact answer) bad_state
          record_reply c answer i
          pure fresh))
    ]

  -- The receipt, and whether a run was created. An expiry is committed and reported.
  unfoldable pub reply : Command → Journal → Journal × Result JournalError (Receipt × Bool)
  unfolding reply_body
  reply c j =
      if is_empty c.thread_id
        || is_empty c.run_id
        || is_empty c.principal
        || is_empty c.communication_id
        || not (is_empty c.text)
      then (j, err bad_state)
      else elim (x.decode_strict c.reply_json) [
        | none ↦ (j, err bad_state)
        | some answer ↦ elim (reply_body c answer j) [
          | err e ↦ (j, err e)
          | ok (repeated run, k) ↦ (k, ok (receipt_for c run, false))
          | ok (lapsed, k) ↦ (k, err expired)
          | ok (fresh, k) ↦ (k, ok (receipt_for c c.run_id, true))
        ]
      ]

  -- Continuation: the row a reply consumed for this run, with its reply.
  unfoldable pub continuation : Owner → Tx (Option (InteractionRow × Reply))
  unfolding lock_owner
  continuation o = if is_empty o.command.interaction_id then pure none else (do
    lock_owner o
    j ← get
    i ←
        require_some
          (find_row
            (λ (a : InteractionRow).
              str_eq a.id o.command.interaction_id && is_continuation o.command.run_id a)
            j.interactions)
          database
    r ← require_some (x.unmarshal_reply (or_empty i.reply)) database
    pure (some (i, r)))
