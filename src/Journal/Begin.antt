-- ===== src/Journal/Begin.antt =====
-- internal/journal/operations.go: BeginAttempt and EndAttempt, over the writes of Operations.
use az_agent_platform_go.Prelude.{
  ℕ, Bool, true, false, not, ◌&&◌, ◌||◌, Option, none, some, GoString, str_eq, is_empty, codes,
  length, ok, err, ltb, leb, ◌==◌, find_row, update_rows, filterb, anyb, if◌then◌else◌,
}
use az_agent_platform_go.Journal.{
  Journal, Tx, JournalError, bad_state, database, outcome_unknown, superseded, EventKind, RunRow,
  Owner, Operation, OperationRow, AttemptRow, InteractionRow, Marker, Outcome, External,
}
use az_agent_platform_go.Journal.Transactions.{
  ◌>>=◌, ◌>>◌, pure, get, put, require, require_some, append_event, event, lock_owner, find_run,
}
use az_agent_platform_go.Journal.Operations.{
  is_read_only, valid_policy, is_unresolved, is_dispatching, is_decided, or_empty, bind_call,
  consumed_approval, set_marker, supersede_row, has_call, attempt_is, insert_operation,
  open_attempt, reopen_operation,
}

-- What the store finds about the approval of a first attempt.
pub data Approval : Type 0 where
  granted stale : Approval

module _ (x : External) where
  -- The checks of a consumed approval: approved, for this very call, decided and not dispatched;
  -- stale where its journey or binding is no longer the call's.
  unfoldable pub check_approval : GoString → Operation → GoString → GoString → Tx Approval
  check_approval run op expected id = do
    j ← get
    i ←
        require_some
          (find_row (λ (i : InteractionRow). consumed_approval id run i && ltb j.now i.expires_at)
            j.interactions)
          bad_state
    answer ← require_some (x.unmarshal_reply (or_empty i.reply)) bad_state
    require
        (str_eq answer.decision (codes "approve")
          && str_eq i.artifact.call.call_id op.call_id
          && str_eq i.artifact.call.name op.name)
        bad_state
    require (is_decided i.marker) bad_state
    pure (
        if str_eq (or_empty i.journey_id) op.journey_id && str_eq i.artifact.call.binding expected
        then Approval.granted
        else Approval.stale)

  -- The body of the transaction, by attempt; true where the approval was superseded.
  unfoldable pub begin_first : RunRow → Operation → GoString → GoString → Tx Bool
  begin_first r op expected id =
      if op.requires_approval
      then (do
        a ← check_approval r.id op expected id
        elim a [
          | Approval.stale ↦ do supersede_row r.id id; pure true
          | Approval.granted ↦ do
            insert_operation r op
            j ← get
            put (set_marker id Marker.dispatched j)
            open_attempt r.id op 1
            pure false
        ])
      else (do insert_operation r op; open_attempt r.id op 1; pure false)

  unfoldable pub begin_again : RunRow → Operation → ℕ → Tx Bool
  begin_again r op n = do reopen_operation r.id op; open_attempt r.id op n; pure false

  unfoldable pub begin_body : Owner → Operation → ℕ → GoString → Tx Bool
  begin_body o op n id = do
    lock_owner o
    j ← get
    r ← require_some (find_run o.command.run_id j) database
    version ← require_some r.product_version bad_state
    digest ← require_some r.definition_digest bad_state
    expected ←
        require_some
          (bind_call x (record {
            journey_id = op.journey_id;
            operation_key = op.operation_key;
            name_digest = op.name_digest;
            schema_digest = op.schema_digest;
            arguments = op.arguments;
            product_version = version;
            principal = j.principal;
            conversation = o.command.thread_id;
            definition_set = digest;
          }))
          bad_state
    require (str_eq expected op.binding) bad_state
    require
        (not (
          anyb (λ (u : OperationRow). is_unresolved u.outcome && not (has_call op.call_id u))
            j.operations))
        outcome_unknown
    if n == 1 then begin_first r op expected id else begin_again r op n

  -- The guard before the transaction.
  unfoldable pub begin_guard : Operation → ℕ → Bool
  unfolding valid_policy
  begin_guard op n =
      not (is_empty op.call_id)
      && leb 1 n
      && leb n 2
      && valid_policy op.policy
      && (is_read_only op.policy || op.requires_approval)

  -- A superseded approval commits its marker and still fails.
  unfoldable pub begin_attempt :
      Owner → Operation → ℕ → GoString → Journal → Journal × Option JournalError
  begin_attempt o op n id j =
      if begin_guard op n
      then elim (begin_body o op n id j) [
        | err e ↦ (j, some e)
        | ok (gone, j') ↦ (j', if gone then some superseded else none)
      ]
      else (j, some bad_state)

abbrev pub is_end : Outcome → Bool
is_end Outcome.dispatching = false
is_end _ = true

-- The open row of a call in a run, and of one of its attempts.
abbrev pub open_operation : GoString → GoString → OperationRow → Bool
open_operation call run r = has_call call r && str_eq r.run_id run && is_dispatching r.outcome

abbrev pub open_attempt_row : GoString → ℕ → AttemptRow → Bool
open_attempt_row call n a = attempt_is call n a && is_dispatching a.outcome

unfoldable pub end_body : Owner → Operation → ℕ → Outcome → Tx (Unit {0})
end_body o op n out = do
  lock_owner o
  j ← get
  let open_op = open_operation op.call_id o.command.run_id
  put (record j {
    operations =
        update_rows open_op (λ (r : OperationRow). record r { outcome = out }) j.operations;
  })
  require (length (filterb open_op j.operations) == 1) bad_state
  k ← get
  let open_row = open_attempt_row op.call_id n
  put (record k {
    attempts = update_rows open_row (λ (a : AttemptRow). record a { outcome = out }) k.attempts;
  })
  require (length (filterb open_row k.attempts) == 1) bad_state
  append_event (record (event o.command.run_id (EventKind.tool_ended out)) {
    call_id = op.call_id;
    tool_name = op.name;
  })

unfoldable pub end_attempt :
    Owner → Operation → ℕ → Outcome → Journal → Journal × Option JournalError
end_attempt o op n out j =
    if is_end out
    then elim (end_body o op n out j) [ err e ↦ (j, some e) | ok (u, j') ↦ (j', none) ]
    else (j, some bad_state)
