-- ===== src/Journal/Outcomes.antt =====
-- internal/journal/operations.go and inbox.go: what becomes of the open operations and of the
-- pending commands of a run that ends.
use az_agent_platform_go.Prelude.{
  Bool, true, false, not, ◌&&◌, List, [], ◌∷◌, GoString, str_eq, update_rows, filterb, anyb, length,
  ◌==◌,
}
use az_agent_platform_go.Journal.{
  Journal, Tx, bad_state, Event, EventKind, run_reason, RunState, CommandRow, Terminal, Owner,
  OperationRow, AttemptRow, Outcome,
}
use az_agent_platform_go.Journal.Transactions.{
  ◌>>=◌, ◌>>◌, pure, get, put, require, append_event, append_all, event, lock_owner,
}
use az_agent_platform_go.Journal.Operations.{is_dispatching}

abbrev pub in_run : GoString → OperationRow → Bool
in_run run r = str_eq r.run_id run

abbrev pub is_open : GoString → OperationRow → Bool
is_open run r = in_run run r && is_dispatching r.outcome

abbrev pub unknown_event : GoString → OperationRow → Event
unknown_event run r = record (event run (EventKind.tool_ended Outcome.outcome_unknown)) {
  call_id = r.call_id;
  tool_name = r.alias;
}

unfoldable pub mark_operations_unknown : GoString → Tx (Unit {0})
mark_operations_unknown run = do
  j ← get
  put (record j {
    attempts =
        update_rows
          (λ (a : AttemptRow).
            is_dispatching a.outcome
            && anyb (λ (r : OperationRow). str_eq r.call_id a.call_id && in_run run r) j.operations)
          (λ (a : AttemptRow). record a { outcome = Outcome.outcome_unknown }) j.attempts;
    operations =
        update_rows (is_open run)
          (λ (r : OperationRow). record r { outcome = Outcome.outcome_unknown }) j.operations;
  })
  append_all (unknown_event run) (filterb (is_open run) j.operations)

abbrev pub is_undecided : Terminal → Bool
is_undecided Terminal.open_command = true
is_undecided _ = false

-- execution_run_id=… AND NOT included AND terminal_reason=''
abbrev pub is_waiting : GoString → CommandRow → Bool
is_waiting run c = str_eq c.execution_run_id run && not c.included && is_undecided c.terminal_reason

abbrev pub has_waiting : GoString → Journal → Bool
has_waiting run j = anyb (is_waiting run) j.commands

abbrev pub disposal : RunState → EventKind
disposal RunState.interrupted = EventKind.command_interrupted
disposal _ = EventKind.command_rejected

abbrev pub disposed_event : GoString → RunState → CommandRow → Event
disposed_event run reason c = record (event run (disposal reason)) {
  communication_id = c.communication_id;
  reason = run_reason reason;
}

unfoldable pub dispose_pending : GoString → RunState → Tx (Unit {0})
dispose_pending run reason = do
  j ← get
  put (record j {
    commands =
        update_rows (is_waiting run)
          (λ (c : CommandRow). record c { terminal_reason = Terminal.ended reason }) j.commands;
  })
  append_all (disposed_event run reason) (filterb (is_waiting run) j.commands)

-- One command is marked included; it must still wait.
unfoldable pub include_one : GoString → GoString → Tx (Unit {0})
include_one run communication = do
  j ← get
  let wanted = λ (c : CommandRow). is_waiting run c && str_eq c.communication_id communication
  put (record j {
    commands = update_rows wanted (λ (c : CommandRow). record c { included = true }) j.commands;
  })
  require (length (filterb wanted j.commands) == 1) bad_state
  append_event (record (event run EventKind.command_included) { communication_id = communication })

unfoldable pub include_all : GoString → List GoString → Tx (Unit {0})
include_all run [] = pure tt
include_all run (c ∷ cs) = do include_one run c; include_all run cs

-- Included, on the communication IDs of its inputs.
unfoldable pub include_commands : Owner → List GoString → Tx (Unit {0})
unfolding lock_owner
include_commands o cs = do lock_owner o; include_all o.command.run_id cs
