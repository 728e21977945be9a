-- ===== src/Journal/Admission.antt =====
-- internal/journal/commands.go: the admission of a command, and the sweep of expired leases
-- (Reap, owners.go).
use az_agent_platform_go.Prelude.{
  ℕ, ◌+◌, Bool, true, false, not, ◌&&◌, ◌||◌, List, [], ◌∷◌, ◌++◌, Option, none, some, GoString,
  str_eq, is_empty, anyb, find_row, if◌then◌else◌, ok, err,
}
use az_agent_platform_go.Journal.{
  Journal, Tx, JournalError, conflict, busy, bad_state, Command, CommandRow, RunRow, RunState,
  Terminal, EventKind, External, InteractionRow,
}
use az_agent_platform_go.Journal.Transactions.{
  ◌>>=◌, ◌>>◌, pure, throw, get, put, require, append_event, event, lock_conversation, is_live,
}
use az_agent_platform_go.Journal.Operations.{or_empty}
use az_agent_platform_go.Journal.Owners.{command_eq, interrupt_expired}
use az_agent_platform_go.Journal.Waits.{expire_interactions, is_unanswered}

-- The lease of a run that nobody has claimed, in milliseconds (000002_ownership.sql).
abbrev pub first_lease : ℕ
first_lease = 15000

pub record Receipt : Type 0 where
  pub thread_id : GoString
  pub run_id : GoString
  pub communication_id : GoString
  pub execution_run_id : GoString

abbrev pub receipt_for : Command → GoString → Receipt
receipt_for c execution = record {
  thread_id = c.thread_id;
  run_id = c.run_id;
  communication_id = c.communication_id;
  execution_run_id = execution;
}

-- A run as its insert leaves it.
abbrev pub pending_run : GoString → Option GoString → Option GoString → ℕ → RunRow
pending_run id journey digest now = record {
  id = id;
  state = RunState.pending;
  journey_id = journey;
  definition_digest = digest;
  answer = [];
  owner_id = [];
  owner_epoch = 0;
  lease_until = now + first_lease;
  product_version = none;
  endpoint_id = none;
  settings = none;
}

abbrev pub accepted_row : Command → GoString → CommandRow
accepted_row c execution = record {
  communication_id = c.communication_id;
  run_id = c.run_id;
  execution_run_id = execution;
  payload = c;
  included = false;
  terminal_reason = Terminal.open_command;
}

-- agent_commands: the communication ID is the primary key, the run ID unique.
abbrev pub is_taken : Command → CommandRow → Bool
is_taken c m = str_eq m.communication_id c.communication_id || str_eq m.run_id c.run_id

unfoldable pub insert_command : Command → GoString → JournalError → Tx (Unit {0})
insert_command c execution broken = do
  j ← get
  require (not (anyb (is_taken c) j.commands)) broken
  put (record j { commands = j.commands ++ accepted_row c execution ∷ [] })

-- agent_runs: the ID is the primary key, and one run of a conversation is live.
unfoldable pub insert_run :
    GoString → Option GoString → Option GoString → JournalError → Tx (Unit {0})
insert_run id journey digest broken = do
  j ← get
  require (not (anyb (λ (r : RunRow). str_eq r.id id || is_live r.state) j.runs)) broken
  put (record j { runs = j.runs ++ pending_run id journey digest j.now ∷ [] })

abbrev pub find_accepted : GoString → Journal → Option CommandRow
find_accepted communication j =
    find_row (λ (m : CommandRow). str_eq m.communication_id communication) j.commands

-- A live run, with the command that created it.
abbrev pub live_run : Journal → Option (RunRow × CommandRow)
live_run j = elim (find_row (λ (r : RunRow). is_live r.state) j.runs) [
  | none ↦ none
  | some r ↦ elim (find_row (λ (m : CommandRow). str_eq m.run_id r.id) j.commands) [
    | none ↦ none
    | some m ↦ some (r, m)
  ]
]

-- A command for another journey than the live run's is refused.
abbrev pub is_foreign : Command → RunRow → CommandRow → Bool
is_foreign c r m =
    not (is_empty c.target_journey)
    && not (str_eq c.target_journey (or_empty r.journey_id))
    && not (str_eq c.target_journey m.payload.target_journey)

unfoldable pub schedule : Command → Tx (Receipt × Bool)
unfolding insert_command insert_run append_event
schedule c = do
  j ← get
  elim (live_run j) [
    | none ↦ (do
      insert_command c c.run_id conflict
      insert_run c.run_id none none conflict
      append_event (record (event c.run_id EventKind.command_accepted) {
        communication_id = c.communication_id;
      })
      pure (receipt_for c c.run_id, true))
    | some (r, m) ↦ (do
      require (not (is_foreign c r m)) busy
      insert_command c r.id conflict
      append_event
          (record (event r.id EventKind.command_accepted) { communication_id = c.communication_id })
      pure (receipt_for c r.id, false))
  ]

module _ (x : External) where
  -- The first admission of a conversation creates it before this; a repeated command returns its
  -- first receipt, and one that differs is a conflict.
  unfoldable pub admit_body : Command → Tx (Receipt × Bool)
  unfolding lock_conversation interrupt_expired expire_interactions schedule
  admit_body c = do
    lock_conversation c.principal
    j ← get
    elim (find_accepted c.communication_id j) [
      | some m ↦ (do
        require (command_eq m.payload c) conflict
        pure (receipt_for c m.execution_run_id, false))
      | none ↦ (do
        interrupt_expired []
        expire_interactions x
        k ← get
        require (not (anyb (λ (i : InteractionRow). is_unanswered i.state) k.interactions)) busy
        schedule c)
    ]

  -- Admit, for a command that is no reply.
  unfoldable pub admit : Command → Tx (Receipt × Bool)
  unfolding admit_body
  admit c =
      if is_empty c.thread_id
        || is_empty c.run_id
        || is_empty c.communication_id
        || is_empty c.principal
        || is_empty c.text
      then throw bad_state
      else admit_body c

  -- One transaction of Reap.
  unfoldable pub reap_run : GoString → Tx (Unit {0})
  unfolding interrupt_expired expire_interactions
  reap_run run = do interrupt_expired run; expire_interactions x

  -- The candidates of the scan, one transaction each; the first error ends the sweep.
  abbrev pub reap_runs : List GoString → Journal → Journal × Option JournalError
  reap_runs [] j = (j, none)
  reap_runs (run ∷ rest) j = elim (reap_run run j) [
    | err e ↦ (j, some e)
    | ok (u, k) ↦ reap_runs rest k
  ]
