-- ===== src/Journal.antt =====
-- internal/journal: the rows of one conversation thread (migrations/*.sql), as the store reads and
-- writes them. The thread's ID is left out of the rows; every transaction locks the conversation
-- row, so a journal is one state and its transactions come one after another. Times are
-- milliseconds of the database clock, which stands still within a transaction.
pub mod Transactions
pub mod Operations
pub mod Begin
pub mod Inversion
pub mod Dispatch
pub mod Approvals
pub mod Attempts
pub mod Outcomes
pub mod Owners
pub mod Interactions
pub mod Answers
pub mod Waits
pub mod Admission
pub mod Replies
pub mod Consumed
pub mod Sessions
pub mod Hoare
pub mod Held
pub mod Untouched
pub mod Used
pub mod Kept
pub mod Steps
pub mod Persists
pub mod Spent
pub mod Once
pub mod Over
pub mod Ended
pub mod Admitted
pub mod Finished
pub mod Finality
pub mod Log
pub mod LogKept
pub mod LogAdmission
pub mod Fencing
pub mod Renewals
pub mod Scope
pub mod Recorded
pub mod ScopeExamples
pub mod Examples
pub mod ReplyExamples
pub mod FinishExamples
use az_agent_platform_go.Prelude.{ℕ, Bool, List, [], Option, none, GoString, Result}

pub data RunState : Type 0 where
  awaiting_input interrupted pending running completed failed auth_required : RunState
  dependency_unavailable limit_exceeded : RunState

-- The store's errors (store.go, operations.go, interactions.go); `database` is any error of the
-- driver: a broken constraint, a row that is not there, a stored value that does not decode.
pub data JournalError : Type 0 where
  ownership pending_commands conflict expired forbidden busy bad_state definition : JournalError
  outcome_unknown superseded database : JournalError

pub record Command : Type 0 where
  pub thread_id : GoString
  pub run_id : GoString
  pub communication_id : GoString
  pub principal : GoString
  pub tenant : GoString
  pub text : GoString
  pub target_journey : GoString
  pub interaction_id : GoString
  pub reply_kind : GoString
  pub reply_json : GoString

pub record Owner : Type 0 where
  pub command : Command
  pub id : GoString
  pub epoch : ℕ

pub record AnswerOption : Type 0 where
  pub label : GoString
  pub description : GoString

pub record Question : Type 0 where
  pub id : GoString
  pub header : GoString
  pub question : GoString
  pub options : List AnswerOption

pub record ProposedCall : Type 0 where
  pub call_id : GoString
  pub provider_call_id : GoString
  pub name : GoString
  pub arguments : GoString
  pub binding : GoString

pub data Kind : Type 0 where
  clarification approval : Kind
  other_kind : GoString → Kind

pub record Interaction : Type 0 where
  pub id : GoString
  pub kind : Kind
  pub questions : List Question
  pub call : ProposedCall
  pub expires_at : ℕ
  pub journey_id : GoString
  pub operation_key : GoString
  pub name_digest : GoString
  pub schema_digest : GoString

pub record Answer : Type 0 where
  pub option : GoString
  pub custom : GoString

pub record Reply : Type 0 where
  pub answers : List (GoString × Answer)
  pub decision : GoString
  pub binding : GoString

pub data Outcome : Type 0 where
  dispatching completed rejected auth_required outcome_unknown : Outcome

pub data Policy : Type 0 where
  read_only idempotent effectful : Policy
  other_policy : GoString → Policy

pub record Operation : Type 0 where
  pub call_id : GoString
  pub name : GoString
  pub arguments : GoString
  pub binding : GoString
  pub policy : Policy
  pub operation_key : GoString
  pub name_digest : GoString
  pub schema_digest : GoString
  pub requires_approval : Bool
  pub journey_id : GoString

pub record CallBinding : Type 0 where
  pub journey_id : GoString
  pub operation_key : GoString
  pub name_digest : GoString
  pub schema_digest : GoString
  pub arguments : GoString
  pub product_version : GoString
  pub principal : GoString
  pub conversation : GoString
  pub definition_set : GoString

pub data Reason : Type 0 where
  no_reason journey_unavailable policy_conflict activation_refused interaction_expired : Reason
  run_reason : RunState → Reason
  -- The kind of limit, with retry_after_seconds of the event's detail.
  limit_hit : GoString → ℕ → Reason

pub data EventKind : Type 0 where
  run_started run_interrupted run_awaiting_input run_failed : EventKind
  run_finished : RunState → EventKind
  tool_started : EventKind
  tool_ended : Outcome → EventKind
  command_accepted command_included command_rejected command_interrupted command_consumed :
      EventKind
  interaction_consumed interaction_expired interaction_superseded : EventKind
  message_completed auth_required : EventKind

pub record Event : Type 0 where
  pub sequence : ℕ
  pub run_id : GoString
  pub kind : EventKind
  pub call_id : GoString
  pub tool_name : GoString
  pub answer : GoString
  pub communication_id : GoString
  pub reason : Reason

pub data Marker : Type 0 where
  requested decided dispatched denied superseded : Marker

pub data InteractionState : Type 0 where
  pending consumed expired : InteractionState

-- agent_runs
pub record RunRow : Type 0 where
  pub id : GoString
  pub state : RunState
  pub journey_id : Option GoString
  pub definition_digest : Option GoString
  pub answer : GoString
  pub owner_id : GoString
  pub owner_epoch : ℕ
  pub lease_until : ℕ
  pub product_version : Option GoString
  pub endpoint_id : Option GoString
  pub settings : Option GoString

-- terminal_reason of agent_commands
pub data Terminal : Type 0 where
  open_command consumed : Terminal
  ended : RunState → Terminal

-- agent_commands; the order of the rows is the ordinal.
pub record CommandRow : Type 0 where
  pub communication_id : GoString
  pub run_id : GoString
  pub execution_run_id : GoString
  pub payload : Command
  pub included : Bool
  pub terminal_reason : Terminal

-- agent_interactions
pub record InteractionRow : Type 0 where
  pub id : GoString
  pub run_id : GoString
  pub journey_id : Option GoString
  pub definition_digest : Option GoString
  pub kind : Kind
  pub artifact : Interaction
  pub checkpoint : GoString
  pub history : GoString
  pub expires_at : ℕ
  pub state : InteractionState
  pub continuation_run_id : Option GoString
  pub reply : Option GoString
  pub marker : Option Marker
  pub operation_key : GoString
  pub name_digest : GoString
  pub schema_digest : GoString

-- agent_operations
pub record OperationRow : Type 0 where
  pub call_id : GoString
  pub run_id : GoString
  pub alias : GoString
  pub operation_key : GoString
  pub binding : GoString
  pub policy : Policy
  pub requires_approval : Bool
  pub outcome : Outcome
  pub journey_id : Option GoString

-- agent_attempts
pub record AttemptRow : Type 0 where
  pub call_id : GoString
  pub attempt : ℕ
  pub outcome : Outcome

-- agent_conversations, the current definition set (agent_definition_current, which all threads
-- share), and the tables' rows of this thread.
pub record Journal : Type 0 where
  pub principal : GoString
  pub sequence : ℕ
  pub owner_epoch : ℕ
  pub history : GoString
  pub definition_digest : Option GoString
  pub active_journeys : List GoString
  pub definition_current : Option GoString
  pub runs : List RunRow
  pub commands : List CommandRow
  pub interactions : List InteractionRow
  pub operations : List OperationRow
  pub attempts : List AttemptRow
  pub events : List Event
  pub now : ℕ

-- A transaction: an error rolls back.
abbrev pub Tx : Type 0 → Type 0
Tx A = Journal → Result JournalError (A × Journal)

-- What the store takes from encoding/json, crypto/sha256 and the message library: decoding a reply
-- strictly and leniently, checking JSON and call arguments, sealing a binding, reading the wait cap
-- of recorded settings, and closing an expired call in a stored history.
pub record External : Type 0 where
  pub decode_strict : GoString → Option Reply
  pub unmarshal_reply : GoString → Option Reply
  pub is_json : GoString → Bool
  pub is_arguments : GoString → Bool
  pub seal : CallBinding → GoString
  pub settings_ttl : GoString → Option ℕ
  pub close_history : GoString → GoString → Option GoString
