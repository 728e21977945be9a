-- ===== src/Journal/Operations.antt =====
-- internal/journal/operations.go and binding.go: intents, attempts and the approvals they consume;
-- the supersede transaction of interactions.go.
use az_agent_platform_go.Prelude.{
  ℕ, Bool, true, false, not, ◌&&◌, ◌||◌, [], ◌∷◌, ◌++◌, Option, none, some, GoString, str_eq,
  is_empty, length, ◌==◌, find_row, update_rows, anyb, if◌then◌else◌,
}
use az_agent_platform_go.Journal.{
  Journal, Tx, bad_state, database, EventKind, RunRow, Owner, Operation, OperationRow, AttemptRow,
  InteractionRow, InteractionState, Kind, Marker, Outcome, Policy, External, CallBinding,
}
use az_agent_platform_go.Journal.Transactions.{
  ◌>>=◌, ◌>>◌, pure, get, put, require, require_some, append_event, event, lock_owner,
}

abbrev pub is_read_only : Policy → Bool
is_read_only Policy.read_only = true
is_read_only _ = false

abbrev pub is_effectful : Policy → Bool
is_effectful Policy.effectful = true
is_effectful _ = false

unfoldable pub valid_policy : Policy → Bool
valid_policy (Policy.other_policy s) = false
valid_policy _ = true

abbrev pub policy_eq : Policy → Policy → Bool
policy_eq Policy.read_only Policy.read_only = true
policy_eq Policy.idempotent Policy.idempotent = true
policy_eq Policy.effectful Policy.effectful = true
policy_eq (Policy.other_policy s) (Policy.other_policy t) = str_eq s t
policy_eq _ _ = false

-- outcome IN ('dispatching','outcome_unknown')
abbrev pub is_unresolved : Outcome → Bool
is_unresolved Outcome.dispatching = true
is_unresolved Outcome.outcome_unknown = true
is_unresolved _ = false

abbrev pub is_dispatching : Outcome → Bool
is_dispatching Outcome.dispatching = true
is_dispatching _ = false

-- The outcomes after which a second attempt may follow.
abbrev pub is_repeatable : Outcome → Bool
is_repeatable Outcome.rejected = true
is_repeatable Outcome.outcome_unknown = true
is_repeatable _ = false

abbrev pub is_approval : Kind → Bool
is_approval Kind.approval = true
is_approval _ = false

abbrev pub is_consumed : InteractionState → Bool
is_consumed InteractionState.consumed = true
is_consumed _ = false

abbrev pub is_decided : Option Marker → Bool
is_decided (some Marker.decided) = true
is_decided _ = false

abbrev pub is_superseded : Option Marker → Bool
is_superseded (some Marker.superseded) = true
is_superseded _ = false

abbrev pub or_empty : Option GoString → GoString
or_empty none = []
or_empty (some s) = s

-- NULLIF(s,'')
abbrev pub non_empty : GoString → Option GoString
non_empty [] = none
non_empty (c ∷ s) = some (c ∷ s)

-- COALESCE(a,b)
abbrev pub coalesce : Option GoString → Option GoString → Option GoString
coalesce none b = b
coalesce (some a) b = some a

abbrev pub equals_option : Option GoString → GoString → Bool
equals_option none s = false
equals_option (some t) s = str_eq t s

module _ (x : External) where
  -- `none` for an error, which every caller turns into ErrState.
  unfoldable pub bind_call : CallBinding → Option GoString
  bind_call b =
      if is_empty b.operation_key
        || is_empty b.name_digest
        || is_empty b.schema_digest
        || is_empty b.product_version
        || is_empty b.principal
        || is_empty b.conversation
        || not (length b.definition_set == 64)
      then none
      else if x.is_arguments b.arguments
      then some (x.seal b)
      else none

-- The approval that this run consumed.
abbrev pub consumed_approval : GoString → GoString → InteractionRow → Bool
consumed_approval id run i =
    str_eq i.id id
    && equals_option i.continuation_run_id run
    && is_approval i.kind
    && is_consumed i.state

abbrev pub set_marker : GoString → Marker → Journal → Journal
set_marker id m j = record j {
  interactions =
      update_rows (λ (i : InteractionRow). str_eq i.id id)
        (λ (i : InteractionRow). record i { marker = some m }) j.interactions;
}

unfoldable pub supersede_row : GoString → GoString → Tx (Unit {0})
unfolding append_event
supersede_row run id = do
  j ← get
  i ← require_some (find_row (consumed_approval id run) j.interactions) bad_state
  if is_superseded i.marker then pure tt else (do
    require (is_decided i.marker) bad_state
    put (set_marker id Marker.superseded j)
    append_event
        (record (event run EventKind.interaction_superseded) { call_id = i.artifact.call.call_id }))

unfoldable pub supersede : Owner → GoString → Tx (Unit {0})
unfolding lock_owner supersede_row
supersede o id = do lock_owner o; supersede_row o.command.run_id id

abbrev pub operation_row : GoString → Option GoString → Operation → OperationRow
operation_row run run_journey op = record {
  call_id = op.call_id;
  run_id = run;
  alias = op.name;
  operation_key = op.operation_key;
  binding = op.binding;
  policy = op.policy;
  requires_approval = op.requires_approval;
  outcome = Outcome.dispatching;
  journey_id = coalesce (non_empty op.journey_id) run_journey;
}

abbrev pub has_call : GoString → OperationRow → Bool
has_call call r = str_eq r.call_id call

abbrev pub attempt_is : GoString → ℕ → AttemptRow → Bool
attempt_is call n r = str_eq r.call_id call && r.attempt == n

-- The insert of the intent; a call ID that is taken breaks the primary key.
unfoldable pub insert_operation : RunRow → Operation → Tx (Unit {0})
insert_operation r op = do
  j ← get
  require (not (anyb (has_call op.call_id) j.operations)) database
  put (record j { operations = j.operations ++ operation_row r.id r.journey_id op ∷ [] })

unfoldable pub set_outcome : GoString → Outcome → Journal → Journal
set_outcome call out j = record j {
  operations =
      update_rows (has_call call) (λ (r : OperationRow). record r { outcome = out }) j.operations;
}

-- The insert of the attempt, and the event.
unfoldable pub open_attempt : GoString → Operation → ℕ → Tx (Unit {0})
unfolding append_event
open_attempt run op n = do
  j ← get
  require (not (anyb (attempt_is op.call_id n) j.attempts)) database
  put (record j {
    attempts =
        j.attempts
        ++ record { call_id = op.call_id; attempt = n; outcome = Outcome.dispatching } ∷ [];
  })
  append_event
      (record (event run EventKind.tool_started) { call_id = op.call_id; tool_name = op.name })

-- The second attempt of a call: only after a rejection or an uncertain outcome, unchanged, and
-- never for an effectful policy.
unfoldable pub reopen_operation : GoString → Operation → Tx (Unit {0})
unfolding set_outcome
reopen_operation run op = do
  j ← get
  r ←
      require_some
        (find_row (λ (r : OperationRow). has_call op.call_id r && str_eq r.run_id run) j.operations)
        database
  require
      (str_eq r.binding op.binding
        && policy_eq r.policy op.policy
        && is_repeatable r.outcome
        && not (is_effectful op.policy))
      bad_state
  put (set_outcome op.call_id Outcome.dispatching j)
