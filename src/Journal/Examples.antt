-- ===== src/Journal/Examples.antt =====
-- A conversation with an approved call and with a rejected read-only call, and attempts on it.
use az_agent_platform_go.Prelude.{
  ◌≡◌, refl, true, false, none, some, GoString, codes, List, [], ◌∷◌, is_empty, not, str_eq, ok,
  err, ◌++◌, ◌+◌, ◌≤◌, anyb, find_row, ◌&&◌,
}
use az_agent_platform_go.Journal.{
  Journal, JournalError, Command, Owner, Operation, OperationRow, InteractionRow, InteractionState,
  RunRow, RunState, Kind, External, Marker, Outcome, Policy, Event,
}
use az_agent_platform_go.Journal.Transactions.{
  holds, find_run, append_event, lock_owner, lock_conversation,
}
use az_agent_platform_go.Journal.Operations.{
  bind_call, has_call, insert_operation, open_attempt, reopen_operation, set_outcome, valid_policy,
}
use az_agent_platform_go.Journal.Begin.{
  begin_attempt, begin_guard, begin_body, begin_first, begin_again, check_approval,
}
use az_agent_platform_go.Journal.Dispatch.{Approved, blocks, is_current}
use az_agent_platform_go.Journal.Attempts.{
  begin_attempt_safe, begin_attempt-Approved, begin_attempt_again, is_retry, Sealed,
}
use az_agent_platform_go.Journal.Admission.{
  admit, admit_body, schedule, insert_command, insert_run, Receipt, receipt_for,
}
use az_agent_platform_go.Journal.Owners.{
  claim, check_owner, claim_body, take_run, interrupt_expired,
}
use az_agent_platform_go.Journal.Waits.{expire_interactions, fail_waiting_runs}
use az_agent_platform_go.Journal.Log.{IsNumbered}
use az_agent_platform_go.Journal.LogAdmission.{admit-Extends}
use az_agent_platform_go.Journal.Fencing.{claim_fences}
use az_agent_platform_go.Journal.Renewals.{claim-renew_each, renew_each, later}
use native.Mathlib.Omega.{arith}

-- A binding sealed by its operation key; every stored text is a reply that approves.
abbrev pub outside : External
outside = record {
  decode_strict = λ s. some (record { answers = []; decision = codes "approve"; binding = s });
  unmarshal_reply = λ s. some (record { answers = []; decision = codes "approve"; binding = s });
  is_json = λ s. true;
  is_arguments = λ s. not (is_empty s);
  seal = λ b. b.operation_key;
  settings_ttl = λ s. none;
  close_history = λ h s. some h;
}

abbrev pub digest64 : GoString
digest64 = codes "0123456789abcdef0123456789abcdef0123456789abcdef0123456789abcdef"

abbrev pub command : Command
command = record {
  thread_id = codes "t";
  run_id = codes "r";
  communication_id = codes "c";
  principal = codes "p";
  tenant = codes "n";
  text = codes "hi";
  target_journey = [];
  interaction_id = [];
  reply_kind = [];
  reply_json = [];
}

abbrev pub owner : Owner
owner = record { command = command; id = codes "w"; epoch = 3 }

abbrev run_row : RunRow
run_row = record {
  id = codes "r";
  state = RunState.running;
  journey_id = some (codes "j");
  definition_digest = some digest64;
  answer = [];
  owner_id = codes "w";
  owner_epoch = 3;
  lease_until = 50;
  product_version = some (codes "1");
  endpoint_id = none;
  settings = none;
}

abbrev call : Operation
call = record {
  call_id = codes "k";
  name = codes "stop";
  arguments = codes "{}";
  binding = codes "op";
  policy = Policy.effectful;
  operation_key = codes "op";
  name_digest = codes "nd";
  schema_digest = codes "sd";
  requires_approval = true;
  journey_id = codes "j";
}

abbrev lookup_call : Operation
lookup_call = record call {
  call_id = codes "l";
  policy = Policy.read_only;
  requires_approval = false;
}

abbrev pub approval_row : InteractionRow
approval_row = record {
  id = codes "a";
  run_id = codes "q";
  journey_id = some (codes "j");
  definition_digest = some digest64;
  kind = Kind.approval;
  artifact = record {
    id = codes "a";
    kind = Kind.approval;
    questions = [];
    call = record {
      call_id = codes "k";
      provider_call_id = [];
      name = codes "stop";
      arguments = codes "{}";
      binding = codes "op";
    };
    expires_at = 90;
    journey_id = codes "j";
    operation_key = codes "op";
    name_digest = codes "nd";
    schema_digest = codes "sd";
  };
  checkpoint = [];
  history = [];
  expires_at = 90;
  state = InteractionState.consumed;
  continuation_run_id = some (codes "r");
  reply = some (codes "yes");
  marker = some Marker.decided;
  operation_key = codes "op";
  name_digest = codes "nd";
  schema_digest = codes "sd";
}

abbrev rejected_row : OperationRow
rejected_row = record {
  call_id = codes "l";
  run_id = codes "r";
  alias = codes "stop";
  operation_key = codes "op";
  binding = codes "op";
  policy = Policy.read_only;
  requires_approval = false;
  outcome = Outcome.rejected;
  journey_id = some (codes "j");
}

abbrev pub journal : Journal
journal = record {
  principal = codes "p";
  sequence = 7;
  owner_epoch = 3;
  history = [];
  definition_digest = some digest64;
  active_journeys = [];
  definition_current = some digest64;
  runs = run_row ∷ [];
  commands = [];
  interactions = approval_row ∷ [];
  operations = rejected_row ∷ [];
  attempts = record { call_id = codes "l"; attempt = 1; outcome = Outcome.rejected } ∷ [];
  events = [];
  now = 10;
}

abbrev after_dispatch : Journal
after_dispatch = (begin_attempt outside owner call 1 (codes "a") journal).0

abbrev after_retry : Journal
after_retry = (begin_attempt outside owner lookup_call 2 [] journal).0

dispatched : begin_attempt outside owner call 1 (codes "a") journal ≡ (after_dispatch, none)
unfolding begin_attempt begin_guard begin_body begin_first begin_again check_approval bind_call
    insert_operation open_attempt reopen_operation set_outcome append_event lock_owner
    lock_conversation valid_policy str_eq
dispatched = refl

retried : begin_attempt outside owner lookup_call 2 [] journal ≡ (after_retry, none)
unfolding begin_attempt begin_guard begin_body begin_first begin_again check_approval bind_call
    insert_operation open_attempt reopen_operation set_outcome append_event lock_owner
    lock_conversation valid_policy str_eq
retried = refl

begin_attempt_safe_example :
    (run : RunRow) × (expected : GoString) × (find_run owner.command.run_id journal ≡ some run)
    × (holds owner journal.now run ≡ true)
    × (str_eq journal.principal owner.command.principal ≡ true)
    × (anyb (blocks call) journal.operations ≡ false)
    × Sealed outside owner call journal run expected
begin_attempt_safe_example =
    begin_attempt_safe outside owner call 1 (codes "a") journal after_dispatch dispatched

begin_attempt-Approved_example :
    (run : RunRow) × (expected : GoString) × (find_run owner.command.run_id journal ≡ some run)
    × (found : Approved outside owner.command.run_id call expected (codes "a") journal)
    × (is_current outside expected call found.row ≡ true)
    × Sealed outside owner call journal run expected
begin_attempt-Approved_example =
    begin_attempt-Approved outside owner call (codes "a") journal after_dispatch refl dispatched

begin_attempt_again_example :
    (row : OperationRow) × (find_row
        (λ (r : OperationRow).
          has_call lookup_call.call_id r && str_eq r.run_id owner.command.run_id)
        journal.operations
      ≡ some row)
    × (is_retry owner.command.run_id lookup_call row ≡ true)
begin_attempt_again_example =
    begin_attempt_again outside owner lookup_call [] journal after_retry retried

abbrev later_dispatched : Journal
later_dispatched = record after_dispatch { now = after_dispatch.now + 5 }

-- A conversation without a live run, the admission of a command to it, and the claim of its run.
abbrev pub idle : Journal
idle = record journal { runs = []; interactions = []; operations = []; attempts = [] }

abbrev admitted : Journal
admitted = elim (admit outside command idle) [ err e ↦ idle | ok (r, k) ↦ k ]

abbrev receipt : Receipt
receipt = receipt_for command (codes "r")

admits : admit outside command idle ≡ ok ((receipt, true), admitted)
unfolding admit admit_body lock_conversation interrupt_expired expire_interactions fail_waiting_runs
    schedule insert_command insert_run append_event str_eq
admits = refl

admit-Extends_example :
    (added : List Event) × (admitted.events ≡ idle.events ++ added)
    × IsNumbered idle.sequence added admitted.sequence
admit-Extends_example = admit-Extends outside command idle receipt true admitted admits

abbrev claimed : Journal
claimed = elim (claim command (codes "v") 20 admitted) [ err e ↦ admitted | ok (o, k) ↦ k ]

abbrev next_owner : Owner
next_owner = record { command = command; id = codes "v"; epoch = 4 }

claims : claim command (codes "v") 20 admitted ≡ ok (next_owner, claimed)
unfolding claim claim_body take_run append_event admit admit_body lock_conversation
    interrupt_expired expire_interactions fail_waiting_runs schedule insert_command insert_run
    str_eq
claims = refl

three_le : owner.epoch ≤ admitted.owner_epoch
unfolding admit admit_body lock_conversation interrupt_expired expire_interactions fail_waiting_runs
    schedule insert_command insert_run append_event str_eq
three_le = omega arith

claim_fences_example :
    (next_owner.epoch ≡ admitted.owner_epoch + 1)
    × (e : JournalError) × (lock_owner owner claimed ≡ err e)
claim_fences_example =
    claim_fences command (codes "v") 20 admitted next_owner claimed owner claims refl three_le

claim-renew_each_example :
    (l : Journal) × (renew_each next_owner ((5, 10) ∷ (9, 4) ∷ []) claimed ≡ ok (tt, l))
    × (check_owner next_owner (later 3 l) ≡ ok (tt, later 3 l))
claim-renew_each_example =
    claim-renew_each command (codes "v") 20 admitted next_owner claimed ((5, 10) ∷ (9, 4) ∷ []) 3
      claims (omega arith, omega arith, (omega arith, omega arith, tt)) (omega arith)
