-- ===== src/Journal/Attempts.antt =====
-- internal/journal/operations.go: what an attempt that began has satisfied.
use az_agent_platform_go.Prelude.{
  ℕ, ◌≡◌, refl, sym, subst, ◌∙◌, Bool, true, false, not, ◌&&◌, none, some, GoString, str_eq, anyb,
  find_row, find_row-true, str_eq_iff,
}
use mathlib.Core.Option.{some-injective}
use az_agent_platform_go.Journal.{
  Journal, Tx, database, bad_state, Owner, RunRow, Operation, OperationRow, External, Outcome,
}
use az_agent_platform_go.Journal.Transactions.{
  ◌>>◌, require, require_some, put, pure, holds, find_run,
}
use az_agent_platform_go.Journal.Operations.{
  reopen_operation, set_outcome, has_call, policy_eq, is_repeatable, is_effectful, open_attempt,
  bind_call,
}
use az_agent_platform_go.Journal.Begin.{begin_attempt, begin_again}
use az_agent_platform_go.Journal.Inversion.{Then-ok, next_ok, require_ok, require_some_ok}
use az_agent_platform_go.Journal.Dispatch.{begin_body_ok, blocks, binding_of, Approved, is_current}
use az_agent_platform_go.Journal.Approvals.{begin_attempt_ok, begin_first_ok}

-- A run that is found has the ID sought.
found-id :
    (o : Owner) (j : Journal) (run : RunRow)
    → find_run o.command.run_id j ≡ some run
    → run.id ≡ o.command.run_id
found-id o j run h =
    (str_eq_iff run.id o.command.run_id).0
      (find_row-true (λ (r : RunRow). str_eq r.id o.command.run_id) j.runs run h)

-- The binding that an operation of a run has to carry: it seals the call, its journey, the principal
-- of the conversation, and the product version and the definition set recorded on the run.
abbrev pub Sealed : External → Owner → Operation → Journal → RunRow → GoString → Type 0
Sealed x o op j run expected =
    (version : GoString) × (digest : GoString) × (run.product_version ≡ some version)
    × (run.definition_digest ≡ some digest)
    × (bind_call x (binding_of o op j version digest) ≡ some expected)
    × (str_eq expected op.binding ≡ true)

-- An attempt begins only for an owner that holds its run at the database's time, with the binding
-- that seals its own call and journey, the conversation's principal, and the version and the
-- definition set recorded on that run, and while no operation of another call is unresolved in the
-- conversation.
pub begin_attempt_safe :
    (x : External) (o : Owner) (op : Operation) (n : ℕ) (id : GoString) (j k : Journal)
    → begin_attempt x o op n id j ≡ (k, none)
    → (run : RunRow) × (expected : GoString) × (find_run o.command.run_id j ≡ some run)
      × (holds o j.now run ≡ true)
      × (str_eq j.principal o.command.principal ≡ true)
      × (anyb (blocks op) j.operations ≡ false)
      × Sealed x o op j run expected
begin_attempt_safe x o op n id j k h =
    let c = begin_body_ok x o op n id j (begin_attempt_ok x o op n id j k h).1 in
    let l = c.locked in
    let same : l.run ≡ c.run = some-injective _ _ (sym l.found ∙ c.found) in
    (
      c.run,
      c.expected,
      c.found,
      subst (λ r. holds o j.now r ≡ true) same l.held,
      l.principal,
      c.clear,
      (c.version, c.digest, c.has_version, c.has_digest, c.sealed, c.same),
    )

-- Where the first attempt of an operation that needs an approval begins, the owner's run has consumed
-- an unexpired, undispatched approval whose reply approves this very call, under the journey of the
-- operation and the binding that seals the call for the run.
pub begin_attempt-Approved :
    (x : External) (o : Owner) (op : Operation) (id : GoString) (j k : Journal)
    → op.requires_approval ≡ true
    → begin_attempt x o op 1 id j ≡ (k, none)
    → (run : RunRow) × (expected : GoString) × (find_run o.command.run_id j ≡ some run)
      × (found : Approved x o.command.run_id op expected id j) × (is_current x expected op found.row
          ≡ true)
      × Sealed x o op j run expected
begin_attempt-Approved x o op id j k need h =
    let c = begin_body_ok x o op 1 id j (begin_attempt_ok x o op 1 id j k h).1 in
    let f = begin_first_ok x c.run op c.expected id j need c.work in
    let own = found-id o j c.run c.found in
    let found : (a : Approved x o.command.run_id op c.expected id j) × (is_current x c.expected op
            a.row
          ≡ true) =
      subst
        (λ run. (a : Approved x run op c.expected id j) × (is_current x c.expected op a.row ≡ true))
        own (f.0, (f.1 refl).0) in
    (
      c.run,
      c.expected,
      c.found,
      found.0,
      found.1,
      (c.version, c.digest, c.has_version, c.has_digest, c.sealed, c.same),
    )

-- The call was attempted before, unchanged, was rejected or left unknown, and is not effectful.
abbrev pub is_retry : GoString → Operation → OperationRow → Bool
is_retry run op r =
    str_eq r.binding op.binding
    && policy_eq r.policy op.policy
    && is_repeatable r.outcome
    && not (is_effectful op.policy)

-- A second attempt begins only for an operation of the owner's run that was rejected or left
-- uncertain, with the same binding and policy, and never for an effectful one.
pub begin_attempt_again :
    (x : External) (o : Owner) (op : Operation) (id : GoString) (j k : Journal)
    → begin_attempt x o op 2 id j ≡ (k, none)
    → (row : OperationRow) × (find_row
          (λ (r : OperationRow). has_call op.call_id r && str_eq r.run_id o.command.run_id)
          j.operations
        ≡ some row)
      × (is_retry o.command.run_id op row ≡ true)
unfolding reopen_operation begin_again
begin_attempt_again x o op id j k h =
    let c = begin_body_ok x o op 2 id j (begin_attempt_ok x o op 2 id j k h).1 in
    let wanted =
      find_row (λ (r : OperationRow). has_call op.call_id r && str_eq r.run_id c.run.id)
        j.operations in
    let rest : Tx Bool = (do open_attempt c.run.id op 2; pure false) in
    let reopened = put (set_outcome op.call_id Outcome.dispatching j) in
    let a = next_ok (reopen_operation c.run.id op) rest j c.work in
    let f =
      Then-ok (require_some wanted database)
        (λ r. (do require (is_retry c.run.id op r) bad_state; reopened)) j a.1 in
    let q = next_ok (require (is_retry c.run.id op f.value) bad_state) reopened f.middle f.second in
    (
      f.value,
      subst
          (λ run.
            find_row (λ (r : OperationRow). has_call op.call_id r && str_eq r.run_id run)
              j.operations
            ≡ some f.value)
          (found-id o j c.run c.found) (require_some_ok wanted database j f.first).0,
      (require_ok (is_retry c.run.id op f.value) bad_state f.middle q.1).0,
    )
