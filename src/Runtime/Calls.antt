-- ===== src/Runtime/Calls.antt =====
-- internal/runtime/tool_policy.go: guardedCall. The store and the tool are an interface: what
-- BeginAttempt, binding.Call and EndAttempt do to a state that holds the journal, the tool and
-- everyone else who acts on them, and whether the context is done before a second attempt.
use az_agent_platform_go.Prelude.{
  ℕ, Bool, true, false, not, Option, none, some, GoString, Result, ok, err, if◌then◌else◌,
}
use az_agent_platform_go.Journal.{
  JournalError, outcome_unknown, Journal, Owner, Operation, Outcome, Policy, External,
}
use az_agent_platform_go.Journal.Begin.{begin_attempt, end_attempt}

-- What binding.Call returns: a value, or one of the errors that the code tells apart.
pub data CallResult : Type 0 where
  returned : GoString → CallResult
  auth_missing business_rejection not_permitted failed : CallResult

-- What guardedCall returns: the tool's value, or one of the two error documents.
pub data Answered : Type 0 where
  value : GoString → Answered
  forbidden_document rejected_document : Answered

pub data CallError : Type 0 where
  store_error : JournalError → CallError
  authentication context_done : CallError

pub record Dispatcher (S : Type 0) : Type 0 where
  pub begin : ℕ → S → S × Option JournalError
  pub call : ℕ → S → S × CallResult
  pub finish : ℕ → Outcome → S → S × Option JournalError
  pub is_done : S → Bool

abbrev pub outcome_of : CallResult → Outcome
outcome_of (returned v) = Outcome.completed
outcome_of auth_missing = Outcome.auth_required
outcome_of business_rejection = Outcome.rejected
outcome_of not_permitted = Outcome.rejected
outcome_of failed = Outcome.outcome_unknown

-- Policies under which a call may be sent twice.
abbrev pub is_safe : Policy → Bool
is_safe Policy.read_only = true
is_safe Policy.idempotent = true
is_safe _ = false

abbrev is_refused : Outcome → Bool
is_refused Outcome.auth_required = true
is_refused _ = false

abbrev is_unknown : Outcome → Bool
is_unknown Outcome.outcome_unknown = true
is_unknown _ = false

abbrev is_not_permitted : CallResult → Bool
is_not_permitted not_permitted = true
is_not_permitted _ = false

-- What the last attempt returns.
abbrev last_answer : Outcome → Result CallError Answered
last_answer out = if is_unknown out then err (store_error outcome_unknown) else ok rejected_document

module _ {S : Type 0} (d : Dispatcher S) where
  -- The loop body after the outcome is saved; `next` is the next attempt.
  abbrev pub after_call :
      Bool
      → CallResult
      → Outcome
      → (S → S × Result CallError Answered)
      → S
      → S × Result CallError Answered
  after_call may (returned v) out next s = (s, ok (value v))
  after_call may r out next s =
      let rest = next s in
      if is_refused out
      then (s, err authentication)
      else if is_not_permitted r
      then (s, ok forbidden_document)
      else if not may
      then (s, last_answer out)
      else if d.is_done s
      then (s, err context_done)
      else rest

  -- One round of the loop; `may` is whether the policy and the attempt allow another.
  unfoldable pub attempt_call :
      Bool → ℕ → (S → S × Result CallError Answered) → S → S × Result CallError Answered
  attempt_call may n next s =
      let begun = d.begin n s in
      let called = d.call n begun.0 in
      let out = outcome_of called.1 in
      let ended = d.finish n out called.0 in
      elim begun.1 [
        | some e ↦ (begun.0, err (store_error e))
        | none ↦ elim ended.1 [
          | some e ↦ (ended.0, err (store_error e))
          | none ↦ after_call may called.1 out next ended.0
        ]
      ]

  unfoldable pub guarded_call : Policy → S → S × Result CallError Answered
  unfolding attempt_call
  guarded_call policy =
      attempt_call (is_safe policy) 1
        (attempt_call false 2 (λ s. (s, err (store_error outcome_unknown))))

-- The dispatcher that the runtime uses, over the journal; the tool and everyone else are `act`.
abbrev pub journal_dispatcher :
    External
    → Owner
    → Operation
    → GoString
    → (ℕ → Journal → Journal × CallResult)
    → (Journal → Bool)
    → Dispatcher Journal
journal_dispatcher x o op approval act done = record {
  begin = λ n j. begin_attempt x o op n approval j;
  call = act;
  finish = λ n out j. end_attempt o op n out j;
  is_done = done;
}
