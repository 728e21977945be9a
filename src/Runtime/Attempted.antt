-- ===== src/Runtime/Attempted.antt =====
-- internal/runtime/tool_policy.go: how often a call is sent, and what its answer says.
use native.Mathlib.Omega.{arith}
use az_agent_platform_go.Prelude.{
  ℕ, ◌+◌, ◌≤◌, ◌≡◌, refl, Bool, true, false, List, [], ◌∷◌, Option, none, some, Result, ok, err,
  length, if◌then◌else◌, not, str_eq, str_eq_refl, Bool-cases, inl, inr,
}
use az_agent_platform_go.Journal.{Outcome, Policy, JournalError, outcome_unknown}
use az_agent_platform_go.Runtime.Calls.{
  CallResult, returned, auth_missing, business_rejection, not_permitted, failed, Answered, value,
  forbidden_document, rejected_document, CallError, store_error, Dispatcher, outcome_of, is_safe,
  authentication, context_done, after_call, attempt_call, guarded_call,
}

-- A state with what was done to it, the newest first: the attempts sent to the tool, what each
-- brought, and the outcomes that the store accepted.
pub record Recorded (S : Type 0) : Type 0 where
  pub inner : S
  pub calls : List CallResult
  pub saved : List Outcome

abbrev pub add_saved : Option JournalError → Outcome → List Outcome → List Outcome
add_saved none out saved = out ∷ saved
add_saved (some e) out saved = saved

-- A dispatcher that also writes down what it is asked to do.
abbrev pub recording : {S : Type 0} → Dispatcher S → Dispatcher (Recorded S)
recording d = record {
  begin = λ n r. let b = d.begin n r.inner in (record r { inner = b.0 }, b.1);
  call = λ n r. let c = d.call n r.inner in (record r { inner = c.0; calls = c.1 ∷ r.calls }, c.1);
  finish = λ n out r.
      let f = d.finish n out r.inner in
      (record r { inner = f.0; saved = add_saved f.1 out r.saved }, f.1);
  is_done = λ r. d.is_done r.inner;
}

abbrev pub nothing_done : {S : Type 0} → S → Recorded S
nothing_done s = record { inner = s; calls = []; saved = [] }

-- What a call brought and the outcome saved for it belong together, and both agree with what is
-- returned: a value with a completed outcome, the two documents with a rejected one, a missing
-- authentication with auth_required.
abbrev pub agrees : Result CallError Answered → List CallResult → List Outcome → Bool
agrees (err (store_error e)) calls saved = true
agrees (err context_done) calls saved = true
agrees (err authentication) (auth_missing ∷ calls) (Outcome.auth_required ∷ saved) = true
agrees (ok (value w)) (returned v ∷ calls) (Outcome.completed ∷ saved) = str_eq v w
agrees (ok forbidden_document) (not_permitted ∷ calls) (Outcome.rejected ∷ saved) = true
agrees (ok rejected_document) (business_rejection ∷ calls) (Outcome.rejected ∷ saved) = true
agrees r calls saved = false

module _ {S : Type 0} where
  -- What a run of attempts keeps: so many calls more, an outcome for no more of them, and an answer
  -- that agrees.
  pub record IsBounded (limit : ℕ) (s : Recorded S) (a : Recorded S × Result CallError Answered)
      : Type 0 where
    pub calls : length a.0.calls ≤ length s.calls + limit
    pub outcomes : length a.0.saved ≤ length a.0.calls
    pub answer : agrees a.1 a.0.calls a.0.saved ≡ true

module _ {S : Type 0} (d : Dispatcher S) where
  abbrev limit_after : Bool → ℕ → ℕ
  limit_after may limit = if may then limit + 1 else 1

  -- The state after a call and the saving of its outcome.
  abbrev done : Recorded S → S → CallResult → Recorded S
  done s t r = record { inner = t; calls = r ∷ s.calls; saved = outcome_of r ∷ s.saved }

  stop_ok :
      (may : Bool) (limit : ℕ) (r : CallResult) (a : Result CallError Answered) (s : Recorded S)
      (t : S)
      → length s.saved ≤ length s.calls
      → agrees a (r ∷ s.calls) (outcome_of r ∷ s.saved) ≡ true
      → IsBounded (limit_after may limit) s (done s t r, a)
  stop_ok may limit r a s t less h = record {
    calls = ground arith;
    outcomes = omega (arith, less);
    answer = h;
  }

  again_ok :
      (may : Bool) (limit : ℕ) (r : CallResult) (last : Result CallError Answered)
      (next : Recorded S → Recorded S × Result CallError Answered) (s : Recorded S) (t : S)
      → length s.saved ≤ length s.calls
      → agrees last (r ∷ s.calls) (outcome_of r ∷ s.saved) ≡ true
      → agrees (err context_done) (r ∷ s.calls) (outcome_of r ∷ s.saved) ≡ true
      → ((u : Recorded S) → length u.saved ≤ length u.calls → IsBounded limit u (next u))
      → IsBounded (limit_after may limit) s (
          if not may
          then (done s t r, last)
          else if d.is_done t
          then (done s t r, err context_done)
          else next (done s t r))
  again_ok false limit r last next s t less h g k = stop_ok false limit r last s t less h
  again_ok true limit r last next s t less h g k = elim (Bool-cases (d.is_done t)) [
    | inl b ↦ rw b (stop_ok true limit r (err context_done) s t less g)
    | inr b ↦
        let rest = k (done s t r) (omega (arith, less)) in
        let more = rest.calls in
        rw b
          (record { calls = omega (arith, more); outcomes = rest.outcomes; answer = rest.answer })
  ]

  after_call_ok :
      (may : Bool) (limit : ℕ) (r : CallResult)
      (next : Recorded S → Recorded S × Result CallError Answered) (s : Recorded S) (t : S)
      → length s.saved ≤ length s.calls
      → ((u : Recorded S) → length u.saved ≤ length u.calls → IsBounded limit u (next u))
      → IsBounded
          (limit_after may limit)
          s
          (after_call (recording d) may r (outcome_of r) next (done s t r))
  after_call_ok may limit (returned v) next s t less k =
      stop_ok may limit (returned v) (ok (value v)) s t less (str_eq_refl v)
  after_call_ok may limit auth_missing next s t less k =
      stop_ok may limit auth_missing (err authentication) s t less refl
  after_call_ok may limit not_permitted next s t less k =
      stop_ok may limit not_permitted (ok forbidden_document) s t less refl
  after_call_ok may limit business_rejection next s t less k =
      again_ok may limit business_rejection (ok rejected_document) next s t less refl refl k
  after_call_ok may limit failed next s t less k =
      again_ok may limit failed (err (store_error outcome_unknown)) next s t less refl refl k

  attempt_call_ok :
      (may : Bool) (n limit : ℕ) (next : Recorded S → Recorded S × Result CallError Answered)
      (s : Recorded S)
      → length s.saved ≤ length s.calls
      → ((u : Recorded S) → length u.saved ≤ length u.calls → IsBounded limit u (next u))
      → IsBounded (limit_after may limit) s (attempt_call (recording d) may n next s)
  unfolding attempt_call
  attempt_call_ok may n limit next s less k = begun (d.begin n s.inner).1
    where
      called : S × CallResult
      called = d.call n (d.begin n s.inner).0

      ended : S × Option JournalError
      ended = d.finish n (outcome_of called.1) called.0

      -- The state after the outcome was offered to the store.
      offered : Option JournalError → Recorded S
      offered o = record {
        inner = ended.0;
        calls = called.1 ∷ s.calls;
        saved = add_saved o (outcome_of called.1) s.saved;
      }

      saving : Option JournalError → Recorded S → Recorded S × Result CallError Answered
      saving o t = elim o [
        | some e ↦ (t, err (store_error e))
        | none ↦ after_call (recording d) may called.1 (outcome_of called.1) next t
      ]

      saved : (o : Option JournalError) → IsBounded (limit_after may limit) s (saving o (offered o))
      saved (some e) = record {
        calls = ground arith;
        outcomes = omega (arith, less);
        answer = refl;
      }
      saved none = after_call_ok may limit called.1 next s ended.0 less k

      begun :
          (o : Option JournalError)
          → IsBounded (limit_after may limit) s (elim o [
            | some e ↦ (record s { inner = (d.begin n s.inner).0 }, err (store_error e))
            | none ↦ saving ended.1 (offered ended.1)
          ])
      begun (some e) = record { calls = omega arith; outcomes = less; answer = refl }
      begun none = saved ended.1

-- Whatever the store and the tool do, a call is sent at most twice, and at most once where its
-- policy is neither read-only nor idempotent; no more outcomes are saved than calls are sent; and
-- what is returned agrees with what the last call brought and the outcome saved for it: a value is
-- that call's and was saved as completed, an error document stands for a rejection saved as rejected,
-- and an authentication error was saved as auth_required.
pub guarded_call_lem :
    {S : Type 0} (d : Dispatcher S) (policy : Policy) (s : S)
    → let run = guarded_call (recording d) policy (nothing_done s) in
      (length run.0.calls ≤ (if is_safe policy then 2 else 1))
      × (length run.0.saved ≤ length run.0.calls)
      × (agrees run.1 run.0.calls run.0.saved ≡ true)
unfolding guarded_call
guarded_call_lem {S} d policy s =
    let none_left : Recorded S → Recorded S × Result CallError Answered =
      λ t. (t, err (store_error outcome_unknown)) in
    let second = attempt_call (recording d) false 2 none_left in
    let b = attempt_call_ok d (is_safe policy) 1 1 second (nothing_done s) (omega arith) (λ t less.
      attempt_call_ok d false 2 0 none_left t less
        (λ u fewer. record { calls = omega arith; outcomes = fewer; answer = refl })) in
    let most = b.calls in (ground (arith, most), b.outcomes, b.answer)
