-- ===== src/Journal/Steps.antt =====
-- internal/journal: what may happen to a conversation after some point. A step is one call of the
-- store, whether it succeeds or fails, by any owner or client and with any arguments, or time that
-- passes.
use az_agent_platform_go.Prelude.{◌≡◌, refl, ℕ, ◌+◌, Option, GoString, List, Result, ok, err}
use az_agent_platform_go.Journal.{
  Journal, Tx, JournalError, External, Owner, Command, Operation, Outcome, Interaction, RunState,
  Reason,
}
use az_agent_platform_go.Journal.Transactions.{commit}
use az_agent_platform_go.Journal.Begin.{begin_attempt, end_attempt}
use az_agent_platform_go.Journal.Owners.{claim, renew}
use az_agent_platform_go.Journal.Operations.{supersede}
use az_agent_platform_go.Journal.Admission.{admit, reap_run}
use az_agent_platform_go.Journal.Outcomes.{include_commands}
use az_agent_platform_go.Journal.Waits.{wait}
use az_agent_platform_go.Journal.Replies.{reply}
use az_agent_platform_go.Journal.Sessions.{
  start, finish_run, finish_failed, finish_limit_exceeded, set_active_journeys,
}
use az_agent_platform_go.Journal.Scope.{record_run_scope, RunScope}

-- The journal that a transaction leaves.
abbrev pub left_by : {A : Type 0} → Tx A → Journal → Journal
left_by t j = (commit t j).0

pub data Step (x : External) (j : Journal) : Journal → Type 0 where
  admits : (c : Command) → Step x j (left_by (admit x c) j)
  claims : (c : Command) (id : GoString) (duration : ℕ) → Step x j (left_by (claim c id duration) j)
  renews : (o : Owner) (duration : ℕ) → Step x j (left_by (renew o duration) j)
  reaps : (run : GoString) → Step x j (left_by (reap_run x run) j)
  includes : (o : Owner) (cs : List GoString) → Step x j (left_by (include_commands o cs) j)
  records_scope :
      (object : GoString → Option GoString) (o : Owner) (s : RunScope)
      → Step x j (left_by (record_run_scope object o s) j)
  starts : (o : Owner) (journey digest : GoString) → Step x j (left_by (start o journey digest) j)
  sets_active :
      (o : Owner) (active : List GoString) → Step x j (left_by (set_active_journeys o active) j)
  begins :
      (o : Owner) (op : Operation) (n : ℕ) (approval : GoString)
      → Step x j (begin_attempt x o op n approval j).0
  ends :
      (o : Owner) (op : Operation) (n : ℕ) (out : Outcome) → Step x j (end_attempt o op n out j).0
  waits :
      (o : Owner) (i : Interaction) (checkpoint history : GoString)
      → Step x j (left_by (wait x o i checkpoint history) j)
  supersedes : (o : Owner) (id : GoString) → Step x j (left_by (supersede o id) j)
  replies : (c : Command) → Step x j (reply x c j).0
  finishes :
      (o : Owner) (state : RunState) (history answer call tool : GoString)
      → Step x j (left_by (finish_run o state history answer call tool) j)
  fails :
      (o : Owner) (history : GoString) (reason : Reason)
      → Step x j (left_by (finish_failed o history reason) j)
  exceeds :
      (o : Owner) (history kind : GoString) (retry : ℕ)
      → Step x j (left_by (finish_limit_exceeded o history kind retry) j)
  passes : (later : ℕ) → Step x j (record j { now = j.now + later })

-- Any number of steps.
pub data Reach (x : External) (j : Journal) : Journal → Type 0 where
  here : Reach x j j
  next : {k l : Journal} → Reach x j k → Step x k l → Reach x j l

-- What every success of a transaction keeps, the transaction keeps.
pub left_by-keeps :
    {A : Type 0} (P : Journal → Type 0) (t : Tx A) (j : Journal)
    → ((a : A) (k : Journal) → t j ≡ ok (a, k) → P k)
    → P j
    → P (left_by t j)
left_by-keeps {A} P t j f p = by_result (t j) f
  where
    kept : Result JournalError (A × Journal) → Journal × Result JournalError A
    kept r = elim r [ ok (a, k) ↦ (k, ok a) | err e ↦ (j, err e) ]

    by_result :
        (r : Result JournalError (A × Journal))
        → ((a : A) (k : Journal) → r ≡ ok (a, k) → P k)
        → P (kept r).0
    by_result (ok (a, k)) g = g a k refl
    by_result (err e) g = p
