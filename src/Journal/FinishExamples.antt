-- ===== src/Journal/FinishExamples.antt =====
-- A run that completes, and one that hits a limit.
use az_agent_platform_go.Prelude.{◌+◌, ◌≡◌, refl, List, [], ◌∷◌, codes, Result, ok, err, str_eq}
use az_agent_platform_go.Journal.{Journal, JournalError, RunState, Event, Reason, bad_state}
use az_agent_platform_go.Journal.Transactions.{
  lock_owner, lock_conversation, append_event, append_all,
}
use az_agent_platform_go.Journal.Outcomes.{mark_operations_unknown, dispose_pending}
use az_agent_platform_go.Journal.Sessions.{
  finish_run, finish, settle, keep_history, announce_answer, finish_limit_exceeded,
}
use az_agent_platform_go.Journal.Examples.{owner, journal}

abbrev finished : Journal
finished = elim (finish_run owner RunState.completed (codes "h") (codes "done") [] [] journal) [
  | err e ↦ journal
  | ok (u, k) ↦ k
]

abbrev finished_later : Journal
finished_later = record finished { now = finished.now + 5 }

-- The reason of the last event.
abbrev last_reasons : List Event → List Reason
last_reasons [] = []
last_reasons (e ∷ []) = e.reason ∷ []
last_reasons (e ∷ es) = last_reasons es

abbrev reported : Result JournalError (Unit {0} × Journal) → List Reason
reported (err e) = []
reported (ok (u, k)) = last_reasons k.events

over_budget :
    reported (finish_limit_exceeded owner (codes "h") (codes "budget") 30 journal)
    ≡ Reason.limit_hit (codes "budget") 30 ∷ []
unfolding finish_limit_exceeded finish lock_owner lock_conversation settle keep_history
    announce_answer append_event mark_operations_unknown dispose_pending append_all str_eq
over_budget = refl

other_limit : finish_limit_exceeded owner (codes "h") (codes "cost") 30 journal ≡ err bad_state
unfolding finish_limit_exceeded str_eq
other_limit = refl
