-- ===== src/Runtime/Examples.antt =====
-- A call that a business rule rejects at first and that is answered at its second attempt.
use az_agent_platform_go.Prelude.{
  ℕ, zero, suc, ◌+◌, ◌≤◌, ◌≡◌, true, false, none, codes, length, if◌then◌else◌,
}
use az_agent_platform_go.Journal.{Policy}
use az_agent_platform_go.Runtime.Calls.{
  Dispatcher, guarded_call, is_safe, business_rejection, returned,
}
use az_agent_platform_go.Runtime.Attempted.{guarded_call_lem, agrees, recording, nothing_done}

-- Rejected at first, answered at the second attempt; the state counts the calls.
abbrev second_time : Dispatcher ℕ
second_time = record {
  begin = λ n s. (s, none);
  call = λ n s. (s + 1, elim s [ zero ↦ business_rejection | suc k ↦ returned (codes "done") ]);
  finish = λ n out s. (s, none);
  is_done = λ s. false;
}

guarded_call_lem_example :
    let run = guarded_call (recording second_time) Policy.read_only (nothing_done 0) in
    (length run.0.calls ≤ (if is_safe Policy.read_only then 2 else 1))
    × (length run.0.saved ≤ length run.0.calls)
    × (agrees run.1 run.0.calls run.0.saved ≡ true)
guarded_call_lem_example = guarded_call_lem second_time Policy.read_only 0
