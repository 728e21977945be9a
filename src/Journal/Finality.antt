-- ===== src/Journal/Finality.antt =====
-- internal/journal/sessions.go: what a run that finishes completed has passed.
use az_agent_platform_go.Prelude.{◌≡◌, true, false, not, none, GoString, ok}
use az_agent_platform_go.Journal.{Journal, Tx, database, pending_commands, Owner, RunRow, RunState}
use az_agent_platform_go.Journal.Transactions.{
  ◌>>=◌, ◌>>◌, put, get, require, require_some, append_event, lock_owner, find_run, update_run,
}
use az_agent_platform_go.Journal.Outcomes.{has_waiting, mark_operations_unknown, dispose_pending}
use az_agent_platform_go.Journal.Sessions.{
  finish, settle, keep_history, announce_answer, end_event, is_completed, is_pinned,
}
use az_agent_platform_go.Journal.Inversion.{
  Then-ok, next_ok, require_ok, require_some_ok, lock_owner_ok,
}
use az_agent_platform_go.Journal.Dispatch.{not-true}
use az_agent_platform_go.Journal.Approvals.{taken_branch}

settle_ok :
    (run : GoString) (state : RunState) (j : Journal) {u : Unit {0}} {k : Journal}
    → settle run state j ≡ ok (u, k)
    → is_completed state ≡ true
    → has_waiting run j ≡ false
unfolding settle
settle_ok run state j h done =
    let check = require (not (has_waiting run j)) pending_commands in
    let other : Tx (Unit {0}) = (do mark_operations_unknown run; dispose_pending run state) in
    let passed = taken_branch (is_completed state) check other j done h in
    not-true (has_waiting run j) (require_ok (not (has_waiting run j)) pending_commands j passed).0

module _ (o : Owner) (state : RunState) (history answer call tool : GoString) where
  abbrev ended : RunRow → RunRow
  ended r = record r { state = state; answer = answer }

  abbrev close : Journal → Tx (Unit {0})
  close k = do
    put (update_run o.command.run_id ended k)
    append_event (end_event o.command.run_id state none)

  abbrev after_settle : RunRow → Tx (Unit {0})
  after_settle r = do
    keep_history (is_pinned r.definition_digest) history
    announce_answer o.command.run_id state answer call tool
    k ← get
    close k

  abbrev after_lock : Journal → Tx (Unit {0})
  after_lock j = do
    r ← require_some (find_run o.command.run_id j) database
    settle o.command.run_id state
    after_settle r

  -- A completed run had no command left that waits.
  pub finish-has_waiting :
      (j : Journal) {u : Unit {0}} {k : Journal}
      → finish o state history answer call tool none j ≡ ok (u, k)
      → is_completed state ≡ true
      → has_waiting o.command.run_id j ≡ false
  unfolding finish
  finish-has_waiting j {u} {k} h done =
      let a = next_ok (lock_owner o) (do i ← get; after_lock i) j h in
      let b = rw (lock_owner_ok o j a.1).0 at a.2 in
      let r =
        Then-ok (require_some (find_run o.command.run_id j) database)
          (λ row. (do settle o.command.run_id state; after_settle row)) j b in
      let at_run = require_some_ok (find_run o.command.run_id j) database j r.first in
      let s = next_ok (settle o.command.run_id state) (after_settle r.value) r.middle r.second in
      settle_ok o.command.run_id state j (rw at_run.1 at s.1) done
