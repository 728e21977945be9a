-- ===== src/Journal/Ended.antt =====
-- internal/journal: ends of runs, waits, replies and admissions leave a run that is over as it is.
use native.Mathlib.Omega.{arith}
use az_agent_platform_go.Prelude.{
  ◌≡◌, refl, ap, sym, subst, ◌∙◌, Bool, true, false, not, ◌&&◌, List, [], ◌∷◌, Option, some,
  GoString, str_eq, ok, find_row, filterb, update_rows, ok-injective, if◌then◌else◌,
}
use az_agent_platform_go.Journal.{
  Journal, Tx, Owner, Event, EventKind, RunRow, RunState, External, InteractionRow, Reason,
  database, pending_commands,
}
use az_agent_platform_go.Journal.Transactions.{
  append_event, append_all, event, ◌>>◌, ◌>>=◌, put, get, require, require_some, lock_conversation,
  lock_owner, find_run, update_run, is_live,
}
use az_agent_platform_go.Journal.Operations.{coalesce, non_empty}
use az_agent_platform_go.Journal.Owners.{interrupt_run}
use az_agent_platform_go.Journal.Sessions.{
  start, start_body, pin_definition, settle, keep_history, announce_answer, finish, end_event,
  is_completed, is_pinned,
}
use az_agent_platform_go.Journal.Outcomes.{
  include_one, include_all, include_commands, mark_operations_unknown, dispose_pending, is_open,
  is_waiting, unknown_event, disposed_event, has_waiting,
}
use az_agent_platform_go.Journal.Waits.{
  fail_waiting_run, fail_waiting_runs, expire_interactions, is_awaiting, is_due,
}
use az_agent_platform_go.Journal.Inversion.{
  Then-ok, next_ok, require_ok, require_some_ok, lock_owner_ok,
}
use az_agent_platform_go.Journal.Over.{
  Over, Over-update_rows, Over-update_found, Over-update_by, SameRuns, KeepsOver,
  append_event-SameRuns, include_one-SameRuns, lock_owner-SameRuns,
}

SameRuns-next :
    {B : Type 0} (m : Tx (Unit {0})) (n : Tx B) → SameRuns m → SameRuns n → SameRuns (m >> n)
SameRuns-next m n p q j b k h = let t = next_ok m n j h in q t.0 b k t.2 ∙ p j tt t.0 t.1

include_all-SameRuns : (r : GoString) (cs : List GoString) → SameRuns (include_all r cs)
unfolding include_all
include_all-SameRuns r [] = λ j u k h. ap (λ p. p.1.runs) (sym (ok-injective h))
include_all-SameRuns r (c ∷ cs) =
    SameRuns-next (include_one r c) (include_all r cs) (include_one-SameRuns r c)
      (include_all-SameRuns r cs)

pub include_commands-SameRuns : (o : Owner) (cs : List GoString) → SameRuns (include_commands o cs)
unfolding include_commands
include_commands-SameRuns o cs =
    SameRuns-next (lock_owner o) (include_all o.command.run_id cs) (lock_owner-SameRuns o)
      (include_all-SameRuns o.command.run_id cs)

append_all-SameRuns : {A : Type 0} (f : A → Event) (xs : List A) → SameRuns (append_all f xs)
unfolding append_all
append_all-SameRuns f [] = λ j u k h. ap (λ p. p.1.runs) (sym (ok-injective h))
append_all-SameRuns f (x ∷ xs) =
    SameRuns-next (append_event (f x)) (append_all f xs) (append_event-SameRuns (f x))
      (append_all-SameRuns f xs)

mark_operations_unknown-SameRuns : (run : GoString) → SameRuns (mark_operations_unknown run)
unfolding mark_operations_unknown
mark_operations_unknown-SameRuns run j u k h =
    append_all-SameRuns (unknown_event run) (filterb (is_open run) j.operations) _ u k h

dispose_pending-SameRuns :
    (run : GoString) (state : RunState) → SameRuns (dispose_pending run state)
unfolding dispose_pending
dispose_pending-SameRuns run state j u k h =
    append_all-SameRuns (disposed_event run state) (filterb (is_waiting run) j.commands) _ u k h

settle-SameRuns : (run : GoString) (state : RunState) → SameRuns (settle run state)
unfolding settle
settle-SameRuns run state j u k h = by_state (is_completed state) h
  where
    check : Tx (Unit {0})
    check = require (not (has_waiting run j)) pending_commands

    by_state :
        (b : Bool)
        → (if b then check else (do mark_operations_unknown run; dispose_pending run state)) j
          ≡ ok (u, k)
        → k.runs ≡ j.runs
    by_state true e = ap (λ i. i.runs) (require_ok _ pending_commands j e).1
    by_state false e =
        SameRuns-next (mark_operations_unknown run) (dispose_pending run state)
          (mark_operations_unknown-SameRuns run) (dispose_pending-SameRuns run state) j u k e

-- What follows once a run that ends is settled.
abbrev pub close_run :
    Owner
    → RunState
    → GoString
    → GoString
    → GoString
    → GoString
    → Option Reason
    → RunRow
    → Tx (Unit {0})
close_run o state history answer call tool reason r = do
  keep_history (is_pinned r.definition_digest) history
  announce_answer o.command.run_id state answer call tool
  k ← get
  put (update_run o.command.run_id (λ (r : RunRow). record r { state = state; answer = answer }) k)
  append_event (end_event o.command.run_id state reason)

close_run_runs :
    (o : Owner) (state : RunState) (history answer call tool : GoString) (reason : Option Reason)
    (r : RunRow) (j : Journal) (u : Unit {0}) (k : Journal)
    → close_run o state history answer call tool reason r j ≡ ok (u, k)
    → k.runs
      ≡ (update_run o.command.run_id
          (λ (r : RunRow). record r { state = state; answer = answer })
          j).runs
unfolding keep_history announce_answer append_event
close_run_runs o state history answer call tool reason r j u k h = ground (arith, h)

-- The end of a run writes the rows of that run, which was live, and no others.
pub finish_runs :
    (o : Owner) (state : RunState) (history answer call tool : GoString) (reason : Option Reason)
    (j : Journal) (u : Unit {0}) (k : Journal)
    → finish o state history answer call tool reason j ≡ ok (u, k)
    → (row : RunRow) × (find_run o.command.run_id j ≡ some row)
      × (is_live row.state ≡ true)
      × (k.runs
          ≡ (update_run o.command.run_id
              (λ (r : RunRow). record r { state = state; answer = answer })
              j).runs)
unfolding finish
finish_runs o state history answer call tool reason j u k h =
    let close : RunRow → Tx (Unit {0}) = close_run o state history answer call tool reason in
    let rest : RunRow → Tx (Unit {0}) = λ r. (do settle o.command.run_id state; close r) in
    let a =
      next_ok (lock_owner o)
        (do i ← get; r ← require_some (find_run o.command.run_id i) database; rest r) j h in
    let l = (lock_owner_ok o j a.1).1 in
    let r = Then-ok (require_some (find_run o.command.run_id a.0) database) rest a.0 a.2 in
    let s = next_ok (settle o.command.run_id state) (close r.value) r.middle r.second in
    let same : s.0.runs ≡ j.runs =
      settle-SameRuns o.command.run_id state r.middle tt s.0 s.1
      ∙ ap (λ i. i.runs) (require_some_ok _ database a.0 r.first).1
      ∙ lock_owner-SameRuns o j tt a.0 a.1 in
    let held = l.held in
    (
      l.run,
      l.found,
      ground (arith, held),
      close_run_runs o state history answer call tool reason r.value s.0 u k s.2
          ∙ ap
              (update_rows (λ (r : RunRow). str_eq r.id o.command.run_id)
                (λ (r : RunRow). record r { state = state; answer = answer }))
              same,
    )

module _ (id : GoString) where
  pub KeepsOver-next :
      {B : Type 0} (m : Tx (Unit {0})) (n : Tx B)
      → KeepsOver id m
      → KeepsOver id n
      → KeepsOver id (m >> n)
  KeepsOver-next m n p q j b k e h = let t = next_ok m n j e in q t.0 b k t.2 (p j tt t.0 t.1 h)

  pub finish-KeepsOver :
      (o : Owner) (state : RunState) (history answer call tool : GoString) (reason : Option Reason)
      → KeepsOver id (finish o state history answer call tool reason)
  finish-KeepsOver o state history answer call tool reason j u k e h =
      let f = finish_runs o state history answer call tool reason j u k e in
      let live = f.2 in
      subst (Over id) (sym f.3) (
        Over-update_found id o.command.run_id f.0
          (λ (r : RunRow). record r { state = state; answer = answer }) j.runs f.1
          (ground (arith, live)) (λ r. refl) h)

  pub start-KeepsOver :
      (o : Owner) (journey digest : GoString) → KeepsOver id (start o journey digest)
  unfolding start start_body lock_owner lock_conversation pin_definition
  start-KeepsOver o journey digest j u k e h =
      let f : RunRow → RunRow = λ r. record r {
        journey_id = coalesce (non_empty journey) r.journey_id;
        definition_digest = some digest;
      } in
      let rows : k.runs ≡ (update_run o.command.run_id f j).runs = ground (arith, e) in
      subst (Over id) (sym rows) (
        Over-update_rows id (λ (r : RunRow). str_eq r.id o.command.run_id) f j.runs (λ r. refl)
          (λ r at was now. was now) h)

  pub interrupt_run-KeepsOver :
      (p : RunRow → Bool) (row : RunRow) (j : Journal) (u : Unit {0}) (k : Journal)
      → find_row p j.runs ≡ some row
      → is_live row.state ≡ true
      → interrupt_run row.id j ≡ ok (u, k)
      → Over id j.runs
      → Over id k.runs
  unfolding interrupt_run
  interrupt_run-KeepsOver p row j u k found live e h =
      let told : Event = event row.id EventKind.run_interrupted in
      let tail : Tx (Unit {0}) = (do
        dispose_pending row.id RunState.interrupted
        append_event told) in
      let same =
        SameRuns-next (mark_operations_unknown row.id) tail
          (mark_operations_unknown-SameRuns row.id)
          (SameRuns-next (dispose_pending row.id RunState.interrupted) (append_event told)
            (dispose_pending-SameRuns row.id RunState.interrupted) (append_event-SameRuns told))
          _ u k e in
      subst (Over id) (sym same) (
        Over-update_by id row.id p row (λ (r : RunRow). record r { state = RunState.interrupted })
          j.runs found refl (ground (arith, live)) (λ r. refl) h)

  fail_waiting_run-KeepsOver :
      (x : External) (run : GoString) → KeepsOver id (fail_waiting_run x run)
  unfolding fail_waiting_run append_event
  fail_waiting_run-KeepsOver x run j u k e h =
      let f : RunRow → RunRow = λ r. record r { state = RunState.failed } in
      let p : RunRow → Bool = λ r. str_eq r.id run && is_awaiting r.state in
      let rows : k.runs ≡ update_rows p f j.runs = ground (arith, e) in
      subst (Over id) (sym rows)
        (Over-update_rows id p f j.runs (λ r. refl) (λ r at was now. refl) h)

  fail_waiting_runs-KeepsOver :
      (x : External) (is : List InteractionRow) → KeepsOver id (fail_waiting_runs x is)
  unfolding fail_waiting_runs
  fail_waiting_runs-KeepsOver x [] =
      λ j u k e h. subst (λ (i : Journal). Over id i.runs) (ap (λ p. p.1) (ok-injective e)) h
  fail_waiting_runs-KeepsOver x (i ∷ is) =
      KeepsOver-next (fail_waiting_run x i.run_id) (fail_waiting_runs x is)
        (fail_waiting_run-KeepsOver x i.run_id) (fail_waiting_runs-KeepsOver x is)

  pub expire_interactions-KeepsOver : (x : External) → KeepsOver id (expire_interactions x)
  unfolding expire_interactions
  expire_interactions-KeepsOver x j u k e h =
      fail_waiting_runs-KeepsOver x (filterb (is_due x j.now) j.interactions) _ u k e h
