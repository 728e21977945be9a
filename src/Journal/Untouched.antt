-- ===== src/Journal/Untouched.antt =====
-- internal/journal: the transactions that leave the rows of agent_interactions as they are.
use native.Mathlib.Omega.{arith}
use az_agent_platform_go.Prelude.{
  ◌≡◌, ap, sym, ◌∙◌, ℕ, Bool, true, false, not, List, [], ◌∷◌, Option, none, some, GoString, ok,
  find_row, filterb, ok-injective, if◌then◌else◌,
}
use az_agent_platform_go.Journal.{
  Journal, Tx, Owner, Command, Event, EventKind, Operation, Outcome, RunRow, RunState, External,
  InteractionRow, Reason, database, pending_commands,
}
use az_agent_platform_go.Journal.Transactions.{
  lock_owner, lock_conversation, append_event, append_all, event, ◌>>◌, ◌>>=◌, put, pure, get,
  require, require_some, find_run, update_run,
}
use az_agent_platform_go.Journal.Begin.{end_body, end_attempt}
use az_agent_platform_go.Journal.Owners.{
  renew, claim, claim_body, take_run, interrupt_run, interrupt_expired, candidate_run, is_spared,
}
use az_agent_platform_go.Journal.Admission.{insert_command, insert_run, schedule}
use az_agent_platform_go.Journal.Sessions.{
  start, start_body, pin_definition, set_active_journeys, settle, keep_history, announce_answer,
  finish, is_completed, is_pinned, end_event,
}
use az_agent_platform_go.Journal.Outcomes.{
  include_one, include_all, include_commands, mark_operations_unknown, dispose_pending,
  unknown_event, disposed_event, is_open, is_waiting, has_waiting,
}
use az_agent_platform_go.Journal.Scope.{record_run_scope, RunScope}
use az_agent_platform_go.Journal.Waits.{fail_waiting_run, fail_waiting_runs}
use az_agent_platform_go.Journal.Inversion.{next_ok, Then-ok, require_ok, require_some_ok}

-- Every success leaves the interactions as they were.
abbrev pub Untouched : {A : Type 0} → Tx A → Type 0
Untouched {A} t =
    (j : Journal) (a : A) (k : Journal) → t j ≡ ok (a, k) → k.interactions ≡ j.interactions

Untouched-next :
    {B : Type 0} (m : Tx (Unit {0})) (n : Tx B) → Untouched m → Untouched n → Untouched (m >> n)
Untouched-next m n p q j b k h = let t = next_ok m n j h in q t.0 b k t.2 ∙ p j tt t.0 t.1

pub end_attempt-Untouched :
    (o : Owner) (op : Operation) (n : ℕ) (out : Outcome) (j : Journal)
    → (end_attempt o op n out j).0.interactions ≡ j.interactions
unfolding end_attempt end_body append_event lock_owner lock_conversation
end_attempt-Untouched o op n out j = ground arith

pub renew-Untouched : (o : Owner) (n : ℕ) → Untouched (renew o n)
unfolding renew lock_owner lock_conversation
renew-Untouched o n j u k h = ground (arith, h)

pub claim-Untouched : (c : Command) (id : GoString) (n : ℕ) → Untouched (claim c id n)
unfolding claim claim_body take_run append_event
claim-Untouched o id n j u k h = ground (arith, h)

pub start-Untouched : (o : Owner) (journey digest : GoString) → Untouched (start o journey digest)
unfolding start start_body lock_owner lock_conversation pin_definition
start-Untouched o journey digest j u k h = ground (arith, h)

pub set_active_journeys-Untouched :
    (o : Owner) (active : List GoString) → Untouched (set_active_journeys o active)
unfolding set_active_journeys lock_owner lock_conversation
set_active_journeys-Untouched o active j u k h = ground (arith, h)

pub record_run_scope-Untouched :
    (f : GoString → Option GoString) (o : Owner) (s : RunScope) → Untouched (record_run_scope f o s)
unfolding record_run_scope lock_owner lock_conversation
record_run_scope-Untouched f o s j u k h = ground (arith, h)

include_one-Untouched : (r s : GoString) → Untouched (include_one r s)
unfolding include_one append_event
include_one-Untouched r s j u k h = ground (arith, h)

include_all-Untouched : (r : GoString) (cs : List GoString) → Untouched (include_all r cs)
unfolding include_all
include_all-Untouched r [] = λ j u k h. ap (λ p. p.1.interactions) (sym (ok-injective h))
include_all-Untouched r (c ∷ cs) =
    Untouched-next (include_one r c) (include_all r cs) (include_one-Untouched r c)
      (include_all-Untouched r cs)

pub lock_owner-Untouched : (o : Owner) → Untouched (lock_owner o)
unfolding lock_owner lock_conversation
lock_owner-Untouched o j u k h = ground (arith, h)

pub include_commands-Untouched :
    (o : Owner) (cs : List GoString) → Untouched (include_commands o cs)
unfolding include_commands
include_commands-Untouched o cs =
    Untouched-next (lock_owner o) (include_all o.command.run_id cs) (lock_owner-Untouched o)
      (include_all-Untouched o.command.run_id cs)

pub append_event-Untouched : (e : Event) → Untouched (append_event e)
unfolding append_event
append_event-Untouched e j u k h = ground (arith, h)

append_all-Untouched : {A : Type 0} (f : A → Event) (xs : List A) → Untouched (append_all f xs)
unfolding append_all
append_all-Untouched f [] = λ j u k h. ap (λ p. p.1.interactions) (sym (ok-injective h))
append_all-Untouched f (x ∷ xs) =
    Untouched-next (append_event (f x)) (append_all f xs) (append_event-Untouched (f x))
      (append_all-Untouched f xs)

mark_operations_unknown-Untouched : (run : GoString) → Untouched (mark_operations_unknown run)
unfolding mark_operations_unknown
mark_operations_unknown-Untouched run j u k h =
    append_all-Untouched (unknown_event run) (filterb (is_open run) j.operations) _ u k h

dispose_pending-Untouched :
    (run : GoString) (state : RunState) → Untouched (dispose_pending run state)
unfolding dispose_pending
dispose_pending-Untouched run state j u k h =
    append_all-Untouched (disposed_event run state) (filterb (is_waiting run) j.commands) _ u k h

ends_run-Untouched :
    (run : GoString) (state : RunState)
    → Untouched (do mark_operations_unknown run; dispose_pending run state)
ends_run-Untouched run state =
    Untouched-next (mark_operations_unknown run) (dispose_pending run state)
      (mark_operations_unknown-Untouched run) (dispose_pending-Untouched run state)

interrupt_run-Untouched : (run : GoString) → Untouched (interrupt_run run)
unfolding interrupt_run
interrupt_run-Untouched run j u k h =
    let told : Event = event run EventKind.run_interrupted in
    let tail : Tx (Unit {0}) = (do dispose_pending run RunState.interrupted; append_event told) in
    Untouched-next (mark_operations_unknown run) tail (mark_operations_unknown-Untouched run)
      (Untouched-next (dispose_pending run RunState.interrupted) (append_event told)
        (dispose_pending-Untouched run RunState.interrupted) (append_event-Untouched told))
      _ u k h

pub interrupt_expired-Untouched : (candidate : GoString) → Untouched (interrupt_expired candidate)
unfolding interrupt_expired
interrupt_expired-Untouched candidate j u k h = by_row (find_row (candidate_run candidate) j.runs) h
  where
    taken : Option RunRow → Tx (Unit {0})
    taken o = elim o [
      | none ↦ pure tt
      | some r ↦ if is_spared r j then pure tt else interrupt_run r.id
    ]

    by_spared :
        (b : Bool) (run : GoString)
        → (if b then pure tt else interrupt_run run) j ≡ ok (u, k)
        → k.interactions ≡ j.interactions
    by_spared true run e = ap (λ p. p.1.interactions) (sym (ok-injective e))
    by_spared false run e = interrupt_run-Untouched run j u k e

    by_row : (o : Option RunRow) → taken o j ≡ ok (u, k) → k.interactions ≡ j.interactions
    by_row none e = ap (λ p. p.1.interactions) (sym (ok-injective e))
    by_row (some r) e = by_spared (is_spared r j) r.id e

settle-Untouched : (run : GoString) (state : RunState) → Untouched (settle run state)
unfolding settle
settle-Untouched run state j u k h = by_state (is_completed state) h
  where
    check : Tx (Unit {0})
    check = require (not (has_waiting run j)) pending_commands

    by_state :
        (b : Bool)
        → (if b then check else (do mark_operations_unknown run; dispose_pending run state)) j
          ≡ ok (u, k)
        → k.interactions ≡ j.interactions
    by_state true e = ap (λ i. i.interactions) (require_ok _ pending_commands j e).1
    by_state false e = ends_run-Untouched run state j u k e

-- What follows once a run that ends is settled.
abbrev close_run :
    Owner
    → RunState
    → GoString
    → GoString
    → GoString
    → GoString
    → Option Reason
    → RunRow
    → Tx (Unit {0})
close_run o state history answer call tool reason r = do
  keep_history (is_pinned r.definition_digest) history
  announce_answer o.command.run_id state answer call tool
  k ← get
  put (update_run o.command.run_id (λ (r : RunRow). record r { state = state; answer = answer }) k)
  append_event (end_event o.command.run_id state reason)

close_run-Untouched :
    (o : Owner) (state : RunState) (history answer call tool : GoString) (reason : Option Reason)
    (r : RunRow)
    → Untouched (close_run o state history answer call tool reason r)
unfolding keep_history announce_answer append_event
close_run-Untouched o state history answer call tool reason r j u k h = ground (arith, h)

pub finish-Untouched :
    (o : Owner) (state : RunState) (history answer call tool : GoString) (reason : Option Reason)
    → Untouched (finish o state history answer call tool reason)
unfolding finish
finish-Untouched o state history answer call tool reason j u k h =
    let close : RunRow → Tx (Unit {0}) = close_run o state history answer call tool reason in
    let rest : RunRow → Tx (Unit {0}) = λ r. (do settle o.command.run_id state; close r) in
    let a =
      next_ok (lock_owner o)
        (do i ← get; r ← require_some (find_run o.command.run_id i) database; rest r) j h in
    let r = Then-ok (require_some (find_run o.command.run_id a.0) database) rest a.0 a.2 in
    let s = next_ok (settle o.command.run_id state) (close r.value) r.middle r.second in
    close_run-Untouched o state history answer call tool reason r.value s.0 u k s.2
    ∙ settle-Untouched o.command.run_id state r.middle tt s.0 s.1
    ∙ ap (λ i. i.interactions) (require_some_ok _ database a.0 r.first).1
    ∙ lock_owner-Untouched o j tt a.0 a.1

pub schedule-Untouched : (c : Command) → Untouched (schedule c)
unfolding schedule insert_command insert_run append_event
schedule-Untouched c j u k h = ground (arith, h)

fail_waiting_run-Untouched : (x : External) (run : GoString) → Untouched (fail_waiting_run x run)
unfolding fail_waiting_run append_event
fail_waiting_run-Untouched x run j u k h = ground (arith, h)

pub fail_waiting_runs-Untouched :
    (x : External) (is : List InteractionRow) → Untouched (fail_waiting_runs x is)
unfolding fail_waiting_runs
fail_waiting_runs-Untouched x [] = λ j u k h. ap (λ p. p.1.interactions) (sym (ok-injective h))
fail_waiting_runs-Untouched x (i ∷ is) =
    Untouched-next (fail_waiting_run x i.run_id) (fail_waiting_runs x is)
      (fail_waiting_run-Untouched x i.run_id) (fail_waiting_runs-Untouched x is)
