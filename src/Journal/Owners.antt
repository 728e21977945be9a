-- ===== src/Journal/Owners.antt =====
-- internal/journal/owners.go: the run lease and its fencing epoch. Durations are whole milliseconds.
use az_agent_platform_go.Prelude.{
  ℕ, ◌+◌, Bool, not, ◌&&◌, ◌||◌, none, some, GoString, str_eq, is_empty, ltb, leb, ◌==◌, find_row,
  anyb, if◌then◌else◌,
}
use az_agent_platform_go.Journal.{
  Journal, Tx, ownership, Command, CommandRow, Owner, EventKind, RunRow, RunState, InteractionRow,
}
use az_agent_platform_go.Journal.Transactions.{
  ◌>>=◌, ◌>>◌, pure, throw, get, put, require, require_some, append_event, event, lock_owner,
  find_run, update_run, is_live, is_pending,
}
use az_agent_platform_go.Journal.Operations.{is_consumed, equals_option}
use az_agent_platform_go.Journal.Outcomes.{mark_operations_unknown, dispose_pending}

-- Go's == on Command.
abbrev pub command_eq : Command → Command → Bool
command_eq a b =
    str_eq a.thread_id b.thread_id
    && str_eq a.run_id b.run_id
    && str_eq a.communication_id b.communication_id
    && str_eq a.principal b.principal
    && str_eq a.tenant b.tenant
    && str_eq a.text b.text
    && str_eq a.target_journey b.target_journey
    && str_eq a.interaction_id b.interaction_id
    && str_eq a.reply_kind b.reply_kind
    && str_eq a.reply_json b.reply_json

-- lockConversation's forbidden is ownership to Claim.
abbrev pub lock_for_claim : GoString → Tx (Unit {0})
lock_for_claim principal = do j ← get; require (str_eq j.principal principal) ownership

abbrev pub is_continuation : GoString → InteractionRow → Bool
is_continuation run i = equals_option i.continuation_run_id run && is_consumed i.state

-- A run that a reply created stays claimable after its first lease.
abbrev pub is_recoverable : Command → RunRow → Journal → Bool
is_recoverable c r j =
    is_pending r.state
    && r.owner_epoch == 0
    && not (ltb j.now r.lease_until)
    && not (is_empty c.interaction_id)
    && anyb (λ (i : InteractionRow). str_eq i.id c.interaction_id && is_continuation c.run_id i)
        j.interactions

abbrev pub may_claim : Command → RunRow → Journal → Bool
may_claim c r j = is_pending r.state && (ltb j.now r.lease_until || is_recoverable c r j)

-- The write of a claim: a new epoch, given to the run.
unfoldable pub take_run : GoString → GoString → ℕ → Journal → Journal
take_run run id duration j =
    let epoch = j.owner_epoch + 1 in
    update_run run
      (λ (r : RunRow). record r {
        state = RunState.running;
        owner_id = id;
        owner_epoch = epoch;
        lease_until = j.now + duration;
      })
      (record j { owner_epoch = epoch })

unfoldable pub claim_body : Command → GoString → ℕ → Tx Owner
unfolding append_event take_run
claim_body c id duration = do
  lock_for_claim c.principal
  j ← get
  accepted ←
      require_some
        (find_row
          (λ (m : CommandRow). str_eq m.run_id c.run_id && str_eq m.execution_run_id c.run_id)
          j.commands)
        ownership
  require (command_eq accepted.payload c) ownership
  r ← require_some (find_run c.run_id j) ownership
  require (may_claim c r j) ownership
  put (take_run c.run_id id duration j)
  append_event (event c.run_id EventKind.run_started)
  pure (record { command = c; id = id; epoch = j.owner_epoch + 1 })

unfoldable pub claim : Command → GoString → ℕ → Tx Owner
claim c id duration =
    if is_empty id || duration == 0 then throw ownership else claim_body c id duration

-- Store.Check
unfoldable pub check_owner : Owner → Tx (Unit {0})
unfolding lock_owner
check_owner o = lock_owner o

unfoldable pub renew : Owner → ℕ → Tx (Unit {0})
unfolding lock_owner
renew o duration = if duration == 0 then throw ownership else (do
  lock_owner o
  j ← get
  put (update_run o.command.run_id (λ (r : RunRow). record r { lease_until = j.now + duration }) j))

abbrev pub candidate_run : GoString → RunRow → Bool
candidate_run candidate r = is_live r.state && (is_empty candidate || str_eq r.id candidate)

-- A live run that is to be left alone: its lease holds, or a reply has created it and nobody has
-- claimed it yet.
abbrev pub is_spared : RunRow → Journal → Bool
is_spared r j =
    not (leb r.lease_until j.now)
    || is_pending r.state && r.owner_epoch == 0 && anyb (is_continuation r.id) j.interactions

unfoldable pub interrupt_run : GoString → Tx (Unit {0})
unfolding append_event mark_operations_unknown dispose_pending
interrupt_run run = do
  j ← get
  put (update_run run (λ (r : RunRow). record r { state = RunState.interrupted }) j)
  mark_operations_unknown run
  dispose_pending run RunState.interrupted
  append_event (event run EventKind.run_interrupted)

unfoldable pub interrupt_expired : GoString → Tx (Unit {0})
unfolding interrupt_run
interrupt_expired candidate = do
  j ← get
  elim (find_row (candidate_run candidate) j.runs) [
    | none ↦ pure tt
    | some r ↦ if is_spared r j then pure tt else interrupt_run r.id
  ]
