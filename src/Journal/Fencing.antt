-- ===== src/Journal/Fencing.antt =====
-- internal/journal/owners.go: a claim fences every earlier owner of the run.
use native.Mathlib.Omega.{arith}
use az_agent_platform_go.Prelude.{
  ℕ, ◌+◌, ◌≤◌, ◌≡◌, refl, Bool, true, false, ◌&&◌, GoString, str_eq, is_empty, ok, err, ap, sym,
  subst, ◌==◌, find_row, find_row-All, update_rows, if◌then◌else◌, List, [], ◌∷◌, ◌++◌, some, All,
  Bool-cases, Result-cases, ok-injective, inl, inr, ◌||◌,
}
use az_agent_platform_go.Journal.{
  Journal, Tx, JournalError, ownership, Command, CommandRow, Owner, RunRow, RunState, EventKind,
}
use az_agent_platform_go.Journal.Transactions.{
  ◌>>=◌, ◌>>◌, require, require_some, lock_owner, find_run, pure, put, get, append_event, event,
}
use az_agent_platform_go.Journal.Owners.{
  claim, claim_body, take_run, may_claim, command_eq, lock_for_claim,
}
use az_agent_platform_go.Journal.Inversion.{
  Then-ok, next_ok, require_ok, require_some_ok, lock_owner_ok,
}

-- Every row of the run has the epoch.
pub HasEpoch : GoString → ℕ → Journal → Type 0
HasEpoch run epoch j = All (λ (r : RunRow). str_eq r.id run ≡ true → r.owner_epoch ≡ epoch) j.runs

take_run-HasEpoch :
    (run id : GoString) (duration : ℕ) (j : Journal)
    → HasEpoch run (j.owner_epoch + 1) (take_run run id duration j)
unfolding HasEpoch take_run
take_run-HasEpoch run id duration j = rows j.runs
  where
    claimed : RunRow → RunRow
    claimed r = record r {
      state = RunState.running;
      owner_id = id;
      owner_epoch = j.owner_epoch + 1;
      lease_until = j.now + duration;
    }

    rows :
        (xs : List RunRow)
        → All
            (λ (r : RunRow). str_eq r.id run ≡ true → r.owner_epoch ≡ j.owner_epoch + 1)
            (update_rows (λ (r : RunRow). str_eq r.id run) claimed xs)
    rows [] = tt
    rows (y ∷ ys) = (one (str_eq y.id run) refl, rows ys)
      where
        one :
            (b : Bool)
            → str_eq y.id run ≡ b
            → str_eq (if b then claimed y else y).id run ≡ true
            → (if b then claimed y else y).owner_epoch ≡ j.owner_epoch + 1
        one true e h = refl
        one false e h = cc

-- An owner with another epoch than the run's does not pass the lock.
stale_owner :
    (p : Owner) (epoch : ℕ) (k : Journal)
    → HasEpoch p.command.run_id epoch k
    → p.epoch + 1 ≤ epoch
    → (e : JournalError) × (lock_owner p k ≡ err e)
unfolding HasEpoch
stale_owner p epoch k h older = elim (Result-cases (lock_owner p k)) [
  | inr f ↦ f
  | inl g ↦
      let l = (lock_owner_ok p k g.1).1 in
      let at =
        find_row-All (λ (r : RunRow). str_eq r.id p.command.run_id ≡ true → r.owner_epoch ≡ epoch)
          (λ (r : RunRow). str_eq r.id p.command.run_id) k.runs l.run h l.found in
      let now_epoch : l.run.owner_epoch ≡ epoch = at.0 at.1 in
      let same : (l.run.owner_epoch == p.epoch) ≡ true = ground (arith, l.held) in
      let never : ⊥ = ground (arith, same, now_epoch, older) in elim never [ ]
]

-- The parts of a claim, each from the one before it.
module _ (c : Command) (id : GoString) (duration : ℕ) where
  abbrev accepts : CommandRow → Bool
  accepts m = str_eq m.run_id c.run_id && str_eq m.execution_run_id c.run_id

  abbrev write : Journal → Tx Owner
  write j = do
    put (take_run c.run_id id duration j)
    append_event (event c.run_id EventKind.run_started)
    pure (record { command = c; id = id; epoch = j.owner_epoch + 1 })

  abbrev after_run : Journal → RunRow → Tx Owner
  after_run j r = do require (may_claim c r j) ownership; write j

  abbrev after_check : Journal → Tx Owner
  after_check j = do r ← require_some (find_run c.run_id j) ownership; after_run j r

  abbrev after_row : Journal → CommandRow → Tx Owner
  after_row j m = do require (command_eq m.payload c) ownership; after_check j

  abbrev after_lock : Tx Owner
  after_lock = do j ← get; m ← require_some (find_row accepts j.commands) ownership; after_row j m

-- The start of the run in the event log.
abbrev pub logged : GoString → Journal → Journal
logged run j = record j {
  sequence = j.sequence + 1;
  events = j.events ++ record (event run EventKind.run_started) { sequence = j.sequence + 1 } ∷ [];
}

-- What a claim that succeeds has found and written.
pub record Claimed (c : Command) (id : GoString) (duration : ℕ) (j : Journal) (o : Owner)
    (k : Journal) : Type 0 where
  pub principal : str_eq j.principal c.principal ≡ true
  pub run : RunRow
  pub found : find_run c.run_id j ≡ some run
  pub outcome :
      ◌≡◌ {A = Owner × Journal}
        (
          record { command = c; id = id; epoch = j.owner_epoch + 1 },
          logged c.run_id (take_run c.run_id id duration j),
        )
        (o, k)

claim_body-Claimed :
    (c : Command) (id : GoString) (duration : ℕ) (j : Journal) (o : Owner) (k : Journal)
    → claim_body c id duration j ≡ ok (o, k)
    → Claimed c id duration j o k
unfolding claim_body append_event take_run
claim_body-Claimed c id duration j o k h =
    let a = next_ok (lock_for_claim c.principal) (after_lock c id duration) j h in
    let p = require_ok (str_eq j.principal c.principal) ownership j a.1 in
    let back = rw p.1 at a.2 in
    let row = find_row (accepts c id duration) j.commands in
    let b = Then-ok (require_some row ownership) (after_row c id duration j) j back in
    let d =
      next_ok (require (command_eq b.value.payload c) ownership) (after_check c id duration j)
        b.middle b.second in
    let r =
      Then-ok (require_some (find_run c.run_id j) ownership) (after_run c id duration j) d.0 d.2 in
    let w =
      next_ok (require (may_claim c r.value j) ownership) (write c id duration j) r.middle
        r.second in
    record {
      principal = p.0;
      run = r.value;
      found = (require_some_ok (find_run c.run_id j) ownership d.0 r.first).0;
      outcome = ok-injective w.2;
    }

pub claim-Claimed :
    (c : Command) (id : GoString) (duration : ℕ) (j : Journal) (o : Owner) (k : Journal)
    → claim c id duration j ≡ ok (o, k)
    → Claimed c id duration j o k
unfolding claim
claim-Claimed c id duration j o k h = elim (Bool-cases (is_empty id || duration == 0)) [
  | inl t ↦ cc (rw t at h)
  | inr t ↦ claim_body-Claimed c id duration j o k (rw t at h)
]

-- After a claim that succeeds, the new owner has the conversation's next epoch, and no owner of the
-- run from any earlier epoch passes the lock again.
pub claim_fences :
    (c : Command) (id : GoString) (duration : ℕ) (j : Journal) (o : Owner) (k : Journal) (p : Owner)
    → claim c id duration j ≡ ok (o, k)
    → p.command.run_id ≡ c.run_id
    → p.epoch ≤ j.owner_epoch
    → (o.epoch ≡ j.owner_epoch + 1) × (e : JournalError) × (lock_owner p k ≡ err e)
unfolding HasEpoch
claim_fences c id duration j o k p h same older =
    let w = claim-Claimed c id duration j o k h in
    let marked =
      subst (λ (q : Owner × Journal). HasEpoch c.run_id (j.owner_epoch + 1) q.1) w.outcome
        (take_run-HasEpoch c.run_id id duration j) in
    let s =
      stale_owner p (j.owner_epoch + 1) k
        (subst (λ run. HasEpoch run (j.owner_epoch + 1) k) (sym same) marked) (omega arith) in
    (ap (λ q. q.0.epoch) (sym w.outcome), s.0, s.1)
