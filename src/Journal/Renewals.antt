-- ===== src/Journal/Renewals.antt =====
-- internal/journal/owners.go: an owner that renews in time keeps its run.
use native.Mathlib.Omega.{arith}
use az_agent_platform_go.Prelude.{
  ℕ, ◌+◌, ◌≤◌, ◌<◌, ◌≡◌, refl, ap, subst, ◌∙◌, Bool, true, false, GoString, str_eq, str_eq_refl,
  Result, ok, err, Option, some, none, ltb, lt→ltb, ◌==◌, find_row-update_rows, if◌then◌else◌, List,
  [], ◌∷◌,
}
use az_agent_platform_go.Journal.{
  Journal, Tx, JournalError, ownership, forbidden, Command, Owner, RunRow, RunState,
}
use az_agent_platform_go.Journal.Transactions.{
  ◌>>=◌, ◌>>◌, require, require_some, lock_owner, lock_conversation, find_run, holds, update_run,
  pure, throw, put, get, is_running,
}
use az_agent_platform_go.Journal.Owners.{claim, take_run, renew, check_owner}
use az_agent_platform_go.Journal.Fencing.{claim-Claimed}

-- The owner holds its run until `until`.
pub record Holds (o : Owner) (until : ℕ) (j : Journal) : Type 0 where
  pub principal : str_eq j.principal o.command.principal ≡ true
  pub run : RunRow
  pub found : find_run o.command.run_id j ≡ some run
  pub state : is_running run.state ≡ true
  pub owner : str_eq run.owner_id o.id ≡ true
  pub epoch : (run.owner_epoch == o.epoch) ≡ true
  pub lease : run.lease_until ≡ until

-- Some time passes.
abbrev pub later : ℕ → Journal → Journal
later wait j = record j { now = j.now + wait }

Holds-later :
    (o : Owner) (until wait : ℕ) (j : Journal) → Holds o until j → Holds o until (later wait j)
Holds-later o until wait j h = record {
  principal = h.principal;
  run = h.run;
  found = h.found;
  state = h.state;
  owner = h.owner;
  epoch = h.epoch;
  lease = h.lease;
}

-- A transaction whose first part succeeds goes on with the rest.
goes_on :
    {A B : Type 0} (m : Tx A) (f : A → Tx B) (j : Journal) (a : A) (i : Journal)
    → m j ≡ ok (a, i)
    → (m >>= f) j ≡ f a i
goes_on {A} {B} m f j a i e = ap rest e
  where
    rest : Result JournalError (A × Journal) → Result JournalError (B × Journal)
    rest (err x) = err x
    rest (ok (b, k)) = f b k

passes : (t : Bool) (e : JournalError) (j : Journal) → t ≡ true → require t e j ≡ ok (tt, j)
passes true e j h = refl
passes false e j h = cc

finds :
    {A : Type 0} (o : Option A) (e : JournalError) (j : Journal) (a : A)
    → o ≡ some a
    → require_some o e j ≡ ok (a, j)
finds none e j a h = cc
finds (some b) e j a h = ap (λ c. ok (c, j)) (cc h)

-- An owner passes the lock until its lease ends.
pub lock_owner-Holds :
    (o : Owner) (until : ℕ) (j : Journal)
    → Holds o until j
    → j.now < until
    → lock_owner o j ≡ ok (tt, j)
unfolding lock_owner lock_conversation
lock_owner-Holds o until j h l =
    goes_on (require (str_eq j.principal o.command.principal) forbidden) (λ _. after_lock) j tt j
      (passes (str_eq j.principal o.command.principal) forbidden j h.principal)
    ∙ goes_on (require_some (find_run o.command.run_id j) ownership) still_held j h.run j
        (finds (find_run o.command.run_id j) ownership j h.run h.found)
    ∙ passes (holds o j.now h.run) ownership j held
  where
    still_held : RunRow → Tx (Unit {0})
    still_held r = require (holds o j.now r) ownership

    after_lock : Tx (Unit {0})
    after_lock = do
      k ← get
      r ← require_some (find_run o.command.run_id k) ownership
      require (holds o k.now r) ownership

    held : holds o j.now h.run ≡ true
    held =
        let in_time : ltb j.now h.run.lease_until ≡ true =
          lt→ltb j.now h.run.lease_until (omega (arith, h.lease, l)) in
        ground (arith, h.state, h.owner, h.epoch, in_time)

renewed : Owner → ℕ → Journal → Journal
renewed o duration j =
    update_run o.command.run_id (λ (r : RunRow). record r { lease_until = j.now + duration }) j

Holds-renewed :
    (o : Owner) (until duration : ℕ) (j : Journal)
    → Holds o until j
    → Holds o (j.now + duration) (renewed o duration j)
unfolding renewed
Holds-renewed o until duration j h = record {
  principal = h.principal;
  run = record h.run { lease_until = j.now + duration };
  found =
      find_row-update_rows (λ (r : RunRow). str_eq r.id o.command.run_id)
        (λ (r : RunRow). record r { lease_until = j.now + duration }) j.runs h.run (λ x. refl)
        h.found;
  state = h.state;
  owner = h.owner;
  epoch = h.epoch;
  lease = refl;
}

-- A renewal before the lease ends succeeds.
renew-Holds :
    (o : Owner) (until duration : ℕ) (j : Journal)
    → Holds o until j
    → j.now < until
    → (duration == 0) ≡ false
    → renew o duration j ≡ ok (tt, renewed o duration j)
unfolding renew renewed
renew-Holds o until duration j h l d =
    ap (λ b. (if b then throw ownership else locked) j) d
    ∙ goes_on (lock_owner o) (λ _. write) j tt j (lock_owner-Holds o until j h l)
  where
    write : Tx (Unit {0})
    write = do
      k ← get
      put (
          update_run o.command.run_id (λ (r : RunRow). record r { lease_until = k.now + duration })
            k)

    locked : Tx (Unit {0})
    locked = do lock_owner o; write

-- Renewals one after another, each after some time, for some duration.
unfoldable pub renew_each : Owner → List (ℕ × ℕ) → Tx (Unit {0})
unfolding renew
renew_each o [] = pure tt
renew_each o ((wait, duration) ∷ steps) = do
  j ← get
  put (later wait j)
  renew o duration
  renew_each o steps

-- Each comes before the one before it runs out.
abbrev pub InTime : ℕ → List (ℕ × ℕ) → Type 0
InTime left [] = Unit {0}
InTime left ((wait, duration) ∷ steps) = (wait < left) × (1 ≤ duration) × InTime duration steps

-- How long the last renewal lasts.
abbrev pub lasting : ℕ → List (ℕ × ℕ) → ℕ
lasting left [] = left
lasting left ((wait, duration) ∷ steps) = lasting duration steps

-- A claim gives the run to the owner it returns.
claim-Holds :
    (c : Command) (id : GoString) (duration : ℕ) (j : Journal) (o : Owner) (k : Journal)
    → claim c id duration j ≡ ok (o, k)
    → Holds o (k.now + duration) k
unfolding take_run
claim-Holds c id duration j o k h =
    let w = claim-Claimed c id duration j o k h in
    subst (λ (p : Owner × Journal). Holds p.0 (p.1.now + duration) p.1) w.outcome
      (record {
        principal = w.principal;
        run = record w.run {
          state = RunState.running;
          owner_id = id;
          owner_epoch = j.owner_epoch + 1;
          lease_until = j.now + duration;
        };
        found =
            find_row-update_rows (λ (r : RunRow). str_eq r.id c.run_id)
              (λ (r : RunRow). record r {
                state = RunState.running;
                owner_id = id;
                owner_epoch = j.owner_epoch + 1;
                lease_until = j.now + duration;
              })
              j.runs w.run (λ x. refl) w.found;
        state = refl;
        owner = str_eq_refl id;
        epoch = ground arith;
        lease = refl;
      })

-- Renewals that come in time all succeed, and the last one holds for its duration.
pub renew_each-Holds :
    (o : Owner) (left : ℕ) (steps : List (ℕ × ℕ)) (j : Journal)
    → Holds o (j.now + left) j
    → InTime left steps
    → (k : Journal) × (renew_each o steps j ≡ ok (tt, k)) × Holds o (k.now + lasting left steps) k
unfolding renew_each renewed
renew_each-Holds o left [] j h t = (j, refl, h)
renew_each-Holds o left ((wait, duration) ∷ steps) j h t =
    let now = later wait j in
    let waited = Holds-later o (j.now + left) wait j h in
    let kept =
      renew-Holds o (j.now + left) duration now waited (omega (arith, t.0)) (ground (arith, t.1)) in
    let rest =
      renew_each-Holds o duration steps (renewed o duration now)
        (Holds-renewed o (j.now + left) duration now waited) t.2 in
    (
      rest.0,
      goes_on (renew o duration) (λ _. renew_each o steps) now tt (renewed o duration now) kept
          ∙ rest.1,
      rest.2,
    )

-- After a claim that succeeds, and with nothing but time between them, renewals for some time each of
-- which comes before the claim or the renewal before it runs out all succeed, and the owner still
-- holds its run at any time before the last of them runs out.
pub claim-renew_each :
    (c : Command) (id : GoString) (duration : ℕ) (j : Journal) (o : Owner) (k : Journal)
    (steps : List (ℕ × ℕ)) (wait : ℕ)
    → claim c id duration j ≡ ok (o, k)
    → InTime duration steps
    → wait < lasting duration steps
    → (l : Journal) × (renew_each o steps k ≡ ok (tt, l))
      × (check_owner o (later wait l) ≡ ok (tt, later wait l))
unfolding check_owner
claim-renew_each c id duration j o k steps wait h t w =
    let r = renew_each-Holds o duration steps k (claim-Holds c id duration j o k h) t in
    (
      r.0,
      r.1,
      lock_owner-Holds o (r.0.now + lasting duration steps) (later wait r.0)
          (Holds-later o (r.0.now + lasting duration steps) wait r.0 r.2) (omega (arith, w)),
    )
