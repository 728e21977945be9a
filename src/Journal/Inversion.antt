-- ===== src/Journal/Inversion.antt =====
-- What a transaction that succeeds has passed, step by step.
use az_agent_platform_go.Prelude.{
  ◌≡◌, refl, Bool, true, false, Option, none, some, str_eq, Result, ok, err, ◌∙◌,
}
use az_agent_platform_go.Journal.{Journal, Tx, JournalError, ownership, forbidden, Owner, RunRow}
use az_agent_platform_go.Journal.Transactions.{
  ◌>>=◌, ◌>>◌, require, require_some, lock_conversation, lock_owner, find_run, holds, get,
}

-- A transaction that binds: its first part succeeded, and the rest from there.
pub record Then {A B : Type 0} (m : Tx A) (f : A → Tx B) (j : Journal) (b : B) (k : Journal)
    : Type 0 where
  pub value : A
  pub middle : Journal
  pub first : m j ≡ ok (value, middle)
  pub second : f value middle ≡ ok (b, k)

pub Then-ok :
    {A B : Type 0} (m : Tx A) (f : A → Tx B) (j : Journal) {b : B} {k : Journal}
    → (m >>= f) j ≡ ok (b, k)
    → Then m f j b k
Then-ok {A} {B} m f j {b} {k} h = split (m j) refl h
  where
    split :
        (r : Result JournalError (A × Journal))
        → m j ≡ r
        → ◌≡◌ {A = Result JournalError (B × Journal)}
            (elim r [ err e ↦ err e | ok (a, i) ↦ f a i ])
            (ok (b, k))
        → Then m f j b k
    split (ok (a, i)) e t = record { value = a; middle = i; first = e; second = t }
    split (err x) e t = cc

pub require_ok :
    (t : Bool) (e : JournalError) (j : Journal) {u : Unit {0}} {k : Journal}
    → require t e j ≡ ok (u, k)
    → (t ≡ true) × (k ≡ j)
require_ok true e j {u} {k} h = (refl, cc h)
require_ok false e j h = cc

pub require_some_ok :
    {A : Type 0} (o : Option A) (e : JournalError) (j : Journal) {a : A} {k : Journal}
    → require_some o e j ≡ ok (a, k)
    → (o ≡ some a) × (k ≡ j)
require_some_ok none e j h = cc
require_some_ok (some b) e j {a} {k} h = (cc h, cc h)

-- An owner that passes the lock holds the run, and the lock changes nothing.
pub record Locked (o : Owner) (j : Journal) : Type 0 where
  pub run : RunRow
  pub found : find_run o.command.run_id j ≡ some run
  pub held : holds o j.now run ≡ true
  pub principal : str_eq j.principal o.command.principal ≡ true

-- The same, for a step whose result is not used.
pub next_ok :
    {B : Type 0} (m : Tx (Unit {0})) (n : Tx B) (j : Journal) {b : B} {k : Journal}
    → (m >> n) j ≡ ok (b, k)
    → (i : Journal) × (m j ≡ ok (tt, i)) × (n i ≡ ok (b, k))
next_ok m n j h = let t = Then-ok m (λ _. n) j h in (t.middle, t.first, t.second)

pub lock_owner_ok :
    (o : Owner) (j : Journal) {u : Unit {0}} {k : Journal}
    → lock_owner o j ≡ ok (u, k)
    → (k ≡ j) × Locked o j
unfolding lock_owner lock_conversation
lock_owner_ok o j {u} {k} h =
    let a =
      next_ok (lock_conversation o.command.principal)
        (do
          j ← get
          r ← require_some (find_run o.command.run_id j) ownership
          require (holds o j.now r) ownership)
        j h in
    let p = require_ok (str_eq j.principal o.command.principal) forbidden j a.1 in
    let b = rw p.1 at a.2 in
    let r =
      Then-ok (require_some (find_run o.command.run_id j) ownership)
        (λ r. require (holds o j.now r) ownership) j b in
    let f = require_some_ok (find_run o.command.run_id j) ownership j r.first in
    let q = require_ok (holds o j.now r.value) ownership r.middle r.second in
    (q.1 ∙ f.1, record { run = r.value; found = f.0; held = q.0; principal = p.0 })
