-- ===== src/Journal/Transactions.antt =====
-- Transactions on the journal: the monad, and the locks and the event log that all of them use
-- (internal/journal/store.go, internal/journal/owners.go).
use az_agent_platform_go.Prelude.{
  ℕ, ◌+◌, Bool, true, false, ◌&&◌, List, [], ◌∷◌, ◌++◌, Option, none, some, GoString, str_eq,
  Result, ok, err, ltb, ◌==◌, find_row, update_rows,
}
use az_agent_platform_go.Journal.{
  Journal, Tx, JournalError, ownership, forbidden, Event, EventKind, no_reason, RunRow, RunState,
  Owner,
}

infixl 5 ◌>>=◌ ◌>>◌
abbrev pub ◌>>=◌ : {A B : Type 0} → Tx A → (A → Tx B) → Tx B
◌>>=◌ m f j = elim (m j) [ err e ↦ err e | ok (a, j') ↦ f a j' ]

abbrev pub ◌>>◌ : {B : Type 0} → Tx (Unit {0}) → Tx B → Tx B
m >> k = m >>= λ _. k

abbrev pub pure : {A : Type 0} → A → Tx A
pure a j = ok (a, j)

abbrev pub throw : {A : Type 0} → JournalError → Tx A
throw e j = err e

abbrev pub get : Tx Journal
get j = ok (j, j)

abbrev pub put : Journal → Tx (Unit {0})
put j' j = ok (tt, j')

-- Goes on where the test passes.
abbrev pub require : Bool → JournalError → Tx (Unit {0})
require true e j = ok (tt, j)
require false e j = err e

-- The row of a query that finds one, or the error for none.
abbrev pub require_some : {A : Type 0} → Option A → JournalError → Tx A
require_some none e j = err e
require_some (some a) e j = ok (a, j)

abbrev pub is_running : RunState → Bool
is_running RunState.running = true
is_running _ = false

abbrev pub is_pending : RunState → Bool
is_pending RunState.pending = true
is_pending _ = false

-- state IN ('pending','running')
abbrev pub is_live : RunState → Bool
is_live RunState.pending = true
is_live RunState.running = true
is_live _ = false

unfoldable pub lock_conversation : GoString → Tx (Unit {0})
lock_conversation principal = do j ← get; require (str_eq j.principal principal) forbidden

-- An event of a run, with nothing else set.
abbrev pub event : GoString → EventKind → Event
event run kind = record {
  sequence = 0;
  run_id = run;
  kind = kind;
  call_id = [];
  tool_name = [];
  answer = [];
  communication_id = [];
  reason = no_reason;
}

-- The sequence number of the event comes from the conversation.
unfoldable pub append_event : Event → Tx (Unit {0})
append_event e = do
  j ← get
  let n = j.sequence + 1
  put (record j { sequence = n; events = j.events ++ record e { sequence = n } ∷ [] })

-- One event for each of some rows.
unfoldable pub append_all : {A : Type 0} → (A → Event) → List A → Tx (Unit {0})
append_all f [] = pure tt
append_all f (x ∷ xs) = do append_event (f x); append_all f xs

-- The run of an owner that still holds it.
abbrev pub holds : Owner → ℕ → RunRow → Bool
holds o now r =
    is_running r.state
    && str_eq r.owner_id o.id
    && r.owner_epoch == o.epoch
    && ltb now r.lease_until

abbrev pub find_run : GoString → Journal → Option RunRow
find_run run j = find_row (λ (r : RunRow). str_eq r.id run) j.runs

unfoldable pub lock_owner : Owner → Tx (Unit {0})
unfolding lock_conversation
lock_owner o = do
  lock_conversation o.command.principal
  j ← get
  r ← require_some (find_run o.command.run_id j) ownership
  require (holds o j.now r) ownership

abbrev pub update_run : GoString → (RunRow → RunRow) → Journal → Journal
update_run run f j = record j { runs = update_rows (λ (r : RunRow). str_eq r.id run) f j.runs }

-- A transaction from outside: what is kept and what is returned. An error keeps nothing.
abbrev pub commit : {A : Type 0} → Tx A → Journal → Journal × Result JournalError A
commit t j = elim (t j) [ ok (a, j') ↦ (j', ok a) | err e ↦ (j, err e) ]
