-- ===== src/Journal/Over.antt =====
-- internal/journal: a run that has ended stays ended through the transactions of the store.
use native.Mathlib.Omega.{arith}
use az_agent_platform_go.Prelude.{
  ◌≡◌, refl, sym, subst, ◌∙◌, ℕ, ◌+◌, Bool, true, false, not, ◌&&◌, ◌||◌, List, [], ◌∷◌, ◌++◌,
  Option, none, some, GoString, str_eq, str_eq_iff, ok, find_row, find_row-true, find_row-All, anyb,
  update_rows, All, All-append_one, All-update_rows, Bool-cases, inl, inr,
}
use az_agent_platform_go.Journal.{
  Journal, Tx, Owner, Command, Event, Operation, Outcome, RunRow, RunState, External,
}
use az_agent_platform_go.Journal.Transactions.{
  append_event, lock_conversation, lock_owner, find_run, update_run, is_live,
}
use az_agent_platform_go.Journal.Operations.{
  supersede, supersede_row, insert_operation, open_attempt, reopen_operation, set_outcome,
}
use az_agent_platform_go.Journal.Begin.{
  begin_attempt, begin_body, begin_first, begin_again, check_approval, end_attempt, end_body,
}
use az_agent_platform_go.Journal.Owners.{renew, claim, claim_body, take_run}
use az_agent_platform_go.Journal.Sessions.{set_active_journeys}
use az_agent_platform_go.Journal.Outcomes.{include_one}
use az_agent_platform_go.Journal.Waits.{is_awaiting}

-- The run has ended: it is neither live nor waiting.
abbrev pub is_over : RunRow → Bool
is_over r = not (is_live r.state) && not (is_awaiting r.state)

abbrev pub IsOverAt : GoString → RunRow → Type 0
IsOverAt id r = str_eq r.id id ≡ true → is_over r ≡ true

-- There is a row of the run, and every one is over.
unfoldable pub Over : GoString → List RunRow → Type 0
Over id rs = All (IsOverAt id) rs × (anyb (λ (r : RunRow). str_eq r.id id) rs ≡ true)

pub anyb-update_rows :
    (id : GoString) (p : RunRow → Bool) (f : RunRow → RunRow) (rs : List RunRow)
    → ((r : RunRow) → (f r).id ≡ r.id)
    → anyb (λ (r : RunRow). str_eq r.id id) (update_rows p f rs)
      ≡ anyb (λ (r : RunRow). str_eq r.id id) rs
anyb-update_rows id p f [] h = refl
anyb-update_rows id p f (x ∷ xs) h = elim (Bool-cases (p x)) [
  | inl t ↦ rw (t, h x, anyb-update_rows id p f xs h) refl
  | inr t ↦ rw (t, anyb-update_rows id p f xs h) refl
]

pub Over-update_rows :
    (id : GoString) (p : RunRow → Bool) (f : RunRow → RunRow) (rs : List RunRow)
    → ((r : RunRow) → (f r).id ≡ r.id)
    → ((r : RunRow) → p r ≡ true → IsOverAt id r → IsOverAt id (f r))
    → Over id rs
    → Over id (update_rows p f rs)
unfolding Over
Over-update_rows id p f rs same keep h =
    (All-update_rows (IsOverAt id) p f rs keep h.0, rw (anyb-update_rows id p f rs same) h.1)

-- The rows of one run are updated, and a row of it that is found is not over.
pub Over-update_by :
    (id other : GoString) (p : RunRow → Bool) (row : RunRow) (f : RunRow → RunRow)
    (rs : List RunRow)
    → find_row p rs ≡ some row
    → row.id ≡ other
    → is_over row ≡ false
    → ((r : RunRow) → (f r).id ≡ r.id)
    → Over id rs
    → Over id (update_rows (λ (r : RunRow). str_eq r.id other) f rs)
unfolding Over
Over-update_by id other p row f rs found one live same h =
    let at = find_row-All (IsOverAt id) p rs row h.0 found in
    Over-update_rows id (λ (r : RunRow). str_eq r.id other) f rs same
      (λ r here was now.
        let old : str_eq r.id id ≡ true = subst (λ s. str_eq s id ≡ true) (same r) now in
        let two : r.id ≡ other = (str_eq_iff r.id other).0 here in
        let known : str_eq row.id id ≡ true = subst (λ s. str_eq s id ≡ true) (two ∙ sym one) old in
        cc (live, at.0 known))
      h

pub Over-update_found :
    (id other : GoString) (row : RunRow) (f : RunRow → RunRow) (rs : List RunRow)
    → find_row (λ (r : RunRow). str_eq r.id other) rs ≡ some row
    → is_over row ≡ false
    → ((r : RunRow) → (f r).id ≡ r.id)
    → Over id rs
    → Over id (update_rows (λ (r : RunRow). str_eq r.id other) f rs)
Over-update_found id other row f rs found =
    Over-update_by id other (λ (r : RunRow). str_eq r.id other) row f rs found
      ((str_eq_iff row.id other).0 (find_row-true (λ (r : RunRow). str_eq r.id other) rs row found))

anyb-append_one :
    (id : GoString) (rs : List RunRow) (r : RunRow)
    → anyb (λ (a : RunRow). str_eq a.id id) rs ≡ true
    → anyb (λ (a : RunRow). str_eq a.id id) (rs ++ r ∷ []) ≡ true
anyb-append_one id [] r h = cc
anyb-append_one id (x ∷ xs) r h = ground (arith, anyb-append_one id xs r)

fresh_run :
    (id new : GoString) (rs : List RunRow)
    → anyb (λ (a : RunRow). str_eq a.id new || is_live a.state) rs ≡ false
    → anyb (λ (a : RunRow). str_eq a.id id) rs ≡ true
    → str_eq new id ≡ false
fresh_run id new [] h g = cc
fresh_run id new (x ∷ xs) h g =
    ground (arith, fresh_run id new xs, str_eq_iff new id, str_eq_iff x.id id, str_eq_iff x.id new)

pub Over-append :
    (id : GoString) (rs : List RunRow) (r : RunRow)
    → anyb (λ (a : RunRow). str_eq a.id r.id || is_live a.state) rs ≡ false
    → Over id rs
    → Over id (rs ++ r ∷ [])
unfolding Over
Over-append id rs r free h =
    let other = fresh_run id r.id rs free h.1 in
    (All-append_one (IsOverAt id) rs r h.0 (λ e. cc (other, e)), anyb-append_one id rs r h.1)

-- Every success leaves the runs as they were.
abbrev pub SameRuns : {A : Type 0} → Tx A → Type 0
SameRuns {A} t = (j : Journal) (a : A) (k : Journal) → t j ≡ ok (a, k) → k.runs ≡ j.runs

pub begin_attempt_runs :
    (x : External) (o : Owner) (op : Operation) (n : ℕ) (id : GoString) (j : Journal)
    → (begin_attempt x o op n id j).0.runs ≡ j.runs
unfolding begin_attempt begin_body begin_first begin_again check_approval supersede_row
    insert_operation open_attempt reopen_operation set_outcome append_event lock_owner
    lock_conversation
begin_attempt_runs x o op n id j = ground arith

pub end_attempt_runs :
    (o : Owner) (op : Operation) (n : ℕ) (out : Outcome) (j : Journal)
    → (end_attempt o op n out j).0.runs ≡ j.runs
unfolding end_attempt end_body append_event lock_owner lock_conversation
end_attempt_runs o op n out j = ground arith

pub supersede-SameRuns : (o : Owner) (id : GoString) → SameRuns (supersede o id)
unfolding supersede supersede_row append_event lock_owner lock_conversation
supersede-SameRuns o id j u k h = ground (arith, h)

pub set_active_journeys-SameRuns :
    (o : Owner) (active : List GoString) → SameRuns (set_active_journeys o active)
unfolding set_active_journeys lock_owner lock_conversation
set_active_journeys-SameRuns o active j u k h = ground (arith, h)

pub include_one-SameRuns : (r s : GoString) → SameRuns (include_one r s)
unfolding include_one append_event
include_one-SameRuns r s j u k h = ground (arith, h)

pub append_event-SameRuns : (e : Event) → SameRuns (append_event e)
unfolding append_event
append_event-SameRuns e j u k h = ground (arith, h)

pub lock_owner-SameRuns : (o : Owner) → SameRuns (lock_owner o)
unfolding lock_owner lock_conversation
lock_owner-SameRuns o j u k h = ground (arith, h)

module _ (id : GoString) where
  -- Every success keeps the run over.
  abbrev pub KeepsOver : {A : Type 0} → Tx A → Type 0
  KeepsOver {A} t =
      (j : Journal) (a : A) (k : Journal) → t j ≡ ok (a, k) → Over id j.runs → Over id k.runs

  pub SameRuns-KeepsOver : {A : Type 0} (t : Tx A) → SameRuns t → KeepsOver t
  SameRuns-KeepsOver t s j a k e h = subst (Over id) (sym (s j a k e)) h

  -- A transaction that fails without the run's row, and otherwise writes the row of a live run.
  by_found :
      {A : Type 0} (t : Tx A) (other : GoString) (f : RunRow → RunRow) (j : Journal) (a : A)
      (k : Journal)
      → ((r : RunRow) → (f r).id ≡ r.id)
      → (find_run other j ≡ none → true ≡ false)
      → ((r : RunRow) → find_run other j ≡ some r → is_live r.state ≡ true)
      → k.runs ≡ (update_run other f j).runs
      → Over id j.runs
      → Over id k.runs
  by_found t other f j a k same there live rows h = by_row (find_run other j) refl
    where
      by_row : (o : Option RunRow) → find_run other j ≡ o → Over id k.runs
      by_row none e = cc (there e)
      by_row (some r) e =
          let run = live r e in
          subst (Over id) (sym rows)
            (Over-update_found id other r f j.runs e (ground (arith, run)) same h)

  pub renew-KeepsOver : (o : Owner) (n : ℕ) → KeepsOver (renew o n)
  unfolding renew lock_owner lock_conversation
  renew-KeepsOver o n j u k e h =
      by_found (renew o n) o.command.run_id (λ (r : RunRow). record r { lease_until = j.now + n }) j
        u k (λ r. refl) (λ q. ground (arith, q, e)) (λ r q. ground (arith, q, e))
        (ground (arith, e)) h

  pub claim-KeepsOver : (c : Command) (i : GoString) (n : ℕ) → KeepsOver (claim c i n)
  unfolding claim claim_body take_run append_event
  claim-KeepsOver c i n j u k e h =
      by_found (claim c i n) c.run_id
        (λ (r : RunRow). record r {
          state = RunState.running;
          owner_id = i;
          owner_epoch = j.owner_epoch + 1;
          lease_until = j.now + n;
        })
        j u k (λ r. refl) (λ q. ground (arith, q, e)) (λ r q. ground (arith, q, e))
        (ground (arith, e)) h
