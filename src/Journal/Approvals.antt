-- ===== src/Journal/Approvals.antt =====
-- internal/journal/operations.go: an approval covers one dispatch.
use native.Mathlib.Omega.{arith}
use az_agent_platform_go.Prelude.{
  ℕ, ◌≡◌, refl, Bool, true, false, Option, none, some, GoString, Result, ok, err, ap, sym, ◌∙◌,
  if◌then◌else◌, Bool-cases, inl, inr, ok-injective,
}
use az_agent_platform_go.Journal.{
  Journal, Tx, JournalError, superseded, Owner, RunRow, Operation, External, Marker,
}
use az_agent_platform_go.Journal.Transactions.{◌>>=◌, ◌>>◌, get, pure, put, append_event}
use az_agent_platform_go.Journal.Operations.{
  supersede_row, insert_operation, set_marker, open_attempt,
}
use az_agent_platform_go.Journal.Begin.{
  begin_body, begin_first, begin_guard, begin_attempt, check_approval, Approval, granted, stale,
}
use az_agent_platform_go.Journal.Inversion.{Then-ok, next_ok}
use az_agent_platform_go.Journal.Dispatch.{Approved, check_approval_ok, is_current}

-- The two ways on from an approval.
abbrev dispatch : RunRow → Operation → GoString → Tx Bool
dispatch r op id = do
  insert_operation r op
  j ← get
  put (set_marker id Marker.dispatched j)
  open_attempt r.id op 1
  pure false

abbrev refuse : RunRow → GoString → Tx Bool
refuse r id = do supersede_row r.id id; pure true

dispatch_rows :
    (r : RunRow) (op : Operation) (id : GoString) (j : Journal) (gone : Bool) (k : Journal)
    → dispatch r op id j ≡ ok (gone, k)
    → k.interactions ≡ (set_marker id Marker.dispatched j).interactions
unfolding insert_operation open_attempt append_event
dispatch_rows r op id j gone k h = ground (arith, h)

refuse-gone :
    (r : RunRow) (id : GoString) (j : Journal) {gone : Bool} {k : Journal}
    → refuse r id j ≡ ok (gone, k)
    → gone ≡ true
refuse-gone r id j h =
    let a = next_ok (supersede_row r.id id) (pure true) j h in
    ap (λ p. p.0) (sym (ok-injective a.2))

pub taken_branch :
    {A : Type 0} (b : Bool) (one two : Tx A) (j : Journal) {a : A} {k : Journal}
    → b ≡ true
    → (if b then one else two) j ≡ ok (a, k)
    → one j ≡ ok (a, k)
taken_branch true one two j e h = h
taken_branch false one two j e h = cc

-- A first attempt that needs an approval: what it found, and what it left.
pub begin_first_ok :
    (x : External) (r : RunRow) (op : Operation) (expected id : GoString) (j : Journal)
    {gone : Bool} {k : Journal}
    → op.requires_approval ≡ true
    → begin_first x r op expected id j ≡ ok (gone, k)
    → (found : Approved x r.id op expected id j) × ((gone ≡ false)
        → (is_current x expected op found.row ≡ true)
          × (k.interactions ≡ (set_marker id Marker.dispatched j).interactions))
unfolding begin_first
begin_first_ok x r op expected id j {gone} {k} needed h =
    let on : Approval → Tx Bool =
      λ a. elim a [ stale ↦ refuse r id | granted ↦ dispatch r op id ] in
    let c =
      Then-ok (check_approval x r.id op expected id) on j
        (taken_branch op.requires_approval _ _ j needed h) in
    let v = check_approval_ok x r.id op expected id j c.first in
    (
      v.1,
      λ kept. elim (Bool-cases (is_current x expected op v.1.row)) [
        | inl t ↦
            let granting : granted ≡ c.value = rw t at v.2 in
            let rest : dispatch r op id c.middle ≡ ok (gone, k) = rw (sym granting) at c.second in
            (
              t,
              dispatch_rows r op id c.middle gone k rest
                  ∙ ap (λ (i : Journal). (set_marker id Marker.dispatched i).interactions) v.0,
            )
        | inr t ↦
            let refusing : stale ≡ c.value = rw t at v.2 in
            let rest : refuse r id c.middle ≡ ok (gone, k) = rw (sym refusing) at c.second in
            cc (kept, refuse-gone r id c.middle rest)
      ],
    )

-- Where an attempt reports no error, its transaction went through.
pub begin_attempt_ok :
    (x : External) (o : Owner) (op : Operation) (n : ℕ) (id : GoString) (j k : Journal)
    → begin_attempt x o op n id j ≡ (k, none)
    → (begin_guard x op n ≡ true) × (begin_body x o op n id j ≡ ok (false, k))
unfolding begin_attempt
begin_attempt_ok x o op n id j k h = elim (Bool-cases (begin_guard x op n)) [
  | inl t ↦ (t, body (begin_body x o op n id j) refl (rw t at h))
  | inr t ↦ cc (rw t at h)
]
  where
    body :
        (r : Result JournalError (Bool × Journal))
        → begin_body x o op n id j ≡ r
        → ◌≡◌ {A = Journal × Option JournalError}
            (elim r [
              | err e ↦ (j, some e)
              | ok (gone, i) ↦ (i, if gone then some superseded else none)
            ])
            (k, none)
        → begin_body x o op n id j ≡ ok (false, k)
    body (err f) e t = cc (ap (λ p. p.1) t)
    body (ok (true, i)) e t = cc (ap (λ p. p.1) t)
    body (ok (false, i)) e t = e ∙ ap (λ p. ok (false, p.0)) t
