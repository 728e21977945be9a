-- ===== src/Journal/Used.antt =====
-- internal/journal: the transactions that write agent_interactions leave rows that are used up as they
-- are.
use native.Mathlib.Omega.{arith}
use az_agent_platform_go.Prelude.{
  ◌≡◌, refl, ap, sym, subst, ◌∙◌, ℕ, Bool, true, false, List, some, GoString, str_eq, str_eq_iff,
  ◌==◌, ok, find_row, find_row-true, filterb, update_rows, ok-injective, Bool-cases, inl, inr,
  if◌then◌else◌,
}
use az_agent_platform_go.Journal.{
  Journal, Tx, Owner, Event, EventKind, Operation, RunRow, External, InteractionRow, Marker,
  bad_state,
}
use az_agent_platform_go.Journal.Transactions.{
  append_event, event, ◌>>◌, ◌>>=◌, put, pure, get, require, require_some,
}
use az_agent_platform_go.Journal.Operations.{
  supersede_row, supersede, set_marker, consumed_approval, is_superseded, is_decided,
  insert_operation, open_attempt, reopen_operation, set_outcome,
}
use az_agent_platform_go.Journal.Waits.{expire_interactions, is_due, expire_row}
use az_agent_platform_go.Journal.Begin.{
  begin_body, begin_first, begin_again, check_approval, Approval, granted, stale,
}
use az_agent_platform_go.Journal.Dispatch.{begin_body_ok, check_approval_ok}
use az_agent_platform_go.Journal.Inversion.{Then-ok, next_ok, require_ok, require_some_ok}
use az_agent_platform_go.Journal.Held.{Held, Held-update_rows, Held-found, is_used}
use az_agent_platform_go.Journal.Untouched.{
  Untouched, fail_waiting_runs-Untouched, append_event-Untouched, lock_owner-Untouched,
}

module _ (sent : Bool) (id : GoString) where
  -- Every success keeps the rows of the ID used.
  abbrev pub Keeps : {A : Type 0} → Tx A → Type 0
  Keeps {A} t =
      (j : Journal) (a : A) (k : Journal)
      → t j ≡ ok (a, k)
      → Held sent id j.interactions
      → Held sent id k.interactions

  pub Untouched-Keeps : {A : Type 0} (t : Tx A) → Untouched t → Keeps t
  Untouched-Keeps t u j a k e h = subst (Held sent id) (sym (u j a k e)) h

  pub Keeps-next : {B : Type 0} (m : Tx (Unit {0})) (n : Tx B) → Keeps m → Keeps n → Keeps (m >> n)
  Keeps-next m n p q j b k e h = let t = next_ok m n j e in q t.0 b k t.2 (p j tt t.0 t.1 h)

  pub expire_interactions-Keeps : (x : External) → Keeps (expire_interactions x)
  unfolding expire_interactions
  expire_interactions-Keeps x j u k e h =
      subst (Held sent id)
        (sym (fail_waiting_runs-Untouched x (filterb (is_due x j.now) j.interactions) _ u k e))
        (Held-update_rows sent id (is_due x j.now) (expire_row x) j.interactions (λ i. refl)
          (λ i due was at. ground (arith, due, was at)) h)

  -- The rows of one ID are updated, where a row found under that ID says what the update may do.
  pub update_found-Held :
      (other : GoString) (p : InteractionRow → Bool) (row : InteractionRow)
      (f : InteractionRow → InteractionRow) (xs : List InteractionRow)
      → find_row p xs ≡ some row
      → str_eq row.id other ≡ true
      → ((i : InteractionRow) → (f i).id ≡ i.id)
      → (is_used sent row ≡ true
          → (i : InteractionRow) → is_used sent i ≡ true
          → is_used sent (f i) ≡ true)
      → Held sent id xs
      → Held sent id (update_rows (λ (i : InteractionRow). str_eq i.id other) f xs)
  update_found-Held other p row f xs found named same keep h =
      Held-update_rows sent id (λ (i : InteractionRow). str_eq i.id other) f xs same
        (λ i at was here.
          let old : str_eq i.id id ≡ true = subst (λ s. str_eq s id ≡ true) (same i) here in
          let one : row.id ≡ other = (str_eq_iff row.id other).0 named in
          let two : i.id ≡ other = (str_eq_iff i.id other).0 at in
          let known : str_eq row.id id ≡ true =
            subst (λ s. str_eq s id ≡ true) (two ∙ sym one) old in
          keep (Held-found sent id p xs row h found known) i (was old))
        h

  supersede_row-Keeps : (run other : GoString) → Keeps (supersede_row run other)
  unfolding supersede_row
  supersede_row-Keeps run other j u k e h =
      let wanted = find_row (consumed_approval other run) j.interactions in
      let told : InteractionRow → Event = λ i. record (event run EventKind.interaction_superseded) {
        call_id = i.artifact.call.call_id;
      } in
      let marked = set_marker other Marker.superseded j in
      let mark : InteractionRow → Tx (Unit {0}) =
        λ i. (do require (is_decided i.marker) bad_state; put marked; append_event (told i)) in
      let f =
        Then-ok (require_some wanted bad_state)
          (λ (i : InteractionRow). if is_superseded i.marker then pure tt else mark i) j e in
      let at = require_some_ok wanted bad_state j f.first in
      let row = f.value in
      elim (Bool-cases (is_superseded row.marker)) [
        | inl t ↦
            let last : ok (tt, f.middle) ≡ ok (u, k) = rw t at f.second in
            let same : k ≡ j = sym (ap (λ p. p.1) (ok-injective last)) ∙ at.1 in
            subst (λ (i : Journal). Held sent id i.interactions) (sym same) h
        | inr t ↦
            let rest : mark row f.middle ≡ ok (u, k) = rw t at f.second in
            let d =
              next_ok (require (is_decided row.marker) bad_state)
                (do put marked; append_event (told row)) f.middle rest in
            let decided = (require_ok (is_decided row.marker) bad_state f.middle d.1).0 in
            let passes = find_row-true (consumed_approval other run) j.interactions row at.0 in
            subst (Held sent id) (sym (append_event-Untouched (told row) marked u k d.2)) (
              update_found-Held other (consumed_approval other run) row
                (λ (i : InteractionRow). record i { marker = some Marker.superseded })
                j.interactions at.0 (ground (arith, passes)) (λ i. refl)
                (λ used i was. ground (arith, used, was, decided)) h)
      ]

  pub supersede-Keeps : (o : Owner) (other : GoString) → Keeps (supersede o other)
  unfolding supersede
  supersede-Keeps o other =
      Keeps-next _ (supersede_row o.command.run_id other)
        (Untouched-Keeps _ (lock_owner-Untouched o)) (supersede_row-Keeps o.command.run_id other)

  abbrev dispatch : RunRow → Operation → GoString → Tx Bool
  dispatch r op other = do
    insert_operation r op
    j ← get
    put (set_marker other Marker.dispatched j)
    open_attempt r.id op 1
    pure false

  dispatch_rows :
      (r : RunRow) (op : Operation) (other : GoString) (j : Journal) (b : Bool) (k : Journal)
      → dispatch r op other j ≡ ok (b, k)
      → k.interactions ≡ (set_marker other Marker.dispatched j).interactions
  unfolding insert_operation open_attempt append_event
  dispatch_rows r op other j b k e = ground (arith, e)

  dispatch-Keeps : (r : RunRow) (op : Operation) (other : GoString) → Keeps (dispatch r op other)
  dispatch-Keeps r op other j b k e h =
      subst (Held sent id) (sym (dispatch_rows r op other j b k e)) (
        Held-update_rows sent id (λ (i : InteractionRow). str_eq i.id other)
          (λ (i : InteractionRow). record i { marker = some Marker.dispatched }) j.interactions
          (λ i. refl) (λ i at was here. ground (arith, was here)) h)

  begin_plain-Untouched :
      (r : RunRow) (op : Operation)
      → Untouched (do insert_operation r op; open_attempt r.id op 1; pure false)
  unfolding insert_operation open_attempt append_event
  begin_plain-Untouched r op j b k e = ground (arith, e)

  begin_again-Untouched :
      (x : External) (r : RunRow) (op : Operation) (n : ℕ) → Untouched (begin_again x r op n)
  unfolding begin_again reopen_operation open_attempt append_event set_outcome
  begin_again-Untouched x r op n j b k e = ground (arith, e)

  begin_first-Keeps :
      (x : External) (r : RunRow) (op : Operation) (expected other : GoString)
      → Keeps (begin_first x r op expected other)
  unfolding begin_first
  begin_first-Keeps x r op expected other j b k e h = by_need op.requires_approval e
    where
      on : Approval → Tx Bool
      on a = elim a [
        | stale ↦ do supersede_row r.id other; pure true
        | granted ↦ dispatch r op other
      ]

      by_verdict : (a : Approval) → Keeps (on a)
      by_verdict stale =
          Keeps-next (supersede_row r.id other) (pure true) (supersede_row-Keeps r.id other) (
            Untouched-Keeps (pure true)
              (λ i c l q. ap (λ p. p.1.interactions) (sym (ok-injective q))))
      by_verdict granted = dispatch-Keeps r op other

      by_need :
          (need : Bool)
          → (if need
                then (check_approval x r.id op expected other >>= on)
                else (do insert_operation r op; open_attempt r.id op 1; pure false))
              j
            ≡ ok (b, k)
          → Held sent id k.interactions
      by_need false q = Untouched-Keeps _ (begin_plain-Untouched r op) j b k q h
      by_need true q =
          let c = Then-ok (check_approval x r.id op expected other) on j q in
          let v = check_approval_ok x r.id op expected other j c.first in
          by_verdict c.value c.middle b k c.second
            (subst (λ (i : Journal). Held sent id i.interactions) (sym v.0) h)

  pub begin_body-Keeps :
      (x : External) (o : Owner) (op : Operation) (n : ℕ) (other : GoString)
      → Keeps (begin_body x o op n other)
  begin_body-Keeps x o op n other j b k e h =
      let c = begin_body_ok x o op n other j e in by_number c.run c.expected (n == 1) c.work
    where
      by_number :
          (r : RunRow) (expected : GoString) (first : Bool)
          → (if first then begin_first x r op expected other else begin_again x r op n) j
            ≡ ok (b, k)
          → Held sent id k.interactions
      by_number r expected true q = begin_first-Keeps x r op expected other j b k q h
      by_number r expected false q = Untouched-Keeps _ (begin_again-Untouched x r op n) j b k q h
