-- ===== src/Journal/Kept.antt =====
-- internal/journal: waits, replies and admissions leave interactions that are used up as they are.
use native.Mathlib.Omega.{arith}
use az_agent_platform_go.Prelude.{
  ◌≡◌, refl, ap, sym, subst, ◌∙◌, ℕ, ◌+◌, Bool, true, false, not, ◌||◌, [], ◌∷◌, ◌++◌, Option, none,
  some, GoString, str_eq, ltb, ok, find_row, find_row-true, anyb, ok-injective, inl, inr,
}
use az_agent_platform_go.Journal.{
  Journal, Tx, Owner, Command, CommandRow, Reply, Interaction, RunRow, External, InteractionRow,
  bad_state, conflict, forbidden, busy,
}
use az_agent_platform_go.Journal.Transactions.{
  append_event, ◌>>◌, ◌>>=◌, pure, get, require, require_some, lock_conversation, throw, lock_owner,
  find_run,
}
use az_agent_platform_go.Journal.Waits.{
  wait, wait_body, waiting_row, expire_interactions, is_unanswered, record_wait,
  recorded_interaction_ttl,
}
use az_agent_platform_go.Journal.Replies.{
  reply_body, consume_row, answered_marker, Replied, repeated,
}
use az_agent_platform_go.Journal.Owners.{command_eq, interrupt_expired}
use az_agent_platform_go.Journal.Admission.{
  find_accepted, schedule, admit_body, admit, reap_run, Receipt, receipt_for,
}
use az_agent_platform_go.Journal.Consumed.{answer_row, answer_row_ok, by_command, wanted}
use az_agent_platform_go.Journal.Inversion.{Then-ok, next_ok, require_ok, require_some_ok}
use az_agent_platform_go.Journal.Hoare.{Ends, Ends-require, Ends-pure, Ends-throw, Ends-if}
use az_agent_platform_go.Journal.Held.{Held, Held-append}
use az_agent_platform_go.Journal.Used.{
  Keeps, Untouched-Keeps, Keeps-next, expire_interactions-Keeps, update_found-Held,
}
use az_agent_platform_go.Journal.Untouched.{interrupt_expired-Untouched, schedule-Untouched}

-- The row that a wait adds, and that its ID was free.
module _ (x : External) (o : Owner) (i : Interaction) (checkpoint history : GoString) where
  wait_run :
      (j : Journal) (u : Unit {0}) (k : Journal)
      → find_run o.command.run_id j ≡ none
      → wait x o i checkpoint history j ≡ ok (u, k)
      → true ≡ false
  unfolding wait wait_body record_wait lock_owner lock_conversation append_event
  wait_run j u k e h = ground (arith, e, h)

  wait_ttl :
      (j : Journal) (u : Unit {0}) (k : Journal) (r : RunRow)
      → find_run o.command.run_id j ≡ some r
      → recorded_interaction_ttl x r.settings ≡ none
      → wait x o i checkpoint history j ≡ ok (u, k)
      → true ≡ false
  unfolding wait wait_body record_wait lock_owner lock_conversation append_event
  wait_ttl j u k r e t h = ground (arith, e, t, h)

  abbrev added : Journal → RunRow → ℕ → InteractionRow
  added j r ttl = waiting_row x (record i { expires_at = j.now + ttl }) checkpoint history r

  wait_rows :
      (j : Journal) (u : Unit {0}) (k : Journal) (r : RunRow) (ttl : ℕ)
      → find_run o.command.run_id j ≡ some r
      → recorded_interaction_ttl x r.settings ≡ some ttl
      → wait x o i checkpoint history j ≡ ok (u, k)
      → (k.interactions ≡ j.interactions ++ added j r ttl ∷ [])
        × (anyb (λ (a : InteractionRow). str_eq a.id i.id || is_unanswered a.state) j.interactions
            ≡ false)
  unfolding wait wait_body record_wait lock_owner lock_conversation append_event
  wait_rows j u k r ttl e t h = (ground (arith, e, t, h), ground (arith, e, t, h))

module _ (sent : Bool) (id : GoString) where
  abbrev P : Journal → Type 0
  P j = Held sent id j.interactions

  pub wait-Keeps :
      (x : External) (o : Owner) (i : Interaction) (checkpoint history : GoString)
      → Keeps sent id (wait x o i checkpoint history)
  wait-Keeps x o i checkpoint history j u k e h = by_run (find_run o.command.run_id j) refl
    where
      by_ttl :
          (r : RunRow) (t : Option ℕ)
          → find_run o.command.run_id j ≡ some r
          → recorded_interaction_ttl x r.settings ≡ t
          → P k
      by_ttl r none f g = cc (wait_ttl x o i checkpoint history j u k r f g e)
      by_ttl r (some ttl) f g =
          let w = wait_rows x o i checkpoint history j u k r ttl f g e in
          subst (Held sent id) (sym w.0) (
            Held-append sent id j.interactions (added x o i checkpoint history j r ttl)
              (λ (a : InteractionRow). is_unanswered a.state) w.1 h)

      by_run : (r : Option RunRow) → find_run o.command.run_id j ≡ r → P k
      by_run none f = cc (wait_run x o i checkpoint history j u k f e)
      by_run (some r) f = by_ttl r (recorded_interaction_ttl x r.settings) f refl

  answer_row-Keeps :
      (x : External) (c : Command) (answer : Reply) (valid : Bool) (row : InteractionRow)
      (j : Journal) (r : Replied) (k : Journal)
      → find_row (wanted x c answer) j.interactions ≡ some row
      → answer_row x c answer valid row j ≡ ok (r, k)
      → P j
      → P k
  answer_row-Keeps x c answer valid row j r k found e h =
      elim (answer_row_ok x c answer valid row j r k e) [
        | inl z ↦ expire_interactions-Keeps sent id x j tt k z.0 h
        | inr z ↦
            let pending = z.unanswered in
            subst (Held sent id) (sym z.rows) (
              update_found-Held sent id c.interaction_id (wanted x c answer) row
                (consume_row c (answered_marker row.artifact answer)) j.interactions found
                (find_row-true (wanted x c answer) j.interactions row found) (λ i. refl)
                (λ used i was. ground (arith, used, pending)) h)
      ]

  pub reply_body-Keeps :
      (x : External) (c : Command) (answer : Reply) → Keeps sent id (reply_body x c answer)
  unfolding reply_body lock_conversation
  reply_body-Keeps x c answer j r k e h =
      let tail : Tx Replied = (do
        l ← get
        by_command x c answer (find_accepted c.communication_id l) l) in
      let a = next_ok (require (str_eq j.principal c.principal) forbidden) tail j e in
      let back = (require_ok (str_eq j.principal c.principal) forbidden j a.1).1 in
      by_accepted a.0 (subst P (sym back) h) (find_accepted c.communication_id a.0) a.2
    where
      by_accepted :
          (i : Journal)
          → P i
          → (o : Option CommandRow) → by_command x c answer o i i ≡ ok (r, k)
          → P k
      by_accepted i p (some m) q =
          let a =
            next_ok (require (command_eq m.payload c) conflict) (pure (repeated m.execution_run_id))
              i q in
          let last : ok (repeated m.execution_run_id, a.0) ≡ ok (r, k) = a.2 in
          let back = (require_ok (command_eq m.payload c) conflict i a.1).1 in
          subst P (sym back ∙ ap (λ z. z.1) (ok-injective last)) p
      by_accepted i p none q =
          let f =
            Then-ok (require_some (find_row (wanted x c answer) i.interactions) bad_state)
              (λ row. answer_row x c answer (ltb i.now row.expires_at) row) i q in
          let at = require_some_ok _ bad_state i f.first in
          answer_row-Keeps x c answer (ltb i.now f.value.expires_at) f.value i r k at.0
            (subst
              (λ (z : Journal).
                answer_row x c answer (ltb i.now f.value.expires_at) f.value z ≡ ok (r, k))
              at.1 f.second)
            p

  pub reap_run-Keeps : (x : External) (run : GoString) → Keeps sent id (reap_run x run)
  unfolding reap_run
  reap_run-Keeps x run =
      Keeps-next sent id (interrupt_expired run) (expire_interactions x)
        (Untouched-Keeps sent id _ (interrupt_expired-Untouched run))
        (expire_interactions-Keeps sent id x)

  schedule_if_idle-Keeps :
      (c : Command)
      → Keeps sent id (do
        k ← get
        require (not (anyb (λ (i : InteractionRow). is_unanswered i.state) k.interactions)) busy
        schedule c)
  schedule_if_idle-Keeps c j r k e h =
      Ends-require P _ busy (schedule c) j
        (λ b l q. Untouched-Keeps sent id (schedule c) (schedule-Untouched c) j b l q h) r k e

  pub admit-Keeps : (x : External) (c : Command) → Keeps sent id (admit x c)
  unfolding admit admit_body lock_conversation
  admit-Keeps x c j r k e h =
      Ends-if P _ (throw bad_state) (admit_body x c) j (Ends-throw P _ bad_state j)
        (Ends-require P (str_eq j.principal c.principal) forbidden _ j
          (by_row (find_accepted c.communication_id j)))
        r k e
    where
      swept : Tx (Receipt × Bool)
      swept = do
        interrupt_expired []
        expire_interactions x
        i ← get
        require (not (anyb (λ (a : InteractionRow). is_unanswered a.state) i.interactions)) busy
        schedule c

      repeat_receipt : CommandRow → Tx (Receipt × Bool)
      repeat_receipt m = do
        require (command_eq m.payload c) conflict
        pure (receipt_for c m.execution_run_id, false)

      by_row :
          (o : Option CommandRow) → Ends P j (elim o [ some m ↦ repeat_receipt m | none ↦ swept ])
      by_row (some m) =
          Ends-require P _ conflict (pure (receipt_for c m.execution_run_id, false)) j
            (Ends-pure P (receipt_for c m.execution_run_id, false) j h)
      by_row none = λ b l q.
          Keeps-next sent id (interrupt_expired []) _
            (Untouched-Keeps sent id _ (interrupt_expired-Untouched []))
            (Keeps-next sent id (expire_interactions x) _ (expire_interactions-Keeps sent id x)
              (schedule_if_idle-Keeps c))
            j b l q h
