-- ===== src/Journal/Admitted.antt =====
-- internal/journal: waits, scopes, replies and admissions leave a run that is over as it is.
use native.Mathlib.Omega.{arith}
use az_agent_platform_go.Prelude.{
  ◌≡◌, refl, ap, sym, subst, ◌∙◌, Bool, true, false, not, ◌&&◌, ◌||◌, [], ◌∷◌, ◌++◌, Option, none,
  some, GoString, str_eq, ok, find_row, find_row-true, ltb, anyb, update_rows, ok-injective,
  Bool-cases, inl, inr, if◌then◌else◌,
}
use az_agent_platform_go.Journal.{
  Journal, Tx, Owner, Command, CommandRow, Reply, RunRow, RunState, External, Interaction,
  InteractionRow, bad_state, conflict, forbidden, busy,
}
use az_agent_platform_go.Journal.Transactions.{
  append_event, ◌>>◌, ◌>>=◌, pure, get, require, require_some, lock_conversation, lock_owner,
  find_run, update_run, is_live, throw,
}
use az_agent_platform_go.Journal.Owners.{
  interrupt_run, interrupt_expired, candidate_run, is_spared, command_eq,
}
use az_agent_platform_go.Journal.Admission.{
  insert_command, insert_run, schedule, pending_run, admit, admit_body, reap_run, find_accepted,
  Receipt, receipt_for,
}
use az_agent_platform_go.Journal.Replies.{
  record_reply, consume_command, reply_body, Replied, repeated,
}
use az_agent_platform_go.Journal.Scope.{record_run_scope, RunScope, is_recorded}
use az_agent_platform_go.Journal.Waits.{
  expire_interactions, wait, wait_body, record_wait, is_awaiting, is_unanswered,
}
use az_agent_platform_go.Journal.Consumed.{answer_row, answer_row_ok, by_command, wanted}
use az_agent_platform_go.Journal.Inversion.{Then-ok, next_ok, require_ok, require_some_ok}
use az_agent_platform_go.Journal.Hoare.{Ends, Ends-require, Ends-pure, Ends-throw, Ends-if}
use az_agent_platform_go.Journal.Over.{
  Over, Over-update_rows, Over-update_by, Over-append, KeepsOver,
}
use az_agent_platform_go.Journal.Ended.{
  expire_interactions-KeepsOver, interrupt_run-KeepsOver, KeepsOver-next,
}

module _ (id : GoString) where
  abbrev P : Journal → Type 0
  P j = Over id j.runs

  pub record_run_scope-KeepsOver :
      (f : GoString → Option GoString) (o : Owner) (s : RunScope)
      → KeepsOver id (record_run_scope f o s)
  unfolding record_run_scope lock_owner lock_conversation
  record_run_scope-KeepsOver f o s j u k e h = by_object (f s.settings) refl
    where
      written : GoString → RunRow → RunRow
      written settings r = record r {
        product_version = some s.product_version;
        endpoint_id = some s.endpoint_id;
        settings = some settings;
      }

      by_recorded :
          (settings : GoString) (r : RunRow)
          → f s.settings ≡ some settings
          → find_run o.command.run_id j ≡ some r
          → P k
      by_recorded settings r g q = elim (Bool-cases (is_recorded r.product_version)) [
        | inl t ↦
            let rows : k.runs ≡ j.runs = ground (arith, e, g, q, t) in subst (Over id) (sym rows) h
        | inr t ↦
            let rows : k.runs ≡ (update_run o.command.run_id (written settings) j).runs =
              ground (arith, e, g, q, t) in
            subst (Over id) (sym rows) (
              Over-update_rows id (λ (r : RunRow). str_eq r.id o.command.run_id) (written settings)
                j.runs (λ r. refl) (λ r at was now. was now) h)
      ]

      by_row :
          (settings : GoString) (o' : Option RunRow)
          → f s.settings ≡ some settings
          → find_run o.command.run_id j ≡ o'
          → P k
      by_row settings none g q = let never : true ≡ false = ground (arith, e, g, q) in cc never
      by_row settings (some r) g q = by_recorded settings r g q

      by_object : (b : Option GoString) → f s.settings ≡ b → P k
      by_object none g = let never : true ≡ false = ground (arith, e, g) in cc never
      by_object (some settings) g = by_row settings (find_run o.command.run_id j) g refl

  pub wait-KeepsOver :
      (x : External) (o : Owner) (i : Interaction) (checkpoint history : GoString)
      → KeepsOver id (wait x o i checkpoint history)
  unfolding wait wait_body record_wait lock_owner lock_conversation append_event
  wait-KeepsOver x o i checkpoint history j u k e h = by_row (find_run o.command.run_id j) refl
    where
      waits : RunRow → RunRow
      waits a = record a { state = RunState.awaiting_input; owner_id = []; lease_until = j.now }

      by_row : (q : Option RunRow) → find_run o.command.run_id j ≡ q → P k
      by_row none q = let never : true ≡ false = ground (arith, e, q) in cc never
      by_row (some r) q =
          let live : is_live r.state ≡ true = ground (arith, e, q) in
          let rows : k.runs ≡ update_rows (λ (a : RunRow). str_eq a.id r.id) waits j.runs =
            ground (arith, e, q) in
          subst (Over id) (sym rows) (
            Over-update_by id r.id (λ (a : RunRow). str_eq a.id o.command.run_id) r waits j.runs q
              refl (ground (arith, live)) (λ r. refl) h)

  record_reply-KeepsOver :
      (c : Command) (a : Reply) (i : InteractionRow) → KeepsOver id (record_reply c a i)
  unfolding record_reply insert_command insert_run append_event consume_command
  record_reply-KeepsOver c a i j u k e h =
      let new = pending_run c.run_id i.journey_id i.definition_digest j.now in
      let ends : RunRow → RunRow = λ r. record r { state = RunState.completed } in
      let p : RunRow → Bool = λ r. str_eq r.id i.run_id && is_awaiting r.state in
      let free : anyb (λ (r : RunRow). str_eq r.id c.run_id || is_live r.state) j.runs ≡ false =
        ground (arith, e) in
      let rows : k.runs ≡ update_rows p ends (j.runs ++ new ∷ []) = ground (arith, e) in
      subst (Over id) (sym rows) (
        Over-update_rows id p ends (j.runs ++ new ∷ []) (λ r. refl) (λ r at was now. refl)
          (Over-append id j.runs new free h))

  answer_row-KeepsOver :
      (x : External) (c : Command) (answer : Reply) (valid : Bool) (row : InteractionRow)
      → KeepsOver id (answer_row x c answer valid row)
  answer_row-KeepsOver x c answer valid row j r k e h =
      elim (answer_row_ok x c answer valid row j r k e) [
        | inl z ↦ expire_interactions-KeepsOver id x j tt k z.0 h
        | inr z ↦ record_reply-KeepsOver c answer row j tt k z.written h
      ]

  pub reply_body-KeepsOver :
      (x : External) (c : Command) (answer : Reply) → KeepsOver id (reply_body x c answer)
  unfolding reply_body lock_conversation
  reply_body-KeepsOver x c answer j r k e h =
      let tail : Tx Replied = (do
        l ← get
        by_command x c answer (find_accepted c.communication_id l) l) in
      let a = next_ok (require (str_eq j.principal c.principal) forbidden) tail j e in
      let back = (require_ok (str_eq j.principal c.principal) forbidden j a.1).1 in
      by_accepted a.0 (subst P (sym back) h) (find_accepted c.communication_id a.0) a.2
    where
      by_accepted :
          (i : Journal)
          → P i
          → (o : Option CommandRow) → by_command x c answer o i i ≡ ok (r, k)
          → P k
      by_accepted i p (some m) q =
          let a =
            next_ok (require (command_eq m.payload c) conflict) (pure (repeated m.execution_run_id))
              i q in
          let last : ok (repeated m.execution_run_id, a.0) ≡ ok (r, k) = a.2 in
          let back = (require_ok (command_eq m.payload c) conflict i a.1).1 in
          subst P (sym back ∙ ap (λ z. z.1) (ok-injective last)) p
      by_accepted i p none q =
          let f =
            Then-ok (require_some (find_row (wanted x c answer) i.interactions) bad_state)
              (λ row. answer_row x c answer (ltb i.now row.expires_at) row) i q in
          let at = require_some_ok _ bad_state i f.first in
          answer_row-KeepsOver x c answer (ltb i.now f.value.expires_at) f.value f.middle r k
            f.second (subst P (sym at.1) p)

  by_live :
      (c : Command) (j : Journal) (r : Receipt × Bool) (k : Journal) (o : Option RunRow)
      → find_row (λ (r : RunRow). is_live r.state) j.runs ≡ o
      → schedule c j ≡ ok (r, k)
      → P j
      → P k
  unfolding schedule insert_command insert_run append_event
  by_live c j r k none q e h =
      let new = pending_run c.run_id none none j.now in
      let free : anyb (λ (r : RunRow). str_eq r.id c.run_id || is_live r.state) j.runs ≡ false =
        ground (arith, e, q) in
      let rows : k.runs ≡ j.runs ++ new ∷ [] = ground (arith, e, q) in
      subst (Over id) (sym rows) (Over-append id j.runs new free h)
  by_live c j r k (some row) q e h =
      by_command_row (find_row (λ (m : CommandRow). str_eq m.run_id row.id) j.commands) refl
    where
      by_command_row :
          (m : Option CommandRow)
          → find_row (λ (m : CommandRow). str_eq m.run_id row.id) j.commands ≡ m
          → P k
      by_command_row none w =
          let new = pending_run c.run_id none none j.now in
          let free : anyb (λ (r : RunRow). str_eq r.id c.run_id || is_live r.state) j.runs ≡ false =
            ground (arith, e, q, w) in
          let rows : k.runs ≡ j.runs ++ new ∷ [] = ground (arith, e, q, w) in
          subst (Over id) (sym rows) (Over-append id j.runs new free h)
      by_command_row (some m) w =
          let rows : k.runs ≡ j.runs = ground (arith, e, q, w) in subst (Over id) (sym rows) h

  interrupt_expired-KeepsOver : (candidate : GoString) → KeepsOver id (interrupt_expired candidate)
  unfolding interrupt_expired
  interrupt_expired-KeepsOver candidate j u k e h =
      by_row (find_row (candidate_run candidate) j.runs) refl e
    where
      taken : Option RunRow → Tx (Unit {0})
      taken o = elim o [
        | none ↦ pure tt
        | some r ↦ if is_spared r j then pure tt else interrupt_run r.id
      ]

      by_spared :
          (b : Bool) (r : RunRow)
          → find_row (candidate_run candidate) j.runs ≡ some r
          → (if b then pure tt else interrupt_run r.id) j ≡ ok (u, k)
          → P k
      by_spared true r q w = subst P (ap (λ p. p.1) (ok-injective w)) h
      by_spared false r q w =
          let passes = find_row-true (candidate_run candidate) j.runs r q in
          interrupt_run-KeepsOver id (candidate_run candidate) r j u k q (ground (arith, passes)) w
            h

      by_row :
          (o : Option RunRow)
          → find_row (candidate_run candidate) j.runs ≡ o
          → taken o j ≡ ok (u, k)
          → P k
      by_row none q w = subst P (ap (λ p. p.1) (ok-injective w)) h
      by_row (some r) q w = by_spared (is_spared r j) r q w

  pub reap_run-KeepsOver : (x : External) (run : GoString) → KeepsOver id (reap_run x run)
  unfolding reap_run
  reap_run-KeepsOver x run =
      KeepsOver-next id (interrupt_expired run) (expire_interactions x)
        (interrupt_expired-KeepsOver run) (expire_interactions-KeepsOver id x)

  schedule_if_idle-KeepsOver :
      (c : Command)
      → KeepsOver id (do
        k ← get
        require (not (anyb (λ (i : InteractionRow). is_unanswered i.state) k.interactions)) busy
        schedule c)
  schedule_if_idle-KeepsOver c j r k e h =
      Ends-require P _ busy (schedule c) j
        (λ b l q. by_live c j b l (find_row (λ (r : RunRow). is_live r.state) j.runs) refl q h) r k
        e

  pub admit-KeepsOver : (x : External) (c : Command) → KeepsOver id (admit x c)
  unfolding admit admit_body lock_conversation
  admit-KeepsOver x c j r k e h =
      Ends-if P _ (throw bad_state) (admit_body x c) j (Ends-throw P _ bad_state j)
        (Ends-require P (str_eq j.principal c.principal) forbidden _ j
          (by_row (find_accepted c.communication_id j)))
        r k e
    where
      swept : Tx (Receipt × Bool)
      swept = do
        interrupt_expired []
        expire_interactions x
        i ← get
        require (not (anyb (λ (a : InteractionRow). is_unanswered a.state) i.interactions)) busy
        schedule c

      repeat_receipt : CommandRow → Tx (Receipt × Bool)
      repeat_receipt m = do
        require (command_eq m.payload c) conflict
        pure (receipt_for c m.execution_run_id, false)

      by_row :
          (o : Option CommandRow) → Ends P j (elim o [ some m ↦ repeat_receipt m | none ↦ swept ])
      by_row (some m) =
          Ends-require P _ conflict (pure (receipt_for c m.execution_run_id, false)) j
            (Ends-pure P (receipt_for c m.execution_run_id, false) j h)
      by_row none = λ b l q.
          KeepsOver-next id (interrupt_expired []) _ (interrupt_expired-KeepsOver [])
            (KeepsOver-next id (expire_interactions x) _ (expire_interactions-KeepsOver id x)
              (schedule_if_idle-KeepsOver c))
            j b l q h
