-- ===== src/Journal/Consumed.antt =====
-- internal/journal/interactions.go: what an accepted reply writes, and when a reply is refused.
use native.Mathlib.Omega.{arith}
use az_agent_platform_go.Prelude.{
  ◌∙◌, ◌⊎◌, find_row-anyb, ◌≡◌, refl, ap, sym, subst, Bool, true, false, not, ◌&&◌, List, [], ◌∷◌,
  Option, none, some, str_eq, ltb, find_row, find_row-All, update_rows, All, ok, err, ok-injective,
  Bool-cases, if◌then◌else◌, inl, inr,
}
use az_agent_platform_go.Journal.{
  Journal, Tx, JournalError, bad_state, conflict, expired, forbidden, Command, CommandRow,
  InteractionRow, InteractionState, Marker, Reply, External,
}
use az_agent_platform_go.Journal.Transactions.{
  ◌>>=◌, ◌>>◌, pure, get, require, require_some, append_event, lock_conversation,
}
use az_agent_platform_go.Journal.Waits.{is_unanswered, is_expired, expire_interactions}
use az_agent_platform_go.Journal.Interactions.{validate_reply}
use az_agent_platform_go.Journal.Owners.{command_eq}
use az_agent_platform_go.Journal.Admission.{find_accepted, insert_command, insert_run}
use az_agent_platform_go.Journal.Replies.{
  reply_body, record_reply, consume_command, consume_row, answered_marker, Replied, repeated,
  lapsed, fresh, is_misdirected,
}
use az_agent_platform_go.Journal.Inversion.{Then-ok, next_ok, require_ok, require_some_ok}
use az_agent_platform_go.Journal.Held.{Held, IsUsedAt, is_used, anyb-update_rows}

-- The two ways of a reply's transaction once its conversation is locked.
module _ (x : External) (c : Command) (answer : Reply) where
  abbrev repeat_reply : CommandRow → Tx Replied
  repeat_reply m = do require (command_eq m.payload c) conflict; pure (repeated m.execution_run_id)

  abbrev pub accept : InteractionRow → Tx Replied
  accept i = do
    require (not (is_misdirected c i)) bad_state
    require (validate_reply i.artifact answer) bad_state
    record_reply c answer i
    pure fresh

  abbrev pub answer_row : Bool → InteractionRow → Tx Replied
  answer_row valid i =
      if not valid && is_unanswered i.state then (do expire_interactions x; pure lapsed) else (do
        require (not (is_expired i.state)) expired
        require (valid && is_unanswered i.state) conflict
        accept i)

  abbrev pub wanted : InteractionRow → Bool
  wanted a = str_eq a.id c.interaction_id

  abbrev pub find_and_answer : Journal → Tx Replied
  find_and_answer j = do
    i ← require_some (find_row wanted j.interactions) bad_state
    answer_row (ltb j.now i.expires_at) i

  abbrev pub by_command : Option CommandRow → Journal → Tx Replied
  by_command o j = elim o [ some m ↦ repeat_reply m | none ↦ find_and_answer j ]

  -- The rows that an accepted reply leaves.
  record_reply_rows :
      (i : InteractionRow) (j : Journal) (u : Unit {0}) (k : Journal)
      → record_reply c answer i j ≡ ok (u, k)
      → k.interactions
        ≡ update_rows wanted (consume_row c (answered_marker i.artifact answer)) j.interactions
  unfolding record_reply insert_command insert_run append_event consume_command
  record_reply_rows i j u k h = ground (arith, h)

  -- An answer is accepted: the row was unanswered, and every row of its ID is consumed.
  pub record Accepted (i : InteractionRow) (j : Journal) (r : Replied) (k : Journal) : Type 0 where
    pub unanswered : is_unanswered i.state ≡ true
    pub written : record_reply c answer i j ≡ ok (tt, k)
    pub rows :
        k.interactions
        ≡ update_rows wanted (consume_row c (answered_marker i.artifact answer)) j.interactions

  -- A row is answered, or what is due expires instead.
  pub answer_row_ok :
      (valid : Bool) (i : InteractionRow) (j : Journal) (r : Replied) (k : Journal)
      → answer_row valid i j ≡ ok (r, k)
      → ((expire_interactions x j ≡ ok (tt, k)) × (lapsed ≡ r)) ⊎ Accepted i j r k
  answer_row_ok valid i j r k h = elim (Bool-cases (not valid && is_unanswered i.state)) [
    | inl t ↦
        let gone = rw t at h in
        let a = next_ok (expire_interactions x) (pure lapsed) j gone in
        let last : ok (lapsed, a.0) ≡ ok (r, k) = a.2 in
        let same = ok-injective last in
        inl (
          subst (λ (z : Journal). expire_interactions x j ≡ ok (tt, z)) (ap (λ q. q.1) same) a.1,
          ap (λ q. q.0) same,
        )
    | inr t ↦
        let kept = rw t at h in
        let a =
          next_ok (require (not (is_expired i.state)) expired)
            (do require (valid && is_unanswered i.state) conflict; accept i) j kept in
        let b = next_ok (require (valid && is_unanswered i.state) conflict) (accept i) a.0 a.2 in
        let d =
          next_ok (require (not (is_misdirected c i)) bad_state)
            (do
              require (validate_reply i.artifact answer) bad_state
              record_reply c answer i
              pure fresh)
            b.0 b.2 in
        let e =
          next_ok (require (validate_reply i.artifact answer) bad_state)
            (do record_reply c answer i; pure fresh) d.0 d.2 in
        let w = next_ok (record_reply c answer i) (pure fresh) e.0 e.2 in
        let last : ok (fresh, w.0) ≡ ok (r, k) = w.2 in
        let pending = (require_ok (valid && is_unanswered i.state) conflict a.0 b.1).0 in
        let back : e.0 ≡ j =
          (require_ok _ bad_state d.0 e.1).1
          ∙ (require_ok _ bad_state b.0 d.1).1
          ∙ (require_ok _ conflict a.0 b.1).1
          ∙ (require_ok _ expired j a.1).1 in
        let ends : w.0 ≡ k = ap (λ q. q.1) (ok-injective last) in
        inr (record {
          unanswered = ground (arith, pending);
          written =
              subst (λ (z : Journal). record_reply c answer i j ≡ ok (tt, z)) ends
                (subst (λ (z : Journal). record_reply c answer i z ≡ ok (tt, w.0)) back w.1);
          rows =
              ap (λ (z : Journal). z.interactions) (sym ends)
              ∙ record_reply_rows i e.0 tt w.0 w.1
              ∙ ap
                  (λ (z : Journal).
                    update_rows wanted (consume_row c (answered_marker i.artifact answer))
                      z.interactions)
                  back;
        })
  ]

  all_consumed :
      (m : Option Marker) (xs : List InteractionRow)
      → All (IsUsedAt false c.interaction_id) (update_rows wanted (consume_row c m) xs)
  all_consumed m [] = tt
  all_consumed m (y ∷ ys) = (one (str_eq y.id c.interaction_id) refl, all_consumed m ys)
    where
      one :
          (b : Bool)
          → str_eq y.id c.interaction_id ≡ b
          → IsUsedAt false c.interaction_id (if b then consume_row c m y else y)
      one true e h = refl
      one false e h = cc

  -- The rows that are left are held, where the ID is there.
  Accepted-Held :
      (i : InteractionRow) (j : Journal) (r : Replied) (k : Journal)
      → find_row wanted j.interactions ≡ some i
      → Accepted i j r k
      → Held false c.interaction_id k.interactions
  unfolding Held
  Accepted-Held i j r k found a =
      let m = answered_marker i.artifact answer in
      subst (Held false c.interaction_id) (sym a.rows) (
        all_consumed m j.interactions,
        anyb-update_rows c.interaction_id wanted (consume_row c m) j.interactions (λ y. refl)
            ∙ find_row-anyb wanted j.interactions i found,
      )

  pub reply_body-Held :
      (j k : Journal)
      → reply_body x c answer j ≡ ok (fresh, k)
      → Held false c.interaction_id k.interactions
  unfolding reply_body lock_conversation
  reply_body-Held j k h =
      let tail : Tx Replied = (do l ← get; by_command (find_accepted c.communication_id l) l) in
      let a = next_ok (require (str_eq j.principal c.principal) forbidden) tail j h in
      by_accepted a.0 (find_accepted c.communication_id a.0) a.2
    where
      by_accepted :
          (i : Journal) (o : Option CommandRow)
          → by_command o i i ≡ ok (fresh, k)
          → Held false c.interaction_id k.interactions
      by_accepted i (some m) q =
          let a =
            next_ok (require (command_eq m.payload c) conflict) (pure (repeated m.execution_run_id))
              i q in
          let never : ok (repeated m.execution_run_id, a.0) ≡ ok (fresh, k) = a.2 in
          cc (ap (λ z. z.0) (ok-injective never))
      by_accepted i none q =
          let f =
            Then-ok (require_some (find_row wanted i.interactions) bad_state)
              (λ row. answer_row (ltb i.now row.expires_at) row) i q in
          let at = require_some_ok (find_row wanted i.interactions) bad_state i f.first in
          elim (answer_row_ok (ltb i.now f.value.expires_at) f.value f.middle fresh k f.second) [
            | inl z ↦ cc z.1
            | inr z ↦
                Accepted-Held f.value f.middle fresh k
                  (ap (λ (l : Journal). find_row wanted l.interactions) at.1 ∙ at.0) z
          ]

  -- Where every row is consumed, no row can be answered.
  pub reply_body-err :
      (j : Journal)
      → Held false c.interaction_id j.interactions
      → find_accepted c.communication_id j ≡ none
      → (e : JournalError) × (reply_body x c answer j ≡ err e)
  unfolding reply_body lock_conversation Held
  reply_body-err j p new = locked (str_eq j.principal c.principal)
    where
      refused :
          (row : InteractionRow)
          → is_used false row ≡ true
          → (e : JournalError) × (answer_row (ltb j.now row.expires_at) row j ≡ err e)
      refused row s = choose (ltb j.now row.expires_at)
        where
          used : row.state ≡ InteractionState.consumed
          used = ground (arith, s)

          choose : (b : Bool) → (e : JournalError) × (answer_row b row j ≡ err e)
          choose true = (conflict, rw used refl)
          choose false = (conflict, rw used refl)

      by_row :
          (o : Option InteractionRow)
          → find_row wanted j.interactions ≡ o
          → (e : JournalError) × ((require_some o bad_state >>= λ i.
                  answer_row (ltb j.now i.expires_at) i)
                j
              ≡ err e)
      by_row none h = (bad_state, refl)
      by_row (some row) h =
          let at = find_row-All (IsUsedAt false c.interaction_id) wanted j.interactions row p.0 h in
          refused row (at.0 at.1)

      by_accepted :
          (o : Option CommandRow) → o ≡ none → (e : JournalError) × (by_command o j j ≡ err e)
      by_accepted none h = by_row (find_row wanted j.interactions) refl
      by_accepted (some m) h = cc

      tail : Tx Replied
      tail = do l ← get; by_command (find_accepted c.communication_id l) l

      locked : (b : Bool) → (e : JournalError) × ((require b forbidden >> tail) j ≡ err e)
      locked true = by_accepted (find_accepted c.communication_id j) new
      locked false = (forbidden, refl)
