-- ===== src/Journal/Spent.antt =====
-- internal/journal: a dispatched approval and an accepted reply are used up.
use native.Mathlib.Omega.{arith}
use az_agent_platform_go.Prelude.{
  ◌≡◌, refl, ap, sym, subst, ◌∙◌, Bool, true, false, ◌&&◌, List, [], ◌∷◌, Option, none, some,
  GoString, str_eq, str_eq_iff, ltb, Result, ok, err, find_row, find_row-true, update_rows,
  contains, Distinct, All, Bool-cases, inl, inr, if◌then◌else◌, anyb,
}
use az_agent_platform_go.Journal.{
  Journal, JournalError, bad_state, expired, Owner, Command, Operation, InteractionRow, Marker,
  External, Reply,
}
use az_agent_platform_go.Journal.Operations.{is_decided, is_consumed, consumed_approval}
use az_agent_platform_go.Journal.Begin.{begin_attempt}
use az_agent_platform_go.Journal.Dispatch.{begin_body_ok}
use az_agent_platform_go.Journal.Approvals.{begin_attempt_ok, begin_first_ok}
use az_agent_platform_go.Journal.Admission.{Receipt, receipt_for}
use az_agent_platform_go.Journal.Replies.{reply, reply_body, Replied, repeated, lapsed, fresh}
use az_agent_platform_go.Journal.Held.{Held, IsUsedAt, is_used, anyb-update_rows}

abbrev pub ids : List InteractionRow → List GoString
ids [] = []
ids (i ∷ is) = i.id ∷ ids is

ids-missing :
    (id : GoString) (f : InteractionRow → InteractionRow) (xs : List InteractionRow)
    → contains (ids xs) id ≡ false
    → All (IsUsedAt true id) (update_rows (λ (i : InteractionRow). str_eq i.id id) f xs)
unfolding contains
ids-missing id f [] h = tt
ids-missing id f (x ∷ xs) h =
    let other : str_eq x.id id ≡ false = ground (arith, h) in
    (rw other (λ e. cc (other, e)), ids-missing id f xs (ground (arith, h)))

found-contains :
    (id : GoString) (p : InteractionRow → Bool) (xs : List InteractionRow) (row : InteractionRow)
    → find_row p xs ≡ some row
    → str_eq row.id id ≡ true
    → contains (ids xs) id ≡ true
unfolding contains
found-contains id p [] row e h = cc
found-contains id p (x ∷ xs) row e h = elim (Bool-cases (p x)) [
  | inl t ↦
      let here : some x ≡ some row = rw t at e in
      let same : row ≡ x = cc here in
      let named : str_eq x.id id ≡ true =
        subst (λ (i : InteractionRow). str_eq i.id id ≡ true) same h in
      ground (arith, named)
  | inr t ↦ ground (arith, found-contains id p xs row (rw t at e) h)
]

abbrev sends : InteractionRow → InteractionRow
sends i = record i { marker = some Marker.dispatched }

-- Where IDs are unique, marking the rows of a consumed one as dispatched uses it up.
sent_rows :
    (id : GoString) (p : InteractionRow → Bool) (xs : List InteractionRow) (row : InteractionRow)
    → Distinct (ids xs)
    → find_row p xs ≡ some row
    → str_eq row.id id ≡ true
    → is_consumed row.state ≡ true
    → All (IsUsedAt true id) (update_rows (λ (i : InteractionRow). str_eq i.id id) sends xs)
sent_rows id p [] row d e h c = tt
sent_rows id p (x ∷ xs) row d e h c = elim (Bool-cases (p x)) [
  | inl t ↦
      let here : some x ≡ some row = rw t at e in
      let same : row ≡ x = cc here in
      let named : str_eq x.id id ≡ true =
        subst (λ (i : InteractionRow). str_eq i.id id ≡ true) same h in
      let used : is_consumed x.state ≡ true =
        subst (λ (i : InteractionRow). is_consumed i.state ≡ true) same c in
      let one : x.id ≡ id = (str_eq_iff x.id id).0 named in
      (
        rw named (λ k. ground (arith, used)),
        ids-missing id sends xs (subst (λ s. contains (ids xs) s ≡ false) one d.0),
      )
  | inr t ↦
      let later = rw t at e in
      let there = found-contains id p xs row later h in
      let rest = sent_rows id p xs row d.1 later h c in
      elim (Bool-cases (str_eq x.id id)) [
        | inl q ↦
            let one : x.id ≡ id = (str_eq_iff x.id id).0 q in
            cc (subst (λ s. contains (ids xs) s ≡ false) one d.0, there)
        | inr q ↦ (rw q (λ k. cc (q, k)), rest)
      ]
]

pub sent-undecided : (i : InteractionRow) → is_used true i ≡ true → is_decided i.marker ≡ false
sent-undecided i used = ground (arith, used)

anyb-ids :
    (id : GoString) (xs : List InteractionRow)
    → contains (ids xs) id ≡ true
    → anyb (λ (i : InteractionRow). str_eq i.id id) xs ≡ true
unfolding contains
anyb-ids id [] q = cc
anyb-ids id (y ∷ ys) q = ground (arith, anyb-ids id ys, q)

-- An approval that is dispatched is used up.
pub begin_attempt-sent :
    (x : External) (o : Owner) (op : Operation) (id : GoString) (j k : Journal)
    → Distinct (ids j.interactions)
    → op.requires_approval ≡ true
    → begin_attempt x o op 1 id j ≡ (k, none)
    → Held true id k.interactions
unfolding Held
begin_attempt-sent x o op id j k unique need h =
    let c = begin_body_ok x o op 1 id j (begin_attempt_ok x o op 1 id j k h).1 in
    let f = begin_first_ok x c.run op c.expected id j need c.work in
    let wanted =
      λ (i : InteractionRow). consumed_approval id c.run.id i && ltb j.now i.expires_at in
    let row = f.0.row in
    let passes = find_row-true wanted j.interactions row f.0.found in
    let named : str_eq row.id id ≡ true = ground (arith, passes) in
    let used : is_consumed row.state ≡ true = ground (arith, passes) in
    let there : anyb (λ (i : InteractionRow). str_eq i.id id) j.interactions ≡ true =
      anyb-ids id j.interactions (found-contains id wanted j.interactions row f.0.found named) in
    subst (Held true id) (sym (f.1 refl).1) (
      sent_rows id wanted j.interactions row unique f.0.found named used,
      anyb-update_rows id (λ (i : InteractionRow). str_eq i.id id) sends j.interactions (λ i. refl)
          ∙ there,
    )

-- A reply that is reported as new was written.
pub reply_ok :
    (x : External) (c : Command) (j k : Journal) (r : Receipt)
    → reply x c j ≡ (k, ok (r, true))
    → (answer : Reply) × (reply_body x c answer j ≡ ok (fresh, k))
unfolding reply
reply_ok x c j k r h = by_guard _ h
  where
    kept : Result JournalError (Replied × Journal) → Journal × Result JournalError (Receipt × Bool)
    kept z = elim z [
      | err e ↦ (j, err e)
      | ok (repeated run, i) ↦ (i, ok (receipt_for c run, false))
      | ok (lapsed, i) ↦ (i, err expired)
      | ok (fresh, i) ↦ (i, ok (receipt_for c c.run_id, true))
    ]

    answered : Option Reply → Journal × Result JournalError (Receipt × Bool)
    answered o = elim o [ none ↦ (j, err bad_state) | some answer ↦ kept (reply_body x c answer j) ]

    by_result :
        (z : Result JournalError (Replied × Journal))
        → kept z ≡ (k, ok (r, true))
        → z ≡ ok (fresh, k)
    by_result (err e) q = cc (ap (λ p. p.1) q)
    by_result (ok (repeated run, i)) q = cc (ap (λ p. p.1) q)
    by_result (ok (lapsed, i)) q = cc (ap (λ p. p.1) q)
    by_result (ok (fresh, i)) q = ap (λ p. ok (fresh, p.0)) q

    by_reply :
        (o : Option Reply)
        → answered o ≡ (k, ok (r, true))
        → (answer : Reply) × (reply_body x c answer j ≡ ok (fresh, k))
    by_reply none q = cc (ap (λ p. p.1) q)
    by_reply (some answer) q = (answer, by_result (reply_body x c answer j) q)

    by_guard :
        (b : Bool)
        → (if b then (j, err bad_state) else answered (x.decode_strict c.reply_json))
          ≡ (k, ok (r, true))
        → (answer : Reply) × (reply_body x c answer j ≡ ok (fresh, k))
    by_guard true q = cc (ap (λ p. p.1) q)
    by_guard false q = by_reply (x.decode_strict c.reply_json) q
