-- ===== src/Journal/Dispatch.antt =====
-- internal/journal/operations.go: what an attempt that begins has passed, and what it leaves.
use az_agent_platform_go.Prelude.{
  ℕ, ◌≡◌, refl, Bool, true, false, not, ◌&&◌, some, GoString, str_eq, codes, ok, ok-injective, ap,
  sym, ◌∙◌, ltb, ◌==◌, anyb, find_row, if◌then◌else◌,
}
use az_agent_platform_go.Journal.{
  Journal, Tx, database, bad_state, outcome_unknown, Owner, RunRow, Operation, OperationRow,
  InteractionRow, External, CallBinding, Reply,
}
use az_agent_platform_go.Journal.Transactions.{
  ◌>>=◌, ◌>>◌, require, require_some, lock_owner, find_run, get, pure,
}
use az_agent_platform_go.Journal.Operations.{
  bind_call, is_unresolved, has_call, consumed_approval, is_decided, or_empty,
}
use az_agent_platform_go.Journal.Begin.{
  begin_body, begin_first, begin_again, check_approval, Approval, granted, stale,
}
use az_agent_platform_go.Journal.Inversion.{
  Then-ok, next_ok, require_ok, require_some_ok, lock_owner_ok, Locked,
}

-- The operation of another call that is still unresolved.
abbrev pub blocks : Operation → OperationRow → Bool
blocks op u = is_unresolved u.outcome && not (has_call op.call_id u)

abbrev pub binding_of : Owner → Operation → Journal → GoString → GoString → CallBinding
binding_of o op j version digest = record {
  journey_id = op.journey_id;
  operation_key = op.operation_key;
  name_digest = op.name_digest;
  schema_digest = op.schema_digest;
  arguments = op.arguments;
  product_version = version;
  principal = j.principal;
  conversation = o.command.thread_id;
  definition_set = digest;
}

-- Whichever of two values a not is about.
pub not-true : (b : Bool) → not b ≡ true → b ≡ false
not-true true h = cc
not-true false h = refl

module _ (x : External) where
  -- What begin_body has checked before it looks at the attempt.
  pub record Checked (o : Owner) (op : Operation) (n : ℕ) (id : GoString) (j : Journal)
      (gone : Bool) (k : Journal) : Type 0 where
    pub locked : Locked o j
    pub run : RunRow
    pub found : find_run o.command.run_id j ≡ some run
    pub version : GoString
    pub has_version : run.product_version ≡ some version
    pub digest : GoString
    pub has_digest : run.definition_digest ≡ some digest
    pub expected : GoString
    pub sealed : bind_call x (binding_of o op j version digest) ≡ some expected
    pub same : str_eq expected op.binding ≡ true
    pub clear : anyb (blocks op) j.operations ≡ false
    pub work :
        (if n == 1 then begin_first x run op expected id else begin_again x run op n) j
        ≡ ok (gone, k)

  module _ (o : Owner) (op : Operation) (n : ℕ) (id : GoString) where
    abbrev attempt : RunRow → GoString → Tx Bool
    attempt r expected = if n == 1 then begin_first x r op expected id else begin_again x r op n

    abbrev after_seal : RunRow → Journal → GoString → Tx Bool
    after_seal r j expected = do
      require (str_eq expected op.binding) bad_state
      require (not (anyb (blocks op) j.operations)) outcome_unknown
      attempt r expected

    abbrev after_digest : RunRow → Journal → GoString → GoString → Tx Bool
    after_digest r j version digest = do
      expected ← require_some (bind_call x (binding_of o op j version digest)) bad_state
      after_seal r j expected

    abbrev after_run : Journal → RunRow → Tx Bool
    after_run j r = do
      version ← require_some r.product_version bad_state
      digest ← require_some r.definition_digest bad_state
      after_digest r j version digest

    abbrev after_lock : Tx Bool
    after_lock = do j ← get; r ← require_some (find_run o.command.run_id j) database; after_run j r

    pub begin_body_ok :
        (j : Journal) {gone : Bool} {k : Journal}
        → begin_body x o op n id j ≡ ok (gone, k)
        → Checked o op n id j gone k
    unfolding begin_body
    begin_body_ok j {gone} {k} h =
        let a = next_ok (lock_owner o) after_lock j h in
        let l = lock_owner_ok o j a.1 in
        let b = rw l.0 at a.2 in
        let r = Then-ok (require_some (find_run o.command.run_id j) database) (after_run j) j b in
        let v =
          Then-ok (require_some r.value.product_version bad_state)
            (λ version. do
              digest ← require_some r.value.definition_digest bad_state
              after_digest r.value j version digest)
            r.middle r.second in
        let d =
          Then-ok (require_some r.value.definition_digest bad_state)
            (after_digest r.value j v.value) v.middle v.second in
        let sealing = bind_call x (binding_of o op j v.value d.value) in
        let e = Then-ok (require_some sealing bad_state) (after_seal r.value j) d.middle d.second in
        let s =
          next_ok (require (str_eq e.value op.binding) bad_state)
            (do
              require (not (anyb (blocks op) j.operations)) outcome_unknown
              attempt r.value e.value)
            e.middle e.second in
        let c =
          next_ok (require (not (anyb (blocks op) j.operations)) outcome_unknown)
            (attempt r.value e.value) s.0 s.2 in
        let at_run = require_some_ok (find_run o.command.run_id j) database j r.first in
        let at_version = require_some_ok r.value.product_version bad_state r.middle v.first in
        let at_digest = require_some_ok r.value.definition_digest bad_state v.middle d.first in
        let at_seal = require_some_ok sealing bad_state d.middle e.first in
        let at_same = require_ok (str_eq e.value op.binding) bad_state e.middle s.1 in
        let at_clear = require_ok (not (anyb (blocks op) j.operations)) outcome_unknown s.0 c.1 in
        let back : c.0 ≡ j =
          at_clear.1 ∙ at_same.1 ∙ at_seal.1 ∙ at_digest.1 ∙ at_version.1 ∙ at_run.1 in
        record {
          locked = l.1;
          run = r.value;
          found = at_run.0;
          version = v.value;
          has_version = at_version.0;
          digest = d.value;
          has_digest = at_digest.0;
          expected = e.value;
          sealed = at_seal.0;
          same = at_same.0;
          clear = not-true (anyb (blocks op) j.operations) at_clear.0;
          work = rw back at c.2;
        }

  -- The approval a first attempt needs: consumed by this run, approved, unexpired, decided, and for
  -- this very call, journey and binding.
  pub record Approved (run : GoString) (op : Operation) (expected id : GoString) (j : Journal)
      : Type 0 where
    pub row : InteractionRow
    pub found :
        find_row
          (λ (i : InteractionRow). consumed_approval id run i && ltb j.now i.expires_at)
          j.interactions
        ≡ some row
    pub answer : Reply
    pub replied : x.unmarshal_reply (or_empty row.reply) ≡ some answer
    pub approved :
        (str_eq answer.decision (codes "approve")
          && str_eq row.artifact.call.call_id op.call_id
          && str_eq row.artifact.call.name op.name)
        ≡ true
    pub undispatched : is_decided row.marker ≡ true

  -- The approval still names the call's journey and binding.
  abbrev pub is_current : GoString → Operation → InteractionRow → Bool
  is_current expected op i =
      str_eq (or_empty i.journey_id) op.journey_id && str_eq i.artifact.call.binding expected

  pub check_approval_ok :
      (run : GoString) (op : Operation) (expected id : GoString) (j : Journal) {a : Approval}
      {k : Journal}
      → check_approval x run op expected id j ≡ ok (a, k)
      → (k ≡ j)
        × (found : Approved run op expected id j) × ((if is_current expected op found.row
              then granted
              else stale)
            ≡ a)
  unfolding check_approval
  check_approval_ok run op expected id j {a} {k} h =
      let row =
        find_row (λ (i : InteractionRow). consumed_approval id run i && ltb j.now i.expires_at)
          j.interactions in
      let fits = λ (i : InteractionRow). λ (r : Reply).
        str_eq r.decision (codes "approve")
        && str_eq i.artifact.call.call_id op.call_id
        && str_eq i.artifact.call.name op.name in
      let verdict = λ (i : InteractionRow). if is_current expected op i then granted else stale in
      let finish : InteractionRow → Reply → Tx Approval = λ i r. (do
        require (fits i r) bad_state
        require (is_decided i.marker) bad_state
        pure (verdict i)) in
      let f =
        Then-ok (require_some row bad_state)
          (λ i. do r ← require_some (x.unmarshal_reply (or_empty i.reply)) bad_state; finish i r) j
          h in
      let r =
        Then-ok (require_some (x.unmarshal_reply (or_empty f.value.reply)) bad_state)
          (finish f.value) f.middle f.second in
      let s =
        next_ok (require (fits f.value r.value) bad_state)
          (do require (is_decided f.value.marker) bad_state; pure (verdict f.value)) r.middle
          r.second in
      let d =
        next_ok (require (is_decided f.value.marker) bad_state) (pure (verdict f.value)) s.0 s.2 in
      let at_row = require_some_ok row bad_state j f.first in
      let at_reply =
        require_some_ok (x.unmarshal_reply (or_empty f.value.reply)) bad_state f.middle r.first in
      let at_fit = require_ok (fits f.value r.value) bad_state r.middle s.1 in
      let at_mark = require_ok (is_decided f.value.marker) bad_state s.0 d.1 in
      let last : ok (verdict f.value, d.0) ≡ ok (a, k) = d.2 in
      let back : k ≡ j =
        (ap (λ p. p.1) (sym (ok-injective last))) ∙ at_mark.1 ∙ at_fit.1 ∙ at_reply.1 ∙ at_row.1 in
      (
        back,
        record {
          row = f.value;
          found = at_row.0;
          answer = r.value;
          replied = at_reply.0;
          approved = at_fit.0;
          undispatched = at_mark.0;
        },
        ap (λ p. p.0) (ok-injective last),
      )
