-- ===== src/Journal/Persists.antt =====
-- internal/journal: what is used up stays used up, whatever the store is asked to do later.
use az_agent_platform_go.Prelude.{
  ◌≡◌, refl, sym, subst, Bool, true, false, ◌||◌, [], Option, none, some, GoString, str_eq, Result,
  ok, err, if◌then◌else◌, ℕ, codes,
}
use az_agent_platform_go.Journal.{
  Journal, Tx, JournalError, bad_state, superseded, expired, Owner, Command, Operation, External,
  Reply, RunState, Reason,
}
use az_agent_platform_go.Journal.Transactions.{throw}
use az_agent_platform_go.Journal.Begin.{begin_attempt, begin_body, begin_guard}
use az_agent_platform_go.Journal.Admission.{Receipt, receipt_for}
use az_agent_platform_go.Journal.Replies.{reply, reply_body, Replied, repeated, lapsed, fresh}
use az_agent_platform_go.Journal.Sessions.{
  finish_run, finish_failed, finish_limit_exceeded, may_finish, is_client_reason,
}
use az_agent_platform_go.Journal.Held.{Held}
use az_agent_platform_go.Journal.Used.{Keeps, Untouched-Keeps, begin_body-Keeps, supersede-Keeps}
use az_agent_platform_go.Journal.Kept.{wait-Keeps, reply_body-Keeps, reap_run-Keeps, admit-Keeps}
use az_agent_platform_go.Journal.Untouched.{
  end_attempt-Untouched, renew-Untouched, claim-Untouched, start-Untouched,
  set_active_journeys-Untouched, record_run_scope-Untouched, include_commands-Untouched,
  finish-Untouched, Untouched,
}
use az_agent_platform_go.Journal.Hoare.{Ends-if, Ends-throw}
use az_agent_platform_go.Journal.Steps.{
  Step, Reach, here, next, left_by, left_by-keeps, admits, claims, renews, reaps, includes,
  records_scope, starts, sets_active, begins, ends, waits, supersedes, replies, finishes, fails,
  exceeds, passes,
}

module _ (sent : Bool) (id : GoString) where
  abbrev P : Journal → Type 0
  P j = Held sent id j.interactions

  committed : {A : Type 0} (t : Tx A) (j : Journal) → Keeps sent id t → P j → P (left_by t j)
  committed t j k p = left_by-keeps P t j (λ a i e. k j a i e p) p

  untouched : {A : Type 0} (t : Tx A) (j : Journal) → Untouched t → P j → P (left_by t j)
  untouched t j u = committed t j (Untouched-Keeps sent id t u)

  begin_attempt-Held :
      (x : External) (o : Owner) (op : Operation) (n : ℕ) (other : GoString) (j : Journal)
      → P j
      → P (begin_attempt x o op n other j).0
  unfolding begin_attempt
  begin_attempt-Held x o op n other j p = by_guard (begin_guard x op n)
    where
      kept : Result JournalError (Bool × Journal) → Journal × Option JournalError
      kept r = elim r [
        | err e ↦ (j, some e)
        | ok (gone, k) ↦ (k, if gone then some superseded else none)
      ]

      by_result :
          (r : Result JournalError (Bool × Journal))
          → begin_body x o op n other j ≡ r
          → P (kept r).0
      by_result (err e) h = p
      by_result (ok (gone, k)) h = begin_body-Keeps sent id x o op n other j gone k h p

      by_guard :
          (b : Bool) → P (if b then kept (begin_body x o op n other j) else (j, some bad_state)).0
      by_guard true = by_result (begin_body x o op n other j) refl
      by_guard false = p

  reply-Held : (x : External) (c : Command) (j : Journal) → P j → P (reply x c j).0
  unfolding reply
  reply-Held x c j p = by_guard _
    where
      kept :
          Result JournalError (Replied × Journal) → Journal × Result JournalError (Receipt × Bool)
      kept r = elim r [
        | err e ↦ (j, err e)
        | ok (repeated run, k) ↦ (k, ok (receipt_for c run, false))
        | ok (lapsed, k) ↦ (k, err expired)
        | ok (fresh, k) ↦ (k, ok (receipt_for c c.run_id, true))
      ]

      answered : Option Reply → Journal × Result JournalError (Receipt × Bool)
      answered o = elim o [
        | none ↦ (j, err bad_state)
        | some answer ↦ kept (reply_body x c answer j)
      ]

      by_result :
          (answer : Reply) (r : Result JournalError (Replied × Journal))
          → reply_body x c answer j ≡ r
          → P (kept r).0
      by_result answer (err e) h = p
      by_result answer (ok (repeated run, k)) h =
          reply_body-Keeps sent id x c answer j (repeated run) k h p
      by_result answer (ok (lapsed, k)) h = reply_body-Keeps sent id x c answer j lapsed k h p
      by_result answer (ok (fresh, k)) h = reply_body-Keeps sent id x c answer j fresh k h p

      by_reply : (o : Option Reply) → P (answered o).0
      by_reply none = p
      by_reply (some answer) = by_result answer (reply_body x c answer j) refl

      by_guard :
          (b : Bool)
          → P (if b then (j, err bad_state) else answered (x.decode_strict c.reply_json)).0
      by_guard true = p
      by_guard false = by_reply (x.decode_strict c.reply_json)

  finish_run-Keeps :
      (o : Owner) (state : RunState) (history answer call tool : GoString)
      → Keeps sent id (finish_run o state history answer call tool)
  unfolding finish_run
  finish_run-Keeps o state history answer call tool j u k e p =
      Ends-if P (may_finish state) _ (throw bad_state) j
        (λ b l q.
          Untouched-Keeps sent id _ (finish-Untouched o state history answer call tool none) j b l q
            p)
        (Ends-throw P _ bad_state j) u k e

  finish_failed-Keeps :
      (o : Owner) (history : GoString) (reason : Reason)
      → Keeps sent id (finish_failed o history reason)
  unfolding finish_failed
  finish_failed-Keeps o history reason j u k e p =
      Ends-if P (is_client_reason reason) _ (throw bad_state) j
        (λ b l q.
          Untouched-Keeps sent id _
            (finish-Untouched o RunState.failed history [] [] [] (some reason)) j b l q p)
        (Ends-throw P _ bad_state j) u k e

  finish_limit_exceeded-Keeps :
      (o : Owner) (history kind : GoString) (retry : ℕ)
      → Keeps sent id (finish_limit_exceeded o history kind retry)
  unfolding finish_limit_exceeded
  finish_limit_exceeded-Keeps o history kind retry j u k e p =
      Ends-if P (str_eq kind (codes "budget") || str_eq kind (codes "rate")) _ (throw bad_state) j
        (λ b l q.
          Untouched-Keeps sent id _
            (finish-Untouched o RunState.limit_exceeded history [] [] []
              (some (Reason.limit_hit kind retry)))
            j b l q p)
        (Ends-throw P _ bad_state j) u k e

  Step-Held : {x : External} {j k : Journal} → Step x j k → P j → P k
  Step-Held {x} {j} (admits c) p = committed _ j (admit-Keeps sent id x c) p
  Step-Held {x} {j} (claims c i d) p = untouched _ j (claim-Untouched c i d) p
  Step-Held {x} {j} (renews o d) p = untouched _ j (renew-Untouched o d) p
  Step-Held {x} {j} (reaps run) p = committed _ j (reap_run-Keeps sent id x run) p
  Step-Held {x} {j} (includes o cs) p = untouched _ j (include_commands-Untouched o cs) p
  Step-Held {x} {j} (records_scope f o s) p = untouched _ j (record_run_scope-Untouched f o s) p
  Step-Held {x} {j} (starts o a d) p = untouched _ j (start-Untouched o a d) p
  Step-Held {x} {j} (sets_active o a) p = untouched _ j (set_active_journeys-Untouched o a) p
  Step-Held {x} {j} (begins o op n a) p = begin_attempt-Held x o op n a j p
  Step-Held {x} {j} (ends o op n out) p =
      subst (Held sent id) (sym (end_attempt-Untouched o op n out j)) p
  Step-Held {x} {j} (waits o i c h) p = committed _ j (wait-Keeps sent id x o i c h) p
  Step-Held {x} {j} (supersedes o i) p = committed _ j (supersede-Keeps sent id o i) p
  Step-Held {x} {j} (replies c) p = reply-Held x c j p
  Step-Held {x} {j} (finishes o s h a c t) p = committed _ j (finish_run-Keeps o s h a c t) p
  Step-Held {x} {j} (fails o h r) p = committed _ j (finish_failed-Keeps o h r) p
  Step-Held {x} {j} (exceeds o h k r) p = committed _ j (finish_limit_exceeded-Keeps o h k r) p
  Step-Held {x} {j} (passes n) p = p

  -- What is used up stays so.
  pub Reach-Held : {x : External} {j k : Journal} → Reach x j k → P j → P k
  Reach-Held here p = p
  Reach-Held (next r s) p = Step-Held s (Reach-Held r p)
