-- ===== src/Journal/Finished.antt =====
-- internal/journal/sessions.go: a run that has finished is never owned again.
use az_agent_platform_go.Prelude.{
  ◌≡◌, refl, sym, subst, Bool, true, false, ◌||◌, [], Option, none, some, GoString, str_eq, Result,
  ok, err, if◌then◌else◌, ℕ, codes,
}
use az_agent_platform_go.Journal.{
  Journal, Tx, JournalError, bad_state, expired, Owner, Command, External, Reply, RunState, Reason,
}
use az_agent_platform_go.Journal.Transactions.{throw}
use az_agent_platform_go.Journal.Admission.{Receipt, receipt_for}
use az_agent_platform_go.Journal.Replies.{reply, reply_body, Replied, repeated, lapsed, fresh}
use az_agent_platform_go.Journal.Sessions.{
  finish_run, finish_failed, finish_limit_exceeded, may_finish, is_client_reason,
}
use az_agent_platform_go.Journal.Over.{
  Over, SameRuns, KeepsOver, SameRuns-KeepsOver, begin_attempt_runs, end_attempt_runs,
  supersede-SameRuns, set_active_journeys-SameRuns, renew-KeepsOver, claim-KeepsOver,
}
use az_agent_platform_go.Journal.Ended.{
  include_commands-SameRuns, finish-KeepsOver, start-KeepsOver,
}
use az_agent_platform_go.Journal.Admitted.{
  record_run_scope-KeepsOver, wait-KeepsOver, reply_body-KeepsOver, reap_run-KeepsOver,
  admit-KeepsOver,
}
use az_agent_platform_go.Journal.Hoare.{Ends-if, Ends-throw}
use az_agent_platform_go.Journal.Steps.{
  Step, Reach, here, next, left_by, left_by-keeps, admits, claims, renews, reaps, includes,
  records_scope, starts, sets_active, begins, ends, waits, supersedes, replies, finishes, fails,
  exceeds, passes,
}

module _ (id : GoString) where
  abbrev P : Journal → Type 0
  P j = Over id j.runs

  committed : {A : Type 0} (t : Tx A) (j : Journal) → KeepsOver id t → P j → P (left_by t j)
  committed t j k p = left_by-keeps P t j (λ a i e. k j a i e p) p

  untouched : {A : Type 0} (t : Tx A) (j : Journal) → SameRuns t → P j → P (left_by t j)
  untouched t j u = committed t j (SameRuns-KeepsOver id t u)

  reply-Over : (x : External) (c : Command) (j : Journal) → P j → P (reply x c j).0
  unfolding reply
  reply-Over x c j p = by_guard _
    where
      kept :
          Result JournalError (Replied × Journal) → Journal × Result JournalError (Receipt × Bool)
      kept r = elim r [
        | err e ↦ (j, err e)
        | ok (repeated run, k) ↦ (k, ok (receipt_for c run, false))
        | ok (lapsed, k) ↦ (k, err expired)
        | ok (fresh, k) ↦ (k, ok (receipt_for c c.run_id, true))
      ]

      answered : Option Reply → Journal × Result JournalError (Receipt × Bool)
      answered o = elim o [
        | none ↦ (j, err bad_state)
        | some answer ↦ kept (reply_body x c answer j)
      ]

      by_result :
          (answer : Reply) (r : Result JournalError (Replied × Journal))
          → reply_body x c answer j ≡ r
          → P (kept r).0
      by_result answer (err e) h = p
      by_result answer (ok (repeated run, k)) h =
          reply_body-KeepsOver id x c answer j (repeated run) k h p
      by_result answer (ok (lapsed, k)) h = reply_body-KeepsOver id x c answer j lapsed k h p
      by_result answer (ok (fresh, k)) h = reply_body-KeepsOver id x c answer j fresh k h p

      by_reply : (o : Option Reply) → P (answered o).0
      by_reply none = p
      by_reply (some answer) = by_result answer (reply_body x c answer j) refl

      by_guard :
          (b : Bool)
          → P (if b then (j, err bad_state) else answered (x.decode_strict c.reply_json)).0
      by_guard true = p
      by_guard false = by_reply (x.decode_strict c.reply_json)

  finish_run-KeepsOver :
      (o : Owner) (state : RunState) (history answer call tool : GoString)
      → KeepsOver id (finish_run o state history answer call tool)
  unfolding finish_run
  finish_run-KeepsOver o state history answer call tool j u k e p =
      Ends-if P (may_finish state) _ (throw bad_state) j
        (λ b l q. finish-KeepsOver id o state history answer call tool none j b l q p)
        (Ends-throw P _ bad_state j) u k e

  finish_failed-KeepsOver :
      (o : Owner) (history : GoString) (reason : Reason)
      → KeepsOver id (finish_failed o history reason)
  unfolding finish_failed
  finish_failed-KeepsOver o history reason j u k e p =
      Ends-if P (is_client_reason reason) _ (throw bad_state) j
        (λ b l q. (finish-KeepsOver id o RunState.failed history [] [] [] (some reason)) j b l q p)
        (Ends-throw P _ bad_state j) u k e

  finish_limit_exceeded-KeepsOver :
      (o : Owner) (history kind : GoString) (retry : ℕ)
      → KeepsOver id (finish_limit_exceeded o history kind retry)
  unfolding finish_limit_exceeded
  finish_limit_exceeded-KeepsOver o history kind retry j u k e p =
      Ends-if P (str_eq kind (codes "budget") || str_eq kind (codes "rate")) _ (throw bad_state) j
        (λ b l q.
          (finish-KeepsOver id o RunState.limit_exceeded history [] [] []
              (some (Reason.limit_hit kind retry)))
            j b l q p)
        (Ends-throw P _ bad_state j) u k e

  Step-Over : {x : External} {j k : Journal} → Step x j k → P j → P k
  Step-Over {x} {j} (admits c) p = committed _ j (admit-KeepsOver id x c) p
  Step-Over {x} {j} (claims c i d) p = committed _ j (claim-KeepsOver id c i d) p
  Step-Over {x} {j} (renews o d) p = committed _ j (renew-KeepsOver id o d) p
  Step-Over {x} {j} (reaps run) p = committed _ j (reap_run-KeepsOver id x run) p
  Step-Over {x} {j} (includes o cs) p = untouched _ j (include_commands-SameRuns o cs) p
  Step-Over {x} {j} (records_scope f o s) p = committed _ j (record_run_scope-KeepsOver id f o s) p
  Step-Over {x} {j} (starts o a d) p = committed _ j (start-KeepsOver id o a d) p
  Step-Over {x} {j} (sets_active o a) p = untouched _ j (set_active_journeys-SameRuns o a) p
  Step-Over {x} {j} (begins o op n a) p = subst (Over id) (sym (begin_attempt_runs x o op n a j)) p
  Step-Over {x} {j} (ends o op n out) p = subst (Over id) (sym (end_attempt_runs o op n out j)) p
  Step-Over {x} {j} (waits o i c h) p = committed _ j (wait-KeepsOver id x o i c h) p
  Step-Over {x} {j} (supersedes o i) p = untouched _ j (supersede-SameRuns o i) p
  Step-Over {x} {j} (replies c) p = reply-Over x c j p
  Step-Over {x} {j} (finishes o s h a c t) p = committed _ j (finish_run-KeepsOver o s h a c t) p
  Step-Over {x} {j} (fails o h r) p = committed _ j (finish_failed-KeepsOver o h r) p
  Step-Over {x} {j} (exceeds o h k r) p = committed _ j (finish_limit_exceeded-KeepsOver o h k r) p
  Step-Over {x} {j} (passes n) p = p

  -- A run that is over stays so.
  pub Reach-Over : {x : External} {j k : Journal} → Reach x j k → P j → P k
  Reach-Over here p = p
  Reach-Over (next r s) p = Step-Over s (Reach-Over r p)
