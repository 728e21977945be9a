-- ===== src/Journal/LogAdmission.antt =====
-- The event log through admissions, claims and ends of runs.
use az_agent_platform_go.Prelude.{
  ◌≡◌, Bool, true, false, Option, none, some, ok, List, [], ◌∷◌, ◌++◌, GoString, not, anyb, filterb,
  str_eq, update_rows, ◌&&◌,
}
use az_agent_platform_go.Journal.{
  Journal, Tx, JournalError, conflict, busy, database, bad_state, Event, EventKind, Reason,
  RunState, CommandRow, Command, RunRow, InteractionRow, External,
}
use az_agent_platform_go.Journal.Transactions.{
  append_event, ◌>>=◌, ◌>>◌, pure, put, get, require, require_some, throw, event, lock_conversation,
}
use az_agent_platform_go.Journal.Waits.{
  fail_waiting_run, fail_waiting_runs, expire_interactions, is_due, is_awaiting, is_unanswered,
}
use az_agent_platform_go.Journal.Owners.{interrupt_expired, command_eq}
use az_agent_platform_go.Journal.Admission.{
  insert_command, insert_run, schedule, admit_body, admit, live_run, is_foreign, receipt_for,
  find_accepted, Receipt,
}
use az_agent_platform_go.Journal.Hoare.{
  Ends, Ends-put, Ends-pure, Ends-next, Ends-require, Ends-some, Ends-if, Ends-throw,
}
use az_agent_platform_go.Journal.Log.{Extends, append_event-Extends, Extends-refl, IsNumbered}
use az_agent_platform_go.Journal.LogKept.{interrupt_expired-Extends}

module _ (start : Journal) where
  abbrev P : Journal → Type 0
  P = Extends start

  abbrev accepted_event : GoString → GoString → Event
  accepted_event run communication = record (event run EventKind.command_accepted) {
    communication_id = communication;
  }

  fail_waiting_run-Extends :
      (x : External) (run : GoString) (j : Journal) → P j → Ends P j (fail_waiting_run x run)
  unfolding fail_waiting_run Extends
  fail_waiting_run-Extends x run j p =
      let first : Event = event run EventKind.interaction_expired in
      let last : Event = record (event run EventKind.run_failed) {
        reason = Reason.interaction_expired;
      } in
      let told : Tx (Unit {0}) = (do append_event first; append_event last) in
      let failed = λ (closed : GoString). record j {
        history = closed;
        runs =
            update_rows (λ (r : RunRow). str_eq r.id run && is_awaiting r.state)
              (λ (r : RunRow). record r { state = RunState.failed }) j.runs;
      } in
      Ends-some P _ database
        (λ (i : InteractionRow). (do
          closed ←
              require_some (x.close_history i.history i.artifact.call.provider_call_id) bad_state
          put (failed closed)
          told))
        j
        (λ i.
          Ends-some P _ bad_state (λ closed. (do put (failed closed); told)) j
            (λ closed.
              Ends-next P (put (failed closed)) told j (Ends-put P (failed closed) j p) (λ a q.
                Ends-next P (append_event first) (append_event last) a
                  (append_event-Extends start first a q)
                  (λ b r. append_event-Extends start last b r))))

  fail_waiting_runs-Extends :
      (x : External) (is : List InteractionRow) (j : Journal)
      → P j
      → Ends P j (fail_waiting_runs x is)
  unfolding fail_waiting_runs
  fail_waiting_runs-Extends x [] j p = Ends-pure P tt j p
  fail_waiting_runs-Extends x (i ∷ is) j p =
      Ends-next P (fail_waiting_run x i.run_id) (fail_waiting_runs x is) j
        (fail_waiting_run-Extends x i.run_id j p) (λ a q. fail_waiting_runs-Extends x is a q)

  pub expire_interactions-Extends :
      (x : External) (j : Journal) → P j → Ends P j (expire_interactions x)
  unfolding expire_interactions Extends
  expire_interactions-Extends x j p =
      Ends-next P (put _) (fail_waiting_runs x (filterb (is_due x j.now) j.interactions)) j
        (Ends-put P _ j p) (λ a q. fail_waiting_runs-Extends x _ a q)

  insert_command-Extends :
      (c : Command) (run : GoString) (e : JournalError) (j : Journal)
      → P j
      → Ends P j (insert_command c run e)
  unfolding insert_command Extends
  insert_command-Extends c run e j p = Ends-require P _ e (put _) j (Ends-put P _ j p)

  insert_run-Extends :
      (run : GoString) (journey digest : Option GoString) (e : JournalError) (j : Journal)
      → P j
      → Ends P j (insert_run run journey digest e)
  unfolding insert_run Extends
  insert_run-Extends run journey digest e j p = Ends-require P _ e (put _) j (Ends-put P _ j p)

  schedule-Extends : (c : Command) (j : Journal) → P j → Ends P j (schedule c)
  unfolding schedule
  schedule-Extends c j p = by_run (live_run j)
    where
      told : GoString → Bool → Tx (Receipt × Bool)
      told run fresh = do
        append_event (accepted_event run c.communication_id)
        pure (receipt_for c run, fresh)

      tells : (run : GoString) (fresh : Bool) (i : Journal) → P i → Ends P i (told run fresh)
      tells run fresh i q =
          Ends-next P (append_event (accepted_event run c.communication_id))
            (pure (receipt_for c run, fresh)) i
            (append_event-Extends start (accepted_event run c.communication_id) i q)
            (λ k r. Ends-pure P (receipt_for c run, fresh) k r)

      by_run :
          (o : Option (RunRow × CommandRow))
          → Ends P j (elim o [
            | none ↦ (do
              insert_command c c.run_id conflict
              insert_run c.run_id none none conflict
              told c.run_id true)
            | some (r, m) ↦ (do
              require (not (is_foreign c r m)) busy
              insert_command c r.id conflict
              told r.id false)
          ])
      by_run none =
          Ends-next P (insert_command c c.run_id conflict) _ j
            (insert_command-Extends c c.run_id conflict j p)
            (λ a q.
              Ends-next P (insert_run c.run_id none none conflict) (told c.run_id true) a
                (insert_run-Extends c.run_id none none conflict a q)
                (λ b r. tells c.run_id true b r))
      by_run (some (r, m)) =
          Ends-require P _ busy (do insert_command c r.id conflict; told r.id false) j
            (Ends-next P (insert_command c r.id conflict) (told r.id false) j
              (insert_command-Extends c r.id conflict j p) (λ a q. tells r.id false a q))

  abbrev repeat_receipt : Command → CommandRow → Tx (Receipt × Bool)
  repeat_receipt c m = do
    require (command_eq m.payload c) conflict
    pure (receipt_for c m.execution_run_id, false)

  -- An admission in its parts: a repeated command, or the sweep and the schedule.
  repeated_receipt-Extends :
      (c : Command) (m : CommandRow) (j : Journal) → P j → Ends P j (repeat_receipt c m)
  repeated_receipt-Extends c m j p =
      Ends-require P _ conflict (pure (receipt_for c m.execution_run_id, false)) j
        (Ends-pure P (receipt_for c m.execution_run_id, false) j p)

  abbrev schedule_if_idle : Command → Tx (Receipt × Bool)
  schedule_if_idle c = do
    k ← get
    require (not (anyb (λ (i : InteractionRow). is_unanswered i.state) k.interactions)) busy
    schedule c

  new_command-Extends :
      (x : External) (c : Command) (j : Journal)
      → P j
      → Ends P j (do interrupt_expired []; expire_interactions x; schedule_if_idle c)
  new_command-Extends x c j p =
      Ends-next P (interrupt_expired []) (do expire_interactions x; schedule_if_idle c) j
        (interrupt_expired-Extends start [] j p)
        (λ a q.
          Ends-next P (expire_interactions x) (schedule_if_idle c) a
            (expire_interactions-Extends x a q)
            (λ b r. Ends-require P _ busy (schedule c) b (schedule-Extends c b r)))

  pub admit_body-Extends :
      (x : External) (c : Command) (j : Journal) → P j → Ends P j (admit_body x c)
  unfolding admit_body lock_conversation
  admit_body-Extends x c j p =
      Ends-require P (str_eq j.principal c.principal) _ _ j
        (by_row (find_accepted c.communication_id j))
    where
      by_row :
          (o : Option CommandRow)
          → Ends P j (elim o [
            | some m ↦ repeat_receipt c m
            | none ↦ (do interrupt_expired []; expire_interactions x; schedule_if_idle c)
          ])
      by_row none = new_command-Extends x c j p
      by_row (some m) = repeated_receipt-Extends c m j p

-- An admission that succeeds only appends to the event log, whatever it sweeps on its way: the new
-- events are numbered on from the conversation's last number, to its new one.
pub admit-Extends :
    (x : External) (c : Command) (j : Journal) (r : Receipt) (fresh : Bool) (k : Journal)
    → admit x c j ≡ ok ((r, fresh), k)
    → (added : List Event) × (k.events ≡ j.events ++ added) × IsNumbered j.sequence added k.sequence
unfolding admit Extends
admit-Extends x c j r fresh k h =
    Ends-if (Extends j) _ (throw bad_state) (admit_body x c) j
      (Ends-throw (Extends j) _ bad_state j) (admit_body-Extends j x c j (Extends-refl j))
      (r, fresh) k h
