-- ===== src/Journal/LogKept.antt =====
-- Every operation of internal/journal keeps the event log: what it appends.
use az_agent_platform_go.Prelude.{Option, none, some, GoString, if◌then◌else◌, filterb, find_row}
use az_agent_platform_go.Journal.{Journal, Tx, Event, RunState, EventKind, RunRow}
use az_agent_platform_go.Journal.Transactions.{append_event, ◌>>◌, pure, put, event}
use az_agent_platform_go.Journal.Outcomes.{
  mark_operations_unknown, dispose_pending, is_open, unknown_event, disposed_event, is_waiting,
}
use az_agent_platform_go.Journal.Owners.{interrupt_run, interrupt_expired, candidate_run, is_spared}
use az_agent_platform_go.Journal.Hoare.{Ends, Ends-put, Ends-pure, Ends-next, Ends-if}
use az_agent_platform_go.Journal.Log.{Extends, append_event-Extends, append_all-Extends}

module _ (start : Journal) where
  abbrev P : Journal → Type 0
  P = Extends start

  pub mark_operations_unknown-Extends :
      (run : GoString) (j : Journal) → P j → Ends P j (mark_operations_unknown run)
  unfolding mark_operations_unknown Extends
  mark_operations_unknown-Extends run j p =
      Ends-next P (put _) _ j (Ends-put P _ j p) (λ i q.
        append_all-Extends start (unknown_event run) (filterb (is_open run) j.operations) i q)

  pub dispose_pending-Extends :
      (run : GoString) (reason : RunState) (j : Journal)
      → P j
      → Ends P j (dispose_pending run reason)
  unfolding dispose_pending Extends
  dispose_pending-Extends run reason j p = Ends-next P (put _) _ j (Ends-put P _ j p) (λ i q.
      append_all-Extends start (disposed_event run reason) (filterb (is_waiting run) j.commands) i
        q)

  -- Both, then whatever keeps the log.
  settled :
      (run : GoString) (reason : RunState) (rest : Tx (Unit {0})) (j : Journal)
      → P j
      → ((i : Journal) → P i → Ends P i rest)
      → Ends P j (do mark_operations_unknown run; dispose_pending run reason; rest)
  settled run reason rest j p r =
      Ends-next P (mark_operations_unknown run) (do dispose_pending run reason; rest) j
        (mark_operations_unknown-Extends run j p)
        (λ i q.
          Ends-next P (dispose_pending run reason) rest i (dispose_pending-Extends run reason i q)
            r)

  pub interrupt_run-Extends : (run : GoString) (j : Journal) → P j → Ends P j (interrupt_run run)
  unfolding interrupt_run Extends
  interrupt_run-Extends run j p =
      let started : Event = event run EventKind.run_interrupted in
      Ends-next P (put _)
        (do
          mark_operations_unknown run
          dispose_pending run RunState.interrupted
          append_event started)
        j (Ends-put P _ j p)
        (λ i q.
          settled run RunState.interrupted (append_event started) i q
            (λ i q. append_event-Extends start started i q))

  pub interrupt_expired-Extends :
      (candidate : GoString) (j : Journal) → P j → Ends P j (interrupt_expired candidate)
  unfolding interrupt_expired
  interrupt_expired-Extends candidate j p = by_row (find_row (candidate_run candidate) j.runs)
    where
      by_row :
          (o : Option RunRow)
          → Ends P j (elim o [
            | none ↦ pure tt
            | some r ↦ if is_spared r j then pure tt else interrupt_run r.id
          ])
      by_row none = Ends-pure P tt j p
      by_row (some r) =
          Ends-if P (is_spared r j) (pure tt) (interrupt_run r.id) j (Ends-pure P tt j p)
            (interrupt_run-Extends r.id j p)
