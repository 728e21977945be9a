-- ===== src/Journal/ScopeExamples.antt =====
-- Recording the scope of a run at a concrete journal.
use az_agent_platform_go.Prelude.{
  ◌≡◌, refl, true, update_rows, Option, some, none, GoString, codes, ok, err, str_eq,
}
use az_agent_platform_go.Journal.{Journal, RunRow}
use az_agent_platform_go.Journal.Transactions.{lock_owner, lock_conversation}
use az_agent_platform_go.Journal.Examples.{journal, owner}
use az_agent_platform_go.Journal.Scope.{RunScope, record_run_scope}
use az_agent_platform_go.Journal.Recorded.{IsSameScope, record_run_scope_once}

-- Every text is a JSON object, stored as it is.
abbrev stored : GoString → Option GoString
stored s = some s

abbrev scope : RunScope
scope = record {
  product_version = codes "1.4";
  endpoint_id = codes "orders";
  settings = codes "{}";
}

-- The run of `journal` before its scope was recorded.
abbrev unscoped : Journal
unscoped = record journal {
  runs =
      update_rows (λ (r : RunRow). true)
        (λ (r : RunRow). record r { product_version = none; endpoint_id = none; settings = none })
        journal.runs;
}

abbrev recorded : Journal
recorded = elim (record_run_scope stored owner scope unscoped) [ err e ↦ unscoped | ok (u, k) ↦ k ]

records : record_run_scope stored owner scope unscoped ≡ ok (tt, recorded)
unfolding record_run_scope lock_owner lock_conversation str_eq
records = refl

records_again : record_run_scope stored owner scope recorded ≡ ok (tt, recorded)
unfolding record_run_scope lock_owner lock_conversation str_eq
records_again = refl

record_run_scope_once_example : (recorded ≡ recorded) × IsSameScope stored scope scope
record_run_scope_once_example =
    record_run_scope_once stored owner owner scope scope unscoped recorded recorded records refl
      records_again
