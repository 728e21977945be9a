-- ===== src/Runtime/PlanExamples.antt =====
-- A plan of concrete calls.
use az_agent_platform_go.Prelude.{
  ◌≡◌, refl, Bool, true, not, ◌&&◌, List, [], ◌∷◌, GoString, codes, str_eq, anyb, some, All,
}
use az_agent_platform_go.Runtime.Planning.{
  Call, PlannedCall, owning_journey, plan_calls, is_activation, activate, not_executed,
}
use az_agent_platform_go.Runtime.Planned.{calls_of, is_allowed, plan_calls-is_allowed}

abbrev call_of : GoString → Call
call_of name = record { call_id = codes "1"; name = name }

abbrev active : List GoString
active = codes "audit" ∷ codes "orders" ∷ codes "help" ∷ []

abbrev has : GoString → GoString → Bool
has id alias = str_eq alias (codes "get") && not (str_eq id (codes "help"))

-- The most recently used journey with the alias answers; an activation leaves nothing else to run.
latest_has : owning_journey has (codes "get") active ≡ some (codes "orders")
unfolding owning_journey str_eq
latest_has = refl

abbrev calls : List Call
calls = call_of (codes "get") ∷ call_of (codes "activate_journey") ∷ []

plans :
    plan_calls calls true (λ alias. owning_journey has alias active)
    ≡ record { call = call_of (codes "get"); kind = not_executed }
      ∷ record { call = call_of (codes "activate_journey"); kind = activate }
      ∷ []
unfolding plan_calls owning_journey str_eq
plans = refl

plan_calls-is_allowed_example :
    (calls_of (plan_calls calls true (λ alias. owning_journey has alias active)) ≡ calls)
    × All
        (λ (p : PlannedCall). is_allowed has active true (anyb is_activation calls) p ≡ true)
        (plan_calls calls true (λ alias. owning_journey has alias active))
plan_calls-is_allowed_example = plan_calls-is_allowed has active true calls
