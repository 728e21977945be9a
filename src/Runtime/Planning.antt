-- ===== src/Runtime/Planning.antt =====
-- internal/runtime/dispatch.go: planCalls, which calls of a model response are made, and by which
-- journey's tool.
use az_agent_platform_go.Prelude.{
  Bool, ◌&&◌, List, [], ◌∷◌, Option, none, some, GoString, codes, str_eq, anyb, if◌then◌else◌,
}

-- A call of a model response.
pub record Call : Type 0 where
  pub call_id : GoString
  pub name : GoString

pub data CallKind : Type 0 where
  inactive activate not_executed ask read_resource : CallKind
  alias_of_journey : GoString → CallKind

pub record PlannedCall : Type 0 where
  pub call : Call
  pub kind : CallKind

-- The search from the end of `active`, which is least recently used first.
unfoldable pub owning_journey :
    (GoString → GoString → Bool) → GoString → List GoString → Option GoString
owning_journey has alias [] = none
owning_journey has alias (id ∷ ids) = elim (owning_journey has alias ids) [
  | some owner ↦ some owner
  | none ↦ if has id alias then some id else none
]

abbrev pub is_activation : Call → Bool
is_activation c = str_eq c.name (codes "activate_journey")

abbrev pub kind_of_alias : Option GoString → CallKind
kind_of_alias none = inactive
kind_of_alias (some journey) = alias_of_journey journey

abbrev pub kind_of : Bool → Bool → (GoString → Option GoString) → Call → CallKind
kind_of activating resources owner c =
    if is_activation c
    then activate
    else if activating
    then not_executed
    else if str_eq c.name (codes "request_user_input")
    then ask
    else if str_eq c.name (codes "read_skill_resource") && resources
    then read_resource
    else kind_of_alias (owner c.name)

abbrev pub plan_each : Bool → Bool → (GoString → Option GoString) → List Call → List PlannedCall
plan_each activating resources owner [] = []
plan_each activating resources owner (c ∷ cs) =
    record { call = c; kind = kind_of activating resources owner c }
    ∷ plan_each activating resources owner cs

-- planCalls
unfoldable pub plan_calls : List Call → Bool → (GoString → Option GoString) → List PlannedCall
plan_calls calls resources owner = plan_each (anyb is_activation calls) resources owner calls
