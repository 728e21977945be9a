-- ===== src/Definitions/Policies.antt =====
-- internal/definitions/compile.go: the policies that the op selectors of a journey give their keys,
-- and the check that the journeys of a set agree on them.
use az_agent_platform_go.Prelude.{
  Bool, true, false, not, ◌&&◌, ◌||◌, List, [], ◌∷◌, Option, none, some, GoString, is_empty, lookup,
  insert, keys, sort_strings, Result, ok, fail_if, ◌>>=◌, ◌>>◌, if◌then◌else◌,
}
use az_agent_platform_go.Definitions.Tools.{
  Class, unclassified, read_only, idempotent, effectful, Selector,
}

-- effectivePolicy
pub record EffectivePolicy : Type 0 where
  pub class : Class
  pub approval : Bool

abbrev pub same_class : Class → Class → Bool
same_class unclassified unclassified = true
same_class read_only read_only = true
same_class idempotent idempotent = true
same_class effectful effectful = true
same_class _ _ = false

abbrev pub same_flag : Bool → Bool → Bool
same_flag true b = b
same_flag false b = not b

-- Go's == on effectivePolicy.
abbrev pub same_policy : EffectivePolicy → EffectivePolicy → Bool
same_policy p q = same_class p.class q.class && same_flag p.approval q.approval

-- policyClassRank(a) > policyClassRank(b)
abbrev pub is_stricter : Class → Class → Bool
is_stricter read_only b = false
is_stricter idempotent read_only = true
is_stricter idempotent b = false
is_stricter unclassified read_only = true
is_stricter unclassified idempotent = true
is_stricter unclassified b = false
is_stricter effectful read_only = true
is_stricter effectful idempotent = true
is_stricter effectful b = false

abbrev pub or_effectful : Class → Class
or_effectful unclassified = effectful
or_effectful class = class

abbrev pub merge_policy : EffectivePolicy → Option EffectivePolicy → EffectivePolicy
merge_policy next none = next
merge_policy next (some prev) = record {
  class = if is_stricter prev.class next.class then prev.class else next.class;
  approval = next.approval || prev.approval;
}

abbrev pub policy_of_selector : Selector → EffectivePolicy
policy_of_selector s = record { class = or_effectful s.class; approval = s.approval_required }

abbrev pub add_keys :
    Selector → List GoString → List (GoString × EffectivePolicy) → List (GoString × EffectivePolicy)
add_keys s [] out = out
add_keys s (key ∷ keys) out =
    add_keys s keys (insert key (merge_policy (policy_of_selector s) (lookup key out)) out)

abbrev pub add_selectors :
    List Selector → List (GoString × EffectivePolicy) → List (GoString × EffectivePolicy)
add_selectors [] out = out
add_selectors (s ∷ ss) out = add_selectors ss (add_keys s s.ops out)

abbrev pub is_not_read_only : Class → Bool
is_not_read_only read_only = false
is_not_read_only _ = true

abbrev pub require_approvals : List (GoString × EffectivePolicy) → List (GoString × EffectivePolicy)
require_approvals [] = []
require_approvals ((key, p) ∷ out) =
    (key, record { class = p.class; approval = p.approval || is_not_read_only p.class })
    ∷ require_approvals out

-- journeyPolicies, of a journey's tools.
unfoldable pub journey_policies : List Selector → List (GoString × EffectivePolicy)
journey_policies tools = require_approvals (add_selectors tools [])

-- The journeys of a set by their ids.
abbrev pub JourneySet : Type 0
JourneySet = List (GoString × List Selector)

abbrev pub tools_at : GoString → JourneySet → List Selector
tools_at id set = elim (lookup id set) [ none ↦ [] | some tools ↦ tools ]

-- byKey: a key's policy in each journey.
abbrev pub KeyPolicies : Type 0
KeyPolicies = List (GoString × List (GoString × EffectivePolicy))

abbrev pub journeys_at :
    Option (List (GoString × EffectivePolicy)) → List (GoString × EffectivePolicy)
journeys_at none = []
journeys_at (some ps) = ps

abbrev pub policy_at : GoString → GoString → KeyPolicies → Option EffectivePolicy
policy_at key id m = lookup id (journeys_at (lookup key m))

-- The loop over one journey's policies, in whatever order its map yields them.
unfoldable pub note_policies :
    GoString → List (GoString × EffectivePolicy) → KeyPolicies → KeyPolicies
note_policies id [] m = m
note_policies id ((key, p) ∷ ps) m =
    let rest = note_policies id ps m in
    insert key (insert id p (journeys_at (lookup key rest))) rest

unfoldable pub note_journeys : JourneySet → List GoString → KeyPolicies → KeyPolicies
unfolding note_policies journey_policies
note_journeys set [] m = m
note_journeys set (id ∷ ids) m =
    note_journeys set ids (note_policies id (journey_policies (tools_at id set)) m)

pub data SetError : Type 0 where
  conflicting_policies : (key first id : GoString) → SetError

abbrev pub zero_policy : EffectivePolicy
zero_policy = record { class = unclassified; approval = false }

abbrev pub or_zero : Option EffectivePolicy → EffectivePolicy
or_zero none = zero_policy
or_zero (some p) = p

-- One journey in the loop for a key; the result is the next `first`.
abbrev pub check_id :
    KeyPolicies → GoString → GoString → GoString → Option EffectivePolicy → Result SetError GoString
check_id m key first id none = ok first
check_id m key first id (some p) =
    if is_empty first
    then ok id
    else (fail_if (not (same_policy p (or_zero (policy_at key first m))))
          (conflicting_policies key first id)
        >> ok first)

unfoldable pub check_ids :
    KeyPolicies → GoString → GoString → List GoString → Result SetError (Unit {0})
check_ids m key first [] = ok tt
check_ids m key first (id ∷ ids) =
    check_id m key first id (policy_at key id m) >>= λ next. check_ids m key next ids

unfoldable pub check_keys : KeyPolicies → List GoString → List GoString → Result SetError (Unit {0})
unfolding check_ids
check_keys m ids [] = ok tt
check_keys m ids (key ∷ keys) = check_ids m key [] ids >> check_keys m ids keys

abbrev pub noted_in : JourneySet → KeyPolicies
noted_in set = note_journeys set (sort_strings (keys set)) []

-- checkPolicyConflicts
unfoldable pub check_policy_conflicts : JourneySet → Result SetError (Unit {0})
unfolding note_journeys check_keys
check_policy_conflicts set =
    check_keys (noted_in set) (sort_strings (keys set)) (sort_strings (keys (noted_in set)))
