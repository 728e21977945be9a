-- ===== src/Catalog/Policies.antt =====
-- internal/catalog/resolve.go (CheckPolicies): resolutions that give one operation key or one alias
-- different policies.
use az_agent_platform_go.Prelude.{
  Bool, true, false, not, ◌&&◌, List, [], ◌∷◌, ◌++◌, Option, none, some, GoString, is_empty,
  contains, ltb, length, anyb, lookup, insert, sort_strings, if◌then◌else◌,
}
use az_agent_platform_go.Definitions.Tools.{Class, unclassified, read_only, idempotent, effectful}
use az_agent_platform_go.Catalog.Descriptors.{Tool, Resolution, Unavailable, Reason, is_available}

pub record Policy : Type 0 where
  pub class : Class
  pub approval : Bool

abbrev pub class_eq : Class → Class → Bool
class_eq unclassified unclassified = true
class_eq read_only read_only = true
class_eq idempotent idempotent = true
class_eq effectful effectful = true
class_eq _ _ = false

abbrev pub bool_eq : Bool → Bool → Bool
bool_eq true b = b
bool_eq false b = not b

abbrev pub policy_eq : Policy → Policy → Bool
policy_eq p q = class_eq p.class q.class && bool_eq p.approval q.approval

abbrev pub policy_of : Tool → Policy
policy_of t = record { class = t.class; approval = t.requires_approval }

-- keyPolicies and aliasPolicies: the different policies of each name.
abbrev pub PolicyMap : Type 0
PolicyMap = List (GoString × List Policy)

abbrev pub listed : Option (List Policy) → List Policy
listed none = []
listed (some ps) = ps

abbrev pub policies_at : GoString → PolicyMap → List Policy
policies_at name m = listed (lookup name m)

abbrev pub add_policy : Policy → List Policy → List Policy
add_policy p ps = if anyb (policy_eq p) ps then ps else ps ++ p ∷ []

-- note
unfoldable pub note : GoString → Policy → PolicyMap → PolicyMap
note name p m = insert name (add_policy p (policies_at name m)) m

abbrev pub key_name : Tool → GoString
key_name t = t.operation_key

abbrev pub alias_name : Tool → GoString
alias_name t = t.alias

unfoldable pub note_tools : (Tool → GoString) → List Tool → PolicyMap → PolicyMap
unfolding note
note_tools name [] m = m
note_tools name (t ∷ ts) m = note_tools name ts (note (name t) (policy_of t) m)

-- The tools of the available resolutions.
abbrev pub offered_tools : List Resolution → List Tool
offered_tools [] = []
offered_tools (r ∷ rs) =
    let rest = offered_tools rs in if is_available r then r.tools ++ rest else rest

abbrev pub policies : (Tool → GoString) → List Resolution → PolicyMap
policies name rs = note_tools name (offered_tools rs) []

abbrev pub several_at : GoString → PolicyMap → Bool
several_at name m = ltb 1 (length (policies_at name m))

-- The name a tool is in conflict under, or the empty string.
unfoldable pub conflict_of : PolicyMap → PolicyMap → Tool → GoString
conflict_of by_key by_alias t =
    if several_at t.operation_key by_key
    then t.operation_key
    else if several_at t.alias by_alias
    then t.alias
    else []

-- The loop over a resolution's tools; `found` is conflicts.
unfoldable pub conflicts : PolicyMap → PolicyMap → List GoString → List Tool → List GoString
unfolding conflict_of
conflicts by_key by_alias found [] = found
conflicts by_key by_alias found (t ∷ ts) =
    let name = conflict_of by_key by_alias t in
    conflicts by_key by_alias
      (if not (is_empty name) && not (contains found name) then found ++ name ∷ [] else found) ts

abbrev pub conflict_reports : List GoString → List Unavailable
conflict_reports [] = []
conflict_reports (n ∷ ns) =
    record { reason = Reason.policy_conflict; operation = n } ∷ conflict_reports ns

abbrev pub refuse : List GoString → Resolution → Resolution
refuse [] r = r
refuse (n ∷ ns) r = record {
  journey_id = r.journey_id;
  tools = [];
  unavailable = conflict_reports (sort_strings (n ∷ ns));
}

unfoldable pub check_each : PolicyMap → PolicyMap → List Resolution → List Resolution
unfolding conflicts
check_each by_key by_alias [] = []
check_each by_key by_alias (r ∷ rs) =
    (if is_available r then refuse (conflicts by_key by_alias [] r.tools) r else r)
    ∷ check_each by_key by_alias rs

-- CheckPolicies
unfoldable pub check_policies : List Resolution → List Resolution
unfolding note_tools check_each
check_policies rs = check_each (policies key_name rs) (policies alias_name rs) rs
