-- ===== src/Definitions/PolicyExamples.antt =====
-- The policies of concrete journeys.
use az_agent_platform_go.Prelude.{
  ◌≡◌, refl, true, false, List, [], ◌∷◌, some, GoString, codes, ok, err, str_eq, contains, lookup,
  insert, keys, sort_strings,
}
use az_agent_platform_go.Definitions.Tools.{Class, Selector}
use az_agent_platform_go.Definitions.Policies.{
  EffectivePolicy, JourneySet, tools_at, journey_policies, note_policies, check_policy_conflicts,
  conflicting_policies,
}
use az_agent_platform_go.Definitions.OnePolicy.{check_policy_conflicts-one}

abbrev selector : List GoString → Class → Selector
selector ops class = record {
  ops = ops;
  tags = [];
  alias = codes "a";
  read_only_hint = false;
  class = class;
  approval_required = false;
}

abbrev get_key : GoString
get_key = codes "get"

abbrev agreeing : JourneySet
agreeing =
    (codes "b", selector (get_key ∷ codes "list" ∷ []) Class.read_only ∷ [])
    ∷ (
      codes "a",
      selector (get_key ∷ []) Class.read_only
          ∷ selector (codes "drop" ∷ []) Class.unclassified
          ∷ [],
    )
    ∷ []

abbrev differing : JourneySet
differing = (codes "c", selector (get_key ∷ []) Class.effectful ∷ []) ∷ agreeing

agree : check_policy_conflicts agreeing ≡ ok tt
unfolding check_policy_conflicts str_eq lookup insert journey_policies note_policies sort_strings
agree = refl

differ :
    check_policy_conflicts differing ≡ err (conflicting_policies get_key (codes "a") (codes "c"))
unfolding check_policy_conflicts str_eq lookup insert journey_policies note_policies sort_strings
differ = refl

abbrev read_policy : EffectivePolicy
read_policy = record { class = Class.read_only; approval = false }

get_in_a : lookup get_key (journey_policies (tools_at (codes "a") agreeing)) ≡ some read_policy
unfolding journey_policies lookup insert str_eq
get_in_a = refl

get_in_b : lookup get_key (journey_policies (tools_at (codes "b") agreeing)) ≡ some read_policy
unfolding journey_policies lookup insert str_eq
get_in_b = refl

no_empty_id : contains (keys agreeing) [] ≡ false
unfolding contains str_eq
no_empty_id = refl

has_a : contains (keys agreeing) (codes "a") ≡ true
unfolding contains str_eq
has_a = refl

has_b : contains (keys agreeing) (codes "b") ≡ true
unfolding contains str_eq
has_b = refl

check_policy_conflicts-one_example : read_policy ≡ read_policy
check_policy_conflicts-one_example =
    check_policy_conflicts-one agreeing (codes "a") (codes "b") get_key read_policy read_policy
      agree no_empty_id has_a has_b get_in_a get_in_b
