-- ===== src/Definitions/Conflicts.antt =====
-- internal/definitions/compile.go (checkPolicyConflicts): the policies noted for each key and journey.
use native.Mathlib.Omega.{arith}
use az_agent_platform_go.Prelude.{
  ◌≡◌, refl, sym, ap, ◌∙◌, Bool, true, false, ◌||◌, List, [], ◌∷◌, Option, none, some, GoString,
  str_eq, str_eq_iff, lookup, insert, lookup-insert, contains, if◌then◌else◌,
}
use az_agent_platform_go.Definitions.Tools.{Class, unclassified, read_only, idempotent, effectful}
use az_agent_platform_go.Definitions.Policies.{
  EffectivePolicy, same_class, same_flag, same_policy, journey_policies, JourneySet, tools_at,
  KeyPolicies, journeys_at, policy_at, note_policies, note_journeys,
}

same_class→eq : (a b : Class) → same_class a b ≡ true → a ≡ b
same_class→eq unclassified unclassified h = refl
same_class→eq read_only read_only h = refl
same_class→eq idempotent idempotent h = refl
same_class→eq effectful effectful h = refl
same_class→eq a b h = cc

same_flag→eq : (a b : Bool) → same_flag a b ≡ true → a ≡ b
same_flag→eq true b h = sym h
same_flag→eq false true h = cc
same_flag→eq false false h = refl

pub same_policy→eq : (p q : EffectivePolicy) → same_policy p q ≡ true → p ≡ q
same_policy→eq p q h =
    let c = same_class→eq p.class q.class (ground (arith, h)) in
    let a = same_flag→eq p.approval q.approval (ground (arith, h)) in
    λ i. record { class = c i; approval = a i }

abbrev pub or_else : Option EffectivePolicy → Option EffectivePolicy → Option EffectivePolicy
or_else none o = o
or_else (some p) o = some p

policy_at-insert :
    (k i key id : GoString) (p : EffectivePolicy) (m : KeyPolicies)
    → policy_at key id (insert k (insert i p (journeys_at (lookup k m))) m) ≡ (
        if str_eq k key
        then (if str_eq i id then some p else policy_at key id m)
        else policy_at key id m)
policy_at-insert k i key id p m =
    ap (λ o. lookup id (journeys_at o))
      (lookup-insert k key (insert i p (journeys_at (lookup k m))) m)
    ∙ by_key (str_eq k key) refl
  where
    by_key :
        (b : Bool)
        → str_eq k key ≡ b
        → lookup id
            (journeys_at (if b then some (insert i p (journeys_at (lookup k m))) else lookup key m))
          ≡ (if b then (if str_eq i id then some p else policy_at key id m) else policy_at key id m)
    by_key false e = refl
    by_key true e =
        lookup-insert i id p (journeys_at (lookup k m))
        ∙ ap (λ x. if str_eq i id then some p else policy_at x id m) ((str_eq_iff k key).0 e)

-- A journey's policies as they are noted.
policy_at-note_policies :
    (i key id : GoString) (ps : List (GoString × EffectivePolicy)) (m : KeyPolicies)
    → policy_at key id (note_policies i ps m)
      ≡ (if str_eq i id then or_else (lookup key ps) (policy_at key id m) else policy_at key id m)
unfolding note_policies lookup
policy_at-note_policies i key id [] m = by_id (str_eq i id)
  where
    by_id : (b : Bool) → policy_at key id m ≡ (if b then policy_at key id m else policy_at key id m)
    by_id true = refl
    by_id false = refl
policy_at-note_policies i key id ((k, p) ∷ ps) m =
    policy_at-insert k i key id p (note_policies i ps m)
    ∙ by_tests (str_eq k key) (str_eq i id) (policy_at-note_policies i key id ps m)
  where
    by_tests :
        (b c : Bool)
        → policy_at key id (note_policies i ps m)
          ≡ (if c then or_else (lookup key ps) (policy_at key id m) else policy_at key id m)
        → (if b
            then (if c then some p else policy_at key id (note_policies i ps m))
            else policy_at key id (note_policies i ps m))
          ≡ (if c
              then or_else (if b then some p else lookup key ps) (policy_at key id m)
              else policy_at key id m)
    by_tests true true e = refl
    by_tests true false e = e
    by_tests false true e = e
    by_tests false false e = e

-- The policy of a key in a journey that was noted is the journey's.
pub policy_at-note_journeys :
    (set : JourneySet) (ids : List GoString) (key id : GoString) (m : KeyPolicies)
    → policy_at key id (note_journeys set ids m) ≡ (
        if contains ids id
        then or_else (lookup key (journey_policies (tools_at id set))) (policy_at key id m)
        else policy_at key id m)
unfolding note_journeys contains
policy_at-note_journeys set [] key id m = refl
policy_at-note_journeys set (i ∷ ids) key id m =
    policy_at-note_journeys set ids key id (note_policies i (journey_policies (tools_at i set)) m)
    ∙ by_tests (str_eq i id) refl (contains ids id)
        (policy_at-note_policies i key id (journey_policies (tools_at i set)) m)
  where
    own : Option EffectivePolicy
    own = lookup key (journey_policies (tools_at id set))

    here : Option EffectivePolicy
    here = policy_at key id (note_policies i (journey_policies (tools_at i set)) m)

    twice : (o n : Option EffectivePolicy) → or_else o (or_else o n) ≡ or_else o n
    twice none n = refl
    twice (some p) n = refl

    by_tests :
        (b : Bool)
        → str_eq i id ≡ b
        → (c : Bool)
        → here ≡ (
            if b
            then or_else (lookup key (journey_policies (tools_at i set))) (policy_at key id m)
            else policy_at key id m)
        → (if c then or_else own here else here)
          ≡ (if b || c then or_else own (policy_at key id m) else policy_at key id m)
    by_tests false q true e = ap (or_else own) e
    by_tests false q false e = e
    by_tests true q c e =
        let same =
          e
          ∙ ap (λ x. or_else (lookup key (journey_policies (tools_at x set))) (policy_at key id m))
              ((str_eq_iff i id).0 q) in
        by_rest c same
      where
        by_rest :
            (c : Bool)
            → here ≡ or_else own (policy_at key id m)
            → (if c then or_else own here else here) ≡ or_else own (policy_at key id m)
        by_rest true s = ap (or_else own) s ∙ twice own (policy_at key id m)
        by_rest false s = s
