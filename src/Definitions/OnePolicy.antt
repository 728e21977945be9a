-- ===== src/Definitions/OnePolicy.antt =====
-- internal/definitions/compile.go (checkPolicyConflicts): a set that passes has one policy for each key.
use native.Mathlib.Omega.{arith}
use az_agent_platform_go.Prelude.{
  ◌≡◌, refl, sym, ap, subst, ◌∙◌, Bool, true, false, not, ◌||◌, List, [], ◌∷◌, Option, none, some,
  GoString, str_eq, str_eq_iff, str_eq_refl, is_empty, lookup, lookup-nil, lookup-keys, keys,
  contains, sort_strings, contains-sort_strings, ok, fail_if, bind_ok, check_ok, not_failed,
  ok-injective, if◌then◌else◌, Bool-cases, inl, inr,
}
use az_agent_platform_go.Definitions.Policies.{
  EffectivePolicy, same_policy, journey_policies, JourneySet, tools_at, KeyPolicies, journeys_at,
  policy_at, conflicting_policies, or_zero, check_id, check_ids, check_keys, noted_in,
  check_policy_conflicts,
}
use az_agent_platform_go.Definitions.Conflicts.{same_policy→eq, policy_at-note_journeys, or_else}

-- A journey after the first with a key has the first's policy.
check_id-first :
    (m : KeyPolicies) (key first i next : GoString) (r : EffectivePolicy)
    (o : Option EffectivePolicy)
    → is_empty first ≡ false
    → policy_at key first m ≡ some r
    → check_id m key first i o ≡ ok next
    → (next ≡ first) × ((s : EffectivePolicy) → o ≡ some s → s ≡ r)
check_id-first m key first i next r none n f k = (sym (ok-injective k), λ s e. cc)
check_id-first m key first i next r (some t) n f k =
    let check =
      fail_if (not (same_policy t (or_zero (policy_at key first m))))
        (conflicting_policies key first i) in
    let two = check_ok check (ok first) (rw n at k) in
    let same =
      not_failed (not (same_policy t (or_zero (policy_at key first m))))
        (conflicting_policies key first i) two.0 in
    let eq : t ≡ r =
      same_policy→eq t r (subst (λ o. same_policy t (or_zero o) ≡ true) f (ground (arith, same))) in
    (sym (ok-injective two.1), λ s e. cc (e, eq))

-- The journeys after the first with a key have its policy.
check_ids-first :
    (m : KeyPolicies) (key first : GoString) (ids : List GoString) (r : EffectivePolicy)
    → is_empty first ≡ false
    → policy_at key first m ≡ some r
    → check_ids m key first ids ≡ ok tt
    → (id : GoString) (p : EffectivePolicy) → contains ids id ≡ true
    → policy_at key id m ≡ some p
    → p ≡ r
unfolding check_ids contains
check_ids-first m key first [] r n f h id p c e = cc
check_ids-first m key first (i ∷ ids) r n f h id p c e =
    let b =
      bind_ok (check_id m key first i (policy_at key i m))
        (λ (next : GoString). check_ids m key next ids) h in
    let step = check_id-first m key first i b.0 r (policy_at key i m) n f b.1 in
    elim (Bool-cases (str_eq i id)) [
      | inl t ↦ step.1 p (ap (λ x. policy_at key x m) ((str_eq_iff i id).0 t) ∙ e)
      | inr t ↦
          check_ids-first m key first ids r n f
            (subst (λ x. check_ids m key x ids ≡ ok tt) step.0 b.2) id p (ground (arith, t, c)) e
    ]

-- Journeys that pass the check of a key have one policy for it.
check_ids-one :
    (m : KeyPolicies) (key : GoString) (ids : List GoString)
    → contains ids [] ≡ false
    → check_ids m key [] ids ≡ ok tt
    → (a b : GoString) (p q : EffectivePolicy) → contains ids a ≡ true
    → contains ids b ≡ true
    → policy_at key a m ≡ some p
    → policy_at key b m ≡ some q
    → p ≡ q
unfolding check_ids contains
check_ids-one m key [] n h a b p q c d e f = cc
check_ids-one m key (i ∷ ids) n h a b p q c d e f =
    let t =
      bind_ok (check_id m key [] i (policy_at key i m))
        (λ (next : GoString). check_ids m key next ids) h in
    by_policy (policy_at key i m) refl t.0 t.1 t.2
      (λ rest x y. check_ids-one m key ids (ground (arith, n)) rest a b p q x y e f)
  where
    is_named : is_empty i ≡ false
    is_named = named i (left (str_eq i []) (contains ids []) n)
      where
        left : (x y : Bool) → (x || y) ≡ false → x ≡ false
        left x y k = ground (arith, k)

        named : (s : GoString) → str_eq s [] ≡ false → is_empty s ≡ false
        named [] k = cc (str_eq_refl [], k)
        named (x ∷ xs) k = refl

    by_policy :
        (o : Option EffectivePolicy)
        → policy_at key i m ≡ o
        → (next : GoString) → check_id m key [] i o ≡ ok next
        → check_ids m key next ids ≡ ok tt
        → (check_ids m key [] ids ≡ ok tt → contains ids a ≡ true → contains ids b ≡ true → p ≡ q)
        → p ≡ q
    by_policy none z next k rest later =
        later (subst (λ x. check_ids m key x ids ≡ ok tt) (sym (ok-injective k)) rest)
          (absent a p c e) (absent b q d f)
      where
        absent :
            (x : GoString) (s : EffectivePolicy)
            → (str_eq i x || contains ids x) ≡ true
            → policy_at key x m ≡ some s
            → contains ids x ≡ true
        absent x s w v = elim (Bool-cases (str_eq i x)) [
          | inl t ↦ cc (ap (λ y. policy_at key y m) ((str_eq_iff i x).0 t), z, v)
          | inr t ↦ ground (arith, t, w)
        ]
    by_policy (some r) z next k rest later = same a p c e ∙ sym (same b q d f)
      where
        same :
            (x : GoString) (s : EffectivePolicy)
            → (str_eq i x || contains ids x) ≡ true
            → policy_at key x m ≡ some s
            → s ≡ r
        same x s w v = elim (Bool-cases (str_eq i x)) [
          | inl t ↦ cc (ap (λ y. policy_at key y m) ((str_eq_iff i x).0 t), z, v)
          | inr t ↦
              check_ids-first m key i ids r is_named z
                (subst (λ y. check_ids m key y ids ≡ ok tt) (sym (ok-injective k)) rest) x s
                (ground (arith, t, w)) v
        ]

check_keys-ids :
    (m : KeyPolicies) (ids ks : List GoString) (key : GoString)
    → check_keys m ids ks ≡ ok tt
    → contains ks key ≡ true
    → check_ids m key [] ids ≡ ok tt
unfolding check_keys contains
check_keys-ids m ids [] key h c = cc
check_keys-ids m ids (k ∷ ks) key h c =
    let t = check_ok (check_ids m k [] ids) (check_keys m ids ks) h in
    elim (Bool-cases (str_eq k key)) [
      | inl e ↦ subst (λ x. check_ids m x [] ids ≡ ok tt) ((str_eq_iff k key).0 e) t.0
      | inr e ↦ check_keys-ids m ids ks key t.1 (ground (arith, e, c))
    ]

-- A key with a policy in some journey is checked.
key_is_noted :
    (m : KeyPolicies) (key id : GoString) (p : EffectivePolicy)
    → policy_at key id m ≡ some p
    → contains (keys m) key ≡ true
key_is_noted m key id p e = elim (Bool-cases (contains (keys m) key)) [
  | inl t ↦ t
  | inr t ↦ cc (
    ap (λ o. lookup id (journeys_at o)) (lookup-keys key m t),
    lookup-nil {V = EffectivePolicy} id,
    e,
  )
]

-- In a set that passes checkPolicyConflicts, any two journeys with an operation key among their op
-- selectors give it the same class and the same approval. The ids of the journeys are not empty.
pub check_policy_conflicts-one :
    (set : JourneySet) (a b key : GoString) (p q : EffectivePolicy)
    → check_policy_conflicts set ≡ ok tt
    → contains (keys set) [] ≡ false
    → contains (keys set) a ≡ true
    → contains (keys set) b ≡ true
    → lookup key (journey_policies (tools_at a set)) ≡ some p
    → lookup key (journey_policies (tools_at b set)) ≡ some q
    → p ≡ q
unfolding check_policy_conflicts
check_policy_conflicts-one set a b key p q h n c d e f =
    let first = noted_at a p (ids_have a c) e in
    check_ids-one (noted_in set) key ids (contains-sort_strings (keys set) [] ∙ n)
      (check_keys-ids (noted_in set) ids (sort_strings (keys (noted_in set))) key h (
        contains-sort_strings (keys (noted_in set)) key
        ∙ key_is_noted (noted_in set) key a p first))
      a b p q (ids_have a c) (ids_have b d) first (noted_at b q (ids_have b d) f)
  where
    ids : List GoString
    ids = sort_strings (keys set)

    ids_have : (x : GoString) → contains (keys set) x ≡ true → contains ids x ≡ true
    ids_have x w = contains-sort_strings (keys set) x ∙ w

    noted_at :
        (x : GoString) (s : EffectivePolicy)
        → contains ids x ≡ true
        → lookup key (journey_policies (tools_at x set)) ≡ some s
        → policy_at key x (noted_in set) ≡ some s
    noted_at x s w v =
        policy_at-note_journeys set ids key x []
        ∙ ap
            (λ t.
              if t
              then or_else (lookup key (journey_policies (tools_at x set))) (policy_at key x [])
              else policy_at key x [])
            w
        ∙ ap (λ o. or_else o (policy_at key x [])) v
