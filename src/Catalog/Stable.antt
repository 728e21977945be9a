-- ===== src/Catalog/Stable.antt =====
-- internal/catalog/resolve.go (CheckPolicies): resolutions whose tools agree stay as they are.
use native.Mathlib.Omega.{arith}
use az_agent_platform_go.Prelude.{
  ◌≡◌, ◌≤◌, refl, sym, subst, Bool, true, false, List, [], ◌∷◌, GoString, str_eq, str_eq_iff,
  length, if◌then◌else◌, All, lookup-nil,
}
use az_agent_platform_go.Catalog.Descriptors.{Tool, Resolution, is_available}
use az_agent_platform_go.Catalog.Policies.{
  Policy, policy_eq, policy_of, PolicyMap, policies_at, add_policy, note, note_tools, offered_tools,
  policies, several_at, conflict_of, conflicts, check_each, check_policies, key_name, alias_name,
}
use az_agent_platform_go.Catalog.Noted.{policy_eq_refl, policies_at-note}
use az_agent_platform_go.Catalog.Agreed.{Agrees, AllAgree, HasNames, check_policies-AllAgree}

-- Each of these policies is p, and there is at most one.
abbrev IsOnly : Policy → List Policy → Type 0
IsOnly p ps = (length ps ≤ 1) × All (λ (q : Policy). p ≡ q) ps

add_policy-same : (p : Policy) (ps : List Policy) → IsOnly p ps → IsOnly p (add_policy p ps)
add_policy-same p [] h = (omega arith, (refl, tt))
add_policy-same p (q ∷ []) h =
    let same : policy_eq p q ≡ true = subst (λ r. policy_eq p r ≡ true) h.1.0 (policy_eq_refl p) in
    rw same h
add_policy-same p (q ∷ r ∷ ps) h = let never : ⊥ = omega (arith, h.0) in elim never [ ]

-- The later tools of a name have the policy of the first.
abbrev AgreesBy : (Tool → GoString) → Tool → Tool → Type 0
AgreesBy name t u = name t ≡ name u → policy_of t ≡ policy_of u

abbrev AgreeInTurn : (Tool → GoString) → List Tool → Type 0
AgreeInTurn name [] = Unit
AgreeInTurn name (t ∷ ts) = All (AgreesBy name t) ts × AgreeInTurn name ts

abbrev IsFresh : (Tool → GoString) → PolicyMap → Tool → Type 0
IsFresh name m t = IsOnly (policy_of t) (policies_at (name t) m)

note-IsFresh :
    (name : Tool → GoString) (m : PolicyMap) (t : Tool) (us : List Tool)
    → IsFresh name m t
    → All (AgreesBy name t) us
    → All (IsFresh name m) us
    → All (IsFresh name (note (name t) (policy_of t) m)) us
note-IsFresh name m t [] f a b = tt
note-IsFresh name m t (u ∷ us) f a b = (
  subst (IsOnly (policy_of u)) (sym (policies_at-note (name t) (name u) (policy_of t) m))
      (split (str_eq (name t) (name u)) refl),
  note-IsFresh name m t us f a.1 b.1,
)
  where
    split :
        (c : Bool)
        → str_eq (name t) (name u) ≡ c
        → IsOnly (policy_of u) (
            if c then add_policy (policy_of t) (policies_at (name t) m) else policies_at (name u) m)
    split false e = b.0
    split true e =
        subst (λ p. IsOnly p (add_policy (policy_of t) (policies_at (name t) m)))
          (a.0 ((str_eq_iff (name t) (name u)).0 e))
          (add_policy-same (policy_of t) (policies_at (name t) m) f)

note-single :
    (name n : GoString) (p : Policy) (m : PolicyMap)
    → IsOnly p (policies_at name m)
    → length (policies_at n m) ≤ 1
    → length (policies_at n (note name p m)) ≤ 1
note-single name n p m f h =
    subst (λ ps. length ps ≤ 1) (sym (policies_at-note name n p m)) (split (str_eq name n))
  where
    split :
        (c : Bool) → length (if c then add_policy p (policies_at name m) else policies_at n m) ≤ 1
    split true = (add_policy-same p (policies_at name m) f).0
    split false = h

note_tools-single :
    (name : Tool → GoString) (ts : List Tool) (m : PolicyMap)
    → ((n : GoString) → length (policies_at n m) ≤ 1)
    → All (IsFresh name m) ts
    → AgreeInTurn name ts
    → (n : GoString) → length (policies_at n (note_tools name ts m)) ≤ 1
unfolding note_tools
note_tools-single name [] m h f a n = h n
note_tools-single name (t ∷ ts) m h f a n =
    note_tools-single name ts (note (name t) (policy_of t) m)
      (λ k. note-single (name t) k (policy_of t) m f.0 (h k)) (note-IsFresh name m t ts f.0 a.0 f.1)
      a.1 n

in_turn :
    (name : Tool → GoString) (ts : List Tool)
    → All (λ (t : Tool). All (AgreesBy name t) ts) ts
    → AgreeInTurn name ts
in_turn name [] a = tt
in_turn name (t ∷ ts) a = (a.0.1, in_turn name ts (tails ts a.1))
  where
    tails :
        (us : List Tool)
        → All (λ (u : Tool). All (AgreesBy name u) (t ∷ ts)) us
        → All (λ (u : Tool). All (AgreesBy name u) ts) us
    tails [] b = tt
    tails (u ∷ us) b = (b.0.1, tails us b.1)

policies-single :
    (name : Tool → GoString) (rs : List Resolution)
    → All (λ (t : Tool). All (AgreesBy name t) (offered_tools rs)) (offered_tools rs)
    → (n : GoString) → several_at n (policies name rs) ≡ false
policies-single name rs a n =
    let l =
      note_tools-single name (offered_tools rs) [] (λ k. rw (lookup-nil k) (omega arith))
        (start (offered_tools rs)) (in_turn name (offered_tools rs) a) n in
    ground (arith, l)
  where
    start : (ts : List Tool) → All (IsFresh name []) ts
    start [] = tt
    start (t ∷ ts) = (rw (lookup-nil (name t)) (omega arith, tt), start ts)

conflicts-none :
    (by_key by_alias : PolicyMap) (ts : List Tool)
    → ((n : GoString) → several_at n by_key ≡ false)
    → ((n : GoString) → several_at n by_alias ≡ false)
    → conflicts by_key by_alias [] ts ≡ []
unfolding conflicts conflict_of
conflicts-none by_key by_alias [] k a = refl
conflicts-none by_key by_alias (t ∷ ts) k a =
    rw (k t.operation_key, a t.alias) (conflicts-none by_key by_alias ts k a)

check_each-none :
    (by_key by_alias : PolicyMap) (rs : List Resolution)
    → ((n : GoString) → several_at n by_key ≡ false)
    → ((n : GoString) → several_at n by_alias ≡ false)
    → check_each by_key by_alias rs ≡ rs
unfolding check_each
check_each-none by_key by_alias [] k a = refl
check_each-none by_key by_alias (r ∷ rs) k a =
    rw (conflicts-none by_key by_alias r.tools k a, check_each-none by_key by_alias rs k a)
      (same (is_available r))
  where
    same : (b : Bool) → (if b then r else r) ∷ rs ≡ r ∷ rs
    same true = refl
    same false = refl

-- Where the tools of the available journeys agree, CheckPolicies leaves every resolution as it is.
pub check_policies-unchanged :
    (rs : List Resolution) → AllAgree (offered_tools rs) → check_policies rs ≡ rs
unfolding check_policies
check_policies-unchanged rs a =
    check_each-none (policies key_name rs) (policies alias_name rs) rs
      (policies-single key_name rs (by_key (offered_tools rs) a))
      (policies-single alias_name rs (by_alias (offered_tools rs) a))
  where
    left : (t : Tool) (us : List Tool) → All (Agrees t) us → All (AgreesBy key_name t) us
    left t [] b = tt
    left t (u ∷ us) b = (b.0.0, left t us b.1)

    right : (t : Tool) (us : List Tool) → All (Agrees t) us → All (AgreesBy alias_name t) us
    right t [] b = tt
    right t (u ∷ us) b = (b.0.1, right t us b.1)

    by_key :
        (us : List Tool)
        → All (λ (t : Tool). All (Agrees t) (offered_tools rs)) us
        → All (λ (t : Tool). All (AgreesBy key_name t) (offered_tools rs)) us
    by_key [] b = tt
    by_key (u ∷ us) b = (left u (offered_tools rs) b.0, by_key us b.1)

    by_alias :
        (us : List Tool)
        → All (λ (t : Tool). All (Agrees t) (offered_tools rs)) us
        → All (λ (t : Tool). All (AgreesBy alias_name t) (offered_tools rs)) us
    by_alias [] b = tt
    by_alias (u ∷ us) b = (right u (offered_tools rs) b.0, by_alias us b.1)

-- Checking the policies a second time changes nothing.
pub check_policies_idempotent :
    (rs : List Resolution)
    → All HasNames (offered_tools rs)
    → check_policies (check_policies rs) ≡ check_policies rs
check_policies_idempotent rs a =
    check_policies-unchanged (check_policies rs) (check_policies-AllAgree rs a)
