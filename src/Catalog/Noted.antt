-- ===== src/Catalog/Noted.antt =====
-- internal/catalog/resolve.go (CheckPolicies): the policies noted under a name.
use native.Mathlib.Omega.{arith}
use az_agent_platform_go.Prelude.{
  ◌≡◌, refl, sym, ap, subst, ◌∙◌, Bool, true, false, ◌||◌, List, [], ◌∷◌, ◌++◌, some, GoString,
  str_eq, str_eq_iff, str_eq_refl, length, if◌then◌else◌, All, Bool-cases, inl, inr, anyb, ltb,
  lookup, lookup-insert,
}
use az_agent_platform_go.Definitions.Tools.{Class, unclassified, read_only, idempotent, effectful}
use az_agent_platform_go.Catalog.Descriptors.{Tool}
use az_agent_platform_go.Catalog.Policies.{
  Policy, class_eq, bool_eq, policy_eq, policy_of, PolicyMap, policies_at, add_policy, note,
  note_tools, listed,
}

class_eq→eq : (a b : Class) → class_eq a b ≡ true → a ≡ b
class_eq→eq unclassified unclassified h = refl
class_eq→eq read_only read_only h = refl
class_eq→eq idempotent idempotent h = refl
class_eq→eq effectful effectful h = refl
class_eq→eq a b h = cc

class_eq_refl : (a : Class) → class_eq a a ≡ true
class_eq_refl unclassified = refl
class_eq_refl read_only = refl
class_eq_refl idempotent = refl
class_eq_refl effectful = refl

bool_eq→eq : (a b : Bool) → bool_eq a b ≡ true → a ≡ b
bool_eq→eq true b h = sym h
bool_eq→eq false true h = cc
bool_eq→eq false false h = refl

bool_eq_refl : (a : Bool) → bool_eq a a ≡ true
bool_eq_refl true = refl
bool_eq_refl false = refl

pub policy_eq→eq : (p q : Policy) → policy_eq p q ≡ true → p ≡ q
policy_eq→eq p q h =
    let c = class_eq→eq p.class q.class (ground (arith, h)) in
    let a = bool_eq→eq p.approval q.approval (ground (arith, h)) in
    λ i. record { class = c i; approval = a i }

pub policy_eq_refl : (p : Policy) → policy_eq p p ≡ true
policy_eq_refl p = ground (arith, class_eq_refl p.class, bool_eq_refl p.approval)

-- What a policy map holds after one more policy.
pub policies_at-note :
    (name sought : GoString) (p : Policy) (m : PolicyMap)
    → policies_at sought (note name p m)
      ≡ (if str_eq name sought then add_policy p (policies_at name m) else policies_at sought m)
unfolding note
policies_at-note name sought p m =
    ap listed (lookup-insert name sought (add_policy p (policies_at name m)) m)
    ∙ split (str_eq name sought)
  where
    split :
        (b : Bool)
        → listed (if b then some (add_policy p (policies_at name m)) else lookup sought m)
          ≡ (if b then add_policy p (policies_at name m) else policies_at sought m)
    split true = refl
    split false = refl

pub anyb-append_one :
    (test : Policy → Bool) (ps : List Policy) (p : Policy)
    → anyb test (ps ++ p ∷ []) ≡ (anyb test ps || test p)
anyb-append_one test [] p = ground arith
anyb-append_one test (q ∷ ps) p = ground (arith, anyb-append_one test ps p)

-- A policy of the list.
abbrev pub IsIn : Policy → List Policy → Type 0
IsIn p ps = anyb (policy_eq p) ps ≡ true

add_policy_self : (p : Policy) (ps : List Policy) → IsIn p (add_policy p ps)
add_policy_self p ps = elim (Bool-cases (anyb (policy_eq p) ps)) [
  | inl e ↦ rw e e
  | inr e ↦ rw e (ground (arith, anyb-append_one (policy_eq p) ps p, policy_eq_refl p))
]

add_policy-kept : (p q : Policy) (ps : List Policy) → IsIn q ps → IsIn q (add_policy p ps)
add_policy-kept p q ps h = elim (Bool-cases (anyb (policy_eq p) ps)) [
  | inl e ↦ rw e h
  | inr e ↦ rw e (ground (arith, anyb-append_one (policy_eq q) ps p, h))
]

note-kept :
    (name sought : GoString) (p q : Policy) (m : PolicyMap)
    → IsIn q (policies_at sought m)
    → IsIn q (policies_at sought (note name p m))
note-kept name sought p q m h =
    subst (IsIn q) (sym (policies_at-note name sought p m)) (split (str_eq name sought) refl)
  where
    split :
        (b : Bool)
        → str_eq name sought ≡ b
        → IsIn q (if b then add_policy p (policies_at name m) else policies_at sought m)
    split false e = h
    split true e =
        add_policy-kept p q (policies_at name m)
          (subst (λ n. IsIn q (policies_at n m)) (sym ((str_eq_iff name sought).0 e)) h)

note_tools-kept :
    (name : Tool → GoString) (ts : List Tool) (sought : GoString) (q : Policy) (m : PolicyMap)
    → IsIn q (policies_at sought m)
    → IsIn q (policies_at sought (note_tools name ts m))
unfolding note_tools
note_tools-kept name [] sought q m h = h
note_tools-kept name (t ∷ ts) sought q m h =
    note_tools-kept name ts sought q (note (name t) (policy_of t) m)
      (note-kept (name t) sought (policy_of t) q m h)

-- A tool's policy is among those noted under its name.
abbrev pub IsNoted : (Tool → GoString) → PolicyMap → Tool → Type 0
IsNoted name m t = IsIn (policy_of t) (policies_at (name t) m)

pub note_tools-IsNoted :
    (name : Tool → GoString) (ts : List Tool) (m : PolicyMap)
    → All (IsNoted name (note_tools name ts m)) ts
unfolding note_tools
note_tools-IsNoted name [] m = tt
note_tools-IsNoted name (t ∷ ts) m = (
  note_tools-kept name ts (name t) (policy_of t) (note (name t) (policy_of t) m) (
      subst (IsIn (policy_of t))
        (sym (
          policies_at-note (name t) (name t) (policy_of t) m
          ∙ same (add_policy (policy_of t) (policies_at (name t) m))))
        (add_policy_self (policy_of t) (policies_at (name t) m))),
  note_tools-IsNoted name ts (note (name t) (policy_of t) m),
)
  where
    same :
        (ps : List Policy) → (if str_eq (name t) (name t) then ps else policies_at (name t) m) ≡ ps
    same ps = rw (str_eq_refl (name t)) refl

pub one_policy :
    (p q : Policy) (ps : List Policy) → ltb 1 (length ps) ≡ false → IsIn p ps → IsIn q ps → p ≡ q
one_policy p q [] l h k = cc
one_policy p q (r ∷ []) l h k =
    policy_eq→eq p r (ground (arith, h)) ∙ sym (policy_eq→eq q r (ground (arith, k)))
one_policy p q (r ∷ s ∷ ps) l h k = let never : ⊥ = ground (arith, l) in elim never [ ]
