-- ===== src/Catalog/Agreed.antt =====
-- internal/catalog/resolve.go (CheckPolicies): the tools that stay available agree on their policies.
use az_agent_platform_go.Prelude.{
  ◌≡◌, ◌≢◌, refl, sym, subst, Bool, true, false, not, ◌&&◌, List, [], ◌∷◌, ◌++◌, GoString, contains,
  is_empty, if◌then◌else◌, All, Bool-cases, inl, inr,
}
use az_agent_platform_go.Catalog.Descriptors.{Tool, Resolution, is_available}
use az_agent_platform_go.Catalog.Policies.{
  policy_of, PolicyMap, policies_at, offered_tools, policies, several_at, conflict_of, conflicts,
  refuse, check_each, check_policies, key_name, alias_name,
}
use az_agent_platform_go.Catalog.Noted.{IsIn, IsNoted, note_tools-IsNoted, one_policy}

abbrev pub HasNames : Tool → Type 0
HasNames t = (is_empty t.operation_key ≡ false) × (is_empty t.alias ≡ false)

-- No name of the tool has two policies.
abbrev IsSettled : PolicyMap → PolicyMap → Tool → Type 0
IsSettled by_key by_alias t =
    (several_at t.operation_key by_key ≡ false) × (several_at t.alias by_alias ≡ false)

conflicts-grown :
    (by_key by_alias : PolicyMap) (n : GoString) (found : List GoString) (ts : List Tool)
    → conflicts by_key by_alias (n ∷ found) ts ≢ []
unfolding conflicts
conflicts-grown by_key by_alias n found [] h = cc
conflicts-grown by_key by_alias n found (t ∷ ts) h =
    split (conflicts-grown by_key by_alias n found ts)
      (conflicts-grown by_key by_alias n (found ++ conflict_of by_key by_alias t ∷ []) ts)
      (not (is_empty (conflict_of by_key by_alias t))
        && not (contains (n ∷ found) (conflict_of by_key by_alias t)))
      h
  where
    split :
        conflicts by_key by_alias (n ∷ found) ts ≢ []
        → conflicts by_key by_alias (n ∷ found ++ conflict_of by_key by_alias t ∷ []) ts ≢ []
        → (b : Bool)
        → conflicts by_key by_alias
            (if b then n ∷ found ++ conflict_of by_key by_alias t ∷ [] else n ∷ found)
            ts
          ≢ []
    split same more true = more
    split same more false = same

conflicts-nil :
    (by_key by_alias : PolicyMap) (ts : List Tool)
    → All HasNames ts
    → conflicts by_key by_alias [] ts ≡ []
    → All (IsSettled by_key by_alias) ts
unfolding conflicts conflict_of contains
conflicts-nil by_key by_alias [] a h = tt
conflicts-nil by_key by_alias (t ∷ ts) a h = elim (Bool-cases (several_at t.operation_key by_key)) [
  | inl k ↦ elim (conflicts-grown by_key by_alias t.operation_key [] ts (rw (k, a.0.0) at h)) [ ]
  | inr k ↦ elim (Bool-cases (several_at t.alias by_alias)) [
    | inl l ↦ elim (conflicts-grown by_key by_alias t.alias [] ts (rw (k, l, a.0.1) at h)) [ ]
    | inr l ↦ ((k, l), conflicts-nil by_key by_alias ts a.1 (rw (k, l) at h))
  ]
]

-- What is known of a tool that stays available.
abbrev IsKept : PolicyMap → PolicyMap → Tool → Type 0
IsKept by_key by_alias t =
    IsNoted key_name by_key t × IsNoted alias_name by_alias t × IsSettled by_key by_alias t

abbrev IsKnown : PolicyMap → PolicyMap → Tool → Type 0
IsKnown by_key by_alias t = HasNames t × IsNoted key_name by_key t × IsNoted alias_name by_alias t

module _ {κ} (P : Tool → Type κ) where
  pub All-append : (ts us : List Tool) → All P ts → All P us → All P (ts ++ us)
  All-append [] us a b = b
  All-append (t ∷ ts) us a b = (a.0, All-append ts us a.1 b)

  All-parts : (ts us : List Tool) → All P (ts ++ us) → All P ts × All P us
  All-parts [] us a = (tt, a)
  All-parts (t ∷ ts) us a = let rest = All-parts ts us a.1 in ((a.0, rest.0), rest.1)

  offered-cons :
      (r : Resolution) (rs : List Resolution)
      → is_available r ≡ true
      → All P r.tools
      → All P (offered_tools rs)
      → All P (offered_tools (r ∷ rs))
  offered-cons r rs e a b =
      subst (λ c. All P (if c then r.tools ++ offered_tools rs else offered_tools rs)) (sym e)
        (All-append r.tools (offered_tools rs) a b)

  pub offered-skip :
      (r : Resolution) (rs : List Resolution)
      → (is_available r ≡ true → All P r.tools)
      → All P (offered_tools rs)
      → All P (offered_tools (r ∷ rs))
  offered-skip r rs f b = elim (Bool-cases (is_available r)) [
    | inl e ↦ offered-cons r rs e (f e) b
    | inr e ↦
        subst (λ c. All P (if c then r.tools ++ offered_tools rs else offered_tools rs)) (sym e) b
  ]

  pub offered-parts :
      (r : Resolution) (rs : List Resolution)
      → All P (offered_tools (r ∷ rs))
      → (is_available r ≡ true → All P r.tools) × All P (offered_tools rs)
  offered-parts r rs a = parts (is_available r) a
    where
      parts :
          (b : Bool)
          → All P (if b then r.tools ++ offered_tools rs else offered_tools rs)
          → (b ≡ true → All P r.tools) × All P (offered_tools rs)
      parts true h = let p = All-parts r.tools (offered_tools rs) h in (λ e. p.0, p.1)
      parts false h = (λ e. cc, h)

IsKept-all :
    (by_key by_alias : PolicyMap) (ts : List Tool)
    → All (IsKnown by_key by_alias) ts
    → All (IsSettled by_key by_alias) ts
    → All (IsKept by_key by_alias) ts
IsKept-all by_key by_alias [] a b = tt
IsKept-all by_key by_alias (t ∷ ts) a b =
    ((a.0.1, a.0.2, b.0), IsKept-all by_key by_alias ts a.1 b.1)

named_tools :
    (by_key by_alias : PolicyMap) (ts : List Tool)
    → All (IsKnown by_key by_alias) ts
    → All HasNames ts
named_tools by_key by_alias [] a = tt
named_tools by_key by_alias (t ∷ ts) a = (a.0.0, named_tools by_key by_alias ts a.1)

check_each-IsKept :
    (by_key by_alias : PolicyMap) (rs : List Resolution)
    → All (IsKnown by_key by_alias) (offered_tools rs)
    → All (IsKept by_key by_alias) (offered_tools (check_each by_key by_alias rs))
unfolding check_each
check_each-IsKept by_key by_alias [] a = tt
check_each-IsKept by_key by_alias (r ∷ rs) a =
    let parts = offered-parts (IsKnown by_key by_alias) r rs a in
    checked parts.0 (check_each-IsKept by_key by_alias rs parts.1) (is_available r) refl
  where
    rest : List Resolution
    rest = check_each by_key by_alias rs

    refused :
        All (IsKnown by_key by_alias) r.tools
        → All (IsKept by_key by_alias) (offered_tools rest)
        → (ns : List GoString) → conflicts by_key by_alias [] r.tools ≡ ns
        → All (IsKept by_key by_alias) (offered_tools (refuse ns r ∷ rest))
    refused known b [] e =
        offered-skip (IsKept by_key by_alias) r rest
          (λ v.
            IsKept-all by_key by_alias r.tools known
              (conflicts-nil by_key by_alias r.tools (named_tools by_key by_alias r.tools known) e))
          b
    refused known b (n ∷ ns) e =
        offered-skip (IsKept by_key by_alias) (refuse (n ∷ ns) r) rest (λ v. tt) b

    checked :
        (is_available r ≡ true → All (IsKnown by_key by_alias) r.tools)
        → All (IsKept by_key by_alias) (offered_tools rest)
        → (b : Bool) → is_available r ≡ b
        → All (IsKept by_key by_alias) (
            offered_tools
              ((if b then refuse (conflicts by_key by_alias [] r.tools) r else r) ∷ rest))
    checked f b true e = refused (f e) b (conflicts by_key by_alias [] r.tools) refl
    checked f b false e = offered-skip (IsKept by_key by_alias) r rest (λ v. cc) b

-- Tools of one key or of one alias have one policy.
abbrev pub Agrees : Tool → Tool → Type 0
Agrees t u =
    (t.operation_key ≡ u.operation_key → policy_of t ≡ policy_of u)
    × (t.alias ≡ u.alias → policy_of t ≡ policy_of u)

abbrev pub AllAgree : List Tool → Type 0
AllAgree ts = All (λ (t : Tool). All (Agrees t) ts) ts

kept-Agrees :
    (by_key by_alias : PolicyMap) (t u : Tool)
    → IsKept by_key by_alias t
    → IsKept by_key by_alias u
    → Agrees t u
kept-Agrees by_key by_alias t u a b = (
  λ e.
      one_policy (policy_of t) (policy_of u) (policies_at t.operation_key by_key) a.2.0 a.0
        (subst (λ n. IsIn (policy_of u) (policies_at n by_key)) (sym e) b.0),
  λ e.
      one_policy (policy_of t) (policy_of u) (policies_at t.alias by_alias) a.2.1 a.1
        (subst (λ n. IsIn (policy_of u) (policies_at n by_alias)) (sym e) b.1),
)

kept-AllAgree :
    (by_key by_alias : PolicyMap) (ts : List Tool) → All (IsKept by_key by_alias) ts → AllAgree ts
kept-AllAgree by_key by_alias ts a = each ts a
  where
    all_with :
        (t : Tool)
        → IsKept by_key by_alias t
        → (us : List Tool) → All (IsKept by_key by_alias) us
        → All (Agrees t) us
    all_with t k [] b = tt
    all_with t k (u ∷ us) b = (kept-Agrees by_key by_alias t u k b.0, all_with t k us b.1)

    each :
        (us : List Tool)
        → All (IsKept by_key by_alias) us
        → All (λ (t : Tool). All (Agrees t) ts) us
    each [] b = tt
    each (u ∷ us) b = (all_with u b.0 ts a, each us b.1)

known :
    (rs : List Resolution) (ts : List Tool)
    → All HasNames ts
    → All (IsNoted key_name (policies key_name rs)) ts
    → All (IsNoted alias_name (policies alias_name rs)) ts
    → All (IsKnown (policies key_name rs) (policies alias_name rs)) ts
known rs [] a b c = tt
known rs (t ∷ ts) a b c = ((a.0, b.0, c.0), known rs ts a.1 b.1 c.1)

-- After CheckPolicies, any two tools of available journeys with one operation key or with one alias
-- have the same class and the same approval. The tools checked have a key and an alias.
pub check_policies-AllAgree :
    (rs : List Resolution)
    → All HasNames (offered_tools rs)
    → AllAgree (offered_tools (check_policies rs))
unfolding check_policies
check_policies-AllAgree rs a =
    kept-AllAgree (policies key_name rs) (policies alias_name rs)
      (offered_tools (check_policies rs))
      (check_each-IsKept (policies key_name rs) (policies alias_name rs) rs (
        known rs (offered_tools rs) a (note_tools-IsNoted key_name (offered_tools rs) [])
          (note_tools-IsNoted alias_name (offered_tools rs) [])))
