-- ===== src/Catalog/Choosing.antt =====
-- internal/catalog/resolve.go (Resolve): what holds of every choice, by the selectors that chose it.
use native.Mathlib.Omega.{arith}
use az_agent_platform_go.Prelude.{
  ◌≡◌, refl, subst, Bool, true, false, not, ◌&&◌, List, [], ◌∷◌, GoString, str_eq, str_eq_iff,
  contains, contains-cons, if◌then◌else◌, All, All-append_one, All-update_rows, Bool-cases, inl,
  inr, anyb,
}
use az_agent_platform_go.Definitions.Tools.{Selector}
use az_agent_platform_go.Catalog.Descriptors.{has_all_tags}
use az_agent_platform_go.Catalog.Selecting.{
  Keyed, Chosen, Choices, no_selection, extend, extend_chosen, at_index, choose, has_ops, has_tags,
  candidates, hint_fits, Found, nothing, several, one, of_candidates, find_op, apply_found,
  select_ops, choose_tagged, select_tags,
}

-- The candidates of an alternative are keyed tools with its key.
candidates-All :
    (K : Keyed → Type 0) (keyed : List Keyed) (s : Selector) (op : GoString)
    → All K keyed
    → All (λ (k : Keyed). K k × (k.key ≡ op)) (candidates keyed s op)
candidates-All K [] s op a = tt
candidates-All K (k ∷ ks) s op a = elim (Bool-cases (str_eq k.key op)) [
  | inr e ↦ rw e (candidates-All K ks s op a.1)
  | inl e ↦ elim (Bool-cases (hint_fits s k)) [
    | inr h ↦ rw (e, h) (candidates-All K ks s op a.1)
    | inl h ↦ rw (e, h) ((a.0, (str_eq_iff k.key op).0 e), candidates-All K ks s op a.1)
  ]
]

find_op-one :
    (K : Keyed → Type 0) (keyed : List Keyed) (s : Selector) (ops : List GoString) (k : Keyed)
    → All K keyed
    → find_op keyed s ops ≡ one k
    → K k × (contains ops k.key ≡ true)
unfolding find_op
find_op-one K keyed s [] k a h = cc
find_op-one K keyed s (op ∷ ops) k a h =
    by_cases (candidates keyed s op) (candidates-All K keyed s op a) (find_op-one K keyed s ops k a)
      h
  where
    by_cases :
        (ks : List Keyed)
        → All (λ (k : Keyed). K k × (k.key ≡ op)) ks
        → (find_op keyed s ops ≡ one k → K k × (contains ops k.key ≡ true))
        → of_candidates op ks (find_op keyed s ops) ≡ one k
        → K k × (contains (op ∷ ops) k.key ≡ true)
    by_cases [] b later e =
        let rest = later e in (rest.0, ground (arith, contains-cons op ops k.key, rest.1))
    by_cases (l ∷ []) b later e =
        let same : l ≡ k = cc e in
        let there : K k × (k.key ≡ op) = subst (λ (m : Keyed). K m × (m.key ≡ op)) same b.0 in
        (there.0, ground (arith, contains-cons op ops k.key, str_eq_iff op k.key, there.1))
    by_cases (l ∷ m ∷ ms) b later e = cc

-- A property P of choices that holds of every first choice and that every further choice keeps. K
-- holds of the keyed tools, S of the selectors, R of a tool and a selector that chooses it.
module _ (P : Chosen → Type 0) (K : Keyed → Type 0) (S : Selector → Type 0)
    (R : Keyed → Selector → Type 0)
    (by_op : (k : Keyed) (s : Selector) → K k → S s → contains s.ops k.key ≡ true → R k s)
    (by_tag : (k : Keyed) (s : Selector) → K k → S s → has_ops s ≡ false → R k s)
    (first : (k : Keyed) (s : Selector)
      → R k s
      → P (record { keyed = k; selection = extend s no_selection }))
    (further : (k : Keyed) (s : Selector) (c : Chosen)
      → R k s
      → at_index k.index c ≡ true
      → P c
      → P (extend_chosen s c)) where
  choose-All :
      (k : Keyed) (s : Selector) (chosen : List Chosen)
      → R k s
      → All P chosen
      → All P (choose k s chosen)
  unfolding choose
  choose-All k s chosen r a = elim (Bool-cases (anyb (at_index k.index) chosen)) [
    | inl e ↦
        rw e
          (All-update_rows P (at_index k.index) (extend_chosen s) chosen (λ c. further k s c r) a)
    | inr e ↦ rw e (
        All-append_one P chosen (record { keyed = k; selection = extend s no_selection }) a
          (first k s r))
  ]

  apply_found-All :
      (s : Selector) (f : Found) (c : Choices)
      → ((k : Keyed) → f ≡ one k → R k s)
      → All P c.chosen
      → All P (apply_found s f c).chosen
  apply_found-All s nothing c r a = a
  apply_found-All s (several op) c r a = a
  apply_found-All s (one k) c r a = choose-All k s c.chosen (r k refl) a

  pub select_ops-All :
      (keyed : List Keyed) (ss : List Selector) (c : Choices)
      → All K keyed
      → All S ss
      → All P c.chosen
      → All P (select_ops keyed ss c).chosen
  unfolding select_ops
  select_ops-All keyed [] c ks sel a = a
  select_ops-All keyed (s ∷ ss) c ks sel a = select_ops-All keyed ss _ ks sel.1 (taken (has_ops s))
    where
      taken : (b : Bool) → All P (if b then apply_found s (find_op keyed s s.ops) c else c).chosen
      taken false = a
      taken true =
          apply_found-All s (find_op keyed s s.ops) c
            (λ k found. let f = find_op-one K keyed s s.ops k ks found in by_op k s f.0 sel.0 f.1) a

  choose_tagged-All :
      (s : Selector) (ks : List Keyed) (chosen : List Chosen)
      → S s
      → has_ops s ≡ false
      → All K ks
      → All P chosen
      → All P (choose_tagged s ks chosen)
  unfolding choose_tagged
  choose_tagged-All s [] chosen sel n k a = a
  choose_tagged-All s (k ∷ ks) chosen sel n all a =
      choose_tagged-All s ks _ sel n all.1 (taken (hint_fits s k && has_all_tags k.tool s.tags))
    where
      taken : (b : Bool) → All P (if b then choose k s chosen else chosen)
      taken true = choose-All k s chosen (by_tag k s all.0 sel n) a
      taken false = a

  pub select_tags-All :
      (keyed : List Keyed) (ss : List Selector) (chosen : List Chosen)
      → All K keyed
      → All S ss
      → All P chosen
      → All P (select_tags keyed ss chosen)
  unfolding select_tags
  select_tags-All keyed [] chosen ks sel a = a
  select_tags-All keyed (s ∷ ss) chosen ks sel a =
      select_tags-All keyed ss _ ks sel.1 (taken (has_ops s) refl (has_tags s))
    where
      taken :
          (b : Bool)
          → has_ops s ≡ b
          → (t : Bool) → All P (if not b && t then choose_tagged s keyed chosen else chosen)
      taken true e t = a
      taken false e true = choose_tagged-All s keyed chosen sel.0 e ks a
      taken false e false = a
