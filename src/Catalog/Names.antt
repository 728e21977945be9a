-- ===== src/Catalog/Names.antt =====
-- internal/catalog/resolve.go (Resolve): sorting the tools by alias keeps them.
use native.Mathlib.Omega.{arith}
use az_agent_platform_go.Prelude.{
  suc, ◌≡◌, refl, ap, ◌∙◌, false, ◌||◌, List, [], ◌∷◌, GoString, str_eq, str_eq_sym, str_le,
  contains, Distinct, length, All, Bool-cases, inl, inr,
}
use az_agent_platform_go.Catalog.Descriptors.{Tool}
use az_agent_platform_go.Catalog.Resolving.{insert_by_alias, sort_by_alias}

-- A name of each tool, such as its alias or its key.
module _ (name : Tool → GoString) where
  abbrev pub names : List Tool → List GoString
  names [] = []
  names (t ∷ ts) = name t ∷ names ts

  contains-insert_by_alias :
      (t : Tool) (ts : List Tool) (s : GoString)
      → contains (names (insert_by_alias t ts)) s ≡ (str_eq (name t) s || contains (names ts) s)
  unfolding insert_by_alias contains
  contains-insert_by_alias t [] s = refl
  contains-insert_by_alias t (u ∷ us) s = elim (Bool-cases (str_le t.alias u.alias)) [
    | inl e ↦ rw e refl
    | inr e ↦ rw e (ground (arith, contains-insert_by_alias t us s))
  ]

  contains-sort_by_alias :
      (ts : List Tool) (s : GoString)
      → contains (names (sort_by_alias ts)) s ≡ contains (names ts) s
  unfolding sort_by_alias contains
  contains-sort_by_alias [] s = refl
  contains-sort_by_alias (t ∷ ts) s =
      contains-insert_by_alias t (sort_by_alias ts) s
      ∙ ap (λ b. str_eq (name t) s || b) (contains-sort_by_alias ts s)

  Distinct-insert_by_alias :
      (t : Tool) (ts : List Tool)
      → Distinct (names ts)
      → contains (names ts) (name t) ≡ false
      → Distinct (names (insert_by_alias t ts))
  unfolding insert_by_alias contains
  Distinct-insert_by_alias t [] d h = (refl, tt)
  Distinct-insert_by_alias t (u ∷ us) d h = elim (Bool-cases (str_le t.alias u.alias)) [
    | inl e ↦ rw e (h, d)
    | inr e ↦ rw e (
      ground (arith, contains-insert_by_alias t us (name u), str_eq_sym (name t) (name u), h, d.0),
      Distinct-insert_by_alias t us d.1 (ground (arith, h)),
    )
  ]

  pub Distinct-sort_by_alias :
      (ts : List Tool) → Distinct (names ts) → Distinct (names (sort_by_alias ts))
  unfolding sort_by_alias
  Distinct-sort_by_alias [] d = tt
  Distinct-sort_by_alias (t ∷ ts) d =
      Distinct-insert_by_alias t (sort_by_alias ts) (Distinct-sort_by_alias ts d.1)
        (contains-sort_by_alias ts (name t) ∙ d.0)

length-insert_by_alias :
    (t : Tool) (ts : List Tool) → length (insert_by_alias t ts) ≡ suc (length ts)
unfolding insert_by_alias
length-insert_by_alias t [] = refl
length-insert_by_alias t (u ∷ us) = elim (Bool-cases (str_le t.alias u.alias)) [
  | inl e ↦ rw e refl
  | inr e ↦ rw e (ap (λ n. suc n) (length-insert_by_alias t us))
]

pub length-sort_by_alias : (ts : List Tool) → length (sort_by_alias ts) ≡ length ts
unfolding sort_by_alias
length-sort_by_alias [] = refl
length-sort_by_alias (t ∷ ts) =
    length-insert_by_alias t (sort_by_alias ts) ∙ ap (λ n. suc n) (length-sort_by_alias ts)

module _ {κ} (P : Tool → Type κ) where
  All-insert_by_alias : (t : Tool) (ts : List Tool) → P t → All P ts → All P (insert_by_alias t ts)
  unfolding insert_by_alias
  All-insert_by_alias t [] p a = (p, tt)
  All-insert_by_alias t (u ∷ us) p a = elim (Bool-cases (str_le t.alias u.alias)) [
    | inl e ↦ rw e (p, a)
    | inr e ↦ rw e (a.0, All-insert_by_alias t us p a.1)
  ]

  pub All-sort_by_alias : (ts : List Tool) → All P ts → All P (sort_by_alias ts)
  unfolding sort_by_alias
  All-sort_by_alias [] a = tt
  All-sort_by_alias (t ∷ ts) a =
      All-insert_by_alias t (sort_by_alias ts) a.0 (All-sort_by_alias ts a.1)
