-- ===== src/Catalog/Aliased.antt =====
-- internal/catalog/resolve.go (Resolve): the aliases of choices that nothing is reported about.
use native.Mathlib.Omega.{arith}
use az_agent_platform_go.Prelude.{
  ◌≡◌, ◌≢◌, refl, sym, ap, ◌∙◌, true, false, List, [], ◌∷◌, Option, none, some, GoString, str_eq,
  str_eq_sym, str_eq_iff, str_eq_refl, contains, contains-cons, contains-nil, Distinct,
  if◌then◌else◌, All, Bool-cases, inl, inr, lookup, insert, lookup-insert,
}
use az_agent_platform_go.Definitions.Aliases.{valid_alias, is_reserved}
use az_agent_platform_go.Definitions.Selected.{IsToolName}
use az_agent_platform_go.Catalog.Selecting.{Chosen}
use az_agent_platform_go.Catalog.Resolving.{alias_of, owned_by_other, alias_reports}
use az_agent_platform_go.Catalog.Groups.{keys_in}

abbrev pub aliases_in : List Chosen → List GoString
aliases_in [] = []
aliases_in (c ∷ cs) = alias_of c ∷ aliases_in cs

-- No alias is owned by the key of one of these choices.
abbrev pub IsForeign : List (GoString × GoString) → List Chosen → Type 0
IsForeign owners cs = All (λ (c : Chosen). (a : GoString) → lookup a owners ≢ some c.keyed.key) cs

-- These choices have free aliases, all different, all names of tools.
abbrev pub IsNamed : List (GoString × GoString) → List Chosen → Type 0
IsNamed owners cs =
    Distinct (aliases_in cs)
    × All IsToolName (aliases_in cs)
    × All (λ (c : Chosen). lookup (alias_of c) owners ≡ none) cs

IsForeign-insert :
    (owners : List (GoString × GoString)) (alias key : GoString) (cs : List Chosen)
    → contains (keys_in cs) key ≡ false
    → IsForeign owners cs
    → IsForeign (insert alias key owners) cs
IsForeign-insert owners alias key [] h f = tt
IsForeign-insert owners alias key (c ∷ cs) h f =
    let apart : (str_eq c.keyed.key key ≡ false) × (contains (keys_in cs) key ≡ false) =
      ground (arith, h, contains-cons c.keyed.key (keys_in cs) key) in
    (
      λ a e. differ a apart.0 (sym (lookup-insert alias a key owners) ∙ e),
      IsForeign-insert owners alias key cs apart.1 f.1,
    )
  where
    differ :
        (a : GoString)
        → str_eq c.keyed.key key ≡ false
        → (if str_eq alias a then some key else lookup a owners) ≢ some c.keyed.key
    differ a n e = elim (Bool-cases (str_eq alias a)) [
      | inl t ↦
          let same : some key ≡ some c.keyed.key = rw t at e in
          ground (arith, same, n, str_eq_refl key)
      | inr t ↦ f.0 a (rw t at e)
    ]

-- The choices that come after c have other aliases, free before c took its own.
freed :
    (owners : List (GoString × GoString)) (alias key : GoString) (cs : List Chosen)
    → All (λ (c : Chosen). lookup (alias_of c) (insert alias key owners) ≡ none) cs
    → (contains (aliases_in cs) alias ≡ false)
      × All (λ (c : Chosen). lookup (alias_of c) owners ≡ none) cs
freed owners alias key [] a = (contains-nil alias, tt)
freed owners alias key (c ∷ cs) a =
    let rest = freed owners alias key cs a.1 in
    let here = sym (lookup-insert alias (alias_of c) key owners) ∙ a.0 in
    let both : (str_eq alias (alias_of c) ≡ false) × (lookup (alias_of c) owners ≡ none) =
      elim (Bool-cases (str_eq alias (alias_of c))) [
        | inl t ↦ cc (rw t at here)
        | inr t ↦ (t, rw t at here)
      ] in
    (
      ground (
        arith,
        contains-cons (alias_of c) (aliases_in cs) alias,
        both.0,
        rest.0,
        str_eq_sym alias (alias_of c),
      ),
      (both.1, rest.1),
    )

not_owned :
    (o : Option GoString) (key : GoString) → owned_by_other o key ≡ false → o ≢ some key → o ≡ none
not_owned none key h n = refl
not_owned (some owner) key h n =
    let same : str_eq owner key ≡ true = ground (arith, h) in
    elim (n (ap (λ s. some s) ((str_eq_iff owner key).0 same))) [ ]

-- Where nothing is reported, aliases of choices with different keys are different tool names.
pub alias_reports-nil :
    (owners : List (GoString × GoString)) (cs : List Chosen)
    → Distinct (keys_in cs)
    → IsForeign owners cs
    → alias_reports owners cs ≡ []
    → IsNamed owners cs
unfolding alias_reports
alias_reports-nil owners [] d f h = (tt, tt, tt)
alias_reports-nil owners (c ∷ cs) d f h = elim (Bool-cases (valid_alias (alias_of c))) [
  | inr v ↦ let never : ⊥ = cc (rw v at h) in elim never [ ]
  | inl v ↦ elim (Bool-cases (is_reserved (alias_of c))) [
    | inl r ↦ let never : ⊥ = cc (rw (v, r) at h) in elim never [ ]
    | inr r ↦ elim (Bool-cases (owned_by_other (lookup (alias_of c) owners) c.keyed.key)) [
      | inl o ↦ let never : ⊥ = cc (rw (v, r, o) at h) in elim never [ ]
      | inr o ↦
          let rest =
            alias_reports-nil (insert (alias_of c) c.keyed.key owners) cs d.1
              (IsForeign-insert owners (alias_of c) c.keyed.key cs d.0 f.1) (rw (v, r, o) at h) in
          let free = freed owners (alias_of c) c.keyed.key cs rest.2 in
          (
            (free.0, rest.0),
            ((v, r), rest.1),
            (not_owned (lookup (alias_of c) owners) c.keyed.key o (f.0 (alias_of c)), free.1),
          )
    ]
  ]
]
