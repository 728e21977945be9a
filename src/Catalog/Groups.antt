-- ===== src/Catalog/Groups.antt =====
-- internal/catalog/resolve.go (Resolve): the choices grouped by key, where no key is ambiguous.
use native.Mathlib.Omega.{arith}
use az_agent_platform_go.Prelude.{
  ◌≡◌, ◌≢◌, ◌≤◌, refl, ap, ◌∙◌, Bool, false, List, [], ◌∷◌, ◌++◌, GoString, str_eq, str_eq_iff,
  contains, contains-cons, contains-nil, Distinct, length, length-append, All, Bool-cases, inl, inr,
  ltb, anyb, filterb, leb,
}
use az_agent_platform_go.Catalog.Descriptors.{Unavailable}
use az_agent_platform_go.Catalog.Selecting.{Chosen}
use az_agent_platform_go.Catalog.Resolving.{
  chosen_keys, has_key, insert_by_index, sort_by_index, tools_of, ambiguous_keys, in_order,
  add_reports, is_report,
}

abbrev pub keys_in : List Chosen → List GoString
keys_in [] = []
keys_in (c ∷ cs) = c.keyed.key ∷ keys_in cs

-- Nothing that is reported is forgotten.
reported :
    (u : Unavailable) (kept us : List Unavailable)
    → ◌≢◌ {A = List Unavailable} (add_reports (u ∷ kept) us) []
unfolding add_reports
reported u kept [] h = cc
reported u kept (v ∷ vs) h = elim (Bool-cases (anyb (is_report v) (u ∷ kept))) [
  | inl e ↦ reported u kept vs (rw e at h)
  | inr e ↦ reported u (kept ++ v ∷ []) vs (rw e at h)
]

pub add_reports-nil : (us : List Unavailable) → add_reports [] us ≡ [] → us ≡ []
unfolding add_reports
add_reports-nil [] h = refl
add_reports-nil (u ∷ us) h = elim (reported u [] us h) [ ]

pub append_is_nil {ℓ} : {A : Type ℓ} (xs ys : List A) → xs ++ ys ≡ [] → (xs ≡ []) × (ys ≡ [])
append_is_nil [] ys h = (refl, h)
append_is_nil (x ∷ xs) ys h = cc

module _ {κ} (P : Chosen → Type κ) where
  All-insert_by_index :
      (c : Chosen) (cs : List Chosen) → P c → All P cs → All P (insert_by_index c cs)
  All-insert_by_index c [] p a = (p, tt)
  All-insert_by_index c (d ∷ ds) p a = elim (Bool-cases (leb c.keyed.index d.keyed.index)) [
    | inl e ↦ rw e (p, a)
    | inr e ↦ rw e (a.0, All-insert_by_index c ds p a.1)
  ]

  All-sort_by_index : (cs : List Chosen) → All P cs → All P (sort_by_index cs)
  All-sort_by_index [] a = tt
  All-sort_by_index (c ∷ cs) a =
      All-insert_by_index c (sort_by_index cs) a.0 (All-sort_by_index cs a.1)

  All-filterb : (p : Chosen → Bool) (cs : List Chosen) → All P cs → All P (filterb p cs)
  All-filterb p [] a = tt
  All-filterb p (c ∷ cs) a = elim (Bool-cases (p c)) [
    | inl e ↦ rw e (a.0, All-filterb p cs a.1)
    | inr e ↦ rw e (All-filterb p cs a.1)
  ]

  All-append : (cs ds : List Chosen) → All P cs → All P ds → All P (cs ++ ds)
  All-append [] ds a b = b
  All-append (c ∷ cs) ds a b = (a.0, All-append cs ds a.1 b)

  pub All-in_order :
      (chosen : List Chosen) (keys : List GoString) → All P chosen → All P (in_order chosen keys)
  unfolding in_order tools_of
  All-in_order chosen [] a = tt
  All-in_order chosen (key ∷ keys) a =
      All-append (tools_of chosen key) (in_order chosen keys)
        (All-sort_by_index (filterb (has_key key) chosen) (All-filterb (has_key key) chosen a))
        (All-in_order chosen keys a)

filterb-has_key :
    (key : GoString) (cs : List Chosen)
    → All (λ (c : Chosen). c.keyed.key ≡ key) (filterb (has_key key) cs)
filterb-has_key key [] = tt
filterb-has_key key (c ∷ cs) = elim (Bool-cases (has_key key c)) [
  | inl e ↦ rw e ((str_eq_iff c.keyed.key key).0 e, filterb-has_key key cs)
  | inr e ↦ rw e (filterb-has_key key cs)
]

-- The tools of one key have that key.
tools_of-has_key :
    (chosen : List Chosen) (key : GoString)
    → All (λ (c : Chosen). c.keyed.key ≡ key) (tools_of chosen key)
unfolding tools_of
tools_of-has_key chosen key =
    All-sort_by_index (λ c. c.keyed.key ≡ key) (filterb (has_key key) chosen)
      (filterb-has_key key chosen)

-- No key has two tools.
abbrev pub IsSingle : List Chosen → GoString → Type 0
IsSingle chosen key = length (tools_of chosen key) ≤ 1

pub ambiguous_keys-nil :
    (chosen : List Chosen) (keys : List GoString)
    → ambiguous_keys chosen keys ≡ []
    → All (IsSingle chosen) keys
unfolding ambiguous_keys
ambiguous_keys-nil chosen [] h = tt
ambiguous_keys-nil chosen (key ∷ keys) h =
    elim (Bool-cases (ltb 1 (length (tools_of chosen key)))) [
      | inl e ↦ let never : ⊥ = cc (rw e at h) in elim never [ ]
      | inr e ↦ (ground (arith, e), ambiguous_keys-nil chosen keys (rw e at h))
    ]

-- A list of at most one choice, of a key, before choices of other keys.
Distinct-group :
    (group rest : List Chosen) (key : GoString)
    → length group ≤ 1
    → All (λ (c : Chosen). c.keyed.key ≡ key) group
    → Distinct (keys_in rest)
    → contains (keys_in rest) key ≡ false
    → Distinct (keys_in (group ++ rest))
Distinct-group [] rest key l a d h = d
Distinct-group (c ∷ []) rest key l a d h = (ap (contains (keys_in rest)) a.0 ∙ h, d)
Distinct-group (c ∷ e ∷ cs) rest key l a d h = let never : ⊥ = omega (arith, l) in elim never [ ]

contains-group :
    (group rest : List Chosen) (key s : GoString)
    → All (λ (c : Chosen). c.keyed.key ≡ key) group
    → str_eq key s ≡ false
    → contains (keys_in rest) s ≡ false
    → contains (keys_in (group ++ rest)) s ≡ false
contains-group [] rest key s a n h = h
contains-group (c ∷ cs) rest key s a n h =
    rw (contains-cons, a.0, n) (contains-group cs rest key s a.1 n h)

contains-in_order :
    (chosen : List Chosen) (keys : List GoString) (s : GoString)
    → contains keys s ≡ false
    → contains (keys_in (in_order chosen keys)) s ≡ false
unfolding in_order
contains-in_order chosen [] s h = contains-nil s
contains-in_order chosen (key ∷ keys) s h =
    let split : (str_eq key s ≡ false) × (contains keys s ≡ false) =
      ground (arith, h, contains-cons key keys s) in
    contains-group (tools_of chosen key) (in_order chosen keys) key s (tools_of-has_key chosen key)
      split.0 (contains-in_order chosen keys s split.1)

-- Where no key is ambiguous, each key occurs once among the ordered choices.
pub Distinct-in_order :
    (chosen : List Chosen) (keys : List GoString)
    → Distinct keys
    → All (IsSingle chosen) keys
    → Distinct (keys_in (in_order chosen keys))
unfolding in_order
Distinct-in_order chosen [] d a = tt
Distinct-in_order chosen (key ∷ keys) d a =
    Distinct-group (tools_of chosen key) (in_order chosen keys) key a.0
      (tools_of-has_key chosen key) (Distinct-in_order chosen keys d.1 a.1)
      (contains-in_order chosen keys key d.0)

pub length-in_order :
    (chosen : List Chosen) (keys : List GoString)
    → All (IsSingle chosen) keys
    → length (in_order chosen keys) ≤ length keys
unfolding in_order
length-in_order chosen [] a = omega arith
length-in_order chosen (key ∷ keys) a = omega (
  arith,
  length-append (tools_of chosen key) (in_order chosen keys),
  length-in_order chosen keys a.1,
  a.0,
)

pub Distinct-chosen_keys : (cs : List Chosen) → Distinct (chosen_keys cs)
Distinct-chosen_keys [] = tt
Distinct-chosen_keys (c ∷ cs) = elim (Bool-cases (contains (chosen_keys cs) c.keyed.key)) [
  | inl e ↦ rw e (Distinct-chosen_keys cs)
  | inr e ↦ rw e (e, Distinct-chosen_keys cs)
]

pub length-chosen_keys : (cs : List Chosen) → length (chosen_keys cs) ≤ length cs
length-chosen_keys [] = omega arith
length-chosen_keys (c ∷ cs) = ground (arith, length-chosen_keys cs)
