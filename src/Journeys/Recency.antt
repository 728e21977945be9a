-- ===== src/Journeys/Recency.antt =====
-- The order of the active set: what touching and activating an active journey does
-- (internal/journeys/journeys.go).
use az_agent_platform_go.Prelude.{
  ℕ, suc, ◌<◌, ◌≡◌, ◌≢◌, ◌↔◌, ◌⊎◌, refl, ap, sym, ◌∙◌, Bool, true, false, not, ◌||◌, List, [], ◌∷◌,
  ◌++◌, none, some, GoString, str_eq, str_eq_iff, str_eq_refl, str_eq_sym, contains, Distinct, All,
  is_empty, length, filterb, ◌==◌, ==_iff, arith, Bool-cases, Option-cases, inl, inr, contains-cons,
  contains-nil, contains-filter_le, filterb-contains, Distinct-append_one, length-append,
  contains-append,
}
use mathlib.Core.List.{append-nil, append_assoc}
use az_agent_platform_go.Journeys.{ActiveSet, index, delete_at, touch, new_loop, new_active_set}

-- What every set of the program satisfies: no journey twice, and none without a name.
pub record IsValid (a : ActiveSet) : Type 0 where
  pub distinct : Distinct a.ids
  pub named : contains a.ids [] ≡ false

abbrev pub without : GoString → List GoString → List GoString
without id = filterb (λ x. not (str_eq x id))

-- A search fails exactly where the journey is not in the set.
pub index-contains :
    (ids : List GoString) (id : GoString)
    → ((index ids id ≡ none) × (contains ids id ≡ false))
      ⊎ ((i : ℕ) × (index ids id ≡ some i) × (contains ids id ≡ true) × (i < length ids))
unfolding index contains
index-contains [] id = inl (refl, refl)
index-contains (x ∷ ids) id = elim (Bool-cases (str_eq x id)) [
  | inl e ↦ rw e (inr (0, refl, refl, omega arith))
  | inr e ↦ elim (index-contains ids id) [
    | inl (n, c) ↦ rw (e, n) (inl (refl, c))
    | inr (i, s, c, l) ↦ rw (e, s) (inr (suc i, refl, c, omega arith))
  ]
]

without_absent :
    (ids : List GoString) (id : GoString) → contains ids id ≡ false → without id ids ≡ ids
unfolding contains
without_absent [] id h = refl
without_absent (x ∷ ids) id h = ground (arith, without_absent ids id)

-- Deleting at the found position removes the journey.
pub delete_at-index :
    (ids : List GoString) (id : GoString) (i : ℕ)
    → Distinct ids
    → index ids id ≡ some i
    → delete_at ids i ≡ without id ids
unfolding index delete_at
delete_at-index [] id i d h = cc
delete_at-index (x ∷ ids) id i d h = elim (Bool-cases (str_eq x id)) [
  | inl e ↦
      let first : i ≡ 0 = ground arith in
      let absent : contains ids id ≡ false = rw ((str_eq_iff x id).0 e) at d.0 in
      rw (first, e) (sym (without_absent ids id absent))
  | inr e ↦ elim (Option-cases (index ids id)) [
    | inl n ↦ ground arith
    | inr (j, s) ↦
        let later : suc j ≡ i = ground arith in
        rw (← later, e) (ap (◌∷◌ x) (delete_at-index ids id j d.1 s))
  ]
]

-- Both ways of moving a journey to the end give the same order.
pub moved_last :
    (ids : List GoString) (id : GoString) (i : ℕ)
    → Distinct ids
    → index ids id ≡ some i
    → delete_at ids i ++ id ∷ [] ≡ without id ids ++ id ∷ []
moved_last ids id i d h = ap (λ xs. xs ++ id ∷ []) (delete_at-index ids id i d h)

pub without-last : (ids : List GoString) (id : GoString) → contains (without id ids) id ≡ false
without-last ids id =
    rw (filterb-contains (λ x. not (str_eq x id)) ids id) (ground (arith, str_eq_refl id))

Distinct-filterb :
    (p : GoString → Bool) (ids : List GoString) → Distinct ids → Distinct (filterb p ids)
Distinct-filterb p [] d = tt
Distinct-filterb p (x ∷ ids) d = elim (Bool-cases (p x)) [
  | inl e ↦ rw e (contains-filter_le p ids x d.0, Distinct-filterb p ids d.1)
  | inr e ↦ rw e (Distinct-filterb p ids d.1)
]

named-append_one :
    (acc : List GoString) (id : GoString)
    → contains acc [] ≡ false
    → is_empty id ≡ false
    → contains (acc ++ id ∷ []) [] ≡ false
unfolding contains
named-append_one acc id n e = rw (contains-append acc (id ∷ []) [], n) (named_one id e)
  where
    named_one : (s : GoString) → is_empty s ≡ false → contains (s ∷ []) [] ≡ false
    named_one s h = ground (arith, str_eq_iff s [])

is_empty-false : (id : GoString) → str_eq id [] ≡ false → is_empty id ≡ false
unfolding str_eq
is_empty-false [] h = h
is_empty-false (c ∷ id) h = refl

-- Keeping some of a valid set and adding a new named journey at the end is valid.
pub filterb-append_one-IsValid :
    (a : ActiveSet) (p : GoString → Bool) (id : GoString)
    → IsValid a
    → is_empty id ≡ false
    → contains (filterb p a.ids) id ≡ false
    → IsValid (record { ids = filterb p a.ids ++ id ∷ [] })
filterb-append_one-IsValid a p id v n h = record {
  distinct = Distinct-append_one (filterb p a.ids) id (Distinct-filterb p a.ids v.distinct) h;
  named = named-append_one (filterb p a.ids) id (contains-filter_le p a.ids [] v.named) n;
}

pub filterb-IsValid :
    (a : ActiveSet) (p : GoString → Bool) → IsValid a → IsValid (record { ids = filterb p a.ids })
filterb-IsValid a p v = record {
  distinct = Distinct-filterb p a.ids v.distinct;
  named = contains-filter_le p a.ids [] v.named;
}

without_only :
    (xs : List GoString) (x id : GoString)
    → x ≡ id
    → length xs ≡ 0
    → without id xs ++ id ∷ [] ≡ x ∷ xs
without_only [] x id e n = ap (λ y. y ∷ []) (sym e)
without_only (y ∷ xs) x id e n = absurd (omega arith)

-- A journey that is last already stays where it is.
without_last_id :
    (ids : List GoString) (id : GoString) (i : ℕ)
    → Distinct ids
    → index ids id ≡ some i
    → suc i ≡ length ids
    → without id ids ++ id ∷ [] ≡ ids
unfolding index
without_last_id [] id i d h l = cc
without_last_id (x ∷ ids) id i d h l = elim (Bool-cases (str_eq x id)) [
  | inl e ↦
      let none_left : length ids ≡ 0 = ground arith in
      rw e (without_only ids x id ((str_eq_iff x id).0 e) none_left)
  | inr e ↦ elim (Option-cases (index ids id)) [
    | inl n ↦ ground arith
    | inr (j, s) ↦ rw e (ap (◌∷◌ x) (without_last_id ids id j d.1 s (ground arith)))
  ]
]

index-append_last :
    (xs : List GoString) (id : GoString)
    → contains xs id ≡ false
    → index (xs ++ id ∷ []) id ≡ some (length xs)
unfolding index contains
index-append_last [] id c = rw (str_eq_refl id)
index-append_last (x ∷ xs) id c =
    let miss : str_eq x id ≡ false = ground arith in
    rw (miss, index-append_last xs id (ground arith))

-- A journey that stands before the end does move.
order_changes :
    (ids : List GoString) (id : GoString) (i : ℕ)
    → index ids id ≡ some i
    → (suc i == length ids) ≡ false
    → without id ids ++ id ∷ [] ≢ ids
order_changes ids id i s inner e = ground (
  arith,
  ap (λ xs. index xs id) e,
  index-append_last (without id ids) id (without-last ids id),
  ap length e,
  length-append (without id ids) (id ∷ []),
)

-- Touching an active journey makes it the most recently used and keeps the order of the others;
-- the set is reported as changed exactly where the order changed. A journey that is not active
-- changes nothing.
pub touch_lem :
    (a : ActiveSet) (id : GoString)
    → IsValid a
    → let (b, changed) = touch a id in
      ((contains a.ids id ≡ true)
        × (b.ids ≡ without id a.ids ++ id ∷ [])
        × ((changed ≡ false) ↔ (b.ids ≡ a.ids)))
      ⊎ ((contains a.ids id ≡ false) × (b ≡ a) × (changed ≡ false))
unfolding touch
touch_lem a id v = elim (index-contains a.ids id) [
  | inl (n, c) ↦ rw (n, touch) (inr (c, refl, refl))
  | inr (i, s, c, l) ↦ elim (Bool-cases (suc i == length a.ids)) [
    | inl last ↦
        rw (s, touch, last)
          (inl (
            c,
            sym (without_last_id a.ids id i v.distinct s ((==_iff _ _).0 last)),
            (λ _. refl, λ _. refl),
          ))
    | inr inner ↦
        rw (s, touch, inner)
          (inl (
            c,
            moved_last a.ids id i v.distinct s,
            (
              λ e. cc,
              λ e.
                  absurd (
                    order_changes a.ids id i s inner
                      (sym (moved_last a.ids id i v.distinct s) ∙ e)),
            ),
          ))
  ]
]

new_loop-append :
    (acc ids : List GoString)
    → Distinct ids
    → contains ids [] ≡ false
    → All (λ id. contains acc id ≡ false) ids
    → new_loop acc ids ≡ acc ++ ids
unfolding new_loop
new_loop-append acc [] d n f = sym (append-nil acc)
new_loop-append acc (id ∷ ids) d n f =
    let fresh : (is_empty id || contains acc id) ≡ false =
      rw (f.0, is_empty-false id (ground (arith, contains-cons id ids []))) in
    rw fresh (
      new_loop-append (acc ++ id ∷ []) ids d.1 (ground (arith, contains-cons id ids []))
        (still_fresh ids d.0 f.1)
      ∙ append_assoc acc (id ∷ []) ids)
  where
    tail_fresh : {b : Bool} (p q : Bool) → b ≡ (p || q) → b ≡ false → q ≡ false
    tail_fresh p q h e = ground arith

    still_fresh :
        (xs : List GoString)
        → contains xs id ≡ false
        → All (λ y. contains acc y ≡ false) xs
        → All (λ y. contains (acc ++ id ∷ []) y ≡ false) xs
    still_fresh [] c g = tt
    still_fresh (y ∷ xs) c g = (
      ground (
        arith,
        contains-append acc (id ∷ []) y,
        contains-cons id [] y,
        contains-cons y xs id,
        contains-nil y,
        str_eq_sym id y,
      ),
      still_fresh xs (tail_fresh (str_eq y id) (contains xs id) (contains-cons y xs id) c) g.1,
    )

new_loop-IsValid :
    (acc ids : List GoString)
    → Distinct acc
    → contains acc [] ≡ false
    → IsValid (record { ids = new_loop acc ids })
unfolding new_loop
new_loop-IsValid acc [] d n = record { distinct = d; named = n }
new_loop-IsValid acc (id ∷ ids) d n = elim (Bool-cases (is_empty id || contains acc id)) [
  | inl skip ↦ rw skip (new_loop-IsValid acc ids d n)
  | inr fresh ↦ rw fresh (
      new_loop-IsValid (acc ++ id ∷ []) ids (Distinct-append_one acc id d (ground arith))
        (named-append_one acc id n (ground arith)))
]

-- Reading a persisted set back drops repetitions and empty names.
pub new_active_set-IsValid : (ids : List GoString) → IsValid (new_active_set ids)
unfolding new_active_set contains
new_active_set-IsValid ids = new_loop-IsValid [] ids tt refl

-- A valid set is read back from its own list of journeys unchanged.
pub new_active_set-ids : (a : ActiveSet) → IsValid a → new_active_set a.ids ≡ a
unfolding new_active_set contains
new_active_set-ids a v =
    ap (λ xs. record { ids = xs }) (new_loop-append [] a.ids v.distinct v.named (all_fresh a.ids))
  where
    all_fresh : (xs : List GoString) → All (λ y. contains [] y ≡ false) xs
    all_fresh [] = tt
    all_fresh (y ∷ xs) = (refl, all_fresh xs)
