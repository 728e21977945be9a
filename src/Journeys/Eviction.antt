-- ===== src/Journeys/Eviction.antt =====
-- What activation and fitting evict (internal/journeys/journeys.go).
use mathlib.Core.Bool.{true≢false}
use Prim.Native.Nat.{min, max}
use az_agent_platform_go.Prelude.{
  ℕ, ◌+◌, ◌-◌, ◌≤◌, ◌<◌, ◌≡◌, ◌⊎◌, refl, ap, sym, ◌∙◌, true, false, not, ◌||◌, List, [], ◌∷◌, ◌++◌,
  none, some, GoString, str_eq, str_eq_sym, contains, contains-cons, is_empty, length, filterb,
  take, ltb, leb, arith, Bool-cases, inl, inr, contains-filter_le, filterb-contains, length-append,
  length-take, contains-append, length-filterb_split, tests, leb→le,
}
use az_agent_platform_go.Journeys.{ActiveSet, refused, victims, remove, activate, fit}
use az_agent_platform_go.Journeys.Victims.{contains-take, unpinned, victims-take, length-drop_taken}
use az_agent_platform_go.Journeys.Recency.{
  IsValid, without, index-contains, moved_last, filterb-append_one-IsValid, without-last,
}

-- How many active journeys are pinned.
abbrev pub pinned_count : ActiveSet → List GoString → ℕ
pinned_count a pinned = length (filterb (λ id. contains pinned id) a.ids)

enough-le :
    (a : ActiveSet) (max : ℕ) (pinned : List GoString)
    → (victims a max pinned).1 ≡ leb (pinned_count a pinned) max
unfolding victims
enough-le a max pinned = ground (
  arith,
  ap length (victims-take a max pinned),
  length-take (length a.ids - max) (unpinned pinned a.ids),
  length-filterb_split (λ id. contains pinned id) a.ids,
)

contains-take-unpinned :
    (n : ℕ) (pinned ids : List GoString) (id : GoString)
    → contains pinned id ≡ true
    → contains (take n (unpinned pinned ids)) id ≡ false
unfolding contains
contains-take-unpinned n pinned ids id h =
    contains-take n (unpinned pinned ids) id
      (rw (filterb-contains (λ x. not (contains pinned x)) ids id) (ground arith))

-- `remove` of the victims shortens the set by as many as are evicted.
length-remove-victims :
    (a : ActiveSet) (max : ℕ) (pinned : List GoString)
    → IsValid a
    → length (remove a (victims a max pinned).0).0.ids + length (victims a max pinned).0
      ≡ length a.ids
unfolding remove
length-remove-victims a max pinned v =
    length-drop_taken (λ id. not (contains pinned id)) (length a.ids - max) a.ids
      (victims a max pinned).0 v.distinct (victims-take a max pinned)

-- With room for the pinned journeys, what is left after the eviction fits.
length-evicts :
    (a : ActiveSet) (max : ℕ) (pinned : List GoString)
    → IsValid a
    → leb (pinned_count a pinned) max ≡ true
    → length (remove a (victims a max pinned).0).0.ids ≤ max
length-evicts a max pinned v room = omega (
  tests,
  length-remove-victims a max pinned v,
  ap length (victims-take a max pinned),
  length-take (length a.ids - max) (unpinned pinned a.ids),
  length-filterb_split (λ id. contains pinned id) a.ids,
  leb→le (pinned_count a pinned) max room,
)

-- Activating a journey that is not active: either the pinned journeys leave no room, and nothing
-- changes, or the oldest unpinned journeys go, exactly as many as exceed the room, and the
-- journey comes last in a set within the limit.
pub activate_inactive :
    (a : ActiveSet) (id : GoString) (limit : ℕ) (pinned : List GoString)
    → IsValid a
    → is_empty id ≡ false
    → 1 ≤ limit
    → contains a.ids id ≡ false
    → let o = activate a id limit pinned in
      let gone = take (length a.ids - (limit - 1)) (unpinned pinned a.ids) in
      ((limit ≤ pinned_count a pinned) × (o.err ≡ some refused) × (o.set ≡ a) × (o.evicted ≡ []))
      ⊎ ((pinned_count a pinned < limit)
          × (o.err ≡ none)
          × (o.evicted ≡ gone)
          × (o.set.ids ≡ filterb (λ x. not (contains gone x)) a.ids ++ id ∷ [])
          × (length o.set.ids ≤ limit))
unfolding activate remove
activate_inactive a id limit pinned v n l c = elim (index-contains a.ids id) [
  | inr (i, s, c', _) ↦ absurd (true≢false (sym c' ∙ c))
  | inl (s, _) ↦ elim (Bool-cases (leb (pinned_count a pinned) (limit - 1))) [
    | inr full ↦
        rw (n, lt_one limit l, s, enough-le a (limit - 1) pinned, full)
          (inl (omega tests, refl, refl, refl))
    | inl room ↦
        rw (n, lt_one limit l, s, enough-le a (limit - 1) pinned, room)
          (inr (omega tests, refl, victims-take a (limit - 1) pinned, evicts, fits room))
  ]
]
  where
    lt_one : (k : ℕ) → 1 ≤ k → ltb k 1 ≡ false
    lt_one k h = ground arith

    gone : List GoString
    gone = (victims a (limit - 1) pinned).0

    evicts :
        filterb (λ x. not (contains gone x)) a.ids ++ id ∷ []
        ≡ filterb
            (λ x. not (contains (take (length a.ids - (limit - 1)) (unpinned pinned a.ids)) x))
            a.ids
          ++ id ∷ []
    evicts =
        ap (λ g. filterb (λ x. not (contains g x)) a.ids ++ id ∷ [])
          (victims-take a (limit - 1) pinned)

    fits :
        leb (pinned_count a pinned) (limit - 1) ≡ true
        → length (filterb (λ x. not (contains gone x)) a.ids ++ id ∷ []) ≤ limit
    fits room = omega (
      tests,
      length-append (filterb (λ x. not (contains gone x)) a.ids) (id ∷ []),
      length-evicts a (limit - 1) pinned v room,
    )

-- Activating a journey that is active already only makes it the most recently used.
pub activate_active :
    (a : ActiveSet) (id : GoString) (limit : ℕ) (pinned : List GoString)
    → IsValid a
    → is_empty id ≡ false
    → 1 ≤ limit
    → contains a.ids id ≡ true
    → let o = activate a id limit pinned in
      (o.err ≡ none) × (o.evicted ≡ []) × (o.set.ids ≡ without id a.ids ++ id ∷ [])
unfolding activate
activate_active a id limit pinned v n l c = elim (index-contains a.ids id) [
  | inl (_, c') ↦ absurd (true≢false (sym c ∙ c'))
  | inr (i, s, _, _) ↦
      rw (n, lt_one limit l, s, activate) (refl, refl, moved_last a.ids id i v.distinct s)
]
  where
    lt_one : (k : ℕ) → 1 ≤ k → ltb k 1 ≡ false
    lt_one k h = ground arith

-- The three sets that an activation can leave.
activate_cases {ℓ} :
    (P : ActiveSet → Type ℓ) (a : ActiveSet) (id : GoString) (limit : ℕ) (pinned : List GoString)
    → IsValid a
    → P a
    → (is_empty id ≡ false → P (record { ids = without id a.ids ++ id ∷ [] }))
    → (is_empty id ≡ false
        → contains a.ids id ≡ false
        → P (record { ids = (remove a (victims a (limit - 1) pinned).0).0.ids ++ id ∷ [] }))
    → P (activate a id limit pinned).set
unfolding activate
activate_cases P a id limit pinned v same moved added =
    elim (Bool-cases (is_empty id || ltb limit 1)) [
      | inl bad ↦ rw (bad, activate) same
      | inr good ↦ elim (index-contains a.ids id) [
        | inr (i, s, _, _) ↦
            rw (good, s, activate, moved_last a.ids id i v.distinct s) (moved (ground arith))
        | inl (s, c) ↦ elim (Bool-cases (victims a (limit - 1) pinned).1) [
          | inl room ↦ rw (good, s, activate, room) (added (ground arith) c)
          | inr full ↦ rw (good, s, activate, full) same
        ]
      ]
    ]

-- Every activation, refused or not, leaves a valid set.
pub activate-IsValid :
    (a : ActiveSet) (id : GoString) (limit : ℕ) (pinned : List GoString)
    → IsValid a
    → IsValid (activate a id limit pinned).set
unfolding remove
activate-IsValid a id limit pinned v =
    activate_cases IsValid a id limit pinned v v
      (λ n. filterb-append_one-IsValid a (λ x. not (str_eq x id)) id v n (without-last a.ids id))
      (λ n c. filterb-append_one-IsValid a _ id v n (contains-filter_le _ a.ids id c))

-- A pinned journey is not among the victims.
remove-victims-contains :
    (a : ActiveSet) (max : ℕ) (pinned : List GoString) (j : GoString)
    → contains a.ids j ≡ true
    → contains pinned j ≡ true
    → contains (remove a (victims a max pinned).0).0.ids j ≡ true
unfolding remove
remove-victims-contains a max pinned j c p =
    rw (filterb-contains (λ x. not (contains (victims a max pinned).0 x)) a.ids j) (
      rw (c, victims-take a max pinned)
        (rw (contains-take-unpinned (length a.ids - max) pinned a.ids j p)))

-- A pinned active journey stays active, whatever is activated and under whatever limit.
pub activate_keeps_pinned :
    (a : ActiveSet) (id : GoString) (limit : ℕ) (pinned : List GoString) (j : GoString)
    → IsValid a
    → contains a.ids j ≡ true
    → contains pinned j ≡ true
    → contains (activate a id limit pinned).set.ids j ≡ true
activate_keeps_pinned a id limit pinned j v c p =
    activate_cases (λ b. contains b.ids j ≡ true) a id limit pinned v c
      (λ _. ground (
        arith,
        contains-append (without id a.ids) (id ∷ []) j,
        filterb-contains (λ x. not (str_eq x id)) a.ids j,
        contains-cons id [] j,
        str_eq_sym j id,
      ))
      (λ _ _. ground (
        arith,
        contains-append (remove a (victims a (limit - 1) pinned).0).0.ids (id ∷ []) j,
        remove-victims-contains a (limit - 1) pinned j c p,
      ))

-- Fitting to a limit evicts the oldest unpinned journeys: the set then has at most the limit or
-- the number of pinned journeys, whichever is more, and nothing is evicted below the limit; every
-- pinned journey stays.
pub fit_lem :
    (a : ActiveSet) (limit : ℕ) (pinned : List GoString)
    → IsValid a
    → 1 ≤ limit
    → let o = fit a limit pinned in
      (o.err ≡ none)
      × (o.evicted ≡ take (length a.ids - limit) (unpinned pinned a.ids))
      × (length o.set.ids ≤ max limit (pinned_count a pinned))
      × (min limit (length a.ids) ≤ length o.set.ids)
      × ((j : GoString)
          → contains a.ids j ≡ true
          → contains pinned j ≡ true
          → contains o.set.ids j ≡ true)
unfolding fit
fit_lem a limit pinned v l =
    let good : ltb limit 1 ≡ false = ground arith in
    let sizes : (length (remove a (victims a limit pinned).0).0.ids
          ≤ max limit (pinned_count a pinned))
        × (min limit (length a.ids) ≤ length (remove a (victims a limit pinned).0).0.ids) =
      omega (
        arith,
        length-remove-victims a limit pinned v,
        ap length (victims-take a limit pinned),
        length-take (length a.ids - limit) (unpinned pinned a.ids),
        length-filterb_split (λ id. contains pinned id) a.ids,
      ) in
    rw good
      (refl, victims-take a limit pinned, sizes.0, sizes.1, remove-victims-contains a limit pinned)
