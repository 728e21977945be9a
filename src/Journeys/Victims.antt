-- ===== src/Journeys/Victims.antt =====
-- What `victims` picks (internal/journeys/journeys.go).
use az_agent_platform_go.Prelude.{
  ℕ, zero, suc, ◌+◌, ◌-◌, ◌≡◌, ◌⊎◌, refl, ◌∙◌, ap, sym, Bool, true, false, not, List, [], ◌∷◌, ◌++◌,
  GoString, str_eq_refl, str_eq_sym, contains, Distinct, length, filterb, take, leb, leb→lt, leb→le,
  arith, Bool-cases, inl, inr, contains-filter_le, length-append,
}
use mathlib.Core.List.{append-nil, append_assoc}
use native.Mathlib.Nat.{sub-zero}
use az_agent_platform_go.Journeys.{ActiveSet, victims_loop, victims}

-- The journeys that may be evicted, in the order of the set.
abbrev pub unpinned : List GoString → List GoString → List GoString
unpinned pinned = filterb (λ id. not (contains pinned id))

ℕ-cases : (n : ℕ) → (n ≡ 0) ⊎ ((m : ℕ) × (n ≡ suc m))
ℕ-cases zero = inl refl
ℕ-cases (suc m) = inr (m, refl)

victims_loop-take :
    (excess : ℕ) (pinned found ids : List GoString)
    → victims_loop excess pinned found ids
      ≡ found ++ take (excess - length found) (unpinned pinned ids)
unfolding victims_loop
victims_loop-take excess pinned found [] = elim (ℕ-cases (excess - length found)) [
  | inl e ↦ rw e (sym (append-nil found))
  | inr (m, e) ↦ rw e (sym (append-nil found))
]
victims_loop-take excess pinned found (id ∷ rest) = elim (Bool-cases (leb excess (length found))) [
  | inl enough ↦
      let e : excess - length found ≡ 0 = omega (arith, leb→le excess (length found) enough) in
      rw (enough, e) (sym (append-nil found))
  | inr more ↦ elim (Bool-cases (contains pinned id)) [
    | inl kept ↦ rw (more, kept) (victims_loop-take excess pinned found rest)
    | inr gone ↦
        let e : excess - length found ≡ suc (excess - length (found ++ id ∷ [])) =
          omega (arith, leb→lt excess (length found) more, length-append found (id ∷ [])) in
        rw (more, gone, e)
          (victims_loop-take excess pinned (found ++ id ∷ []) rest ∙ append_assoc found (id ∷ []) _)
  ]
]

-- The victims are the oldest unpinned journeys, as many as exceed the limit.
pub victims-take :
    (a : ActiveSet) (max : ℕ) (pinned : List GoString)
    → (victims a max pinned).0 ≡ take (length a.ids - max) (unpinned pinned a.ids)
unfolding victims
victims-take a max pinned =
    simp sub-zero at (victims_loop-take (length a.ids - max) pinned [] a.ids)

pub contains-take :
    (n : ℕ) (xs : List GoString) (s : GoString)
    → contains xs s ≡ false
    → contains (take n xs) s ≡ false
unfolding contains
contains-take zero xs s h = refl
contains-take (suc n) [] s h = refl
contains-take (suc n) (x ∷ xs) s h = ground (arith, contains-take n xs s)

-- A string that does not occur in a list makes no difference to what is dropped from it.
drop_absent :
    (id : GoString) (gone rest : List GoString)
    → contains rest id ≡ false
    → filterb (λ x. not (contains (id ∷ gone) x)) rest ≡ filterb (λ x. not (contains gone x)) rest
unfolding contains
drop_absent id gone [] h = refl
drop_absent id gone (x ∷ rest) h = ground (arith, str_eq_sym id x, drop_absent id gone rest)

-- Dropping the first `n` that pass a test from a list without repetitions drops exactly those.
pub length-drop_taken :
    (p : GoString → Bool) (n : ℕ) (ids gone : List GoString)
    → Distinct ids
    → gone ≡ take n (filterb p ids)
    → length (filterb (λ x. not (contains gone x)) ids) + length gone ≡ length ids
unfolding contains
length-drop_taken p zero [] gone d h = rw h (omega arith)
length-drop_taken p (suc n) [] gone d h = rw h (omega arith)
length-drop_taken p zero (id ∷ ids) gone d h =
    let out : contains gone id ≡ false = rw h in
    rw out (omega (arith, length-drop_taken p zero ids gone d.1 h))
length-drop_taken p (suc n) (id ∷ ids) gone d h = elim (Bool-cases (p id)) [
  | inl e ↦
      let older : List GoString = take n (filterb p ids) in
      let h' : gone ≡ id ∷ older = rw e at h in
      let out : contains gone id ≡ true = rw h' (rw (str_eq_refl id)) in
      let same : filterb (λ x. not (contains gone x)) ids
          ≡ filterb (λ x. not (contains older x)) ids =
        ap (λ g. filterb (λ x. not (contains g x)) ids) h' ∙ drop_absent id older ids d.0 in
      rw out (omega (arith, ap length same, ap length h', length-drop_taken p n ids older d.1 refl))
  | inr e ↦
      let h' : gone ≡ take (suc n) (filterb p ids) = rw e at h in
      let out : contains gone id ≡ false =
        rw h' (contains-take (suc n) (filterb p ids) id (contains-filter_le p ids id d.0)) in
      rw out (omega (arith, length-drop_taken p (suc n) ids gone d.1 h'))
]
