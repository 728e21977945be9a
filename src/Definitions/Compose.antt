-- ===== src/Definitions/Compose.antt =====
-- internal/definitions/selectors.go: comparisons of versions compose.
use native.Mathlib.Omega.{arith}
use az_agent_platform_go.Prelude.{
  ℕ, ◌≡◌, refl, Bool, true, false, List, [], ◌∷◌, GoString, length, if◌then◌else◌, ◌⊎◌, inl, inr,
}
use az_agent_platform_go.Definitions.Versions.{
  Ordering, less, same, greater, compare_nat, then_compare, compare_bytes, compare_segment,
  is_numeric, compare_number, trim_zeros, compare_segments,
}

-- What two comparisons in a row allow a comparison of the outer two to be.
abbrev pub composes : Ordering → Ordering → Ordering → Bool
composes less greater r = true
composes greater less r = true
composes less less less = true
composes less same less = true
composes same less less = true
composes same same same = true
composes same greater greater = true
composes greater same greater = true
composes greater greater greater = true
composes _ _ _ = false

from_left : (p : Ordering) → composes p less less ≡ true
from_left less = refl
from_left same = refl
from_left greater = refl

from_right : (q : Ordering) → composes less q less ≡ true
from_right less = refl
from_right same = refl
from_right greater = refl

to_left : (p : Ordering) → composes p greater greater ≡ true
to_left less = refl
to_left same = refl
to_left greater = refl

to_right : (q : Ordering) → composes greater q greater ≡ true
to_right less = refl
to_right same = refl
to_right greater = refl

after_same : (q : Ordering) → composes same q q ≡ true
after_same less = refl
after_same same = refl
after_same greater = refl

-- The lexicographic order composes where both of its parts do.
composes-then_compare :
    (p q r a b c : Ordering)
    → composes p q r ≡ true
    → composes a b c ≡ true
    → composes (then_compare p a) (then_compare q b) (then_compare r c) ≡ true
composes-then_compare less greater r a b c h k = refl
composes-then_compare greater less r a b c h k = refl
composes-then_compare less less less a b c h k = refl
composes-then_compare less same less a b c h k = from_right b
composes-then_compare same less less a b c h k = from_left a
composes-then_compare same same same a b c h k = k
composes-then_compare same greater greater a b c h k = to_left a
composes-then_compare greater same greater a b c h k = to_right b
composes-then_compare greater greater greater a b c h k = refl
composes-then_compare less less same a b c h k = cc
composes-then_compare less less greater a b c h k = cc
composes-then_compare less same same a b c h k = cc
composes-then_compare less same greater a b c h k = cc
composes-then_compare same less same a b c h k = cc
composes-then_compare same less greater a b c h k = cc
composes-then_compare same same less a b c h k = cc
composes-then_compare same same greater a b c h k = cc
composes-then_compare same greater less a b c h k = cc
composes-then_compare same greater same a b c h k = cc
composes-then_compare greater same less a b c h k = cc
composes-then_compare greater same same a b c h k = cc
composes-then_compare greater greater less a b c h k = cc
composes-then_compare greater greater same a b c h k = cc

composes-compare_nat :
    (a b c : ℕ) → composes (compare_nat a b) (compare_nat b c) (compare_nat a c) ≡ true
composes-compare_nat a b c = ground arith

composes-compare_bytes :
    (a b c : GoString) → composes (compare_bytes a b) (compare_bytes b c) (compare_bytes a c) ≡ true
unfolding compare_bytes
composes-compare_bytes [] [] c = after_same (compare_bytes [] c)
composes-compare_bytes [] (b ∷ bs) [] = refl
composes-compare_bytes [] (b ∷ bs) (c ∷ cs) = from_right (compare_bytes (b ∷ bs) (c ∷ cs))
composes-compare_bytes (a ∷ xs) [] [] = refl
composes-compare_bytes (a ∷ xs) [] (c ∷ cs) = refl
composes-compare_bytes (a ∷ xs) (b ∷ bs) [] = to_left (compare_bytes (a ∷ xs) (b ∷ bs))
composes-compare_bytes (a ∷ xs) (b ∷ bs) (c ∷ cs) =
    composes-then_compare (compare_nat a b) (compare_nat b c) (compare_nat a c)
      (compare_bytes xs bs) (compare_bytes bs cs) (compare_bytes xs cs) (composes-compare_nat a b c)
      (composes-compare_bytes xs bs cs)

composes-compare_number :
    (a b c : GoString)
    → composes (compare_number a b) (compare_number b c) (compare_number a c) ≡ true
composes-compare_number a b c =
    composes-then_compare (compare_nat (length a) (length b)) (compare_nat (length b) (length c))
      (compare_nat (length a) (length c)) (compare_bytes a b) (compare_bytes b c)
      (compare_bytes a c) (composes-compare_nat (length a) (length b) (length c))
      (composes-compare_bytes a b c)

-- A segment, by whether the three are numbers.
abbrev by_kind : Bool → Bool → Ordering → Ordering → Ordering
by_kind true true number bytes = number
by_kind true false number bytes = less
by_kind false true number bytes = greater
by_kind false false number bytes = bytes

by_kind-composes :
    (i j k : Bool) (p q r a b c : Ordering)
    → composes p q r ≡ true
    → composes a b c ≡ true
    → composes (by_kind i j p a) (by_kind j k q b) (by_kind i k r c) ≡ true
by_kind-composes true true true p q r a b c h l = h
by_kind-composes true true false p q r a b c h l = from_left p
by_kind-composes true false true p q r a b c h l = refl
by_kind-composes true false false p q r a b c h l = from_right b
by_kind-composes false true true p q r a b c h l = to_right q
by_kind-composes false true false p q r a b c h l = refl
by_kind-composes false false true p q r a b c h l = to_left a
by_kind-composes false false false p q r a b c h l = l

compare_segment-by_kind :
    (a b : GoString)
    → compare_segment a b
      ≡ by_kind
          (is_numeric a)
          (is_numeric b)
          (compare_number (trim_zeros a) (trim_zeros b))
          (compare_bytes a b)
unfolding compare_segment
compare_segment-by_kind a b = choose (is_numeric a) (is_numeric b)
  where
    number : Ordering
    number = compare_number (trim_zeros a) (trim_zeros b)

    choose :
        (i j : Bool)
        → (if i then (if j then number else less) else (if j then greater else compare_bytes a b))
          ≡ by_kind i j number (compare_bytes a b)
    choose true true = refl
    choose true false = refl
    choose false true = refl
    choose false false = refl

composes-compare_segment :
    (a b c : GoString)
    → composes (compare_segment a b) (compare_segment b c) (compare_segment a c) ≡ true
composes-compare_segment a b c =
    rw (compare_segment-by_kind a b, compare_segment-by_kind b c, compare_segment-by_kind a c)
      (by_kind-composes (is_numeric a) (is_numeric b) (is_numeric c)
        (compare_number (trim_zeros a) (trim_zeros b))
        (compare_number (trim_zeros b) (trim_zeros c))
        (compare_number (trim_zeros a) (trim_zeros c)) (compare_bytes a b) (compare_bytes b c)
        (compare_bytes a c) (composes-compare_number (trim_zeros a) (trim_zeros b) (trim_zeros c))
        (composes-compare_bytes a b c))

pub composes-compare_segments :
    (a b c : List GoString)
    → composes (compare_segments a b) (compare_segments b c) (compare_segments a c) ≡ true
composes-compare_segments [] [] c = after_same (compare_segments [] c)
composes-compare_segments [] (b ∷ bs) [] = refl
composes-compare_segments [] (b ∷ bs) (c ∷ cs) = from_right (compare_segments (b ∷ bs) (c ∷ cs))
composes-compare_segments (a ∷ xs) [] [] = refl
composes-compare_segments (a ∷ xs) [] (c ∷ cs) = refl
composes-compare_segments (a ∷ xs) (b ∷ bs) [] = to_left (compare_segments (a ∷ xs) (b ∷ bs))
composes-compare_segments (a ∷ xs) (b ∷ bs) (c ∷ cs) =
    composes-then_compare (compare_segment a b) (compare_segment b c) (compare_segment a c)
      (compare_segments xs bs) (compare_segments bs cs) (compare_segments xs cs)
      (composes-compare_segment a b c) (composes-compare_segments xs bs cs)

abbrev pub at_most : Ordering → Bool
at_most greater = false
at_most _ = true

pub at_most-composes :
    (p q r : Ordering)
    → composes p q r ≡ true
    → at_most p ≡ true
    → at_most q ≡ true
    → (at_most r ≡ true) × ((p ≡ less) ⊎ (q ≡ less) → r ≡ less)
at_most-composes less less less h a b = (refl, λ e. refl)
at_most-composes less same less h a b = (refl, λ e. refl)
at_most-composes same less less h a b = (refl, λ e. refl)
at_most-composes same same same h a b = (refl, λ e. elim e [ inl x ↦ x | inr x ↦ x ])
at_most-composes p q r h a b = cc
