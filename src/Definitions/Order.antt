-- ===== src/Definitions/Order.antt =====
-- internal/definitions/selectors.go: product versions are in a total order, up to leading zeros.
use native.Mathlib.Omega.{arith}
use az_agent_platform_go.Prelude.{
  ℕ, ◌≡◌, refl, sym, ap, ◌∙◌, Bool, true, false, not, ◌&&◌, ◌||◌, List, [], ◌∷◌, GoString, is_empty,
  length, ltb, Bool-cases, inl, inr,
}
use az_agent_platform_go.Definitions.Versions.{
  Ordering, less, same, greater, compare_nat, then_compare, compare_bytes, compare_segment,
  is_numeric, trim_zeros, compare_segments, split_dots, compare_versions, VersionRange, in_range,
  is_less,
}
use az_agent_platform_go.Definitions.Compose.{composes-compare_segments, at_most, at_most-composes}

abbrev pub flip : Ordering → Ordering
flip less = greater
flip same = same
flip greater = less

flip-then_compare : (a b : Ordering) → flip (then_compare a b) ≡ then_compare (flip a) (flip b)
flip-then_compare less b = refl
flip-then_compare same b = refl
flip-then_compare greater b = refl

compare_nat-flip : (a b : ℕ) → compare_nat b a ≡ flip (compare_nat a b)
compare_nat-flip a b = elim (Bool-cases (ltb a b)) [
  | inl t ↦ elim (Bool-cases (ltb b a)) [
    | inl u ↦ let never : ⊥ = ground (arith, t, u) in elim never [ ]
    | inr u ↦ rw (t, u) refl
  ]
  | inr t ↦ elim (Bool-cases (ltb b a)) [ inl u ↦ rw (t, u) refl | inr u ↦ rw (t, u) refl ]
]

compare_bytes-flip : (a b : GoString) → compare_bytes b a ≡ flip (compare_bytes a b)
unfolding compare_bytes
compare_bytes-flip [] [] = refl
compare_bytes-flip [] (b ∷ bs) = refl
compare_bytes-flip (a ∷ xs) [] = refl
compare_bytes-flip (a ∷ xs) (b ∷ bs) =
    rw (compare_nat-flip a b, compare_bytes-flip xs bs)
      (sym (flip-then_compare (compare_nat a b) (compare_bytes xs bs)))

compare_segment-flip : (a b : GoString) → compare_segment b a ≡ flip (compare_segment a b)
unfolding compare_segment
compare_segment-flip a b = elim (Bool-cases (is_numeric a)) [
  | inl t ↦ elim (Bool-cases (is_numeric b)) [
    | inl u ↦
        rw
          (
            t,
            u,
            compare_nat-flip (length (trim_zeros a)) (length (trim_zeros b)),
            compare_bytes-flip (trim_zeros a) (trim_zeros b),
          )
          (sym (
            flip-then_compare (compare_nat (length (trim_zeros a)) (length (trim_zeros b)))
              (compare_bytes (trim_zeros a) (trim_zeros b))))
    | inr u ↦ rw (t, u) refl
  ]
  | inr t ↦ elim (Bool-cases (is_numeric b)) [
    | inl u ↦ rw (t, u) refl
    | inr u ↦ rw (t, u) (compare_bytes-flip a b)
  ]
]

compare_segments-flip : (a b : List GoString) → compare_segments b a ≡ flip (compare_segments a b)
compare_segments-flip [] [] = refl
compare_segments-flip [] (b ∷ bs) = refl
compare_segments-flip (a ∷ xs) [] = refl
compare_segments-flip (a ∷ xs) (b ∷ bs) =
    rw (compare_segment-flip a b, compare_segments-flip xs bs)
      (sym (flip-then_compare (compare_segment a b) (compare_segments xs bs)))

-- Comparing two versions the other way round gives the opposite answer.
pub compare_versions-flip : (a b : GoString) → compare_versions b a ≡ flip (compare_versions a b)
unfolding compare_versions
compare_versions-flip a b = compare_segments-flip (split_dots a) (split_dots b)

-- The order of versions is transitive.
pub compare_versions_trans :
    (a b c : GoString)
    → at_most (compare_versions a b) ≡ true
    → at_most (compare_versions b c) ≡ true
    → at_most (compare_versions a c) ≡ true
unfolding compare_versions
compare_versions_trans a b c h k =
    (at_most-composes (compare_versions a b) (compare_versions b c) (compare_versions a c)
      (composes-compare_segments (split_dots a) (split_dots b) (split_dots c)) h k).0

is_less_trans :
    (a b c : GoString)
    → at_most (compare_versions a b) ≡ true
    → is_less (compare_versions b c) ≡ true
    → is_less (compare_versions a c) ≡ true
unfolding compare_versions
is_less_trans a b c h k =
    let t =
      at_most-composes (compare_versions a b) (compare_versions b c) (compare_versions a c)
        (composes-compare_segments (split_dots a) (split_dots b) (split_dots c)) h
        (at_most-is_less (compare_versions b c) k) in
    ap is_less (t.1 (inr (is_less-less (compare_versions b c) k)))
  where
    at_most-is_less : (q : Ordering) → is_less q ≡ true → at_most q ≡ true
    at_most-is_less less e = refl
    at_most-is_less same e = cc
    at_most-is_less greater e = cc

    is_less-less : (q : Ordering) → is_less q ≡ true → q ≡ less
    is_less-less less e = refl
    is_less-less same e = cc
    is_less-less greater e = cc

not_less-flip : (q : Ordering) → not (is_less (flip q)) ≡ at_most q
not_less-flip less = refl
not_less-flip same = refl
not_less-flip greater = refl

lower_bound :
    (m u v : GoString)
    → not (is_less (compare_versions u m)) ≡ true
    → at_most (compare_versions u v) ≡ true
    → not (is_less (compare_versions v m)) ≡ true
lower_bound m u v h k =
    let below =
      sym (not_less-flip (compare_versions m u))
      ∙ ap (λ q. not (is_less q)) (sym (compare_versions-flip m u)) in
    ap (λ q. not (is_less q)) (compare_versions-flip m v)
    ∙ not_less-flip (compare_versions m v)
    ∙ compare_versions_trans m u v (sym (sym h ∙ sym below)) k

-- A range that contains two versions contains every version between them.
pub in_range_convex :
    (r : VersionRange) (u v w : GoString)
    → in_range r u ≡ true
    → in_range r w ≡ true
    → at_most (compare_versions u v) ≡ true
    → at_most (compare_versions v w) ≡ true
    → in_range r v ≡ true
unfolding in_range
in_range_convex r u v w hu hw low high =
    both (either (is_empty r.min) (λ e. lower_bound r.min u v e low) (left _ _ hu)) (
      either (is_empty r.max_exclusive) (λ e. is_less_trans v w r.max_exclusive high e)
        (right _ _ hw))
  where
    both : {a b : Bool} → a ≡ true → b ≡ true → (a && b) ≡ true
    both h k = ground (arith, h, k)

    left : (a b : Bool) → (a && b) ≡ true → a ≡ true
    left a b h = ground (arith, h)

    right : (a b : Bool) → (a && b) ≡ true → b ≡ true
    right a b h = ground (arith, h)

    either : (e : Bool) {a b : Bool} → (a ≡ true → b ≡ true) → (e || a) ≡ true → (e || b) ≡ true
    either true f h = refl
    either false f h = f h
