-- ===== src/Definitions/Versions.antt =====
-- internal/definitions/selectors.go: the order of product versions, and version ranges.
use az_agent_platform_go.Prelude.{
  ℕ, Bool, true, false, not, ◌&&◌, ◌||◌, List, [], ◌∷◌, GoString, is_empty, length, ltb, leb, ◌==◌,
  if◌then◌else◌,
}

-- -1, 0 and 1 of the source's comparisons.
pub data Ordering : Type 0 where
  less same greater : Ordering

abbrev pub compare_nat : ℕ → ℕ → Ordering
compare_nat a b = if ltb a b then less else if ltb b a then greater else same

abbrev pub then_compare : Ordering → Ordering → Ordering
then_compare less next = less
then_compare same next = next
then_compare greater next = greater

-- strings.Compare
unfoldable pub compare_bytes : GoString → GoString → Ordering
compare_bytes [] [] = same
compare_bytes [] (b ∷ bs) = less
compare_bytes (a ∷ xs) [] = greater
compare_bytes (a ∷ xs) (b ∷ bs) = then_compare (compare_nat a b) (compare_bytes xs bs)

abbrev pub is_digit : ℕ → Bool
is_digit c = leb 48 c && leb c 57

abbrev pub all_digits : GoString → Bool
all_digits [] = true
all_digits (c ∷ cs) = is_digit c && all_digits cs

-- isNumeric
abbrev pub is_numeric : GoString → Bool
is_numeric s = not (is_empty s) && all_digits s

-- strings.TrimLeft(s, "0")
abbrev pub trim_zeros : GoString → GoString
trim_zeros [] = []
trim_zeros (c ∷ cs) = let rest = trim_zeros cs in if c == 48 then rest else c ∷ cs

-- Numbers without leading zeros: the longer one is greater.
abbrev pub compare_number : GoString → GoString → Ordering
compare_number a b = then_compare (compare_nat (length a) (length b)) (compare_bytes a b)

-- compareSegment
unfoldable pub compare_segment : GoString → GoString → Ordering
compare_segment a b =
    if is_numeric a
    then (if is_numeric b then compare_number (trim_zeros a) (trim_zeros b) else less)
    else (if is_numeric b then greater else compare_bytes a b)

-- strings.Split(s, ".")
abbrev pub add_byte : ℕ → List GoString → List GoString
add_byte c [] = (c ∷ []) ∷ []
add_byte c (s ∷ rest) = (c ∷ s) ∷ rest

abbrev pub split_dots : GoString → List GoString
split_dots [] = [] ∷ []
split_dots (c ∷ cs) = let rest = split_dots cs in if c == 46 then [] ∷ rest else add_byte c rest

abbrev pub compare_segments : List GoString → List GoString → Ordering
compare_segments [] [] = same
compare_segments [] (b ∷ bs) = less
compare_segments (a ∷ xs) [] = greater
compare_segments (a ∷ xs) (b ∷ bs) = then_compare (compare_segment a b) (compare_segments xs bs)

unfoldable pub compare_versions : GoString → GoString → Ordering
compare_versions a b = compare_segments (split_dots a) (split_dots b)

pub record VersionRange : Type 0 where
  pub min : GoString
  pub max_exclusive : GoString

abbrev pub is_less : Ordering → Bool
is_less less = true
is_less _ = false

-- VersionRange.Contains
unfoldable pub in_range : VersionRange → GoString → Bool
in_range r v =
    (is_empty r.min || not (is_less (compare_versions v r.min)))
    && (is_empty r.max_exclusive || is_less (compare_versions v r.max_exclusive))

abbrev pub is_zero : VersionRange → Bool
is_zero r = is_empty r.min && is_empty r.max_exclusive
