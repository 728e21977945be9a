-- ===== src/Prelude/Sort.antt =====
-- sort.Strings: byte-wise order of strings, and the sorted copy of a list of them.
use Prim.Native.Nat.{suc, compare, Ordering}
use mathlib.Core.Path.{◌≡◌, refl, ◌∙◌}
use mathlib.Core.Bool.{Bool, true, false, ◌||◌}
use mathlib.Core.List.{List, [], ◌∷◌}
use native.Mathlib.Omega.{arith}
use az_agent_platform_go.Prelude.Tests.{if◌then◌else◌}
use az_agent_platform_go.Prelude.Lists.{length}
use az_agent_platform_go.Prelude.Strings.{GoString, str_eq, contains, Distinct, str_eq_sym}

-- strings.Compare(s, t) <= 0
unfoldable pub str_le : GoString → GoString → Bool
str_le [] t = true
str_le (a ∷ s) [] = false
str_le (a ∷ s) (b ∷ t) =
    let rest = str_le s t in
    elim (compare a b) [ Ordering.lt ↦ true | Ordering.eq ↦ rest | Ordering.gt ↦ false ]

insert_sorted : GoString → List GoString → List GoString
insert_sorted s [] = s ∷ []
insert_sorted s (x ∷ xs) =
    let rest = insert_sorted s xs in if str_le s x then s ∷ x ∷ xs else x ∷ rest

unfoldable pub sort_strings : List GoString → List GoString
unfolding insert_sorted str_le
sort_strings [] = []
sort_strings (x ∷ xs) = insert_sorted x (sort_strings xs)

contains-insert_sorted :
    (s : GoString) (xs : List GoString) (t : GoString)
    → contains (insert_sorted s xs) t ≡ (str_eq s t || contains xs t)
unfolding insert_sorted contains
contains-insert_sorted s [] t = refl
contains-insert_sorted s (x ∷ xs) t = ground (arith, contains-insert_sorted s xs t)

-- Sorting keeps the strings.
pub contains-sort_strings :
    (xs : List GoString) (t : GoString) → contains (sort_strings xs) t ≡ contains xs t
unfolding sort_strings contains
contains-sort_strings [] t = refl
contains-sort_strings (x ∷ xs) t =
    ground (arith, contains-insert_sorted x (sort_strings xs) t, contains-sort_strings xs t)

Distinct-insert_sorted :
    (s : GoString) (xs : List GoString)
    → Distinct xs
    → contains xs s ≡ false
    → Distinct (insert_sorted s xs)
unfolding insert_sorted contains
Distinct-insert_sorted s [] d c = (refl, tt)
Distinct-insert_sorted s (x ∷ xs) d c =
    ground (arith, Distinct-insert_sorted s xs d.1, contains-insert_sorted s xs x, str_eq_sym s x)

pub Distinct-sort_strings : (xs : List GoString) → Distinct xs → Distinct (sort_strings xs)
unfolding sort_strings
Distinct-sort_strings [] d = tt
Distinct-sort_strings (x ∷ xs) d =
    Distinct-insert_sorted x (sort_strings xs) (Distinct-sort_strings xs d.1)
      (contains-sort_strings xs x ∙ d.0)

length-insert_sorted :
    (s : GoString) (xs : List GoString) → length (insert_sorted s xs) ≡ suc (length xs)
unfolding insert_sorted
length-insert_sorted s [] = refl
length-insert_sorted s (x ∷ xs) = ground (arith, length-insert_sorted s xs)

pub length-sort_strings : (xs : List GoString) → length (sort_strings xs) ≡ length xs
unfolding sort_strings
length-sort_strings [] = refl
length-sort_strings (x ∷ xs) =
    omega (arith, length-insert_sorted x (sort_strings xs), length-sort_strings xs)
