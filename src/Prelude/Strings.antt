-- ===== src/Prelude/Strings.antt =====
-- Go strings are sequences of bytes, compared as a whole; a slice of strings used as a set.
use Prim.Native.Nat.{ℕ}
use Prim.Native.Char.{code}
use Prim.Native.String.{String}
use mathlib.Core.Path.{◌≡◌, refl}
use mathlib.Core.Logic.{◌↔◌, inl, inr}
use mathlib.Core.Bool.{Bool, true, false, ◌&&◌, ◌||◌}
use mathlib.Core.List.{List, [], ◌∷◌, ◌++◌}
use native.Mathlib.Omega.{arith}
use az_agent_platform_go.Prelude.Tests.{◌==◌, Bool-cases}
use az_agent_platform_go.Prelude.Lists.{filterb}

abbrev pub GoString : Type 0
GoString = List ℕ

-- The bytes of an ASCII literal.
abbrev pub codes : String → GoString
codes (String.◌∷◌ letter rest) = code letter ∷ codes rest
codes String.[] = []

unfoldable pub str_eq : GoString → GoString → Bool
str_eq [] [] = true
str_eq [] (b ∷ t) = false
str_eq (a ∷ s) [] = false
str_eq (a ∷ s) (b ∷ t) = (a == b) && str_eq s t

abbrev pub is_empty : GoString → Bool
is_empty [] = true
is_empty (c ∷ s) = false

pub str_eq_refl : (s : GoString) → str_eq s s ≡ true
unfolding str_eq
str_eq_refl [] = refl
str_eq_refl (a ∷ s) = ground (arith, str_eq_refl s)

str_eq→eq : (s t : GoString) → str_eq s t ≡ true → s ≡ t
unfolding str_eq
str_eq→eq [] [] h = refl
str_eq→eq [] (b ∷ t) h = cc
str_eq→eq (a ∷ s) [] h = cc
str_eq→eq (a ∷ s) (b ∷ t) h = ground (arith, str_eq→eq s t)

pub str_eq_iff : (s t : GoString) → (str_eq s t ≡ true) ↔ (s ≡ t)
str_eq_iff s t = (str_eq→eq s t, λ e. rw (← e) (str_eq_refl s))

pub str_eq_sym : (s t : GoString) → str_eq s t ≡ str_eq t s
str_eq_sym s t = ground (arith, str_eq_iff s t, str_eq_iff t s)

-- slices.Contains
unfoldable pub contains : List GoString → GoString → Bool
contains [] s = false
contains (x ∷ xs) s = str_eq x s || contains xs s

pub contains-nil : (s : GoString) → contains [] s ≡ false
unfolding contains
contains-nil s = refl

pub contains-cons :
    (x : GoString) (xs : List GoString) (s : GoString)
    → contains (x ∷ xs) s ≡ (str_eq x s || contains xs s)
unfolding contains
contains-cons x xs s = refl

pub contains-append :
    (xs ys : List GoString) (s : GoString)
    → contains (xs ++ ys) s ≡ (contains xs s || contains ys s)
unfolding contains
contains-append [] ys s = refl
contains-append (x ∷ xs) ys s = ground (arith, contains-append xs ys s)

-- A filter keeps no string that was not there.
pub contains-filter_le :
    (p : GoString → Bool) (xs : List GoString) (s : GoString)
    → contains xs s ≡ false
    → contains (filterb p xs) s ≡ false
unfolding contains
contains-filter_le p [] s h = refl
contains-filter_le p (x ∷ xs) s h = ground (arith, contains-filter_le p xs s)

-- A filter keeps exactly the strings that pass its test.
pub filterb-contains :
    (p : GoString → Bool) (xs : List GoString) (s : GoString)
    → contains (filterb p xs) s ≡ (contains xs s && p s)
unfolding contains
filterb-contains p [] s = refl
filterb-contains p (x ∷ xs) s = elim (Bool-cases (str_eq x s)) [
  | inl e ↦ rw (← str_eq→eq x s e) (ground (arith, filterb-contains p xs x, str_eq_refl x))
  | inr e ↦ ground (arith, filterb-contains p xs s)
]

-- No string occurs twice.
abbrev pub Distinct : List GoString → Type 0
Distinct [] = Unit {0}
Distinct (x ∷ xs) = (contains xs x ≡ false) × Distinct xs

pub Distinct-append_one :
    (xs : List GoString) (s : GoString)
    → Distinct xs
    → contains xs s ≡ false
    → Distinct (xs ++ s ∷ [])
unfolding contains
Distinct-append_one [] s d h = (refl, tt)
Distinct-append_one (x ∷ xs) s d h = (
  ground (arith, contains-append xs (s ∷ []) x, str_eq_iff s x, str_eq_iff x s),
  Distinct-append_one xs s d.1 (ground arith),
)
