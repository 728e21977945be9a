-- ===== src/Prelude/Dict.antt =====
-- Go maps with string keys, as association lists.
use mathlib.Core.Path.{◌≡◌, refl}
use mathlib.Core.Bool.{Bool, true, false}
use mathlib.Core.List.{List, [], ◌∷◌}
use mathlib.Core.Option.{Option, none, some}
use native.Mathlib.Omega.{arith}
use az_agent_platform_go.Prelude.Tests.{if◌then◌else◌}
use az_agent_platform_go.Prelude.Strings.{GoString, contains, str_eq, str_eq_iff, str_eq_refl}

module _ {ℓ} {V : Type ℓ} where
  -- `m[k]` with its `ok`.
  unfoldable pub lookup : GoString → List (GoString × V) → Option V
  lookup key [] = none
  lookup key ((first, value) ∷ entries) =
      let later = lookup key entries in if str_eq first key then some value else later

  -- `m[k] = v`
  unfoldable pub insert : GoString → V → List (GoString × V) → List (GoString × V)
  insert key value [] = (key, value) ∷ []
  insert key value ((first, old) ∷ entries) =
      let later = insert key value entries in
      if str_eq first key then (key, value) ∷ entries else (first, old) ∷ later

  abbrev pub keys : List (GoString × V) → List GoString
  keys [] = []
  keys ((j, v) ∷ m) = j ∷ keys m

  -- `_, ok := m[k]`
  abbrev pub has_key : GoString → List (GoString × V) → Bool
  has_key k m = elim (lookup k m) [ none ↦ false | some _ ↦ true ]

  pub lookup-insert :
      (key sought : GoString) (value : V) (entries : List (GoString × V))
      → lookup sought (insert key value entries)
        ≡ (if str_eq key sought then some value else lookup sought entries)
  unfolding insert lookup
  lookup-insert key sought value ((first, old) ∷ entries) = ground (
    arith,
    lookup-insert key sought value entries,
    str_eq_iff first sought,
    str_eq_iff first key,
    str_eq_iff key sought,
  )
  lookup-insert key sought value [] = refl

  pub lookup-insert_self :
      (key : GoString) (value : V) (entries : List (GoString × V))
      → lookup key (insert key value entries) ≡ some value
  lookup-insert_self key value entries = simp (str_eq_refl, lookup-insert)

  pub lookup-insert_ne :
      (k j : GoString) (v : V) (m : List (GoString × V))
      → str_eq k j ≡ false
      → lookup j (insert k v m) ≡ lookup j m
  lookup-insert_ne k j v m h = rw (lookup-insert k j v m, h)

module _ {ℓ} {V : Type ℓ} where
  pub lookup-nil : (k : GoString) → lookup {V = V} k [] ≡ none
  unfolding lookup
  lookup-nil k = refl

  -- A map has no value at a key that it does not list.
  pub lookup-keys :
      (k : GoString) (m : List (GoString × V)) → contains (keys m) k ≡ false → lookup k m ≡ none
  unfolding lookup contains
  lookup-keys k [] h = refl
  lookup-keys k ((j, v) ∷ m) h = ground (arith, lookup-keys k m)
