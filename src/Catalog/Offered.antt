-- ===== src/Catalog/Offered.antt =====
-- internal/catalog/resolve.go (Resolve): the tools of a snapshot that may be selected.
use native.Mathlib.Omega.{arith}
use az_agent_platform_go.Prelude.{
  ℕ, suc, ◌+◌, ◌≡◌, ◌≤◌, refl, Bool, true, false, not, ◌&&◌, List, [], ◌∷◌, some, GoString, str_eq,
  contains, if◌then◌else◌, All, anyb, ◌==◌, is_empty, find_row, str_eq_refl,
}
use az_agent_platform_go.Catalog.Descriptors.{Descriptor, operation_key}
use az_agent_platform_go.Catalog.Selecting.{Keyed, keyed_from}

-- The tool of keyed at its own position is found there.
abbrev pub has_index : ℕ → Keyed → Bool
has_index i k = k.index == i

abbrev pub IsAt : List Keyed → Keyed → Type 0
IsAt keyed k = find_row (has_index k.index) keyed ≡ some k

abbrev pub is_of : GoString → Keyed → Descriptor → Bool
is_of meta_key k d = str_eq d.name k.tool.name && str_eq (operation_key meta_key d) k.key

-- A keyed tool is one of the descriptors, and its key is not denied.
abbrev pub IsOffered : GoString → List GoString → List Descriptor → Keyed → Type 0
IsOffered meta_key deny ds k =
    (is_empty k.key ≡ false) × (contains deny k.key ≡ false) × (anyb (is_of meta_key k) ds ≡ true)

keyed_from-index :
    (i : ℕ) (meta_key : GoString) (deny : List GoString) (ds : List Descriptor) (n : ℕ)
    → n ≤ i
    → All (λ (k : Keyed). n ≤ k.index) (keyed_from i meta_key deny ds)
unfolding keyed_from
keyed_from-index i meta_key deny [] n h = tt
keyed_from-index i meta_key deny (d ∷ ds) n h =
    taken
      (not (is_empty (operation_key meta_key d)) && not (contains deny (operation_key meta_key d)))
      (keyed_from-index (i + 1) meta_key deny ds n (omega (arith, h)))
  where
    taken :
        (b : Bool)
        → All (λ (k : Keyed). n ≤ k.index) (keyed_from (i + 1) meta_key deny ds)
        → All
            (λ (k : Keyed). n ≤ k.index)
            (if b
              then record { index = i; key = operation_key meta_key d; tool = d }
                ∷ keyed_from (i + 1) meta_key deny ds
              else keyed_from (i + 1) meta_key deny ds)
    taken true rest = (h, rest)
    taken false rest = rest

-- What follows a tool does not hide from it, having higher positions.
IsAt-cons :
    (l : Keyed) (keyed ks : List Keyed)
    → All (λ (k : Keyed). suc l.index ≤ k.index) ks
    → All (IsAt keyed) ks
    → All (IsAt (l ∷ keyed)) ks
IsAt-cons l keyed [] h a = tt
IsAt-cons l keyed (k ∷ ks) h a =
    let apart : (l.index == k.index) ≡ false = ground (arith, h.0) in
    (rw apart a.0, IsAt-cons l keyed ks h.1 a.1)

All-IsOffered :
    (meta_key : GoString) (deny : List GoString) (d : Descriptor) (ds : List Descriptor)
    (ks : List Keyed)
    → All (IsOffered meta_key deny ds) ks
    → All (IsOffered meta_key deny (d ∷ ds)) ks
All-IsOffered meta_key deny d ds [] a = tt
All-IsOffered meta_key deny d ds (k ∷ ks) a =
    ((a.0.0, a.0.1, ground (arith, a.0.2)), All-IsOffered meta_key deny d ds ks a.1)

pub keyed_from-IsAt :
    (i : ℕ) (meta_key : GoString) (deny : List GoString) (ds : List Descriptor)
    → All (IsAt (keyed_from i meta_key deny ds)) (keyed_from i meta_key deny ds)
unfolding keyed_from
keyed_from-IsAt i meta_key deny [] = tt
keyed_from-IsAt i meta_key deny (d ∷ ds) =
    taken
      (not (is_empty (operation_key meta_key d)) && not (contains deny (operation_key meta_key d)))
      (keyed_from-IsAt (i + 1) meta_key deny ds)
  where
    kept : List Keyed
    kept = keyed_from (i + 1) meta_key deny ds

    here : Keyed
    here = record { index = i; key = operation_key meta_key d; tool = d }

    self : (here.index == here.index) ≡ true
    self = ground arith

    taken :
        (b : Bool)
        → All (IsAt (keyed_from (i + 1) meta_key deny ds)) (keyed_from (i + 1) meta_key deny ds)
        → All (IsAt (if b then here ∷ kept else kept)) (if b then here ∷ kept else kept)
    taken true rest = (
      rw self refl,
      IsAt-cons here kept kept (keyed_from-index (i + 1) meta_key deny ds (suc i) (omega arith))
          rest,
    )
    taken false rest = rest

pub keyed_from-IsOffered :
    (i : ℕ) (meta_key : GoString) (deny : List GoString) (ds : List Descriptor)
    → All (IsOffered meta_key deny ds) (keyed_from i meta_key deny ds)
unfolding keyed_from
keyed_from-IsOffered i meta_key deny [] = tt
keyed_from-IsOffered i meta_key deny (d ∷ ds) =
    taken (is_empty (operation_key meta_key d)) (contains deny (operation_key meta_key d)) refl refl
      (All-IsOffered meta_key deny d ds (keyed_from (i + 1) meta_key deny ds)
        (keyed_from-IsOffered (i + 1) meta_key deny ds))
  where
    kept : List Keyed
    kept = keyed_from (i + 1) meta_key deny ds

    here : Keyed
    here = record { index = i; key = operation_key meta_key d; tool = d }

    taken :
        (e c : Bool)
        → is_empty (operation_key meta_key d) ≡ e
        → contains deny (operation_key meta_key d) ≡ c
        → All (IsOffered meta_key deny (d ∷ ds)) kept
        → All (IsOffered meta_key deny (d ∷ ds)) (if not e && not c then here ∷ kept else kept)
    taken true c p q rest = rest
    taken false true p q rest = rest
    taken false false p q rest =
        ((p, q, ground (arith, str_eq_refl d.name, str_eq_refl (operation_key meta_key d))), rest)
