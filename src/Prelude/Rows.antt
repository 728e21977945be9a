-- ===== src/Prelude/Rows.antt =====
-- SQL statements on the rows of a table, kept in insertion order.
use mathlib.Core.Path.{◌≡◌, refl, subst, ap, ◌∙◌}
use mathlib.Core.Bool.{Bool, true, false}
use mathlib.Core.Logic.{inl, inr}
use mathlib.Core.List.{List, [], ◌∷◌, ◌++◌}
use mathlib.Core.Option.{Option, none, some}
use az_agent_platform_go.Prelude.Tests.{if◌then◌else◌, Bool-cases}
use az_agent_platform_go.Prelude.Lists.{All, anyb}

module _ {ℓ} {A : Type ℓ} where
  -- UPDATE … SET f WHERE p
  abbrev pub update_rows : (A → Bool) → (A → A) → List A → List A
  update_rows p f [] = []
  update_rows p f (x ∷ xs) = (if p x then f x else x) ∷ update_rows p f xs

  -- SELECT … WHERE p, at most one row.
  abbrev pub find_row : (A → Bool) → List A → Option A
  find_row p [] = none
  find_row p (x ∷ xs) = let rest = find_row p xs in if p x then some x else rest

  pub All-append_one {κ} :
      (P : A → Type κ) (xs : List A) (x : A) → All P xs → P x → All P (xs ++ x ∷ [])
  All-append_one P [] x h p = (p, tt)
  All-append_one P (y ∷ xs) x h p = (h.0, All-append_one P xs x h.1 p)

  pub All-update_rows {κ} :
      (P : A → Type κ) (p : A → Bool) (f : A → A) (xs : List A)
      → ((x : A) → p x ≡ true → P x → P (f x))
      → All P xs
      → All P (update_rows p f xs)
  All-update_rows P p f [] k h = tt
  All-update_rows P p f (x ∷ xs) k h = (keep (p x) (k x) h.0, All-update_rows P p f xs k h.1)
    where
      keep : (b : Bool) → (b ≡ true → P x → P (f x)) → P x → P (if b then f x else x)
      keep true g px = g refl px
      keep false g px = px

  -- Every row of a table has what all of them have.
  pub find_row-All {κ} :
      (P : A → Type κ) (p : A → Bool) (xs : List A) (x : A)
      → All P xs
      → find_row p xs ≡ some x
      → P x × (p x ≡ true)
  find_row-All P p [] x h e = cc
  find_row-All P p (y ∷ xs) x h e = elim (Bool-cases (p y)) [
    | inl t ↦
        let found : some y ≡ some x = rw t at e in
        let same : y ≡ x = cc found in subst (λ z. P z × (p z ≡ true)) same (h.0, t)
    | inr t ↦ find_row-All P p xs x h.1 (rw t at e)
  ]

  pub find_row-anyb :
      (p : A → Bool) (xs : List A) (x : A) → find_row p xs ≡ some x → anyb p xs ≡ true
  find_row-anyb p [] x e = cc
  find_row-anyb p (y ∷ xs) x e = elim (Bool-cases (p y)) [
    | inl t ↦ rw t refl
    | inr t ↦ rw t (find_row-anyb p xs x (rw t at e))
  ]

  -- A row that is found passes the test.
  pub find_row-true : (p : A → Bool) (xs : List A) (x : A) → find_row p xs ≡ some x → p x ≡ true
  find_row-true p [] x e = cc
  find_row-true p (y ∷ xs) x e = elim (Bool-cases (p y)) [
    | inl t ↦
        let found : some y ≡ some x = rw t at e in
        let same : y ≡ x = cc found in subst (λ z. p z ≡ true) same t
    | inr t ↦ find_row-true p xs x (rw t at e)
  ]

  -- The row that a query finds after it has been written.
  pub find_row-update_rows :
      (p : A → Bool) (f : A → A) (xs : List A) (r : A)
      → ((x : A) → p (f x) ≡ p x)
      → find_row p xs ≡ some r
      → find_row p (update_rows p f xs) ≡ some (f r)
  find_row-update_rows p f [] r same h = cc
  find_row-update_rows p f (x ∷ xs) r same h = elim (Bool-cases (p x)) [
    | inl e ↦
        let found : some x ≡ some r = rw e at h in
        let here : x ≡ r = cc found in rw (e, same x ∙ e) (ap (λ y. some (f y)) here)
    | inr e ↦ rw (e, e) (find_row-update_rows p f xs r same (rw e at h))
  ]
