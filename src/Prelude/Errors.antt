-- ===== src/Prelude/Errors.antt =====
-- Go's `(T, error)` with a nil value on error, and `ctx.Err()`.
use mathlib.Core.Path.{◌≡◌, refl}
use mathlib.Core.Logic.{◌⊎◌, ◌≢◌, inl, inr}
use mathlib.Core.Bool.{Bool, true, false}

pub data Result {ℓ κ} (E : Type ℓ) (A : Type κ) : Type (ℓ ⊔ κ) where
  ok : A → Result E A
  err : E → Result E A

infixl 5 ◌>>◌ ◌>>=◌
abbrev pub ◌>>=◌ {ℓ κ μ} :
    {E : Type ℓ} {A : Type κ} {B : Type μ} → Result E A → (A → Result E B) → Result E B
err fault >>= next = err fault
ok value >>= next = next value

abbrev pub ◌>>◌ {ℓ μ} : {E : Type ℓ} {B : Type μ} → Result E (Unit {0}) → Result E B → Result E B
check >> next = check >>= λ _. next

-- `if bad { return err }`
abbrev pub fail_if {ℓ} : {E : Type ℓ} → Bool → E → Result E (Unit {0})
fail_if true e = err e
fail_if false e = ok tt

pub Result-cases {ℓ κ} :
    {E : Type ℓ} {A : Type κ} (r : Result E A) → ((a : A) × (r ≡ ok a)) ⊎ ((e : E) × (r ≡ err e))
Result-cases (ok a) = inl (a, refl)
Result-cases (err e) = inr (e, refl)

-- The error of a context that is done; none for a live one.
pub data ContextError : Type 0 where
  canceled deadline_exceeded : ContextError

-- Where a chain succeeds, its first step did, and the rest from there.
pub bind_ok {ℓ κ μ} :
    {E : Type ℓ} {A : Type κ} {B : Type μ} (first : Result E A) (next : A → Result E B) {out : B}
    → (first >>= next) ≡ ok out
    → (value : A) × (first ≡ ok value) × (next value ≡ ok out)
bind_ok (err fault) next h = cc
bind_ok (ok value) next h = (value, refl, h)

pub check_ok {ℓ μ} :
    {E : Type ℓ} {B : Type μ} (check : Result E (Unit {0})) (next : Result E B) {out : B}
    → (check >> next) ≡ ok out
    → (check ≡ ok tt) × (next ≡ ok out)
check_ok (err fault) next h = cc
check_ok (ok tt) next h = (refl, h)

pub not_failed {ℓ} : {E : Type ℓ} (b : Bool) (e : E) → fail_if b e ≡ ok tt → b ≡ false
not_failed true e h = cc
not_failed false e h = refl

pub ok-injective {ℓ κ} :
    {E : Type ℓ} {C : Type κ} {a b : C} → ◌≡◌ {A = Result E C} (ok a) (ok b) → a ≡ b
ok-injective h = cc

pub err≢ok {ℓ κ} : {E : Type ℓ} {C : Type κ} {e : E} {a : C} → ◌≢◌ {A = Result E C} (err e) (ok a)
err≢ok h = cc
