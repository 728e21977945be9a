-- ===== src/Journal/Held.antt =====
-- internal/journal: rows of agent_interactions that are used up stay so through every transaction of
-- the store. A transaction is known here by what it makes of the table's rows.
use native.Mathlib.Omega.{arith}
use az_agent_platform_go.Prelude.{
  ◌≡◌, refl, Bool, true, false, not, ◌&&◌, ◌||◌, List, [], ◌∷◌, ◌++◌, Option, some, GoString,
  str_eq, str_eq_iff, anyb, update_rows, find_row, All, All-append_one, All-update_rows,
  find_row-All, inl, inr, Bool-cases,
}
use az_agent_platform_go.Journal.{InteractionRow, Marker}
use az_agent_platform_go.Journal.Operations.{is_consumed}

abbrev pub is_dispatched : Option Marker → Bool
is_dispatched (some Marker.dispatched) = true
is_dispatched _ = false

-- The row is consumed and, where `sent`, its approval is dispatched.
abbrev pub is_used : Bool → InteractionRow → Bool
is_used sent i = is_consumed i.state && (not sent || is_dispatched i.marker)

abbrev pub IsUsedAt : Bool → GoString → InteractionRow → Type 0
IsUsedAt sent id i = str_eq i.id id ≡ true → is_used sent i ≡ true

-- There is a row of the ID, and every one is used.
unfoldable pub Held : Bool → GoString → List InteractionRow → Type 0
Held sent id xs =
    All (IsUsedAt sent id) xs × (anyb (λ (i : InteractionRow). str_eq i.id id) xs ≡ true)

-- An update that leaves the ID of a row alone leaves a row of the ID.
pub anyb-update_rows :
    (id : GoString) (p : InteractionRow → Bool) (f : InteractionRow → InteractionRow)
    (xs : List InteractionRow)
    → ((i : InteractionRow) → (f i).id ≡ i.id)
    → anyb (λ (i : InteractionRow). str_eq i.id id) (update_rows p f xs)
      ≡ anyb (λ (i : InteractionRow). str_eq i.id id) xs
anyb-update_rows id p f [] h = refl
anyb-update_rows id p f (x ∷ xs) h = elim (Bool-cases (p x)) [
  | inl t ↦ rw (t, h x, anyb-update_rows id p f xs h) refl
  | inr t ↦ rw (t, anyb-update_rows id p f xs h) refl
]

pub Held-update_rows :
    (sent : Bool) (id : GoString) (p : InteractionRow → Bool) (f : InteractionRow → InteractionRow)
    (xs : List InteractionRow)
    → ((i : InteractionRow) → (f i).id ≡ i.id)
    → ((i : InteractionRow) → p i ≡ true → IsUsedAt sent id i → IsUsedAt sent id (f i))
    → Held sent id xs
    → Held sent id (update_rows p f xs)
unfolding Held
Held-update_rows sent id p f xs same keep h =
    (All-update_rows (IsUsedAt sent id) p f xs keep h.0, rw (anyb-update_rows id p f xs same) h.1)

anyb-append_one :
    (id : GoString) (xs : List InteractionRow) (i : InteractionRow)
    → anyb (λ (a : InteractionRow). str_eq a.id id) xs ≡ true
    → anyb (λ (a : InteractionRow). str_eq a.id id) (xs ++ i ∷ []) ≡ true
anyb-append_one id [] i h = cc
anyb-append_one id (x ∷ xs) i h = ground (arith, anyb-append_one id xs i)

-- A new row has an ID that no row has.
fresh_row :
    (id new : GoString) (xs : List InteractionRow) (q : InteractionRow → Bool)
    → anyb (λ (a : InteractionRow). str_eq a.id new || q a) xs ≡ false
    → anyb (λ (a : InteractionRow). str_eq a.id id) xs ≡ true
    → str_eq new id ≡ false
fresh_row id new [] q h g = cc
fresh_row id new (x ∷ xs) q h g =
    ground
      (arith, fresh_row id new xs q, str_eq_iff new id, str_eq_iff x.id id, str_eq_iff x.id new)

pub Held-append :
    (sent : Bool) (id : GoString) (xs : List InteractionRow) (i : InteractionRow)
    (q : InteractionRow → Bool)
    → anyb (λ (a : InteractionRow). str_eq a.id i.id || q a) xs ≡ false
    → Held sent id xs
    → Held sent id (xs ++ i ∷ [])
unfolding Held
Held-append sent id xs i q free h =
    let other = fresh_row id i.id xs q free h.1 in
    (All-append_one (IsUsedAt sent id) xs i h.0 (λ e. cc (other, e)), anyb-append_one id xs i h.1)

-- A row that is found under the ID is used.
pub Held-found :
    (sent : Bool) (id : GoString) (p : InteractionRow → Bool) (xs : List InteractionRow)
    (i : InteractionRow)
    → Held sent id xs
    → find_row p xs ≡ some i
    → IsUsedAt sent id i
unfolding Held
Held-found sent id p xs i h e = (find_row-All (IsUsedAt sent id) p xs i h.0 e).0
