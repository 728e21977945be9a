-- ===== src/Journeys.antt =====
-- internal/journeys/journeys.go: the active set of a conversation, least recently used first.
-- A limit is a Go int; its callers pass 1 to 4, and a negative one is refused as 0 is.
pub mod Victims
pub mod Recency
pub mod Eviction
mod Examples
use az_agent_platform_go.Prelude.{
  ℕ, zero, suc, ◌+◌, ◌-◌, ◌≡◌, Bool, true, false, not, ◌||◌, List, [], ◌∷◌, ◌++◌, Option, none,
  some, GoString, str_eq, contains, Distinct, is_empty, length, filterb, ltb, leb, ◌==◌,
  if◌then◌else◌,
}

pub record ActiveSet : Type 0 where
  pub ids : List GoString

pub data ActivateError : Type 0 where
  invalid refused : ActivateError

-- What a mutating method leaves: the set, the evicted journeys, the error.
pub record Outcome : Type 0 where
  pub set : ActiveSet
  pub evicted : List GoString
  pub err : Option ActivateError

new_loop : List GoString → List GoString → List GoString
new_loop ids [] = ids
new_loop ids (id ∷ rest) =
    new_loop (if is_empty id || contains ids id then ids else ids ++ id ∷ []) rest

unfoldable pub new_active_set : List GoString → ActiveSet
unfolding new_loop
new_active_set ids = record { ids = new_loop [] ids }

-- slices.Index, with none for -1.
unfoldable pub index : List GoString → GoString → Option ℕ
index [] id = none
index (x ∷ xs) id =
    let rest = index xs id in
    if str_eq x id then some 0 else elim rest [ none ↦ none | some i ↦ some (suc i) ]

-- slices.Delete(ids, i, i+1)
unfoldable pub delete_at : List GoString → ℕ → List GoString
delete_at [] i = []
delete_at (x ∷ xs) zero = xs
delete_at (x ∷ xs) (suc i) = x ∷ delete_at xs i

-- `Remove`: what stays, and what was present.
unfoldable pub remove : ActiveSet → List GoString → ActiveSet × List GoString
remove a gone = (
  record { ids = filterb (λ id. not (contains gone id)) a.ids },
  filterb (λ id. contains gone id) a.ids,
)

unfoldable pub touch : ActiveSet → GoString → ActiveSet × Bool
touch a id = elim (index a.ids id) [
  | none ↦ (a, false)
  | some i ↦
      if suc i == length a.ids
      then (a, false)
      else (record { ids = delete_at a.ids i ++ id ∷ [] }, true)
]

-- The loop of `victims`, which stops when enough are found.
unfoldable pub victims_loop : ℕ → List GoString → List GoString → List GoString → List GoString
victims_loop excess pinned found [] = found
victims_loop excess pinned found (id ∷ rest) =
    let next =
      victims_loop excess pinned (if contains pinned id then found else found ++ id ∷ []) rest in
    if leb excess (length found) then found else next

-- `excess` is negative in the source where `max` is above the length: no victim is taken either way.
unfoldable pub victims : ActiveSet → ℕ → List GoString → List GoString × Bool
victims a max pinned =
    let excess = length a.ids - max in
    let found = victims_loop excess pinned [] a.ids in (found, leb excess (length found))

unfoldable pub activate : ActiveSet → GoString → ℕ → List GoString → Outcome
activate a id limit pinned =
    if is_empty id || ltb limit 1
    then record { set = a; evicted = []; err = some invalid }
    else elim (index a.ids id) [
      | some i ↦ record {
        set = record { ids = delete_at a.ids i ++ id ∷ [] };
        evicted = [];
        err = none;
      }
      | none ↦
          let (gone, enough) = victims a (limit - 1) pinned in
          if enough
          then record {
            set = record { ids = (remove a gone).0.ids ++ id ∷ [] };
            evicted = gone;
            err = none;
          }
          else record { set = a; evicted = []; err = some refused }
    ]

unfoldable pub fit : ActiveSet → ℕ → List GoString → Outcome
fit a limit pinned =
    if ltb limit 1
    then record { set = a; evicted = []; err = some invalid }
    else (let gone = (victims a limit pinned).0 in
        record { set = (remove a gone).0; evicted = gone; err = none })
