-- ===== src/Settings/Layers.antt =====
-- What layered settings promise (internal/settings/settings.go).
use az_agent_platform_go.Prelude.{◌≡◌, Option, none, some, GoString, ok, ℤ, ◌≤ℤ◌, arith}
use az_agent_platform_go.Settings.{
  Layer, Settings, empty_layer, LayerName, copy_layer, check_bounds, merge, min_max_active_journeys,
  max_max_active_journeys, min_interaction_ttl, max_interaction_ttl,
}

-- A layer that sets only values in range.
abbrev pub InRange : Option ℤ → ℤ → ℤ → Type 0
InRange none low high = Unit {0}
InRange (some n) low high = (low ≤ℤ n) × (n ≤ℤ high)

pub record IsBounded (l : Layer) : Type 0 where
  pub journeys : InRange l.max_active_journeys min_max_active_journeys max_max_active_journeys
  pub ttl : InRange l.interaction_ttl min_interaction_ttl max_interaction_ttl

abbrev pub AreBounded : Settings → Type 0
AreBounded s =
    (min_max_active_journeys ≤ℤ s.max_active_journeys)
    × (s.max_active_journeys ≤ℤ max_max_active_journeys)
    × (min_interaction_ttl ≤ℤ s.interaction_ttl)
    × (s.interaction_ttl ≤ℤ max_interaction_ttl)

pub copy_layer_lem : (l : Layer) → copy_layer l ≡ l
unfolding copy_layer
copy_layer_lem l = ground arith

pub check_bounds-IsBounded :
    (name : LayerName) (l : Layer) → check_bounds name l ≡ ok tt → IsBounded l
unfolding check_bounds
check_bounds-IsBounded name l h = ground arith

module _ (digest_of : ℤ → GoString → ℤ → GoString) where
  -- The user's layer can only narrow: the limits are at most those that the tenant has without it,
  -- and the cost profile is the tenant's.
  pub merge_narrows :
      (def tenant user : Layer)
      → let with_user = merge digest_of def tenant user in
        let without_user = merge digest_of def tenant empty_layer in
        (with_user.max_active_journeys ≤ℤ without_user.max_active_journeys)
        × (with_user.interaction_ttl ≤ℤ without_user.interaction_ttl)
        × (with_user.cost ≡ without_user.cost)
  unfolding merge
  merge_narrows def tenant user = ground arith

  pub merge_bounds :
      (def tenant user : Layer)
      → IsBounded def
      → IsBounded tenant
      → IsBounded user
      → let s = merge digest_of def tenant user in AreBounded s
  unfolding merge
  merge_bounds def tenant user d t u = ground arith
