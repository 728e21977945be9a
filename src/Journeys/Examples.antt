-- ===== src/Journeys/Examples.antt =====
-- The active set at concrete journeys (internal/journeys/journeys_test.go has the like).
use az_agent_platform_go.Prelude.{
  ◌≡◌, refl, true, false, [], ◌∷◌, none, some, GoString, codes, str_eq, contains, arith, length,
  filterb, take, not, ◌↔◌, ◌⊎◌, ◌-◌, ◌≤◌, ◌<◌, ◌++◌,
}
use Prim.Native.Nat.{min, max}
use az_agent_platform_go.Journeys.{
  ActiveSet, refused, activate, fit, touch, victims, victims_loop, index, delete_at, remove,
  new_active_set,
}
use az_agent_platform_go.Journeys.Victims.{unpinned}
use az_agent_platform_go.Journeys.Recency.{IsValid, without, touch_lem, new_active_set-ids}
use az_agent_platform_go.Journeys.Eviction.{
  pinned_count, activate_inactive, activate_active, activate-IsValid, activate_keeps_pinned,
  fit_lem,
}

abbrev leave : GoString
leave = codes "leave"

abbrev expenses : GoString
expenses = codes "expenses"

abbrev shifts : GoString
shifts = codes "shifts"

abbrev two_active : ActiveSet
two_active = record { ids = leave ∷ expenses ∷ [] }

two_active-IsValid : IsValid two_active
unfolding contains str_eq
two_active-IsValid = record { distinct = (refl, (refl, tt)); named = refl }

touch_oldest : (touch two_active leave).0.ids ≡ expenses ∷ leave ∷ []
unfolding touch index delete_at str_eq
touch_oldest = refl

activate_third : (activate two_active shifts 2 (leave ∷ [])).set.ids ≡ leave ∷ shifts ∷ []
unfolding activate index delete_at victims victims_loop remove contains str_eq
activate_third = refl

touch_lem_example :
    let (b, changed) = touch two_active leave in
    ((contains two_active.ids leave ≡ true)
      × (b.ids ≡ without leave two_active.ids ++ leave ∷ [])
      × ((changed ≡ false) ↔ (b.ids ≡ two_active.ids)))
    ⊎ ((contains two_active.ids leave ≡ false) × (b ≡ two_active) × (changed ≡ false))
touch_lem_example = touch_lem two_active leave two_active-IsValid

activate_inactive_example :
    let o = activate two_active shifts 2 (leave ∷ []) in
    let gone = take (length two_active.ids - 1) (unpinned (leave ∷ []) two_active.ids) in
    ((2 ≤ pinned_count two_active (leave ∷ []))
      × (o.err ≡ some refused)
      × (o.set ≡ two_active)
      × (o.evicted ≡ []))
    ⊎ ((pinned_count two_active (leave ∷ []) < 2)
        × (o.err ≡ none)
        × (o.evicted ≡ gone)
        × (o.set.ids ≡ filterb (λ x. not (contains gone x)) two_active.ids ++ shifts ∷ [])
        × (length o.set.ids ≤ 2))
unfolding contains str_eq
activate_inactive_example =
    activate_inactive two_active shifts 2 (leave ∷ []) two_active-IsValid refl (omega arith) refl

activate_active_example :
    let o = activate two_active leave 2 [] in
    (o.err ≡ none) × (o.evicted ≡ []) × (o.set.ids ≡ without leave two_active.ids ++ leave ∷ [])
unfolding contains str_eq
activate_active_example =
    activate_active two_active leave 2 [] two_active-IsValid refl (omega arith) refl

activate-IsValid_example : IsValid (activate two_active shifts 2 []).set
activate-IsValid_example = activate-IsValid two_active shifts 2 [] two_active-IsValid

activate_keeps_pinned_example :
    contains (activate two_active shifts 2 (expenses ∷ [])).set.ids expenses ≡ true
unfolding contains str_eq
activate_keeps_pinned_example =
    activate_keeps_pinned two_active shifts 2 (expenses ∷ []) expenses two_active-IsValid refl refl

fit_lem_example :
    let o = fit two_active 1 [] in
    (o.err ≡ none)
    × (o.evicted ≡ take (length two_active.ids - 1) (unpinned [] two_active.ids))
    × (length o.set.ids ≤ max 1 (pinned_count two_active []))
    × (min 1 (length two_active.ids) ≤ length o.set.ids)
    × ((j : GoString)
        → contains two_active.ids j ≡ true
        → contains [] j ≡ true
        → contains o.set.ids j ≡ true)
fit_lem_example = fit_lem two_active 1 [] two_active-IsValid (omega arith)

new_active_set-ids_example : new_active_set two_active.ids ≡ two_active
new_active_set-ids_example = new_active_set-ids two_active two_active-IsValid
