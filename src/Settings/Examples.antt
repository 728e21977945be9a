-- ===== src/Settings/Examples.antt =====
-- Settings at concrete documents.
use az_agent_platform_go.Prelude.{
  ◌≡◌, refl, [], ◌∷◌, none, some, GoString, codes, ok, err, ℤ, pos, ◌≤ℤ◌, lookup, insert,
  sort_strings, str_eq, if◌then◌else◌, is_empty,
}
use az_agent_platform_go.Settings.{
  Layer, Document, Compiled, Scope, empty_layer, copy_layer, check_bounds, compile_tenants,
  compile_principals, compile_users, compile, merge, resolve, layer_at, layers_at, empty_tenant,
}
use az_agent_platform_go.Settings.Layers.{AreBounded, merge_narrows}
use az_agent_platform_go.Settings.Compile.{resolve-compile, resolve_bounds}

abbrev no_digest : ℤ → GoString → ℤ → GoString
no_digest n p d = []

abbrev three_journeys : Layer
three_journeys = record { max_active_journeys = some (pos 3); cost = none; interaction_ttl = none }

abbrev one_journey : Layer
one_journey = record { max_active_journeys = some (pos 1); cost = none; interaction_ttl = none }

abbrev acme : GoString
acme = codes "acme"

abbrev ann : GoString
ann = codes "ann"

abbrev acme_document : Document
acme_document = record {
  default = empty_layer;
  tenants = (acme, three_journeys) ∷ [];
  users = (acme, (ann, one_journey) ∷ []) ∷ [];
}

abbrev acme_compiled : Compiled
acme_compiled = record {
  def = empty_layer;
  tenants = (acme, three_journeys) ∷ [];
  users = (acme, (ann, one_journey) ∷ []) ∷ [];
}

abbrev ann_at_acme : Scope
ann_at_acme = record { tenant = acme; principal = ann }

acme_compiles : compile acme_document ≡ ok acme_compiled
unfolding compile copy_layer check_bounds compile_tenants compile_principals compile_users
    sort_strings lookup insert str_eq
acme_compiles = refl

ann_resolves :
    resolve no_digest {F = GoString} acme_compiled none ann_at_acme
    ≡ ok (merge no_digest empty_layer three_journeys one_journey)
unfolding resolve lookup str_eq
ann_resolves = refl

merge_narrows_example :
    let with_user = merge no_digest empty_layer three_journeys one_journey in
    let without_user = merge no_digest empty_layer three_journeys empty_layer in
    (with_user.max_active_journeys ≤ℤ without_user.max_active_journeys)
    × (with_user.interaction_ttl ≤ℤ without_user.interaction_ttl)
    × (with_user.cost ≡ without_user.cost)
merge_narrows_example = merge_narrows no_digest empty_layer three_journeys one_journey

resolve-compile_example : resolve no_digest {F = GoString} acme_compiled none ann_at_acme ≡ (
    if is_empty acme
    then err empty_tenant
    else ok (
        merge no_digest empty_layer
          (layer_at acme acme_document.tenants)
          (layer_at ann (layers_at acme acme_document.users))))
resolve-compile_example =
    resolve-compile no_digest acme_document acme_compiled none ann_at_acme acme_compiles

resolve_bounds_example : AreBounded (merge no_digest empty_layer three_journeys one_journey)
resolve_bounds_example =
    resolve_bounds no_digest {F = GoString} acme_document acme_compiled none ann_at_acme
      (merge no_digest empty_layer three_journeys one_journey) acme_compiles ann_resolves
