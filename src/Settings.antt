-- ===== src/Settings.antt =====
-- internal/settings/settings.go: layered settings. Durations are Go int64 nanoseconds, read as
-- integers; the digest (canonical JSON under SHA-256) is an argument, `digest_of`.
pub mod Layers
pub mod Compile
mod Examples
use az_agent_platform_go.Prelude.{
  ◌≡◌, Bool, true, false, not, ◌&&◌, ◌||◌, List, [], ◌∷◌, Option, none, some, GoString, is_empty,
  lookup, insert, keys, sort_strings, Result, ok, err, ◌>>=◌, ◌>>◌, fail_if, ContextError, ℤ, pos,
  ltb_ℤ, if◌then◌else◌,
}

abbrev pub default_max_active_journeys : ℤ
default_max_active_journeys = pos 2

abbrev pub min_max_active_journeys : ℤ
min_max_active_journeys = pos 1

abbrev pub max_max_active_journeys : ℤ
max_max_active_journeys = pos 4

abbrev pub default_interaction_ttl : ℤ
default_interaction_ttl = pos 300_000_000_000

abbrev pub min_interaction_ttl : ℤ
min_interaction_ttl = pos 60_000_000_000

abbrev pub max_interaction_ttl : ℤ
max_interaction_ttl = pos 604_800_000_000_000

pub record Scope : Type 0 where
  pub tenant : GoString
  pub principal : GoString

pub record Cost : Type 0 where
  pub profile : GoString

pub record Settings : Type 0 where
  pub max_active_journeys : ℤ
  pub cost : Cost
  pub interaction_ttl : ℤ
  pub digest : GoString

pub record CostLayer : Type 0 where
  pub profile : Option GoString

pub record Layer : Type 0 where
  pub max_active_journeys : Option ℤ
  pub cost : Option CostLayer
  pub interaction_ttl : Option ℤ

-- The zero value, which a missing map entry reads as.
abbrev pub empty_layer : Layer
empty_layer = record { max_active_journeys = none; cost = none; interaction_ttl = none }

pub record Document : Type 0 where
  pub default : Layer
  pub tenants : List (GoString × Layer)
  pub users : List (GoString × List (GoString × Layer))

pub record Compiled : Type 0 where
  pub def : Layer
  pub tenants : List (GoString × Layer)
  pub users : List (GoString × List (GoString × Layer))

-- The layer that an error names.
pub data LayerName : Type 0 where
  default_layer : LayerName
  tenant_layer : GoString → LayerName
  user_layer : GoString → GoString → LayerName

-- What wraps ErrInvalid, one constructor for each message.
pub data Invalid : Type 0 where
  max_active_outside ttl_outside user_cost : LayerName → Invalid
  empty_tenant_key empty_user_tenant_key : Invalid
  empty_principal_key : GoString → Invalid

-- What `Resolve` fails with: the context's error, or one that wraps ErrUnavailable.
pub data ResolveError {ℓ} (F : Type ℓ) : Type ℓ where
  context : ContextError → ResolveError F
  empty_tenant : ResolveError F
  injected : F → ResolveError F

copy_option {ℓ} : {A : Type ℓ} → Option A → Option A
copy_option none = none
copy_option (some v) = some v

copy_cost : Option CostLayer → Option CostLayer
unfolding copy_option
copy_cost none = none
copy_cost (some c) = some (record { profile = copy_option c.profile })

unfoldable pub copy_layer : Layer → Layer
unfolding copy_option copy_cost
copy_layer l = record {
  max_active_journeys = copy_option l.max_active_journeys;
  cost = copy_cost l.cost;
  interaction_ttl = copy_option l.interaction_ttl;
}

abbrev pub outside : Option ℤ → ℤ → ℤ → Bool
outside none low high = false
outside (some n) low high = ltb_ℤ n low || ltb_ℤ high n

unfoldable pub check_bounds : LayerName → Layer → Result Invalid (Unit {0})
check_bounds name l = do
  fail_if (outside l.max_active_journeys min_max_active_journeys max_max_active_journeys)
      (max_active_outside name)
  fail_if (outside l.interaction_ttl min_interaction_ttl max_interaction_ttl) (ttl_outside name)

abbrev pub or_else {ℓ} : {A : Type ℓ} → Option A → A → A
or_else none d = d
or_else (some v) d = v

abbrev pub cost_profile : Option CostLayer → Option GoString
cost_profile none = none
cost_profile (some c) = c.profile

unfoldable pub apply : Settings → Layer → Settings
apply s l = record s {
  max_active_journeys = or_else l.max_active_journeys s.max_active_journeys;
  cost = record { profile = or_else (cost_profile l.cost) s.cost.profile };
  interaction_ttl = or_else l.interaction_ttl s.interaction_ttl;
}

abbrev pub layer_at : GoString → List (GoString × Layer) → Layer
layer_at k m = or_else (lookup k m) empty_layer

abbrev pub layers_at :
    GoString → List (GoString × List (GoString × Layer)) → List (GoString × Layer)
layers_at k m = or_else (lookup k m) []

-- The loop of `Compile` over the sorted tenants.
unfoldable pub compile_tenants :
    List (GoString × Layer)
    → List GoString
    → List (GoString × Layer)
    → Result Invalid (List (GoString × Layer))
compile_tenants doc [] out = ok out
compile_tenants doc (t ∷ ts) out = do
  fail_if (is_empty t) empty_tenant_key
  let l = copy_layer (layer_at t doc)
  check_bounds (tenant_layer t) l
  compile_tenants doc ts (insert t l out)

is_some {ℓ} : {A : Type ℓ} → Option A → Bool
is_some none = false
is_some (some v) = true

-- The inner loop over the sorted principals of a tenant.
unfoldable pub compile_principals :
    GoString
    → List (GoString × Layer)
    → List GoString
    → List (GoString × Layer)
    → Result Invalid (List (GoString × Layer))
unfolding is_some
compile_principals t doc [] out = ok out
compile_principals t doc (p ∷ ps) out = do
  fail_if (is_empty p) (empty_principal_key t)
  let l = copy_layer (layer_at p doc)
  check_bounds (user_layer t p) l
  fail_if (is_some l.cost) (user_cost (user_layer t p))
  compile_principals t doc ps (insert p l out)

unfoldable pub compile_users :
    List (GoString × List (GoString × Layer))
    → List GoString
    → List (GoString × List (GoString × Layer))
    → Result Invalid (List (GoString × List (GoString × Layer)))
compile_users doc [] out = ok out
compile_users doc (t ∷ ts) out = do
  fail_if (is_empty t) empty_user_tenant_key
  by_principal ← compile_principals t (layers_at t doc) (sort_strings (keys (layers_at t doc))) []
  compile_users doc ts (insert t by_principal out)

unfoldable pub compile : Document → Result Invalid Compiled
compile doc = do
  let def = copy_layer doc.default
  check_bounds default_layer def
  tenants ← compile_tenants doc.tenants (sort_strings (keys doc.tenants)) []
  users ← compile_users doc.users (sort_strings (keys doc.users)) []
  ok (record { def = def; tenants = tenants; users = users })

-- `if n := user.X; n != nil && *n < s.X { s.X = *n }`
abbrev narrow : Option ℤ → ℤ → ℤ
narrow none n = n
narrow (some u) n = if ltb_ℤ u n then u else n

module _ (digest_of : ℤ → GoString → ℤ → GoString) where
  unfoldable pub merge : Layer → Layer → Layer → Settings
  unfolding apply
  merge def tenant user =
      let built_in : Settings = record {
        max_active_journeys = default_max_active_journeys;
        cost = record { profile = [] };
        interaction_ttl = default_interaction_ttl;
        digest = [];
      } in
      let s = apply (apply built_in def) tenant in
      let n = narrow user.max_active_journeys s.max_active_journeys in
      let d = narrow user.interaction_ttl s.interaction_ttl in
      record {
        max_active_journeys = n;
        cost = s.cost;
        interaction_ttl = d;
        digest = digest_of n s.cost.profile d;
      }

  unfoldable pub resolve {ℓ} :
      {F : Type ℓ} → Compiled → Option ContextError → Scope → Result (ResolveError F) Settings
  resolve c (some e) scope = err (context e)
  resolve c none scope =
      if is_empty scope.tenant
      then err empty_tenant
      else ok (
          merge c.def (layer_at scope.tenant c.tenants)
            (layer_at scope.principal (layers_at scope.tenant c.users)))

-- The `Mutable` source of the tests.
pub record Mutable {ℓ} (F : Type ℓ) : Type ℓ where
  pub c : Compiled
  pub fail : Option F

module _ {ℓ} {F : Type ℓ} where
  unfoldable pub new_mutable : Document → Result Invalid (Mutable F)
  new_mutable doc = do c ← compile doc; ok (record { c = c; fail = none })

  -- The state after the call, and its error.
  unfoldable pub set_document : Mutable F → Document → Mutable F × Option Invalid
  set_document m doc = elim (compile doc) [
    | ok c ↦ (record m { c = c }, none)
    | err e ↦ (m, some e)
  ]

  unfoldable pub set_failure : Mutable F → Option F → Mutable F
  set_failure m fail = record m { fail = fail }

  unfoldable pub resolve_mutable :
      (ℤ → GoString → ℤ → GoString)
      → Mutable F
      → Option ContextError
      → Scope
      → Result (ResolveError F) Settings
  resolve_mutable digest_of m ctx scope = elim m.fail [
    | some f ↦ err (injected f)
    | none ↦ resolve digest_of m.c ctx scope
  ]
