-- ===== src/Tenants/Changes.antt =====
-- internal/tenantdir/tenantdir.go: the setters of a Mutable directory, and the sorted IDs of an
-- allowlist.
use native.Mathlib.Omega.{arith}
use az_agent_platform_go.Prelude.{
  ◌≡◌, refl, false, not, ◌||◌, List, [], ◌∷◌, Option, none, some, GoString, str_eq, is_empty,
  lookup, insert, keys, sort_strings, if◌then◌else◌, ok, err, lookup-insert_self, lookup-insert_ne,
}
use az_agent_platform_go.Tenants.Directory.{
  Entry, MutableDirectory, resolve_directory, valid_endpoint_id, unavailable, unknown_tenant,
}

-- NewMutable
abbrev new_directory : List (GoString × Entry) → MutableDirectory
new_directory entries = record { entries = entries; failure = none }

-- Mutable.Set
unfoldable set_entry : GoString → Entry → MutableDirectory → MutableDirectory
set_entry tenant e m = record m { entries = insert tenant e m.entries }

-- `delete(m, key)`
unfoldable delete_key : GoString → List (GoString × Entry) → List (GoString × Entry)
delete_key key [] = []
delete_key key ((first, value) ∷ entries) =
    let rest = delete_key key entries in if str_eq first key then rest else (first, value) ∷ rest

-- Mutable.Delete
unfoldable delete_entry : GoString → MutableDirectory → MutableDirectory
unfolding delete_key
delete_entry tenant m = record m { entries = delete_key tenant m.entries }

-- Mutable.Fail
unfoldable fail_with : Option GoString → MutableDirectory → MutableDirectory
fail_with failure m = record m { failure = failure }

-- Allowlist.IDs
abbrev endpoint_ids : List (GoString × GoString) → List GoString
endpoint_ids urls = sort_strings (keys urls)

lookup-delete_key :
    (key : GoString) (entries : List (GoString × Entry))
    → lookup key (delete_key key entries) ≡ none
unfolding delete_key lookup
lookup-delete_key key [] = refl
lookup-delete_key key ((first, value) ∷ entries) = ground (arith, lookup-delete_key key entries)

-- A well-formed entry that is set for a tenant is the one that resolves, unless a failure is set.
resolve_directory-set_entry :
    (tenant : GoString) (e : Entry) (m : MutableDirectory)
    → m.failure ≡ none
    → is_empty tenant ≡ false
    → (is_empty e.product_version || not (valid_endpoint_id e.endpoint_id)) ≡ false
    → resolve_directory none (set_entry tenant e m) tenant ≡ ok e
unfolding resolve_directory set_entry
resolve_directory-set_entry tenant e m sound named valid =
    simp (sound, named, valid, lookup-insert_self)

-- Setting one tenant leaves what every other tenant resolves to.
resolve_directory-set_other :
    (tenant other : GoString) (e : Entry) (m : MutableDirectory)
    → str_eq tenant other ≡ false
    → resolve_directory none (set_entry tenant e m) other ≡ resolve_directory none m other
unfolding resolve_directory set_entry
resolve_directory-set_other tenant other e m h = cc (lookup-insert_ne tenant other e m.entries h)

-- A deleted tenant is unknown, unless a failure is set.
resolve_directory-delete_entry :
    (tenant : GoString) (m : MutableDirectory)
    → m.failure ≡ none
    → is_empty tenant ≡ false
    → resolve_directory none (delete_entry tenant m) tenant ≡ err unknown_tenant
unfolding resolve_directory delete_entry
resolve_directory-delete_entry tenant m sound named =
    simp (sound, named, lookup-delete_key tenant m.entries)

-- With a failure set, no tenant resolves.
resolve_directory-fail_with :
    (f tenant : GoString) (m : MutableDirectory)
    → resolve_directory none (fail_with (some f) m) tenant ≡ err unavailable
unfolding resolve_directory fail_with
resolve_directory-fail_with f tenant m = refl
