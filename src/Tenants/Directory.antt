-- ===== src/Tenants/Directory.antt =====
-- internal/tenantdir/tenantdir.go and static.go: directories, the allowlist, and Lookup. The parser
-- of URLs is a parameter.
use az_agent_platform_go.Prelude.{
  ℕ, Bool, true, not, ◌&&◌, ◌||◌, List, [], ◌∷◌, Option, none, some, GoString, str_eq, is_empty,
  codes, length, leb, ◌==◌, anyb, lookup, keys, sort_strings, Result, ok, err, ◌>>=◌, ◌>>◌, fail_if,
  if◌then◌else◌, ContextError,
}

pub record Entry : Type 0 where
  pub product_version : GoString
  pub endpoint_id : GoString

-- ErrUnavailable with its reason, the error of a context that is done, and the errors of a
-- configuration.
pub data TenantError : Type 0 where
  unavailable empty_tenant unknown_tenant invalid_entry not_allowlisted no_directory : TenantError
  context_error : ContextError → TenantError
  invalid_endpoint_id bad_url relative_url no_host has_userinfo has_fragment : TenantError
  no_tenants no_tenant_name no_product_version missing_equals duplicate_id : TenantError

abbrev pub is_id_byte : ℕ → Bool
is_id_byte c =
    leb 97 c && leb c 122
    || leb 65 c && leb c 90
    || leb 48 c && leb c 57
    || c == 46
    || c == 95
    || c == 45

abbrev pub all_id_bytes : GoString → Bool
all_id_bytes [] = true
all_id_bytes (c ∷ cs) = is_id_byte c && all_id_bytes cs

-- ValidEndpointID
unfoldable pub valid_endpoint_id : GoString → Bool
valid_endpoint_id id = not (is_empty id) && leb (length id) 128 && all_id_bytes id

pub record MutableDirectory : Type 0 where
  pub entries : List (GoString × Entry)
  pub failure : Option GoString

-- ctx.Err() first, then the failure that is set.
unfoldable pub resolve_directory :
    Option ContextError → MutableDirectory → GoString → Result TenantError Entry
unfolding valid_endpoint_id
resolve_directory (some e) m tenant = err (context_error e)
resolve_directory none m tenant = elim m.failure [
  | some f ↦ err unavailable
  | none ↦ if is_empty tenant then err empty_tenant else elim (lookup tenant m.entries) [
    | none ↦ err unknown_tenant
    | some e ↦
        if is_empty e.product_version || not (valid_endpoint_id e.endpoint_id)
        then err invalid_entry
        else ok e
  ]
]

-- What url.Parse finds in a text; fragment is RawFragment where Fragment is empty.
pub record ParsedUrl : Type 0 where
  pub is_absolute : Bool
  pub scheme : GoString
  pub host_name : GoString
  pub has_user : Bool
  pub fragment : GoString
  pub text : GoString

abbrev pub has_hash : GoString → Bool
has_hash s = anyb (λ c. c == 35) s

abbrev pub is_http : GoString → Bool
is_http s = str_eq s (codes "http") || str_eq s (codes "https")

-- Allowlist and Endpoint
pub record Endpoint : Type 0 where
  pub id : GoString
  pub url : GoString

module _ (parse : GoString → Option ParsedUrl) where
  -- normalizeURL
  unfoldable pub normalize_url : GoString → GoString → Result TenantError GoString
  unfolding valid_endpoint_id
  normalize_url id raw =
      fail_if (not (valid_endpoint_id id)) invalid_endpoint_id >> elim (parse raw) [
        | none ↦ err bad_url
        | some u ↦
            fail_if (not u.is_absolute || not (is_http u.scheme)) relative_url
            >> (fail_if (is_empty u.host_name) no_host
                >> (fail_if u.has_user has_userinfo
                    >> (fail_if (not (is_empty u.fragment) || has_hash raw) has_fragment
                        >> ok u.text)))
      ]

  -- NewAllowlist; a map has each key once, so the order of the loop does not matter.
  unfoldable pub new_allowlist :
      List (GoString × GoString) → Result TenantError (List (GoString × GoString))
  unfolding normalize_url
  new_allowlist [] = ok []
  new_allowlist ((id, raw) ∷ rest) =
      normalize_url id raw >>= λ url. new_allowlist rest >>= λ urls. ok ((id, url) ∷ urls)

-- Allowlist.Endpoint
unfoldable pub endpoint : List (GoString × GoString) → GoString → Result TenantError Endpoint
endpoint urls id = elim (lookup id urls) [
  | none ↦ err not_allowlisted
  | some url ↦ ok (record { id = id; url = url })
]

-- Endpoint.Valid
abbrev pub is_usable : Endpoint → Bool
is_usable e = not (is_empty e.id) && not (is_empty e.url)

-- Lookup, with the directory's Resolve already applied to the context; `none` for no directory.
unfoldable pub look_up :
    Option (GoString → Result TenantError Entry)
    → List (GoString × GoString)
    → GoString
    → Result TenantError (Entry × Endpoint)
unfolding endpoint
look_up none urls tenant = err no_directory
look_up (some resolve) urls tenant =
    resolve tenant >>= λ e. endpoint urls e.endpoint_id >>= λ ep. ok (e, ep)

-- ParseStatic, after the YAML is read: the tenants in order of their names.
abbrev pub check_tenants :
    List (GoString × Entry) → List GoString → Result TenantError (List (GoString × Entry))
check_tenants doc [] = ok []
check_tenants doc (name ∷ names) = elim (lookup name doc) [
  | none ↦ check_tenants doc names
  | some e ↦
      fail_if (is_empty name) no_tenant_name
      >> (fail_if (is_empty e.product_version) no_product_version
          >> (fail_if (not (valid_endpoint_id e.endpoint_id)) invalid_endpoint_id
              >> (check_tenants doc names >>= λ entries. ok ((name, e) ∷ entries))))
]

unfoldable pub parse_static : List (GoString × Entry) → Result TenantError (List (GoString × Entry))
parse_static [] = err no_tenants
parse_static (t ∷ ts) = check_tenants (t ∷ ts) (sort_strings (keys (t ∷ ts)))

-- Static.Resolve
unfoldable pub resolve_static :
    Option ContextError → List (GoString × Entry) → GoString → Result TenantError Entry
resolve_static (some e) entries tenant = err (context_error e)
resolve_static none entries tenant =
    if is_empty tenant
    then err empty_tenant
    else elim (lookup tenant entries) [ none ↦ err unknown_tenant | some e ↦ ok e ]
