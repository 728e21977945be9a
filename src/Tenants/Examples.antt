-- ===== src/Tenants/Examples.antt =====
-- A tenant, its endpoint and its URL.
use az_agent_platform_go.Prelude.{
  ◌≡◌, refl, true, false, List, [], ◌∷◌, Option, none, some, GoString, codes, ok, err, insert,
  lookup, str_eq,
}
use az_agent_platform_go.Tenants.Directory.{
  Entry, Endpoint, ParsedUrl, new_allowlist, normalize_url, look_up, endpoint, valid_endpoint_id,
  resolve_static, duplicate_id, missing_equals,
}
use az_agent_platform_go.Tenants.Parsing.{split_at, cut_at, parse_items, parse_allowlist}
use az_agent_platform_go.Tenants.Reached.{look_up_lem, IsListed}

-- A parser for which every text is an absolute HTTPS URL.
abbrev parse : GoString → Option ParsedUrl
parse s = some (record {
  is_absolute = true;
  scheme = codes "https";
  host_name = codes "tools.example";
  has_user = false;
  fragment = [];
  text = s;
})

abbrev configured : List (GoString × GoString)
configured = (codes "eu-1", codes "https://tools.example/mcp") ∷ []

abbrev acme_entry : Entry
acme_entry = record { product_version = codes "1.4"; endpoint_id = codes "eu-1" }

abbrev tenants : List (GoString × Entry)
tenants = (codes "acme", acme_entry) ∷ []

abbrev reached : Endpoint
reached = record { id = codes "eu-1"; url = codes "https://tools.example/mcp" }

allowed : new_allowlist parse configured ≡ ok configured
unfolding new_allowlist normalize_url valid_endpoint_id str_eq
allowed = refl

looked_up :
    look_up (some (resolve_static none tenants)) configured (codes "acme")
    ≡ ok (acme_entry, reached)
unfolding look_up endpoint resolve_static lookup str_eq
looked_up = refl

look_up_lem_example :
    (resolve_static none tenants (codes "acme") ≡ ok acme_entry)
    × (reached.id ≡ acme_entry.endpoint_id)
    × (raw : GoString) × (lookup acme_entry.endpoint_id configured ≡ some raw)
    × IsListed parse acme_entry.endpoint_id raw reached.url
look_up_lem_example =
    look_up_lem parse configured configured (resolve_static none tenants) (codes "acme") acme_entry
      reached allowed looked_up

abbrev no_trim : GoString → GoString
no_trim s = s

parsed :
    parse_allowlist no_trim parse (codes "a=u,b=v=w")
    ≡ ok ((codes "a", codes "u") ∷ (codes "b", codes "v=w") ∷ [])
unfolding parse_allowlist parse_items split_at cut_at new_allowlist normalize_url valid_endpoint_id
    str_eq insert lookup
parsed = refl

repeated : parse_allowlist no_trim parse (codes "a=u,a=v") ≡ err duplicate_id
unfolding parse_allowlist parse_items split_at cut_at valid_endpoint_id str_eq insert lookup
repeated = refl

unequal : parse_allowlist no_trim parse (codes "a=u,") ≡ err missing_equals
unfolding parse_allowlist parse_items split_at cut_at valid_endpoint_id str_eq insert lookup
unequal = refl
