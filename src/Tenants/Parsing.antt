-- ===== src/Tenants/Parsing.antt =====
-- internal/tenantdir/tenantdir.go: ParseAllowlist. strings.TrimSpace and the parser of URLs are
-- parameters.
use az_agent_platform_go.Prelude.{
  ℕ, not, List, [], ◌∷◌, Option, none, some, GoString, is_empty, ◌==◌, has_key, insert, Result, ok,
  err, ◌>>=◌, ◌>>◌, fail_if, if◌then◌else◌,
}
use az_agent_platform_go.Tenants.Directory.{
  ParsedUrl, TenantError, valid_endpoint_id, new_allowlist, invalid_endpoint_id, missing_equals,
  duplicate_id,
}

abbrev prepend : ℕ → List GoString → List GoString
prepend c [] = (c ∷ []) ∷ []
prepend c (part ∷ parts) = (c ∷ part) ∷ parts

-- strings.Split at one byte: at least one part, and one more for each separator.
unfoldable pub split_at : ℕ → GoString → List GoString
split_at separator [] = [] ∷ []
split_at separator (c ∷ s) =
    let parts = split_at separator s in if c == separator then [] ∷ parts else prepend c parts

-- strings.Cut at one byte.
unfoldable pub cut_at : ℕ → GoString → Option (GoString × GoString)
cut_at separator [] = none
cut_at separator (c ∷ s) =
    let later = cut_at separator s in
    if c == separator
    then some ([], s)
    else elim later [ none ↦ none | some (before, after) ↦ some (c ∷ before, after) ]

module _ (trim : GoString → GoString) (parse : GoString → Option ParsedUrl) where
  -- The loop of ParseAllowlist, with the map that it fills.
  unfoldable pub parse_items :
      List (GoString × GoString) → List GoString → Result TenantError (List (GoString × GoString))
  unfolding cut_at
  parse_items endpoints [] = ok endpoints
  parse_items endpoints (item ∷ items) = elim (cut_at 61 (trim item)) [
    | none ↦ err missing_equals
    | some (id, raw) ↦
        fail_if (not (valid_endpoint_id (trim id))) invalid_endpoint_id
        >> (fail_if (has_key (trim id) endpoints) duplicate_id
            >> parse_items (insert (trim id) (trim raw) endpoints) items)
  ]

  -- ParseAllowlist
  unfoldable pub parse_allowlist : GoString → Result TenantError (List (GoString × GoString))
  unfolding parse_items split_at
  parse_allowlist spec =
      if is_empty (trim spec)
      then ok []
      else (parse_items [] (split_at 44 spec) >>= new_allowlist parse)
