-- ===== src/Tenants/Reached.antt =====
-- internal/tenantdir/tenantdir.go: which URLs a tenant can reach.
use native.Mathlib.Omega.{arith}
use az_agent_platform_go.Prelude.{
  ◌≡◌, refl, ap, sym, subst, ◌∙◌, true, false, not, ◌&&◌, ◌||◌, List, [], ◌∷◌, Option, none, some,
  GoString, str_eq, str_eq_iff, is_empty, lookup, Result, ok, err, fail_if, ◌>>◌, bind_ok, check_ok,
  not_failed, ok-injective, Bool-cases, inl, inr,
}
use az_agent_platform_go.Tenants.Directory.{
  Entry, Endpoint, TenantError, ParsedUrl, normalize_url, new_allowlist, endpoint, look_up, is_http,
  has_hash, valid_endpoint_id, invalid_endpoint_id, relative_url, no_host, has_userinfo,
  has_fragment, bad_url, not_allowlisted,
}

module _ (parse : GoString → Option ParsedUrl) where
  -- A URL that the allowlist keeps: absolute, HTTP, with a host, without user information and
  -- fragment, under a valid ID.
  pub record IsListed (id raw url : GoString) : Type 0 where
    pub parsed : ParsedUrl
    pub parses : parse raw ≡ some parsed
    pub text : parsed.text ≡ url
    pub http : (parsed.is_absolute && is_http parsed.scheme) ≡ true
    pub host : is_empty parsed.host_name ≡ false
    pub no_user : parsed.has_user ≡ false
    pub no_fragment : (not (is_empty parsed.fragment) || has_hash raw) ≡ false
    pub valid_id : valid_endpoint_id id ≡ true

  normalize_url-IsListed :
      (id raw url : GoString) → normalize_url parse id raw ≡ ok url → IsListed id raw url
  unfolding normalize_url
  normalize_url-IsListed id raw url h =
      let first = check_ok (fail_if (not (valid_endpoint_id id)) invalid_endpoint_id) _ h in
      let legal = not_failed (not (valid_endpoint_id id)) invalid_endpoint_id first.0 in
      of_parsed (parse raw) refl (ground (arith, legal)) first.1
    where
      checks : ParsedUrl → Result TenantError GoString
      checks u =
          fail_if (not u.is_absolute || not (is_http u.scheme)) relative_url
          >> (fail_if (is_empty u.host_name) no_host
              >> (fail_if u.has_user has_userinfo
                  >> (fail_if (not (is_empty u.fragment) || has_hash raw) has_fragment
                      >> ok u.text)))

      of_parsed :
          (o : Option ParsedUrl)
          → parse raw ≡ o
          → valid_endpoint_id id ≡ true
          → ◌≡◌ {A = Result TenantError GoString}
              (elim o [ none ↦ err bad_url | some u ↦ checks u ])
              (ok url)
          → IsListed id raw url
      of_parsed none e v t = cc
      of_parsed (some u) e v t =
          let a =
            check_ok (fail_if (not u.is_absolute || not (is_http u.scheme)) relative_url) _ t in
          let b = check_ok (fail_if (is_empty u.host_name) no_host) _ a.1 in
          let c = check_ok (fail_if u.has_user has_userinfo) _ b.1 in
          let d =
            check_ok (fail_if (not (is_empty u.fragment) || has_hash raw) has_fragment) _ c.1 in
          let web = not_failed (not u.is_absolute || not (is_http u.scheme)) relative_url a.0 in
          record {
            parsed = u;
            parses = e;
            text = ok-injective d.1;
            http = ground (arith, web);
            host = not_failed (is_empty u.host_name) no_host b.0;
            no_user = not_failed u.has_user has_userinfo c.0;
            no_fragment = not_failed (not (is_empty u.fragment) || has_hash raw) has_fragment d.0;
            valid_id = v;
          }

  lookup-new_allowlist :
      (conf urls : List (GoString × GoString)) (id url : GoString)
      → new_allowlist parse conf ≡ ok urls
      → lookup id urls ≡ some url
      → (raw : GoString) × (lookup id conf ≡ some raw) × IsListed id raw url
  unfolding new_allowlist lookup
  lookup-new_allowlist [] urls id url h e =
      let gone = subst (λ us. lookup id us ≡ some url) (sym (ok-injective h)) e in cc (gone)
  lookup-new_allowlist ((first, raw) ∷ conf) urls id url h e =
      let a = bind_ok (normalize_url parse first raw) _ h in
      let b = bind_ok (new_allowlist parse conf) _ a.2 in
      let at = subst (λ us. lookup id us ≡ some url) (sym (ok-injective b.2)) e in
      elim (Bool-cases (str_eq first id)) [
        | inl t ↦
            let same : some a.0 ≡ some url = rw t at at in
            let ids : first ≡ id = (str_eq_iff first id).0 t in
            let listed = normalize_url-IsListed first raw a.0 a.1 in
            (
              raw,
              rw t refl,
              subst (λ i. IsListed i raw url) ids
                  (subst (λ w. IsListed first raw w) (cc same) listed),
            )
        | inr t ↦
            let r = lookup-new_allowlist conf b.0 id url b.1 (rw t at at) in (r.0, rw t r.1, r.2)
      ]

-- The endpoint that a tenant reaches is the one its directory entry names, and its URL is the
-- allowlist's normal form of the configured URL of that ID, which is absolute HTTP with a host and
-- without user information and fragment.
pub look_up_lem :
    (parse : GoString → Option ParsedUrl) (conf urls : List (GoString × GoString))
    (resolve : GoString → Result TenantError Entry) (tenant : GoString) (e : Entry) (ep : Endpoint)
    → new_allowlist parse conf ≡ ok urls
    → look_up (some resolve) urls tenant ≡ ok (e, ep)
    → (resolve tenant ≡ ok e)
      × (ep.id ≡ e.endpoint_id)
      × (raw : GoString) × (lookup e.endpoint_id conf ≡ some raw)
      × IsListed parse e.endpoint_id raw ep.url
unfolding look_up endpoint
look_up_lem parse conf urls resolve tenant e ep made h =
    let a = bind_ok (resolve tenant) _ h in
    let b = bind_ok (endpoint urls a.0.endpoint_id) _ a.2 in
    let pair = ok-injective b.2 in
    let entry : a.0 ≡ e = ap (λ p. p.0) pair in
    let place : b.0 ≡ ep = ap (λ p. p.1) pair in
    let there : endpoint urls e.endpoint_id ≡ ok ep = rw (sym entry, sym place) b.1 in
    let f = found (lookup e.endpoint_id urls) refl there in
    let l = lookup-new_allowlist parse conf urls e.endpoint_id ep.url made f.1 in
    (a.1 ∙ ap ok entry, f.0, l.0, l.1, l.2)
  where
    found :
        (o : Option GoString)
        → lookup e.endpoint_id urls ≡ o
        → ◌≡◌ {A = Result TenantError Endpoint}
            (elim o [
              | none ↦ err not_allowlisted
              | some url ↦ ok (record { id = e.endpoint_id; url = url })
            ])
            (ok ep)
        → (ep.id ≡ e.endpoint_id) × (lookup e.endpoint_id urls ≡ some ep.url)
    found none k t = cc
    found (some url) k t =
        let same = ok-injective t in (ap (λ p. p.id) (sym same), k ∙ ap (λ p. some p.url) same)
