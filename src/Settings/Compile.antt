-- ===== src/Settings/Compile.antt =====
-- What compiling a settings document leaves (internal/settings/settings.go): the layers of the
-- document, all in range.
use az_agent_platform_go.Prelude.{
  ◌≡◌, ◌∙◌, sym, ap, inl, inr, true, false, List, [], ◌∷◌, Option, none, some, GoString, is_empty,
  str_eq, str_eq_iff, contains, lookup, insert, keys, sort_strings, lookup-insert,
  contains-sort_strings, lookup-nil, lookup-keys, ok, err, fail_if, ContextError, ℤ, Bool-cases,
  ok-injective, err≢ok, check_ok, bind_ok, if◌then◌else◌, arith,
}
use mathlib.Core.Path.{subst}
use az_agent_platform_go.Settings.Layers.{
  AreBounded, IsBounded, copy_layer_lem, check_bounds-IsBounded, merge_bounds,
}
use az_agent_platform_go.Settings.{
  context, empty_user_tenant_key, or_else, empty_tenant, default_layer, tenant_layer, user_layer,
  layer_at, layers_at, Layer, Compiled, Document, Scope, Settings, empty_layer, copy_layer,
  check_bounds, compile_tenants, compile_principals, compile_users, compile, merge, resolve,
}

-- What the loop over the tenants leaves: the document's layers under the keys it walked.
compile_tenants-lookup :
    (doc : List (GoString × Layer)) (ts : List GoString) (out c : List (GoString × Layer))
    → compile_tenants doc ts out ≡ ok c
    → (j : GoString)
    → (lookup j c ≡ (if contains ts j then some (layer_at j doc) else lookup j out))
      × (contains ts j ≡ true → IsBounded (layer_at j doc))
unfolding compile_tenants contains
compile_tenants-lookup doc [] out c h j = ground arith
compile_tenants-lookup doc (t ∷ ts) out c h j =
    let l : Layer = copy_layer (layer_at t doc) in
    let (named, h₁) = check_ok _ _ h in
    let (fits, h₂) = check_ok _ _ h₁ in
    let (found, bounded) = compile_tenants-lookup doc ts (insert t l out) c h₂ j in
    (
      ground
          (arith, found, lookup-insert t j l out, str_eq_iff t j, copy_layer_lem (layer_at t doc)),
      λ here. elim (Bool-cases (str_eq t j)) [
        | inl e ↦
            rw (← (str_eq_iff t j).0 e)
              (subst IsBounded (copy_layer_lem _) (check_bounds-IsBounded (tenant_layer t) l fits))
        | inr e ↦ bounded (ground arith)
      ],
    )

layer_at-insert :
    (t j : GoString) (l : Layer) (m : List (GoString × Layer))
    → layer_at j (insert t l m) ≡ (if str_eq t j then l else layer_at j m)
layer_at-insert t j l m = ground (arith, lookup-insert t j l m)

compile_principals-layer_at :
    (t : GoString) (doc : List (GoString × Layer)) (ps : List GoString)
    (out c : List (GoString × Layer))
    → compile_principals t doc ps out ≡ ok c
    → (j : GoString)
    → (layer_at j c ≡ (if contains ps j then layer_at j doc else layer_at j out))
      × (contains ps j ≡ true → IsBounded (layer_at j doc))
unfolding compile_principals contains
compile_principals-layer_at t doc [] out c h j = ground arith
compile_principals-layer_at t doc (p ∷ ps) out c h j =
    let l : Layer = copy_layer (layer_at p doc) in
    let (named, h₁) = check_ok _ _ h in
    let (fits, h₂) = check_ok _ _ h₁ in
    let (costless, h₃) = check_ok _ _ h₂ in
    let (found, bounded) = compile_principals-layer_at t doc ps (insert p l out) c h₃ j in
    (
      ground (
        arith,
        found,
        layer_at-insert p j l out,
        str_eq_iff p j,
        copy_layer_lem (layer_at p doc),
      ),
      λ here. elim (Bool-cases (str_eq p j)) [
        | inl e ↦
            rw (← (str_eq_iff p j).0 e)
              (subst IsBounded (copy_layer_lem _) (check_bounds-IsBounded (user_layer t p) l fits))
        | inr e ↦ bounded (ground arith)
      ],
    )

empty_layer-IsBounded : IsBounded empty_layer
empty_layer-IsBounded = record { journeys = tt; ttl = tt }

-- What compiling the principals of one tenant leaves, starting from nothing.
compile_principals-all :
    (t : GoString) (doc c : List (GoString × Layer))
    → compile_principals t doc (sort_strings (keys doc)) [] ≡ ok c
    → (j : GoString) → (layer_at j c ≡ layer_at j doc) × IsBounded (layer_at j doc)
compile_principals-all t doc c h j =
    let (found, bounded) = compile_principals-layer_at t doc (sort_strings (keys doc)) [] c h j in
    elim (Bool-cases (contains (keys doc) j)) [
      | inl e ↦
          let e' : contains (sort_strings (keys doc)) j ≡ true =
            contains-sort_strings (keys doc) j ∙ e in
          (rw e' at found, bounded e')
      | inr e ↦
          let e' : contains (sort_strings (keys doc)) j ≡ false =
            contains-sort_strings (keys doc) j ∙ e in
          let missing : layer_at j doc ≡ empty_layer = rw (lookup-keys j doc e) in
          let in_out : layer_at j c ≡ layer_at j [] = rw e' at found in
          (
            ground (arith, in_out, missing, lookup-nil {0} {V = Layer} j),
            rw missing empty_layer-IsBounded,
          )
    ]

compile_users-layer_at :
    (doc : List (GoString × List (GoString × Layer))) (ts : List GoString)
    (out c : List (GoString × List (GoString × Layer)))
    → compile_users doc ts out ≡ ok c
    → (t j : GoString)
    → (layer_at j (layers_at t c)
        ≡ (if contains ts t then layer_at j (layers_at t doc) else layer_at j (layers_at t out)))
      × (contains ts t ≡ true → IsBounded (layer_at j (layers_at t doc)))
unfolding compile_users contains
compile_users-layer_at doc [] out c h t j = (rw (ok-injective h), λ here. cc)
compile_users-layer_at doc (u ∷ ts) out c h t j =
    let (named, h₁) = check_ok (fail_if (is_empty u) empty_user_tenant_key) _ h in
    let (by_principal, p, h₂) =
      bind_ok (compile_principals u (layers_at u doc) (sort_strings (keys (layers_at u doc))) []) _
        h₁ in
    let (found, bounded) = compile_users-layer_at doc ts (insert u by_principal out) c h₂ t j in
    let (same, fits) = compile_principals-all u (layers_at u doc) by_principal p j in
    (
      ground (arith, found, same, lookup-insert u t by_principal out, str_eq_iff u t),
      λ here. elim (Bool-cases (str_eq u t)) [
        | inl e ↦ rw (← (str_eq_iff u t).0 e) fits
        | inr e ↦ bounded (ground arith)
      ],
    )

compile_tenants-all :
    (doc c : List (GoString × Layer))
    → compile_tenants doc (sort_strings (keys doc)) [] ≡ ok c
    → (j : GoString) → (layer_at j c ≡ layer_at j doc) × IsBounded (layer_at j doc)
compile_tenants-all doc c h j =
    let (found, bounded) = compile_tenants-lookup doc (sort_strings (keys doc)) [] c h j in
    let sorted : contains (sort_strings (keys doc)) j ≡ contains (keys doc) j =
      contains-sort_strings (keys doc) j in
    elim (Bool-cases (contains (keys doc) j)) [
      | inl e ↦ (ap (λ o. or_else o empty_layer) (rw (sorted, e) at found), bounded (sorted ∙ e))
      | inr e ↦
          let missing : layer_at j doc ≡ empty_layer = rw (lookup-keys j doc e) in
          let in_out : lookup j c ≡ lookup j [] = rw (sorted, e) at found in
          (
            ap (λ o. or_else o empty_layer) (in_out ∙ lookup-nil j) ∙ sym missing,
            rw missing empty_layer-IsBounded,
          )
    ]

compile_users-all :
    (doc c : List (GoString × List (GoString × Layer)))
    → compile_users doc (sort_strings (keys doc)) [] ≡ ok c
    → (t j : GoString)
    → (layer_at j (layers_at t c) ≡ layer_at j (layers_at t doc))
      × IsBounded (layer_at j (layers_at t doc))
compile_users-all doc c h t j =
    let (found, bounded) = compile_users-layer_at doc (sort_strings (keys doc)) [] c h t j in
    let sorted : contains (sort_strings (keys doc)) t ≡ contains (keys doc) t =
      contains-sort_strings (keys doc) t in
    elim (Bool-cases (contains (keys doc) t)) [
      | inl e ↦ (rw (sorted, e) at found, bounded (sorted ∙ e))
      | inr e ↦
          let missing : layer_at j (layers_at t doc) ≡ empty_layer =
            rw (lookup-keys t doc e) (rw (lookup-nil {0} {V = Layer} j)) in
          let in_out : layer_at j (layers_at t c) ≡ layer_at j (layers_at t []) =
            rw (sorted, e) at found in
          let empty_out : layer_at j (layers_at t []) ≡ empty_layer =
            rw (lookup-nil {0} {V = List (GoString × Layer)} t)
              (rw (lookup-nil {0} {V = Layer} j)) in
          (in_out ∙ empty_out ∙ sym missing, rw missing empty_layer-IsBounded)
    ]

-- A document that compiles is read back layer by layer, and every layer is in range.
pub record Represents (c : Compiled) (doc : Document) : Type 0 where
  pub default : c.def ≡ doc.default
  pub default_bounded : IsBounded doc.default
  pub tenant :
      (t : GoString)
      → (layer_at t c.tenants ≡ layer_at t doc.tenants) × IsBounded (layer_at t doc.tenants)
  pub user :
      (t p : GoString)
      → (layer_at p (layers_at t c.users) ≡ layer_at p (layers_at t doc.users))
        × IsBounded (layer_at p (layers_at t doc.users))

pub compile-Represents : (doc : Document) (c : Compiled) → compile doc ≡ ok c → Represents c doc
unfolding compile
compile-Represents doc c h =
    let (fits, h₁) = check_ok (check_bounds default_layer (copy_layer doc.default)) _ h in
    let (tenants, t, h₂) = bind_ok _ _ h₁ in
    let (users, u, h₃) = bind_ok _ _ h₂ in
    let same : record { def = copy_layer doc.default; tenants = tenants; users = users } ≡ c =
      ok-injective h₃ in
    let bounded : IsBounded doc.default =
      subst IsBounded (copy_layer_lem doc.default) (check_bounds-IsBounded default_layer _ fits) in
    subst (λ k. Represents k doc) same
      (record {
        default = copy_layer_lem doc.default;
        default_bounded = bounded;
        tenant = compile_tenants-all doc.tenants tenants t;
        user = compile_users-all doc.users users u;
      })

module _ (digest_of : ℤ → GoString → ℤ → GoString) where
  -- Resolving from a compiled document merges the document's own layers: the default, the tenant's
  -- and the user's, a missing one reading as empty. It fails where the context is done, with the
  -- context's error, and otherwise for the empty tenant only.
  pub resolve-compile {ℓ} :
      {F : Type ℓ} (doc : Document) (c : Compiled) (ctx : Option ContextError) (scope : Scope)
      → compile doc ≡ ok c
      → resolve digest_of {F = F} c ctx scope ≡ elim ctx [
        | some e ↦ err (context e)
        | none ↦
            if is_empty scope.tenant
            then err empty_tenant
            else ok (
                merge digest_of doc.default
                  (layer_at scope.tenant doc.tenants)
                  (layer_at scope.principal (layers_at scope.tenant doc.users)))
      ]
  unfolding resolve
  resolve-compile doc c (some e) scope h = λ i. err (context e)
  resolve-compile doc c none scope h =
      let r = compile-Represents doc c h in
      rw (r.default, (r.tenant scope.tenant).0, (r.user scope.tenant scope.principal).0)

  -- Whatever a compiled document resolves to lies in the allowed ranges.
  pub resolve_bounds {ℓ} :
      {F : Type ℓ} (doc : Document) (c : Compiled) (ctx : Option ContextError) (scope : Scope)
      (s : Settings)
      → compile doc ≡ ok c
      → resolve digest_of {F = F} c ctx scope ≡ ok s
      → AreBounded s
  resolve_bounds doc c (some e) scope s h r = unfold resolve in cc
  resolve_bounds doc c none scope s h r = elim (Bool-cases (is_empty scope.tenant)) [
    | inl e ↦ absurd (err≢ok (rw (resolve-compile doc c none scope h, e) at r))
    | inr e ↦
        let w = compile-Represents doc c h in
        subst AreBounded (ok-injective (rw (resolve-compile doc c none scope h, e) at r)) (
          merge_bounds digest_of doc.default (layer_at scope.tenant doc.tenants)
            (layer_at scope.principal (layers_at scope.tenant doc.users)) w.default_bounded
            (w.tenant scope.tenant).1 (w.user scope.tenant scope.principal).1)
  ]
