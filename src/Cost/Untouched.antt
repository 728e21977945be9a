-- ===== src/Cost/Untouched.antt =====
-- internal/cost/headers.go: a gate leaves the reserved headers of a request alone.
use az_agent_platform_go.Prelude.{
  ◌≡◌, refl, sym, ap, subst, ◌∙◌, Bool, true, false, not, List, [], ◌∷◌, some, GoString, str_eq,
  str_eq_iff, is_empty, contains, lookup, insert, lookup-insert_ne, All, if◌then◌else◌, ok, fail_if,
  bind_ok, check_ok, not_failed, ok-injective, Bool-cases, inl, inr,
}
use az_agent_platform_go.Cost.Headers.{
  HeaderNames, invalid_names, is_token, has_control, is_reserved_header, normalize_name, normalize,
  new_headers, Attribution, fields, set_field, set_fields, access, delete, apply_one, apply,
}

-- A name that a header is set by: its canonical form is not reserved.
abbrev IsFree : (GoString → GoString) → GoString → Type 0
IsFree canonical name = is_reserved_header (canonical name) ≡ false

-- The name is empty, for nothing is sent, or it is free.
abbrev IsUsable : (GoString → GoString) → GoString → Type 0
IsUsable canonical name = is_empty name ≡ false → IsFree canonical name

normalize_name-IsUsable :
    (canonical : GoString → GoString) (name : GoString) (seen : List GoString)
    (out : GoString × List GoString)
    → ((s : GoString) → canonical (canonical s) ≡ canonical s)
    → normalize_name canonical name seen ≡ ok out
    → IsUsable canonical out.0
normalize_name-IsUsable canonical [] seen out twice h e =
    let same : ([], seen) ≡ out = ok-injective h in
    let empty : is_empty out.0 ≡ true = ap (λ o. is_empty o.0) (sym same) in cc (e, empty)
normalize_name-IsUsable canonical (b ∷ bs) seen out twice h e =
    let one = check_ok (fail_if (not (is_token (b ∷ bs))) invalid_names) _ h in
    let two = check_ok (fail_if (is_reserved_header (canonical (b ∷ bs))) invalid_names) _ one.1 in
    let three = check_ok (fail_if (contains seen (canonical (b ∷ bs))) invalid_names) _ two.1 in
    let free = not_failed (is_reserved_header (canonical (b ∷ bs))) invalid_names two.0 in
    let same = ok-injective three.1 in
    subst (λ (o : GoString × List GoString). IsFree canonical o.0) same
      (ap is_reserved_header (twice (b ∷ bs)) ∙ free)

lookup-delete_ne :
    (name sought : GoString) (headers : List (GoString × GoString))
    → str_eq name sought ≡ false
    → lookup sought (delete name headers) ≡ lookup sought headers
unfolding delete lookup
lookup-delete_ne name sought [] n = refl
lookup-delete_ne name sought ((first, value) ∷ headers) n =
    by_first (str_eq first name) refl (lookup-delete_ne name sought headers n)
  where
    by_first :
        (b : Bool)
        → str_eq first name ≡ b
        → lookup sought (delete name headers) ≡ lookup sought headers
        → lookup sought (if b then delete name headers else (first, value) ∷ delete name headers)
          ≡ (if str_eq first sought then some value else lookup sought headers)
    by_first true e ih =
        let apart : str_eq first sought ≡ false =
          subst (λ s. str_eq s sought ≡ false) (sym ((str_eq_iff first name).0 e)) n in
        rw apart ih
    by_first false e ih = ap (λ o. if str_eq first sought then some value else o) ih

apply_one-lookup :
    (canonical : GoString → GoString) (name value sought : GoString)
    (headers : List (GoString × GoString))
    → IsFree canonical name
    → is_reserved_header sought ≡ true
    → lookup sought (apply_one canonical name value headers) ≡ lookup sought headers
apply_one-lookup canonical name value sought headers f r = by_value value
  where
    apart : str_eq (canonical name) sought ≡ false
    apart = elim (Bool-cases (str_eq (canonical name) sought)) [
      | inl e ↦ cc (ap is_reserved_header ((str_eq_iff (canonical name) sought).0 e), f, r)
      | inr e ↦ e
    ]

    by_value :
        (v : GoString) → lookup sought (apply_one canonical name v headers) ≡ lookup sought headers
    by_value [] = lookup-delete_ne (canonical name) sought headers apart
    by_value (c ∷ cs) = lookup-insert_ne (canonical name) sought (c ∷ cs) headers apart

apply-lookup :
    (canonical : GoString → GoString) (sought : GoString) (set headers : List (GoString × GoString))
    → All (λ (f : GoString × GoString). IsFree canonical f.0) set
    → is_reserved_header sought ≡ true
    → lookup sought (apply canonical set headers) ≡ lookup sought headers
unfolding apply
apply-lookup canonical sought [] headers a r = refl
apply-lookup canonical sought ((name, value) ∷ set) headers a r =
    apply-lookup canonical sought set (apply_one canonical name value headers) a.1 r
    ∙ apply_one-lookup canonical name value sought headers a.0 r

insert-IsFree :
    (canonical : GoString → GoString) (name value : GoString) (set : List (GoString × GoString))
    → IsFree canonical name
    → All (λ (f : GoString × GoString). IsFree canonical f.0) set
    → All (λ (f : GoString × GoString). IsFree canonical f.0) (insert name value set)
unfolding insert
insert-IsFree canonical name value [] f a = (f, tt)
insert-IsFree canonical name value ((first, old) ∷ set) f a =
    elim (Bool-cases (str_eq first name)) [
      | inl e ↦ rw e (f, a.1)
      | inr e ↦ rw e (a.0, insert-IsFree canonical name value set f a.1)
    ]

set_fields-IsFree :
    (canonical : GoString → GoString) (fs set : List (GoString × GoString))
    → All (λ (f : GoString × GoString). IsUsable canonical f.0) fs
    → All (λ (f : GoString × GoString). IsFree canonical f.0) set
    → All (λ (f : GoString × GoString). IsFree canonical f.0) (set_fields fs set)
set_fields-IsFree canonical [] set u a = a
set_fields-IsFree canonical (([], value) ∷ fs) set u a = set_fields-IsFree canonical fs set u.1 a
set_fields-IsFree canonical ((b ∷ bs, value) ∷ fs) set u a =
    set_fields-IsFree canonical fs (set_field (b ∷ bs) value set) u.1
      (insert-IsFree canonical (b ∷ bs) (if has_control value then [] else value) set (u.0 refl) a)

-- What a gate of valid names does to a request leaves each reserved header as it was, whatever the
-- attribution and the profile are, for a canonical form of names that is its own canonical form.
pub access-reserved :
    (canonical : GoString → GoString) (names gate : HeaderNames) (a : Attribution)
    (profile sought : GoString) (headers : List (GoString × GoString))
    → ((s : GoString) → canonical (canonical s) ≡ canonical s)
    → new_headers canonical names ≡ ok gate
    → is_reserved_header sought ≡ true
    → lookup sought (apply canonical (access gate a profile) headers) ≡ lookup sought headers
unfolding new_headers normalize access
access-reserved canonical names gate a profile sought headers twice h r =
    let t = bind_ok (normalize_name canonical names.tenant []) _ h in
    let p = bind_ok (normalize_name canonical names.principal t.0.1) _ t.2 in
    let c = bind_ok (normalize_name canonical names.conversation p.0.1) _ p.2 in
    let n = bind_ok (normalize_name canonical names.run c.0.1) _ c.2 in
    let j = bind_ok (normalize_name canonical names.journey n.0.1) _ n.2 in
    let f = bind_ok (normalize_name canonical names.profile j.0.1) _ j.2 in
    let at = ok-injective f.2 in
    let valid : HeaderNames = record {
      tenant = t.0.0;
      principal = p.0.0;
      conversation = c.0.0;
      run = n.0.0;
      journey = j.0.0;
      profile = f.0.0;
    } in
    subst
      (λ (g : HeaderNames).
        lookup sought (apply canonical (access g a profile) headers) ≡ lookup sought headers)
      at
      (apply-lookup canonical sought (access valid a profile) headers
        (set_fields-IsFree canonical (fields valid a profile) []
          (
            normalize_name-IsUsable canonical names.tenant [] t.0 twice t.1,
            (
              normalize_name-IsUsable canonical names.principal t.0.1 p.0 twice p.1,
              (
                normalize_name-IsUsable canonical names.conversation p.0.1 c.0 twice c.1,
                (
                  normalize_name-IsUsable canonical names.run c.0.1 n.0 twice n.1,
                  (
                    normalize_name-IsUsable canonical names.journey n.0.1 j.0 twice j.1,
                    (normalize_name-IsUsable canonical names.profile j.0.1 f.0 twice f.1, tt),
                  ),
                ),
              ),
            ),
          )
          tt)
        r)
