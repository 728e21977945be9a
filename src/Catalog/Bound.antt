-- ===== src/Catalog/Bound.antt =====
-- internal/catalog/binding.go: a tool that a journey shows is the tool that a call reaches.
use az_agent_platform_go.Prelude.{
  ◌≡◌, refl, sym, ap, subst, ◌∙◌, Bool, true, false, List, [], ◌∷◌, Option, none, some, GoString,
  str_eq, str_eq_iff, str_eq_refl, if◌then◌else◌, All, Bool-cases, inl, inr, lookup, lookup-insert,
  Result, ok, bind_ok, ok-injective, find_row, find_row-All,
}
use az_agent_platform_go.Definitions.Selected.{IsToolName, IsSelectable, valid_alias-is_empty}
use az_agent_platform_go.Catalog.Descriptors.{Journey, Snapshot, Tool, Resolution, is_available}
use az_agent_platform_go.Catalog.Resolving.{resolve}
use az_agent_platform_go.Catalog.Resolved.{resolve-IsUsable}
use az_agent_platform_go.Catalog.Policies.{check_policies, offered_tools}
use az_agent_platform_go.Catalog.Agreed.{
  AllAgree, HasNames, offered-skip, offered-parts, check_policies-AllAgree,
}
use az_agent_platform_go.Catalog.Binding.{
  Binding, BindError, bind_tool, bind_tools, resolve_each, bind, resolution, find_tool, tool_in,
  tool, Answer, Request, call, call_bound,
}

-- The tool bound to an alias, where there is one, has this remote name.
abbrev IsBound : List (GoString × Tool) → Tool → Type 0
IsBound m t = (u : Tool) × (lookup t.alias m ≡ some u) × (u.remote_name ≡ t.remote_name)

-- What is bound stays bound to the same tool.
bind_tool-kept :
    (t : Tool) (m next : List (GoString × Tool)) (alias : GoString) (u : Tool)
    → bind_tool t (lookup t.alias m) m ≡ ok next
    → lookup alias m ≡ some u
    → lookup alias next ≡ some u
bind_tool-kept t m next alias u h l = by_prior (lookup t.alias m) refl h
  where
    fresh : lookup t.alias m ≡ none → str_eq t.alias alias ≡ false
    fresh n = elim (Bool-cases (str_eq t.alias alias)) [
      | inl e ↦ cc (subst (λ a. lookup a m ≡ none) ((str_eq_iff t.alias alias).0 e) n, l)
      | inr e ↦ e
    ]

    by_prior :
        (o : Option Tool)
        → lookup t.alias m ≡ o
        → bind_tool t o m ≡ ok next
        → lookup alias next ≡ some u
    by_prior none n e =
        subst (λ k. lookup alias k ≡ some u) (ok-injective e)
          (lookup-insert t.alias alias t m
            ∙ ap (λ c. if c then some t else lookup alias m) (fresh n)
            ∙ l)
    by_prior (some prior) n e = elim (Bool-cases (str_eq prior.remote_name t.remote_name)) [
      | inl s ↦
          let done : ◌≡◌ {A = Result BindError (List (GoString × Tool))} (ok m) (ok next) =
            rw s at e in
          subst (λ k. lookup alias k ≡ some u) (ok-injective done) l
      | inr s ↦ cc (rw s at e)
    ]

bind_tool-IsBound :
    (t : Tool) (m next : List (GoString × Tool))
    → bind_tool t (lookup t.alias m) m ≡ ok next
    → IsBound next t
bind_tool-IsBound t m next h = by_prior (lookup t.alias m) refl h
  where
    by_prior : (o : Option Tool) → lookup t.alias m ≡ o → bind_tool t o m ≡ ok next → IsBound next t
    by_prior none n e =
        let here : lookup t.alias next ≡ some t =
          subst (λ k. lookup t.alias k ≡ some t) (ok-injective e)
            (lookup-insert t.alias t.alias t m
              ∙ ap (λ c. if c then some t else lookup t.alias m) (str_eq_refl t.alias)) in
        (t, here, refl)
    by_prior (some prior) n e = elim (Bool-cases (str_eq prior.remote_name t.remote_name)) [
      | inl s ↦
          let done : ◌≡◌ {A = Result BindError (List (GoString × Tool))} (ok m) (ok next) =
            rw s at e in
          (
            prior,
            subst (λ k. lookup t.alias k ≡ some prior) (ok-injective done) n,
            (str_eq_iff prior.remote_name t.remote_name).0 s,
          )
      | inr s ↦ cc (rw s at e)
    ]

bind_tools-kept :
    (ts : List Tool) (m out : List (GoString × Tool)) (alias : GoString) (u : Tool)
    → bind_tools ts m ≡ ok out
    → lookup alias m ≡ some u
    → lookup alias out ≡ some u
unfolding bind_tools
bind_tools-kept [] m out alias u h l = subst (λ k. lookup alias k ≡ some u) (ok-injective h) l
bind_tools-kept (t ∷ ts) m out alias u h l =
    let first =
      bind_ok (bind_tool t (lookup t.alias m) m) (λ (k : List (GoString × Tool)). bind_tools ts k)
        h in
    bind_tools-kept ts first.0 out alias u first.2 (bind_tool-kept t m first.0 alias u first.1 l)

bind_tools-IsBound :
    (ts : List Tool) (m out : List (GoString × Tool))
    → bind_tools ts m ≡ ok out
    → All (IsBound out) ts
unfolding bind_tools
bind_tools-IsBound [] m out h = tt
bind_tools-IsBound (t ∷ ts) m out h =
    let first =
      bind_ok (bind_tool t (lookup t.alias m) m) (λ (k : List (GoString × Tool)). bind_tools ts k)
        h in
    let at = bind_tool-IsBound t m first.0 first.1 in
    (
      (at.0, bind_tools-kept ts first.0 out t.alias at.0 first.2 at.1, at.2),
      bind_tools-IsBound ts first.0 out first.2,
    )

-- What is known of a binding that open returns.
record IsOpened (js : List Journey) (s : Snapshot) (meta_key : GoString) (b : Binding)
    : Type 0 where
  each_bound : All (IsBound b.by_alias) (offered_tools b.resolutions)
  resolved : b.resolutions ≡ check_policies (resolve_each js s meta_key)
  unbroken : b.broken ≡ false

bind-IsOpened :
    (js : List Journey) (s : Snapshot) (meta_key : GoString) (b : Binding)
    → bind js s meta_key ≡ ok b
    → IsOpened js s meta_key b
unfolding bind
bind-IsOpened js s meta_key b h =
    let rs = check_policies (resolve_each js s meta_key) in
    let m = bind_ok (bind_tools (offered_tools rs) []) _ h in
    subst (IsOpened js s meta_key) (ok-injective m.2) (record {
      each_bound = bind_tools-IsBound (offered_tools rs) [] m.0 m.1;
      resolved = refl;
      unbroken = refl;
    })

resolve_each-HasNames :
    (js : List Journey) (s : Snapshot) (meta_key : GoString)
    → All HasNames (offered_tools (resolve_each js s meta_key))
unfolding resolve_each
resolve_each-HasNames [] s meta_key = tt
resolve_each-HasNames (j ∷ js) s meta_key =
    offered-skip HasNames (resolve j s meta_key) (resolve_each js s meta_key)
      (λ v.
        (let u = resolve-IsUsable j s meta_key v in
          named (resolve j s meta_key).tools u.keys u.aliases))
      (resolve_each-HasNames js s meta_key)
  where
    named :
        (ts : List Tool)
        → All (λ (t : Tool). IsSelectable j.deny t.operation_key) ts
        → All (λ (t : Tool). IsToolName t.alias) ts
        → All HasNames ts
    named [] a b = tt
    named (t ∷ ts) a b = ((a.0.0, valid_alias-is_empty t.alias b.0.0), named ts a.1 b.1)

-- In an open binding, the tools of the available journeys agree: those with one operation key or one
-- alias have the same class and the same approval.
pub bind-AllAgree :
    (js : List Journey) (s : Snapshot) (meta_key : GoString) (b : Binding)
    → bind js s meta_key ≡ ok b
    → AllAgree (offered_tools b.resolutions)
bind-AllAgree js s meta_key b h =
    subst (λ rs. AllAgree (offered_tools rs)) (sym (bind-IsOpened js s meta_key b h).resolved)
      (check_policies-AllAgree (resolve_each js s meta_key) (resolve_each-HasNames js s meta_key))

-- A property of every offered tool holds of a tool found in a resolution.
found_tool :
    (P : Tool → Type 0) (rs : List Resolution) (id alias : GoString) (t : Tool)
    → All P (offered_tools rs)
    → tool_in alias (find_row (λ (r : Resolution). str_eq r.journey_id id) rs) ≡ some t
    → P t × (str_eq t.alias alias ≡ true)
found_tool P [] id alias t a h = cc
found_tool P (r ∷ rs) id alias t a h =
    let parts = offered-parts P r rs a in
    by_id (str_eq r.journey_id id) parts.0 (found_tool P rs id alias t parts.1) h
  where
    by_available :
        (b : Bool)
        → (b ≡ true → All P r.tools)
        → (if b then find_tool alias r.tools else none) ≡ some t
        → P t × (str_eq t.alias alias ≡ true)
    by_available true f e = find_row-All P (λ (u : Tool). str_eq u.alias alias) r.tools t (f refl) e
    by_available false f e = cc

    by_id :
        (b : Bool)
        → (is_available r ≡ true → All P r.tools)
        → (tool_in alias (find_row (λ (r : Resolution). str_eq r.journey_id id) rs) ≡ some t
            → P t × (str_eq t.alias alias ≡ true))
        → tool_in alias
            (if b then some r else find_row (λ (r : Resolution). str_eq r.journey_id id) rs)
          ≡ some t
        → P t × (str_eq t.alias alias ≡ true)
    by_id true f later e = by_available (is_available r) f e
    by_id false f later e = later e

-- A call by the alias under which a journey shows a tool sends the remote name of that tool.
pub call-tool :
    (session : Request → Answer) (js : List Journey) (s : Snapshot) (meta_key : GoString)
    (b : Binding) (id alias call_id arguments : GoString) (t : Tool)
    → bind js s meta_key ≡ ok b
    → tool b id alias ≡ some t
    → (call session b call_id alias arguments).sent
      ≡ some (record { call_id = call_id; remote_name = t.remote_name; arguments = arguments })
unfolding tool resolution call
call-tool session js s meta_key b id alias call_id arguments t h e =
    let o = bind-IsOpened js s meta_key b h in
    let found = found_tool (IsBound b.by_alias) b.resolutions id alias t o.each_bound e in
    let at : lookup alias b.by_alias ≡ some found.0.0 =
      subst (λ a. lookup a b.by_alias ≡ some found.0.0) ((str_eq_iff t.alias alias).0 found.1)
        found.0.1 in
    ap (λ u. (call_bound session b call_id arguments u).sent) at
    ∙ sends found.0.0 b.broken o.unbroken
    ∙ ap (λ n. some (record { call_id = call_id; remote_name = n; arguments = arguments }))
        found.0.2
  where
    sends :
        (u : Tool) (c : Bool)
        → c ≡ false
        → (call_bound session (record b { broken = c }) call_id arguments (some u)).sent
          ≡ some (record { call_id = call_id; remote_name = u.remote_name; arguments = arguments })
    sends u true n = cc
    sends u false n = refl
