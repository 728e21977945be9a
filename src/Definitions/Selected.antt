-- ===== src/Definitions/Selected.antt =====
-- internal/definitions/compile.go: what a journey's compiled tools guarantee.
use native.Mathlib.Omega.{arith}
use az_agent_platform_go.Prelude.{
  ◌≡◌, refl, sym, ap, subst, ◌∙◌, Bool, true, false, not, ◌&&◌, ◌||◌, List, [], ◌∷◌, ◌++◌, Option,
  none, some, GoString, is_empty, contains, Distinct, Distinct-append_one, ok, fail_if,
  if◌then◌else◌, All, All-append_one, bind_ok, check_ok, not_failed, ok-injective,
}
use az_agent_platform_go.Definitions.Aliases.{valid_alias, is_reserved}
use az_agent_platform_go.Definitions.Tools.{
  Class, Selector, RawTool, ToolState, parse_class, parse_approval, is_idempotent, check_distinct,
  select_keys, default_alias, add_op, add_tags, add_selector, compile_tool, compile_each,
  compile_tools, no_state, needs_header, selected_twice, denied_key, empty_key, invalid_alias,
  taken_alias, empty_op, op_or_tags, one_kind, class_on_tags, alias_on_tags, bad_tag, bad_deny,
  no_keys,
}

-- The operation keys of the selectors, in order.
abbrev pub all_ops : List Selector → List GoString
all_ops [] = []
all_ops (s ∷ ss) = s.ops ++ all_ops ss

-- The aliases of the op selectors, in order.
abbrev pub all_aliases : List Selector → List GoString
all_aliases [] = []
all_aliases (s ∷ ss) =
    let rest = all_aliases ss in if is_empty s.alias then rest else s.alias ∷ rest

-- An operation key that a journey with these denied keys may select.
abbrev pub IsSelectable : List GoString → GoString → Type 0
IsSelectable denied k = (is_empty k ≡ false) × (contains denied k ≡ false)

abbrev pub IsToolName : GoString → Type 0
IsToolName a = (valid_alias a ≡ true) × (is_reserved a ≡ false)

-- What compileTools' loop keeps.
pub record IsCompiled (denied : List GoString) (st : ToolState) : Type 0 where
  pub keys_distinct : Distinct st.seen_ops
  pub keys : All (IsSelectable denied) st.seen_ops
  pub names_distinct : Distinct st.aliases
  pub names : All IsToolName st.aliases
  pub same_keys : all_ops st.tools ≡ st.seen_ops
  pub same_names : all_aliases st.tools ≡ st.aliases

append_assoc : (xs ys zs : List GoString) → (xs ++ ys) ++ zs ≡ xs ++ (ys ++ zs)
append_assoc [] ys zs = refl
append_assoc (x ∷ xs) ys zs = ap (λ t. x ∷ t) (append_assoc xs ys zs)

append_nil : (xs : List GoString) → xs ++ [] ≡ xs
append_nil [] = refl
append_nil (x ∷ xs) = ap (λ t. x ∷ t) (append_nil xs)

all_ops-append : (ss : List Selector) (s : Selector) → all_ops (ss ++ s ∷ []) ≡ all_ops ss ++ s.ops
all_ops-append [] s = append_nil s.ops
all_ops-append (t ∷ ss) s =
    ap (λ ks. t.ops ++ ks) (all_ops-append ss s) ∙ sym (append_assoc t.ops (all_ops ss) s.ops)

all_aliases-append :
    (ss : List Selector) (s : Selector)
    → all_aliases (ss ++ s ∷ []) ≡ all_aliases ss ++ all_aliases (s ∷ [])
all_aliases-append [] s = refl
all_aliases-append (t ∷ ss) s = with_head (all_aliases-append ss s) (is_empty t.alias)
  where
    with_head :
        all_aliases (ss ++ s ∷ []) ≡ all_aliases ss ++ all_aliases (s ∷ [])
        → (b : Bool)
        → (if b then all_aliases (ss ++ s ∷ []) else t.alias ∷ all_aliases (ss ++ s ∷ []))
          ≡ (if b then all_aliases ss else t.alias ∷ all_aliases ss) ++ all_aliases (s ∷ [])
    with_head e true = e
    with_head e false = ap (λ names. t.alias ∷ names) e

select_keys_ok :
    (denied seen keys out : List GoString)
    → select_keys denied seen keys ≡ ok out
    → Distinct seen
    → All (IsSelectable denied) seen
    → Distinct out × All (IsSelectable denied) out × (out ≡ seen ++ keys)
select_keys_ok denied seen [] out h d a =
    let e = ok-injective h in
    (subst Distinct e d, subst (All (IsSelectable denied)) e a, sym e ∙ sym (append_nil seen))
select_keys_ok denied seen (k ∷ ks) out h d a =
    let one = check_ok (fail_if (is_empty k) empty_key) _ h in
    let two = check_ok (fail_if (contains seen k) selected_twice) _ one.1 in
    let three = check_ok (fail_if (contains denied k) denied_key) _ two.1 in
    let fresh = not_failed (contains seen k) selected_twice two.0 in
    let fit : IsSelectable denied k = (
      not_failed (is_empty k) empty_key one.0,
      not_failed (contains denied k) denied_key three.0,
    ) in
    let rest =
      select_keys_ok denied (seen ++ k ∷ []) ks out three.1 (Distinct-append_one seen k d fresh)
        (All-append_one (IsSelectable denied) seen k a fit) in
    (rest.0, rest.1, rest.2 ∙ append_assoc seen (k ∷ []) ks)

pub valid_alias-is_empty : (a : GoString) → valid_alias a ≡ true → is_empty a ≡ false
unfolding valid_alias
valid_alias-is_empty [] h = ground (arith, h)
valid_alias-is_empty (c ∷ cs) h = refl

abbrev op_selector : RawTool → Class → Bool → List GoString → GoString → Selector
op_selector rt class approval keys alias = record {
  ops = keys;
  tags = [];
  alias = alias;
  read_only_hint = rt.read_only;
  class = class;
  approval_required = approval;
}

-- The alias of an op selector is added.
add_name_ok :
    (denied : List GoString) (rt : RawTool) (class : Class) (approval : Bool)
    (keys seen : List GoString) (alias : GoString) (st : ToolState)
    → IsCompiled denied st
    → Distinct seen × All (IsSelectable denied) seen × (seen ≡ st.seen_ops ++ keys)
    → IsToolName alias
    → contains st.aliases alias ≡ false
    → IsCompiled denied (record {
      seen_ops = seen;
      aliases = st.aliases ++ alias ∷ [];
      tools = st.tools ++ op_selector rt class approval keys alias ∷ [];
    })
add_name_ok denied rt class approval keys seen alias st v k n fresh =
    let s = op_selector rt class approval keys alias in
    let named : all_aliases (s ∷ []) ≡ alias ∷ [] = rw (valid_alias-is_empty alias n.0) refl in
    record {
      keys_distinct = k.0;
      keys = k.1;
      names_distinct = Distinct-append_one st.aliases alias v.names_distinct fresh;
      names = All-append_one IsToolName st.aliases alias v.names n;
      same_keys = all_ops-append st.tools s ∙ ap (λ ks. ks ++ keys) v.same_keys ∙ sym k.2;
      same_names =
          all_aliases-append st.tools s
          ∙ ap (λ ns. ns ++ all_aliases (s ∷ [])) v.same_names
          ∙ ap (λ ns. st.aliases ++ ns) named;
    }

add_op_ok :
    (denied : List GoString) (rt : RawTool) (class : Class) (approval : Bool) (keys : List GoString)
    (st out : ToolState)
    → IsCompiled denied st
    → add_op denied rt class approval keys st ≡ ok out
    → IsCompiled denied out
add_op_ok denied rt class approval keys st out v h =
    let one = check_ok (fail_if (no_keys keys) empty_op) _ h in
    let seen = bind_ok (select_keys denied st.seen_ops keys) _ one.1 in
    let alias = bind_ok (default_alias rt.alias keys) _ seen.2 in
    let valid = check_ok (fail_if (not (valid_alias alias.0)) invalid_alias) _ alias.2 in
    let free =
      check_ok (fail_if (is_reserved alias.0 || contains st.aliases alias.0) taken_alias) _
        valid.1 in
    let legal = not_failed (not (valid_alias alias.0)) invalid_alias valid.0 in
    let unused =
      not_failed (is_reserved alias.0 || contains st.aliases alias.0) taken_alias free.0 in
    let k = select_keys_ok denied st.seen_ops keys seen.0 seen.1 v.keys_distinct v.keys in
    subst (IsCompiled denied) (ok-injective free.1) (
      add_name_ok denied rt class approval keys seen.0 alias.0 st v k
        (ground (arith, legal), ground (arith, unused)) (ground (arith, unused)))

add_tags_ok :
    (denied : List GoString) (rt : RawTool) (class : Class) (approval : Bool) (tags : List GoString)
    (st out : ToolState)
    → IsCompiled denied st
    → add_tags rt class approval tags st ≡ ok out
    → IsCompiled denied out
add_tags_ok denied rt class approval [] st out v h =
    let one = check_ok (fail_if (not (is_empty rt.class)) class_on_tags) _ h in
    let two = check_ok (fail_if (not (is_empty rt.alias)) alias_on_tags) _ one.1 in cc (two.1)
add_tags_ok denied rt class approval (t ∷ ts) st out v h =
    let s : Selector = record {
      ops = [];
      tags = t ∷ ts;
      alias = [];
      read_only_hint = rt.read_only;
      class = class;
      approval_required = approval;
    } in
    let one = check_ok (fail_if (not (is_empty rt.class)) class_on_tags) _ h in
    let two = check_ok (fail_if (not (is_empty rt.alias)) alias_on_tags) _ one.1 in
    let three = check_ok (check_distinct bad_tag [] (t ∷ ts)) _ two.1 in
    subst (IsCompiled denied) (ok-injective three.1) (record {
      keys_distinct = v.keys_distinct;
      keys = v.keys;
      names_distinct = v.names_distinct;
      names = v.names;
      same_keys = all_ops-append st.tools s ∙ append_nil (all_ops st.tools) ∙ v.same_keys;
      same_names = all_aliases-append st.tools s ∙ append_nil (all_aliases st.tools) ∙ v.same_names;
    })

add_selector_ok :
    (denied : List GoString) (rt : RawTool) (class : Class) (approval : Bool)
    (op tags : Option (List GoString)) (st out : ToolState)
    → IsCompiled denied st
    → add_selector denied rt class approval op tags st ≡ ok out
    → IsCompiled denied out
add_selector_ok denied rt class approval none none st out v h = cc
add_selector_ok denied rt class approval (some keys) (some ts) st out v h = cc
add_selector_ok denied rt class approval (some keys) none st out v h =
    add_op_ok denied rt class approval keys st out v h
add_selector_ok denied rt class approval none (some ts) st out v h =
    add_tags_ok denied rt class approval ts st out v h

compile_each_ok :
    (header : GoString) (denied : List GoString) (rts : List RawTool) (st out : ToolState)
    → IsCompiled denied st
    → compile_each header denied rts st ≡ ok out
    → IsCompiled denied out
unfolding compile_each compile_tool
compile_each_ok header denied [] st out v h = subst (IsCompiled denied) (ok-injective h) v
compile_each_ok header denied (rt ∷ rts) st out v h =
    let next =
      bind_ok (compile_tool header denied rt st)
        (λ (s : ToolState). compile_each header denied rts s) h in
    let kind = check_ok (fail_if (not (one_kind rt.op rt.tags)) op_or_tags) _ next.1 in
    let class = bind_ok (parse_class rt.class) _ kind.1 in
    let header_ok =
      check_ok (fail_if (is_idempotent class.0 && is_empty header) needs_header) _ class.2 in
    let approval = bind_ok (parse_approval rt.approval) _ header_ok.1 in
    compile_each_ok header denied rts next.0 out
      (add_selector_ok denied rt class.0 approval.0 rt.op rt.tags st next.0 v approval.2) next.2

-- The tools of a journey that compiles select each operation key at most once, never an empty or a
-- denied one, and their names are distinct, valid and not reserved.
pub compile_tools_lem :
    (header : GoString) (raw : List RawTool) (deny : List GoString) (tools : List Selector)
    (denied : List GoString)
    → compile_tools header raw deny ≡ ok (tools, denied)
    → (denied ≡ deny)
      × Distinct (all_ops tools)
      × All (IsSelectable deny) (all_ops tools)
      × Distinct (all_aliases tools)
      × All IsToolName (all_aliases tools)
unfolding compile_tools
compile_tools_lem header [] deny tools denied h = cc
compile_tools_lem header (rt ∷ rts) deny tools denied h =
    let first = check_ok (check_distinct bad_deny [] deny) _ h in
    let st = bind_ok (compile_each header deny (rt ∷ rts) no_state) _ first.1 in
    let start : IsCompiled deny no_state = record {
      keys_distinct = tt;
      keys = tt;
      names_distinct = tt;
      names = tt;
      same_keys = refl;
      same_names = refl;
    } in
    let v = compile_each_ok header deny (rt ∷ rts) no_state st.0 start st.1 in
    let pair = ok-injective st.2 in
    let at : st.0.tools ≡ tools = ap (λ p. p.0) pair in
    let keys = sym v.same_keys ∙ ap all_ops at in
    let names = sym v.same_names ∙ ap all_aliases at in
    (
      ap (λ p. p.1) (sym pair),
      subst Distinct keys v.keys_distinct,
      subst (All (IsSelectable deny)) keys v.keys,
      subst Distinct names v.names_distinct,
      subst (All IsToolName) names v.names,
    )
