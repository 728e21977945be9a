-- ===== src/Definitions/Tools.antt =====
-- internal/definitions/compile.go: the compilation of a journey's tools and denied operations.
use az_agent_platform_go.Prelude.{
  Bool, true, false, not, ◌&&◌, ◌||◌, List, [], ◌∷◌, ◌++◌, Option, none, some, GoString, is_empty,
  contains, codes, str_eq, Result, ok, err, fail_if, ◌>>=◌, ◌>>◌, if◌then◌else◌,
}
use az_agent_platform_go.Definitions.Aliases.{alias_for, valid_alias, is_reserved}

pub data Class : Type 0 where
  unclassified read_only idempotent effectful : Class

pub record Selector : Type 0 where
  pub ops : List GoString
  pub tags : List GoString
  pub alias : GoString
  pub read_only_hint : Bool
  pub class : Class
  pub approval_required : Bool

-- A tool of a journey document: op and tags are `none` where the document has no such key.
pub record RawTool : Type 0 where
  pub op : Option (List GoString)
  pub tags : Option (List GoString)
  pub alias : GoString
  pub class : GoString
  pub approval : GoString
  pub read_only : Bool

pub data ToolError : Type 0 where
  no_tools bad_deny op_or_tags bad_class needs_header bad_approval empty_op empty_key : ToolError
  selected_twice denied_key needs_alias invalid_alias taken_alias class_on_tags alias_on_tags :
      ToolError
  empty_tags bad_tag : ToolError

abbrev pub parse_class : GoString → Result ToolError Class
parse_class s =
    if is_empty s
    then ok unclassified
    else if str_eq s (codes "read_only")
    then ok read_only
    else if str_eq s (codes "idempotent")
    then ok idempotent
    else if str_eq s (codes "effectful")
    then ok effectful
    else err bad_class

abbrev pub is_idempotent : Class → Bool
is_idempotent idempotent = true
is_idempotent _ = false

abbrev pub parse_approval : GoString → Result ToolError Bool
parse_approval s =
    if is_empty s
    then ok false
    else if str_eq s (codes "required")
    then ok true
    else err bad_approval

-- No key is empty, repeated or seen before.
abbrev pub check_distinct : ToolError → List GoString → List GoString → Result ToolError (Unit {0})
check_distinct e seen [] = ok tt
check_distinct e seen (k ∷ ks) =
    fail_if (is_empty k || contains seen k) e >> check_distinct e (k ∷ seen) ks

-- The alternatives of an op selector, after the keys of the selectors before it.
abbrev pub select_keys :
    List GoString → List GoString → List GoString → Result ToolError (List GoString)
select_keys denied seen [] = ok seen
select_keys denied seen (k ∷ ks) =
    fail_if (is_empty k) empty_key
    >> (fail_if (contains seen k) selected_twice
        >> (fail_if (contains denied k) denied_key >> select_keys denied (seen ++ k ∷ []) ks))

-- The alias a selector asks for, or that of its only key.
abbrev pub default_alias : GoString → List GoString → Result ToolError GoString
default_alias (c ∷ cs) keys = ok (c ∷ cs)
default_alias [] [] = ok []
default_alias [] (k ∷ []) = ok (alias_for k).0
default_alias [] (k ∷ l ∷ ks) = err needs_alias

pub record ToolState : Type 0 where
  pub seen_ops : List GoString
  pub aliases : List GoString
  pub tools : List Selector

abbrev pub no_keys : List GoString → Bool
no_keys [] = true
no_keys (k ∷ ks) = false

abbrev pub add_op :
    List GoString → RawTool → Class → Bool → List GoString → ToolState → Result ToolError ToolState
add_op denied rt class approval keys st =
    fail_if (no_keys keys) empty_op
    >> (select_keys denied st.seen_ops keys >>= λ seen. default_alias rt.alias keys >>= λ alias.
        fail_if (not (valid_alias alias)) invalid_alias
        >> (fail_if (is_reserved alias || contains st.aliases alias) taken_alias
            >> ok (record {
              seen_ops = seen;
              aliases = st.aliases ++ alias ∷ [];
              tools =
                  st.tools
                  ++ record {
                    ops = keys;
                    tags = [];
                    alias = alias;
                    read_only_hint = rt.read_only;
                    class = class;
                    approval_required = approval;
                  }
                    ∷ [];
            })))

abbrev pub add_tags :
    RawTool → Class → Bool → List GoString → ToolState → Result ToolError ToolState
add_tags rt class approval [] st =
    fail_if (not (is_empty rt.class)) class_on_tags
    >> (fail_if (not (is_empty rt.alias)) alias_on_tags >> err empty_tags)
add_tags rt class approval (t ∷ ts) st =
    fail_if (not (is_empty rt.class)) class_on_tags
    >> (fail_if (not (is_empty rt.alias)) alias_on_tags
        >> (check_distinct bad_tag [] (t ∷ ts)
            >> ok (record st {
              tools =
                  st.tools
                  ++ record {
                    ops = [];
                    tags = t ∷ ts;
                    alias = [];
                    read_only_hint = rt.read_only;
                    class = class;
                    approval_required = approval;
                  }
                    ∷ [];
            })))

abbrev pub add_selector :
    List GoString
    → RawTool
    → Class
    → Bool
    → Option (List GoString)
    → Option (List GoString)
    → ToolState
    → Result ToolError ToolState
add_selector denied rt class approval none none st = err op_or_tags
add_selector denied rt class approval (some keys) (some ts) st = err op_or_tags
add_selector denied rt class approval (some keys) none st = add_op denied rt class approval keys st
add_selector denied rt class approval none (some ts) st = add_tags rt class approval ts st

abbrev pub one_kind : Option (List GoString) → Option (List GoString) → Bool
one_kind (some keys) none = true
one_kind none (some ts) = true
one_kind _ _ = false

-- One round of compileTools' loop; `header` is the catalog's call ID header.
unfoldable pub compile_tool :
    GoString → List GoString → RawTool → ToolState → Result ToolError ToolState
compile_tool header denied rt st =
    fail_if (not (one_kind rt.op rt.tags)) op_or_tags
    >> (parse_class rt.class >>= λ class.
        fail_if (is_idempotent class && is_empty header) needs_header
        >> (parse_approval rt.approval >>= λ approval.
            add_selector denied rt class approval rt.op rt.tags st))

unfoldable pub compile_each :
    GoString → List GoString → List RawTool → ToolState → Result ToolError ToolState
unfolding compile_tool
compile_each header denied [] st = ok st
compile_each header denied (rt ∷ rts) st =
    compile_tool header denied rt st >>= λ next. compile_each header denied rts next

abbrev pub no_state : ToolState
no_state = record { seen_ops = []; aliases = []; tools = [] }

-- compileTools, on the tools and the denied operations of a journey document.
unfoldable pub compile_tools :
    GoString → List RawTool → List GoString → Result ToolError (List Selector × List GoString)
unfolding compile_each
compile_tools header [] deny = err no_tools
compile_tools header (rt ∷ rts) deny =
    check_distinct bad_deny [] deny
    >> (compile_each header deny (rt ∷ rts) no_state >>= λ st. ok (st.tools, deny))
