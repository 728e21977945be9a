-- ===== src/Catalog/Selecting.antt =====
-- internal/catalog/resolve.go (Resolve): which tools the selectors of a journey choose. A tool is
-- named by its position in the snapshot; `keyed` are the tools that may be selected, with their keys.
use az_agent_platform_go.Prelude.{
  ℕ, ◌+◌, Bool, true, false, not, ◌&&◌, ◌||◌, List, [], ◌∷◌, ◌++◌, GoString, str_eq, is_empty,
  contains, ◌==◌, anyb, filterb, update_rows, if◌then◌else◌,
}
use az_agent_platform_go.Definitions.Tools.{Selector, Class}
use az_agent_platform_go.Catalog.Descriptors.{
  Descriptor, operation_key, has_all_tags, Unavailable, Reason, missing, ambiguous,
}

pub record Keyed : Type 0 where
  pub index : ℕ
  pub key : GoString
  pub tool : Descriptor

-- The tools with a key that is not denied, from a position on.
unfoldable pub keyed_from : ℕ → GoString → List GoString → List Descriptor → List Keyed
keyed_from i meta_key deny [] = []
keyed_from i meta_key deny (d ∷ ds) =
    let rest = keyed_from (i + 1) meta_key deny ds in
    let key = operation_key meta_key d in
    if not (is_empty key) && not (contains deny key)
    then record { index = i; key = key; tool = d } ∷ rest
    else rest

-- What the matching selectors say about one tool.
pub record Selection : Type 0 where
  pub op_class : Class
  pub op_alias : GoString
  pub from_op : Bool
  pub approval : Bool

pub record Chosen : Type 0 where
  pub keyed : Keyed
  pub selection : Selection

abbrev pub no_selection : Selection
no_selection = record {
  op_class = Class.unclassified;
  op_alias = [];
  from_op = false;
  approval = false;
}

abbrev pub has_ops : Selector → Bool
has_ops s = elim s.ops [ [] ↦ false | k ∷ ks ↦ true ]

abbrev pub has_tags : Selector → Bool
has_tags s = elim s.tags [ [] ↦ false | t ∷ ts ↦ true ]

-- The body of choose: an op selector gives its class and alias, any selector its approval.
abbrev pub extend : Selector → Selection → Selection
extend s n = record {
  op_class = if has_ops s then s.class else n.op_class;
  op_alias = if has_ops s then s.alias else n.op_alias;
  from_op = has_ops s || n.from_op;
  approval = n.approval || s.approval_required;
}

abbrev pub at_index : ℕ → Chosen → Bool
at_index i c = c.keyed.index == i

abbrev pub extend_chosen : Selector → Chosen → Chosen
extend_chosen s c = record { keyed = c.keyed; selection = extend s c.selection }

-- choose; the entries of the map are kept in the order of their first choice.
unfoldable pub choose : Keyed → Selector → List Chosen → List Chosen
choose k s chosen =
    if anyb (at_index k.index) chosen
    then update_rows (at_index k.index) (extend_chosen s) chosen
    else chosen ++ record { keyed = k; selection = extend s no_selection } ∷ []

abbrev pub hint_fits : Selector → Keyed → Bool
hint_fits s k = not s.read_only_hint || k.tool.read_only_hint

abbrev pub candidates : List Keyed → Selector → GoString → List Keyed
candidates keyed s op = filterb (λ (k : Keyed). str_eq k.key op && hint_fits s k) keyed

-- The alternatives of an op selector: the first with a candidate decides.
pub data Found : Type 0 where
  nothing : Found
  several : GoString → Found
  one : Keyed → Found

abbrev pub of_candidates : GoString → List Keyed → Found → Found
of_candidates op [] next = next
of_candidates op (k ∷ []) next = one k
of_candidates op (k ∷ l ∷ ks) next = several op

unfoldable pub find_op : List Keyed → Selector → List GoString → Found
find_op keyed s [] = nothing
find_op keyed s (op ∷ ops) =
    let next = find_op keyed s ops in of_candidates op (candidates keyed s op) next

-- The reasons reported so far, and the choices.
pub record Choices : Type 0 where
  pub reports : List Unavailable
  pub chosen : List Chosen

abbrev pub report : Reason → GoString → Choices → Choices
report reason operation c = record {
  reports = c.reports ++ record { reason = reason; operation = operation } ∷ [];
  chosen = c.chosen;
}

abbrev pub first_op : List GoString → GoString
first_op [] = []
first_op (op ∷ ops) = op

abbrev pub apply_found : Selector → Found → Choices → Choices
apply_found s nothing c = report missing (first_op s.ops) c
apply_found s (several op) c = report ambiguous op c
apply_found s (one k) c = record { reports = c.reports; chosen = choose k s c.chosen }

unfoldable pub select_ops : List Keyed → List Selector → Choices → Choices
unfolding find_op choose
select_ops keyed [] c = c
select_ops keyed (s ∷ ss) c =
    select_ops keyed ss (if has_ops s then apply_found s (find_op keyed s s.ops) c else c)

-- The tools that a tag selector matches, one after another.
unfoldable pub choose_tagged : Selector → List Keyed → List Chosen → List Chosen
unfolding has_all_tags choose
choose_tagged s [] chosen = chosen
choose_tagged s (k ∷ ks) chosen =
    choose_tagged s ks
      (if hint_fits s k && has_all_tags k.tool s.tags then choose k s chosen else chosen)

unfoldable pub select_tags : List Keyed → List Selector → List Chosen → List Chosen
unfolding choose_tagged
select_tags keyed [] chosen = chosen
select_tags keyed (s ∷ ss) chosen =
    select_tags keyed ss
      (if not (has_ops s) && has_tags s then choose_tagged s keyed chosen else chosen)
