-- ===== src/Catalog/Resolving.antt =====
-- internal/catalog/resolve.go (Resolve): the checks on what was chosen, and the result.
use az_agent_platform_go.Prelude.{
  ℕ, zero, suc, Bool, true, false, not, ◌&&◌, ◌||◌, List, [], ◌∷◌, ◌++◌, Option, none, some,
  GoString, str_eq, is_empty, contains, ltb, leb, length, anyb, filterb, lookup, insert,
  sort_strings, str_le, map, if◌then◌else◌,
}
use az_agent_platform_go.Definitions.Versions.{in_range, is_zero}
use az_agent_platform_go.Definitions.Tools.{Class}
use az_agent_platform_go.Definitions.Aliases.{alias_for, valid_alias, is_reserved}
use az_agent_platform_go.Catalog.Descriptors.{
  Snapshot, Journey, Unavailable, Reason, ambiguous, invalid_alias, collision, max_tools, version,
  missing, policy_conflict, Tool, Resolution,
}
use az_agent_platform_go.Catalog.Selecting.{
  Keyed, keyed_from, Selection, Chosen, Choices, select_ops, select_tags,
}

-- selection.alias
unfoldable pub alias_of : Chosen → GoString
alias_of c =
    if c.selection.from_op && not (is_empty c.selection.op_alias)
    then c.selection.op_alias
    else (alias_for c.keyed.key).0

abbrev pub is_unclassified : Class → Bool
is_unclassified Class.unclassified = true
is_unclassified _ = false

abbrev pub is_read_only : Class → Bool
is_read_only Class.read_only = true
is_read_only _ = false

-- selection.class
unfoldable pub class_of : Selection → Class
class_of s = if s.from_op && not (is_unclassified s.op_class) then s.op_class else Class.effectful

-- The keys of the choices, each once.
abbrev pub chosen_keys : List Chosen → List GoString
chosen_keys [] = []
chosen_keys (c ∷ cs) =
    let rest = chosen_keys cs in if contains rest c.keyed.key then rest else c.keyed.key ∷ rest

abbrev pub has_key : GoString → Chosen → Bool
has_key key c = str_eq c.keyed.key key

-- sort.Ints of the indexes of one key.
abbrev pub insert_by_index : Chosen → List Chosen → List Chosen
insert_by_index c [] = c ∷ []
insert_by_index c (d ∷ ds) =
    let rest = insert_by_index c ds in
    if leb c.keyed.index d.keyed.index then c ∷ d ∷ ds else d ∷ rest

abbrev pub sort_by_index : List Chosen → List Chosen
sort_by_index [] = []
sort_by_index (c ∷ cs) = insert_by_index c (sort_by_index cs)

-- keyTools[key], in order.
unfoldable pub tools_of : List Chosen → GoString → List Chosen
tools_of chosen key = sort_by_index (filterb (has_key key) chosen)

unfoldable pub ambiguous_keys : List Chosen → List GoString → List Unavailable
unfolding tools_of
ambiguous_keys chosen [] = []
ambiguous_keys chosen (key ∷ keys) =
    let rest = ambiguous_keys chosen keys in
    if ltb 1 (length (tools_of chosen key))
    then record { reason = ambiguous; operation = key } ∷ rest
    else rest

-- The choices by key, then by index.
unfoldable pub in_order : List Chosen → List GoString → List Chosen
unfolding tools_of
in_order chosen [] = []
in_order chosen (key ∷ keys) = tools_of chosen key ++ in_order chosen keys

abbrev pub owned_by_other : Option GoString → GoString → Bool
owned_by_other none key = false
owned_by_other (some owner) key = not (str_eq owner key)

-- Aliases must be valid, unreserved and of one key; `owners` is aliasOwner.
unfoldable pub alias_reports : List (GoString × GoString) → List Chosen → List Unavailable
unfolding alias_of valid_alias is_reserved
alias_reports owners [] = []
alias_reports owners (c ∷ cs) =
    let skipped = alias_reports owners cs in
    let kept = alias_reports (insert (alias_of c) c.keyed.key owners) cs in
    if not (valid_alias (alias_of c))
    then record { reason = invalid_alias; operation = c.keyed.key } ∷ skipped
    else if is_reserved (alias_of c)
    then record { reason = collision; operation = alias_of c } ∷ skipped
    else if owned_by_other (lookup (alias_of c) owners) c.keyed.key
    then record { reason = collision; operation = alias_of c } ∷ kept
    else kept

abbrev pub tool_limit : ℕ → ℕ
tool_limit zero = 15
tool_limit (suc n) = suc n

unfoldable pub limit_reports : ℕ → List Chosen → List Unavailable
limit_reports limit chosen =
    if ltb (tool_limit limit) (length chosen)
    then record { reason = max_tools; operation = [] } ∷ []
    else []

abbrev pub reason_eq : Reason → Reason → Bool
reason_eq missing missing = true
reason_eq ambiguous ambiguous = true
reason_eq collision collision = true
reason_eq invalid_alias invalid_alias = true
reason_eq max_tools max_tools = true
reason_eq version version = true
reason_eq policy_conflict policy_conflict = true
reason_eq _ _ = false

abbrev pub is_report : Unavailable → Unavailable → Bool
is_report u v = reason_eq v.reason u.reason && str_eq v.operation u.operation

-- add: each reason once, in the order of the first report; `kept` are those already added.
unfoldable pub add_reports : List Unavailable → List Unavailable → List Unavailable
add_reports kept [] = kept
add_reports kept (u ∷ us) =
    add_reports (if anyb (is_report u) kept then kept else kept ++ u ∷ []) us

unfoldable pub tool_of : Chosen → Tool
unfolding alias_of class_of
tool_of c = record {
  alias = alias_of c;
  operation_key = c.keyed.key;
  remote_name = c.keyed.tool.name;
  description = c.keyed.tool.description;
  input_schema = c.keyed.tool.input_schema;
  class = class_of c.selection;
  requires_approval = not (is_read_only (class_of c.selection)) || c.selection.approval;
}

-- sort.Slice by alias.
unfoldable pub insert_by_alias : Tool → List Tool → List Tool
insert_by_alias t [] = t ∷ []
insert_by_alias t (u ∷ us) =
    let rest = insert_by_alias t us in if str_le t.alias u.alias then t ∷ u ∷ us else u ∷ rest

unfoldable pub sort_by_alias : List Tool → List Tool
unfolding insert_by_alias
sort_by_alias [] = []
sort_by_alias (t ∷ ts) = insert_by_alias t (sort_by_alias ts)

abbrev pub serves : Journey → Snapshot → Bool
serves j s = is_zero j.product_versions || in_range j.product_versions s.product_version

abbrev pub no_choices : Choices
no_choices = record { reports = []; chosen = [] }

abbrev pub keyed_of : Journey → Snapshot → GoString → List Keyed
keyed_of j s meta_key = keyed_from zero meta_key j.deny s.tools

-- The choices of both kinds of selectors.
unfoldable pub choices_of : Journey → Snapshot → GoString → Choices
unfolding select_ops select_tags
choices_of j s meta_key =
    let keyed = keyed_of j s meta_key in
    let by_op = select_ops keyed j.tools no_choices in
    record { reports = by_op.reports; chosen = select_tags keyed j.tools by_op.chosen }

abbrev pub ordered : List Chosen → List Chosen
ordered chosen = in_order chosen (sort_strings (chosen_keys chosen))

-- Every report of a resolution, in order.
unfoldable pub all_reports : Journey → Choices → List Unavailable
unfolding ambiguous_keys alias_reports limit_reports
all_reports j c =
    c.reports
    ++ (ambiguous_keys c.chosen (sort_strings (chosen_keys c.chosen))
        ++ (alias_reports [] (ordered c.chosen) ++ limit_reports j.max_tools c.chosen))

abbrev pub result_of : GoString → List Unavailable → List Chosen → Resolution
result_of id [] chosen = record {
  journey_id = id;
  tools = sort_by_alias (map tool_of (ordered chosen));
  unavailable = [];
}
result_of id (u ∷ us) chosen = record { journey_id = id; tools = []; unavailable = u ∷ us }

-- Resolve; the tools come out sorted, so the order in which a map yields them does not show.
unfoldable pub resolve : Journey → Snapshot → GoString → Resolution
unfolding choices_of all_reports add_reports
resolve j s meta_key =
    if serves j s
    then (let c = choices_of j s meta_key in
        result_of j.id (add_reports [] (all_reports j c)) c.chosen)
    else record {
      journey_id = j.id;
      tools = [];
      unavailable = record { reason = version; operation = [] } ∷ [];
    }
