-- ===== src/Definitions/Examples.antt =====
-- Versions, aliases and tools at concrete values.
use az_agent_platform_go.Prelude.{
  ◌≡◌, refl, true, false, ◌&&◌, List, [], ◌∷◌, none, some, GoString, codes, ok, length, leb,
  Distinct, All, str_eq, contains,
}
use az_agent_platform_go.Definitions.Versions.{
  compare_versions, compare_segment, compare_bytes, in_range, VersionRange,
}
use az_agent_platform_go.Definitions.Compose.{at_most}
use az_agent_platform_go.Definitions.Order.{compare_versions_trans, in_range_convex}
use az_agent_platform_go.Definitions.Aliases.{
  alias_for, valid_alias, alias_for_lem, starts_well, is_reserved, alias_bytes,
}
use az_agent_platform_go.Definitions.Tools.{
  RawTool, Selector, Class, compile_tools, compile_each, compile_tool,
}
use az_agent_platform_go.Definitions.Selected.{
  compile_tools_lem, all_ops, all_aliases, IsSelectable, IsToolName,
}

abbrev one_nine : GoString
one_nine = codes "1.9"

abbrev one_ten : GoString
one_ten = codes "1.10"

abbrev two : GoString
two = codes "2.0-rc"

abbrev one_to_three : VersionRange
one_to_three = record { min = codes "1.02"; max_exclusive = codes "3" }

compare_versions_trans_example : at_most (compare_versions one_nine two) ≡ true
unfolding compare_versions compare_segment compare_bytes
compare_versions_trans_example = compare_versions_trans one_nine one_ten two refl refl

in_range_convex_example : in_range one_to_three one_ten ≡ true
unfolding in_range compare_versions compare_segment compare_bytes
in_range_convex_example = in_range_convex one_to_three one_nine one_ten two refl refl refl refl

abbrev orders_get : GoString
orders_get = codes "orders.get"

alias_for_lem_example :
    (length (alias_for orders_get).0 ≡ length orders_get)
    × ((alias_for orders_get).1
        ≡ (leb 1 (length orders_get) && leb (length orders_get) 64 && starts_well orders_get))
    × (valid_alias (alias_for orders_get).0 ≡ (alias_for orders_get).1)
alias_for_lem_example = alias_for_lem orders_get

abbrev get_tool : RawTool
get_tool = record {
  op = some (orders_get ∷ []);
  tags = none;
  alias = [];
  class = codes "read_only";
  approval = [];
  read_only = true;
}

abbrev cancel_tool : RawTool
cancel_tool = record {
  op = some (codes "orders.cancel" ∷ codes "orders.void" ∷ []);
  tags = none;
  alias = codes "cancel";
  class = codes "effectful";
  approval = codes "required";
  read_only = false;
}

abbrev tagged_tool : RawTool
tagged_tool = record {
  op = none;
  tags = some (codes "orders" ∷ []);
  alias = [];
  class = [];
  approval = [];
  read_only = true;
}

abbrev raw_tools : List RawTool
raw_tools = get_tool ∷ cancel_tool ∷ tagged_tool ∷ []

abbrev denied_keys : List GoString
denied_keys = codes "orders.purge" ∷ []

abbrev tools : List Selector
tools =
    record {
      ops = orders_get ∷ [];
      tags = [];
      alias = codes "orders_get";
      read_only_hint = true;
      class = Class.read_only;
      approval_required = false;
    }
    ∷ record {
      ops = codes "orders.cancel" ∷ codes "orders.void" ∷ [];
      tags = [];
      alias = codes "cancel";
      read_only_hint = false;
      class = Class.effectful;
      approval_required = true;
    }
    ∷ record {
      ops = [];
      tags = codes "orders" ∷ [];
      alias = [];
      read_only_hint = true;
      class = Class.unclassified;
      approval_required = false;
    }
    ∷ []

compiles : compile_tools [] raw_tools denied_keys ≡ ok (tools, denied_keys)
unfolding compile_tools compile_each compile_tool alias_for alias_bytes valid_alias is_reserved
    contains str_eq
compiles = refl

compile_tools_lem_example :
    (denied_keys ≡ denied_keys)
    × Distinct (all_ops tools)
    × All (IsSelectable denied_keys) (all_ops tools)
    × Distinct (all_aliases tools)
    × All IsToolName (all_aliases tools)
compile_tools_lem_example = compile_tools_lem [] raw_tools denied_keys tools denied_keys compiles
