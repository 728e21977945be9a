-- ===== src/Catalog/Examples.antt =====
-- Resolutions and a binding at concrete journeys and snapshots.
use az_agent_platform_go.Prelude.{
  ◌≡◌, refl, true, false, Bool, List, [], ◌∷◌, none, some, GoString, codes, ok, str_eq, contains,
  lookup, insert, Distinct, All, sort_strings,
}
use az_agent_platform_go.Definitions.Tools.{Selector, Class}
use az_agent_platform_go.Definitions.Aliases.{alias_for}
use az_agent_platform_go.Catalog.Descriptors.{
  Descriptor, MetaValue, MetaItem, Snapshot, Journey, Tool, Resolution, Reason, is_available,
}
use az_agent_platform_go.Catalog.Selecting.{keyed_from}
use az_agent_platform_go.Catalog.Resolving.{in_order, tool_of, sort_by_alias, resolve}
use az_agent_platform_go.Catalog.Resolved.{
  IsUsable, IsReviewed, resolve-IsUsable, resolve-IsReviewed,
}
use az_agent_platform_go.Catalog.Policies.{
  note, offered_tools, conflict_of, check_policies, alias_name,
}
use az_agent_platform_go.Catalog.Agreed.{AllAgree, check_policies-AllAgree}
use az_agent_platform_go.Catalog.Stable.{check_policies-unchanged}
use az_agent_platform_go.Catalog.Names.{names}
use az_agent_platform_go.Catalog.Binding.{
  Binding, Called, bind, bind_tools, resolution, tool, tools, Request, Answer, call, auth_required,
  answered, auth_needed,
}
use az_agent_platform_go.Catalog.Bound.{bind-AllAgree, call-tool}
use az_agent_platform_go.Catalog.Shown.{
  tools-Distinct, call-auth_needed, listed_tools, Later, call_each,
}

abbrev op_key : GoString
op_key = codes "op"

abbrev descriptor : GoString → GoString → List MetaItem → Bool → Descriptor
descriptor name key tags hint = record {
  name = name;
  description = [];
  input_schema = [];
  meta = (op_key, MetaValue.text key) ∷ (codes "tags", MetaValue.items tags) ∷ [];
  read_only_hint = hint;
}

abbrev snapshot : Snapshot
snapshot = record {
  product_version = codes "1.4";
  tools =
      descriptor (codes "getOrder") (codes "get") [] true
      ∷ descriptor (codes "dropOrder") (codes "drop") [] false
      ∷ descriptor (codes "listOrders") (codes "list") (MetaItem.word (codes "t") ∷ []) true
      ∷ [];
}

abbrev get_selector : Class → Selector
get_selector class = record {
  ops = codes "get" ∷ [];
  tags = [];
  alias = codes "g";
  read_only_hint = true;
  class = class;
  approval_required = false;
}

abbrev tag_selector : Selector
tag_selector = record {
  ops = [];
  tags = codes "t" ∷ [];
  alias = [];
  read_only_hint = true;
  class = Class.unclassified;
  approval_required = false;
}

abbrev journey : GoString → List Selector → Journey
journey id tools = record {
  id = id;
  tools = tools;
  deny = codes "drop" ∷ [];
  max_tools = 0;
  product_versions = record { min = []; max_exclusive = [] };
}

abbrev orders : Journey
orders = journey (codes "orders") (get_selector Class.read_only ∷ tag_selector ∷ [])

abbrev audit : Journey
audit = journey (codes "audit") (get_selector Class.effectful ∷ [])

abbrev get_tool : Tool
get_tool = record {
  alias = codes "g";
  operation_key = codes "get";
  remote_name = codes "getOrder";
  description = [];
  input_schema = [];
  class = Class.read_only;
  requires_approval = false;
}

abbrev list_tool : Tool
list_tool = record {
  alias = codes "list";
  operation_key = codes "list";
  remote_name = codes "listOrders";
  description = [];
  input_schema = [];
  class = Class.effectful;
  requires_approval = true;
}

orders_tools : (resolve orders snapshot op_key).tools ≡ get_tool ∷ list_tool ∷ []
unfolding resolve keyed_from lookup str_eq contains sort_strings in_order alias_for insert
    sort_by_alias tool_of
orders_tools = refl

orders_available : is_available (resolve orders snapshot op_key) ≡ true
unfolding resolve keyed_from lookup str_eq contains sort_strings in_order alias_for insert
    sort_by_alias tool_of
orders_available = refl

resolve-IsUsable_example : IsUsable orders (resolve orders snapshot op_key).tools
resolve-IsUsable_example = resolve-IsUsable orders snapshot op_key orders_available

resolve-IsReviewed_example :
    All (IsReviewed orders snapshot op_key) (resolve orders snapshot op_key).tools
resolve-IsReviewed_example = resolve-IsReviewed orders snapshot op_key orders_available

-- A journey whose only operation is denied.
missing :
    (resolve
      (journey (codes "x") (record (get_selector Class.effectful) { ops = codes "drop" ∷ [] } ∷ []))
      snapshot
      op_key).unavailable
    ≡ record { reason = Reason.missing; operation = codes "drop" } ∷ []
unfolding resolve keyed_from lookup str_eq contains sort_strings in_order alias_for insert
    sort_by_alias tool_of
missing = refl

abbrev audit_tool : Tool
audit_tool = record get_tool { class = Class.effectful; requires_approval = true }

abbrev resolution_of : GoString → List Tool → Resolution
resolution_of id tools = record { journey_id = id; tools = tools; unavailable = [] }

abbrev resolutions : List Resolution
resolutions =
    resolution_of (codes "orders") (get_tool ∷ list_tool ∷ [])
    ∷ resolution_of (codes "audit") (audit_tool ∷ [])
    ∷ resolution_of (codes "lists") (list_tool ∷ [])
    ∷ []

-- Two journeys give the key "get" different policies; the third stays available.
conflicting : offered_tools (check_policies resolutions) ≡ list_tool ∷ []
unfolding check_policies str_eq contains insert lookup note conflict_of sort_strings
conflicting = refl

check_policies-AllAgree_example : AllAgree (offered_tools (check_policies resolutions))
check_policies-AllAgree_example =
    check_policies-AllAgree resolutions
      ((refl, refl), ((refl, refl), ((refl, refl), ((refl, refl), tt))))

abbrev agreeing : List Resolution
agreeing =
    resolution_of (codes "orders") (get_tool ∷ list_tool ∷ [])
    ∷ resolution_of (codes "lists") (list_tool ∷ [])
    ∷ []

abbrev journeys : List Journey
journeys = orders ∷ journey (codes "lists") (tag_selector ∷ []) ∷ []

abbrev binding : Binding
binding = record {
  resolutions = agreeing;
  by_alias = (codes "g", get_tool) ∷ (codes "list", list_tool) ∷ [];
  broken = false;
}

bind_journeys : bind journeys snapshot op_key ≡ ok binding
unfolding bind resolve keyed_from lookup str_eq contains sort_strings in_order alias_for insert
    sort_by_alias tool_of check_policies note conflict_of bind_tools
bind_journeys = refl

bind-AllAgree_example : AllAgree (offered_tools binding.resolutions)
bind-AllAgree_example = bind-AllAgree journeys snapshot op_key binding bind_journeys

check_policies-unchanged_example : check_policies agreeing ≡ agreeing
check_policies-unchanged_example = check_policies-unchanged agreeing bind-AllAgree_example

abbrev session : Request → Answer
session r = answered false (codes "done")

found_list : tool binding (codes "lists") (codes "list") ≡ some list_tool
unfolding tool resolution str_eq
found_list = refl

call-tool_example :
    (call session binding (codes "1") (codes "list") (codes "{}")).sent
    ≡ some
        (record { call_id = codes "1"; remote_name = codes "listOrders"; arguments = codes "{}" })
call-tool_example =
    call-tool session journeys snapshot op_key binding (codes "lists") (codes "list") (codes "1")
      (codes "{}") list_tool bind_journeys found_list

tools-Distinct_example :
    Distinct (names alias_name (tools binding (codes "lists" ∷ codes "orders" ∷ [])))
    × ((a : GoString)
        → contains (names alias_name (tools binding (codes "lists" ∷ codes "orders" ∷ []))) a
          ≡ contains
              (names alias_name
                (listed_tools (codes "lists" ∷ codes "orders" ∷ []) binding.resolutions))
              a)
tools-Distinct_example = tools-Distinct binding (codes "lists" ∷ codes "orders" ∷ [])

abbrev refusing : Request → Answer
refusing r = auth_required

refused : (call refusing binding (codes "1") (codes "g") []).outcome ≡ auth_needed
unfolding call lookup str_eq
refused = refl

abbrev next_calls : List Later
next_calls =
    record { session = session; call_id = codes "2"; alias = codes "unknown"; arguments = [] }
    ∷ record { session = session; call_id = codes "3"; alias = codes "list"; arguments = [] }
    ∷ []

call-auth_needed_example :
    All
      (λ (c : Called). c.sent ≡ none)
      (call_each (call refusing binding (codes "1") (codes "g") []).binding next_calls)
call-auth_needed_example =
    call-auth_needed refusing binding (codes "1") (codes "g") [] next_calls refused
