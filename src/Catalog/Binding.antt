-- ===== src/Catalog/Binding.antt =====
-- internal/catalog/binding.go: the resolutions of a set's journeys bound to the remote tools, the
-- tools shown to the model and a call of one of them. The MCP session is a parameter: the answer it
-- gives to a request.
use az_agent_platform_go.Prelude.{
  Bool, true, false, ◌&&◌, ◌||◌, List, [], ◌∷◌, ◌++◌, Option, none, some, GoString, str_eq,
  contains, lookup, insert, find_row, if◌then◌else◌, Result, ok, err, ◌>>=◌,
}
use az_agent_platform_go.Catalog.Descriptors.{Journey, Snapshot, Tool, Resolution, is_available}
use az_agent_platform_go.Catalog.Resolving.{resolve}
use az_agent_platform_go.Catalog.Policies.{check_policies, offered_tools}

pub data BindError : Type 0 where
  ambiguous_alias : GoString → BindError

pub record Binding : Type 0 where
  pub resolutions : List Resolution
  pub by_alias : List (GoString × Tool)
  pub broken : Bool

abbrev pub bind_tool :
    Tool → Option Tool → List (GoString × Tool) → Result BindError (List (GoString × Tool))
bind_tool t none m = ok (insert t.alias t m)
bind_tool t (some prior) m =
    if str_eq prior.remote_name t.remote_name then ok m else err (ambiguous_alias t.alias)

-- byAlias, from the tools of the available resolutions.
unfoldable pub bind_tools :
    List Tool → List (GoString × Tool) → Result BindError (List (GoString × Tool))
bind_tools [] m = ok m
bind_tools (t ∷ ts) m = bind_tool t (lookup t.alias m) m >>= λ next. bind_tools ts next

unfoldable pub resolve_each : List Journey → Snapshot → GoString → List Resolution
unfolding resolve
resolve_each [] s meta_key = []
resolve_each (j ∷ js) s meta_key = resolve j s meta_key ∷ resolve_each js s meta_key

abbrev pub bound : List Resolution → Result BindError Binding
bound rs = bind_tools (offered_tools rs) [] >>= λ m.
    ok (record { resolutions = rs; by_alias = m; broken = false })

-- open, from the snapshot on.
unfoldable pub bind : List Journey → Snapshot → GoString → Result BindError Binding
unfolding resolve_each check_policies bind_tools
bind js s meta_key = bound (check_policies (resolve_each js s meta_key))

-- Resolution
unfoldable pub resolution : Binding → GoString → Option Resolution
resolution b id = find_row (λ (r : Resolution). str_eq r.journey_id id) b.resolutions

abbrev pub find_tool : GoString → List Tool → Option Tool
find_tool alias ts = find_row (λ (t : Tool). str_eq t.alias alias) ts

abbrev pub tool_in : GoString → Option Resolution → Option Tool
tool_in alias none = none
tool_in alias (some r) = if is_available r then find_tool alias r.tools else none

-- Tool
unfoldable pub tool : Binding → GoString → GoString → Option Tool
unfolding resolution
tool b id alias = tool_in alias (resolution b id)

-- The loop over one resolution's tools; `seen` are the aliases of `out`.
unfoldable pub show_tools : List Tool → List Tool → List GoString → List Tool × List GoString
show_tools [] out seen = (out, seen)
show_tools (t ∷ ts) out seen =
    show_tools ts (if contains seen t.alias then out else out ++ t ∷ [])
      (if contains seen t.alias then seen else seen ++ t.alias ∷ [])

abbrev pub is_listed : List GoString → Resolution → Bool
is_listed ids r = is_available r && contains ids r.journey_id

unfoldable pub show_each :
    List GoString → List Resolution → List Tool → List GoString → List Tool × List GoString
unfolding show_tools
show_each ids [] out seen = (out, seen)
show_each ids (r ∷ rs) out seen =
    let next = show_tools r.tools out seen in
    show_each ids rs (if is_listed ids r then next.0 else out)
      (if is_listed ids r then next.1 else seen)

-- Tools; a tool's schema is left as the descriptor gives it.
unfoldable pub tools : Binding → List GoString → List Tool
unfolding show_each
tools b ids = (show_each ids b.resolutions [] []).0

-- What the session answers, and what Call makes of it.
pub data Answer : Type 0 where
  auth_required not_permitted failed : Answer
  answered : (is_error : Bool) → (content : GoString) → Answer

pub data CallResult : Type 0 where
  not_bound auth_needed forbidden call_failed business_rejected : CallResult
  completed : GoString → CallResult

pub record Request : Type 0 where
  pub call_id : GoString
  pub remote_name : GoString
  pub arguments : GoString

pub record Called : Type 0 where
  pub binding : Binding
  pub sent : Option Request
  pub outcome : CallResult

abbrev pub outcome_of : Answer → CallResult
outcome_of auth_required = auth_needed
outcome_of not_permitted = forbidden
outcome_of failed = call_failed
outcome_of (answered true content) = business_rejected
outcome_of (answered false content) = completed content

abbrev pub breaks : Answer → Bool
breaks auth_required = true
breaks _ = false

abbrev pub unsent : Binding → CallResult → Called
unsent b outcome = record { binding = b; sent = none; outcome = outcome }

abbrev pub answer_call : Binding → Request → Answer → Called
answer_call b request answer = record {
  binding = record b { broken = b.broken || breaks answer };
  sent = some request;
  outcome = outcome_of answer;
}

abbrev pub call_bound : (Request → Answer) → Binding → GoString → GoString → Option Tool → Called
call_bound session b call_id arguments none = unsent b not_bound
call_bound session b call_id arguments (some t) =
    let request : Request = record {
      call_id = call_id;
      remote_name = t.remote_name;
      arguments = arguments;
    } in
    if b.broken then unsent b auth_needed else answer_call b request (session request)

-- Call
unfoldable pub call : (Request → Answer) → Binding → GoString → GoString → GoString → Called
call session b call_id alias arguments =
    call_bound session b call_id arguments (lookup alias b.by_alias)
