-- ===== src/Catalog/Resolved.antt =====
-- internal/catalog/resolve.go (Resolve): what the tools of an available resolution satisfy.
use native.Mathlib.Omega.{arith}
use az_agent_platform_go.Prelude.{
  ℕ, suc, ◌≡◌, ◌≤◌, refl, sym, ap, subst, Bool, true, false, not, ◌&&◌, List, [], ◌∷◌, GoString,
  str_eq, Distinct, length, if◌then◌else◌, All, Bool-cases, inl, inr, anyb, ltb, map, lookup-nil,
  sort_strings, Distinct-sort_strings, length-sort_strings,
}
use az_agent_platform_go.Definitions.Selected.{IsToolName, IsSelectable}
use az_agent_platform_go.Catalog.Descriptors.{
  Descriptor, Snapshot, Journey, Tool, Resolution, Reason, Unavailable, is_available, operation_key,
}
use az_agent_platform_go.Catalog.Selecting.{Chosen, Choices, Selection}
use az_agent_platform_go.Catalog.Resolving.{
  serves, choices_of, all_reports, ordered, sort_by_alias, tool_of, tool_limit, chosen_keys,
  resolve, is_read_only, class_of, ambiguous_keys, alias_reports, limit_reports, result_of,
  add_reports, alias_of, is_unclassified,
}
use az_agent_platform_go.Catalog.Names.{
  names, Distinct-sort_by_alias, All-sort_by_alias, length-sort_by_alias,
}
use az_agent_platform_go.Catalog.Groups.{
  keys_in, add_reports-nil, append_is_nil, ambiguous_keys-nil, All-in_order, Distinct-in_order,
  length-in_order, Distinct-chosen_keys, length-chosen_keys,
}
use az_agent_platform_go.Catalog.Aliased.{aliases_in, IsNamed, IsForeign, alias_reports-nil}
use az_agent_platform_go.Catalog.Founded.{IsChoice, reviews_read_only, choices_of-IsChoice}

-- Nothing is reported about an available resolution, and its tools are the ordered choices.
available_choices :
    (j : Journey) (s : Snapshot) (meta_key : GoString)
    → is_available (resolve j s meta_key) ≡ true
    → (all_reports j (choices_of j s meta_key) ≡ [])
      × ((resolve j s meta_key).tools
          ≡ sort_by_alias (map tool_of (ordered (choices_of j s meta_key).chosen)))
unfolding resolve
available_choices j s meta_key h = served (serves j s) h
  where
    reports : List Unavailable
    reports = all_reports j (choices_of j s meta_key)

    chosen : List Chosen
    chosen = (choices_of j s meta_key).chosen

    by_reports :
        (us : List Unavailable)
        → is_available (result_of j.id us chosen) ≡ true
        → (us ≡ [])
          × ((result_of j.id us chosen).tools ≡ sort_by_alias (map tool_of (ordered chosen)))
    by_reports [] e = (refl, refl)
    by_reports (u ∷ us) e = cc

    refused : Resolution
    refused = record {
      journey_id = j.id;
      tools = [];
      unavailable = record { reason = Reason.version; operation = [] } ∷ [];
    }

    served :
        (b : Bool)
        → is_available (if b then result_of j.id (add_reports [] reports) chosen else refused)
          ≡ true
        → (reports ≡ [])
          × ((if b then result_of j.id (add_reports [] reports) chosen else refused).tools
              ≡ sort_by_alias (map tool_of (ordered chosen)))
    served true e =
        let r = by_reports (add_reports [] reports) e in (add_reports-nil reports r.0, r.1)
    served false e = cc

within_limit :
    (limit : ℕ) (chosen : List Chosen)
    → limit_reports limit chosen ≡ []
    → length chosen ≤ tool_limit limit
unfolding limit_reports
within_limit limit chosen h = elim (Bool-cases (ltb (tool_limit limit) (length chosen))) [
  | inl e ↦ let never : ⊥ = cc (rw e at h) in elim never [ ]
  | inr e ↦ ground (arith, e)
]

-- The choices that nothing is reported about: keys and aliases that differ, as many as allowed.
clean_choices :
    (j : Journey) (s : Snapshot) (meta_key : GoString)
    → all_reports j (choices_of j s meta_key) ≡ []
    → Distinct (keys_in (ordered (choices_of j s meta_key).chosen))
      × IsNamed [] (ordered (choices_of j s meta_key).chosen)
      × (length (ordered (choices_of j s meta_key).chosen) ≤ tool_limit j.max_tools)
unfolding all_reports
clean_choices j s meta_key h =
    let first = append_is_nil c.reports _ h in
    let second = append_is_nil (ambiguous_keys c.chosen ks) _ first.1 in
    let third = append_is_nil (alias_reports [] (ordered c.chosen)) _ second.1 in
    let single = ambiguous_keys-nil c.chosen ks second.0 in
    let distinct =
      Distinct-in_order c.chosen ks
        (Distinct-sort_strings (chosen_keys c.chosen) (Distinct-chosen_keys c.chosen)) single in
    (
      distinct,
      alias_reports-nil [] (ordered c.chosen) distinct (foreign (ordered c.chosen)) third.0,
      omega (
        arith,
        within_limit j.max_tools c.chosen third.1,
        length-in_order c.chosen ks single,
        length-sort_strings (chosen_keys c.chosen),
        length-chosen_keys c.chosen,
      ),
    )
  where
    c : Choices
    c = choices_of j s meta_key

    ks : List GoString
    ks = sort_strings (chosen_keys c.chosen)

    foreign : (cs : List Chosen) → IsForeign [] cs
    foreign [] = tt
    foreign (d ∷ ds) = (λ a e. cc (lookup-nil a, e), foreign ds)

names_of-alias : (cs : List Chosen) → aliases_in cs ≡ names (λ (t : Tool). t.alias) (map tool_of cs)
unfolding tool_of
names_of-alias [] = refl
names_of-alias (c ∷ cs) = ap (λ ns. alias_of c ∷ ns) (names_of-alias cs)

names_of-key :
    (cs : List Chosen) → keys_in cs ≡ names (λ (t : Tool). t.operation_key) (map tool_of cs)
unfolding tool_of
names_of-key [] = refl
names_of-key (c ∷ cs) = ap (λ ns. c.keyed.key ∷ ns) (names_of-key cs)

length-map : (cs : List Chosen) → length (map tool_of cs) ≡ length cs
length-map [] = refl
length-map (c ∷ cs) = ap (λ n. suc n) (length-map cs)

All-tool_of :
    (P : Chosen → Type 0) (Q : Tool → Type 0) (cs : List Chosen)
    → ((c : Chosen) → P c → Q (tool_of c))
    → All P cs
    → All Q (map tool_of cs)
All-tool_of P Q [] f a = tt
All-tool_of P Q (c ∷ cs) f a = (f c a.0, All-tool_of P Q cs f a.1)

-- The tools of a journey as a model may see them.
pub record IsUsable (j : Journey) (tools : List Tool) : Type 0 where
  pub aliases_distinct : Distinct (names (λ (t : Tool). t.alias) tools)
  pub aliases : All (λ (t : Tool). IsToolName t.alias) tools
  pub keys_distinct : Distinct (names (λ (t : Tool). t.operation_key) tools)
  pub keys : All (λ (t : Tool). IsSelectable j.deny t.operation_key) tools
  pub within_limit : length tools ≤ tool_limit j.max_tools

-- The tools of an available resolution have different aliases, which are valid and not reserved,
-- and different operation keys, neither empty nor denied; they are no more than the journey's limit.
pub resolve-IsUsable :
    (j : Journey) (s : Snapshot) (meta_key : GoString)
    → is_available (resolve j s meta_key) ≡ true
    → IsUsable j (resolve j s meta_key).tools
unfolding tool_of
resolve-IsUsable j s meta_key h =
    let a = available_choices j s meta_key h in
    let c = clean_choices j s meta_key a.0 in
    subst (IsUsable j) (sym a.1) (record {
      aliases_distinct =
          Distinct-sort_by_alias (λ (t : Tool). t.alias) tools
            (subst Distinct (names_of-alias cs) c.1.0);
      aliases = All-sort_by_alias (λ (t : Tool). IsToolName t.alias) tools (named cs c.1.1);
      keys_distinct =
          Distinct-sort_by_alias (λ (t : Tool). t.operation_key) tools
            (subst Distinct (names_of-key cs) c.0);
      keys =
          All-sort_by_alias (λ (t : Tool). IsSelectable j.deny t.operation_key) tools
            (All-tool_of (IsChoice j s meta_key) (λ (t : Tool). IsSelectable j.deny t.operation_key)
              cs selectable chosen);
      within_limit = omega (arith, length-sort_by_alias tools, length-map cs, c.2);
    })
  where
    cs : List Chosen
    cs = ordered (choices_of j s meta_key).chosen

    tools : List Tool
    tools = map tool_of cs

    chosen : All (IsChoice j s meta_key) cs
    chosen =
        All-in_order (IsChoice j s meta_key) (choices_of j s meta_key).chosen _
          (choices_of-IsChoice j s meta_key)

    named :
        (ds : List Chosen)
        → All IsToolName (aliases_in ds)
        → All (λ (t : Tool). IsToolName t.alias) (map tool_of ds)
    named [] a = tt
    named (d ∷ ds) a = (a.0, named ds a.1)

    selectable :
        (d : Chosen) → IsChoice j s meta_key d → IsSelectable j.deny (tool_of d).operation_key
    selectable d p = (p.1.0, p.1.1)

-- A descriptor that a tool stands for.
abbrev pub stands_for : GoString → Tool → Descriptor → Bool
stands_for meta_key t d =
    str_eq d.name t.remote_name && str_eq (operation_key meta_key d) t.operation_key

-- A tool of the snapshot, called without approval only where it is read-only, and read-only only
-- where a selector of the journey says so of its key.
abbrev pub IsReviewed : Journey → Snapshot → GoString → Tool → Type 0
IsReviewed j s meta_key t =
    (anyb (stands_for meta_key t) s.tools ≡ true)
    × (t.requires_approval ≡ false → is_read_only t.class ≡ true)
    × (is_read_only t.class ≡ true → anyb (reviews_read_only t.operation_key) j.tools ≡ true)

class_of-read_only :
    (n : Selection) → is_read_only (class_of n) ≡ true → is_read_only n.op_class ≡ true
unfolding class_of
class_of-read_only n h = elim (Bool-cases (n.from_op && not (is_unclassified n.op_class))) [
  | inl e ↦ rw e at h
  | inr e ↦ cc (rw e at h)
]

tool_of-IsReviewed :
    (j : Journey) (s : Snapshot) (meta_key : GoString) (c : Chosen)
    → IsChoice j s meta_key c
    → IsReviewed j s meta_key (tool_of c)
unfolding tool_of
tool_of-IsReviewed j s meta_key c p =
    (p.1.2, λ e. ground (arith, e), λ e. p.2 (class_of-read_only c.selection e))

-- A tool of an available resolution is one of the snapshot's. It needs no approval only where its
-- class is read-only, which only a selector that names its operation key can make it.
pub resolve-IsReviewed :
    (j : Journey) (s : Snapshot) (meta_key : GoString)
    → is_available (resolve j s meta_key) ≡ true
    → All (IsReviewed j s meta_key) (resolve j s meta_key).tools
resolve-IsReviewed j s meta_key h =
    let c = choices_of j s meta_key in
    let chosen =
      All-in_order (IsChoice j s meta_key) c.chosen _ (choices_of-IsChoice j s meta_key) in
    subst (All (IsReviewed j s meta_key)) (sym (available_choices j s meta_key h).1) (
      All-sort_by_alias (IsReviewed j s meta_key) (map tool_of (ordered c.chosen)) (
        All-tool_of (IsChoice j s meta_key) (IsReviewed j s meta_key) (ordered c.chosen)
          (tool_of-IsReviewed j s meta_key) chosen))
