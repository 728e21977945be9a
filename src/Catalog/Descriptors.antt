-- ===== src/Catalog/Descriptors.antt =====
-- internal/catalog/descriptor.go and resolve.go: tool descriptors as the endpoint lists them, journeys,
-- and the outcome of a resolution.
use az_agent_platform_go.Prelude.{
  ℕ, Bool, true, false, ◌&&◌, ◌||◌, List, [], ◌∷◌, Option, some, GoString, str_eq, codes, lookup,
}
use az_agent_platform_go.Definitions.Versions.{VersionRange}
use az_agent_platform_go.Definitions.Tools.{Selector, Class}

-- A value of a tool's `_meta` as JSON decodes it: a string, a list of strings and other things, or
-- something else.
pub data MetaItem : Type 0 where
  word : GoString → MetaItem
  other_item : MetaItem

pub data MetaValue : Type 0 where
  text : GoString → MetaValue
  items : List MetaItem → MetaValue
  other_value : MetaValue

pub record Descriptor : Type 0 where
  pub name : GoString
  pub description : GoString
  pub input_schema : GoString
  pub meta : List (GoString × MetaValue)
  pub read_only_hint : Bool

pub record Snapshot : Type 0 where
  pub product_version : GoString
  pub tools : List Descriptor

-- The parts of a compiled journey that a resolution reads.
pub record Journey : Type 0 where
  pub id : GoString
  pub tools : List Selector
  pub deny : List GoString
  pub max_tools : ℕ
  pub product_versions : VersionRange

pub data Reason : Type 0 where
  missing ambiguous collision invalid_alias max_tools version policy_conflict : Reason

pub record Unavailable : Type 0 where
  pub reason : Reason
  pub operation : GoString

pub record Tool : Type 0 where
  pub alias : GoString
  pub operation_key : GoString
  pub remote_name : GoString
  pub description : GoString
  pub input_schema : GoString
  pub class : Class
  pub requires_approval : Bool

pub record Resolution : Type 0 where
  pub journey_id : GoString
  pub tools : List Tool
  pub unavailable : List Unavailable

-- Available
abbrev pub is_available : Resolution → Bool
is_available r = elim r.unavailable [ [] ↦ true | u ∷ us ↦ false ]

-- d.Meta[metaKey].(string), "" for anything else.
abbrev pub text_of : Option MetaValue → GoString
text_of (some (text s)) = s
text_of _ = []

abbrev pub operation_key : GoString → Descriptor → GoString
operation_key meta_key d = text_of (lookup meta_key d.meta)

abbrev pub has_word : GoString → List MetaItem → Bool
has_word tag [] = false
has_word tag (word s ∷ rest) = str_eq s tag || has_word tag rest
has_word tag (other_item ∷ rest) = has_word tag rest

abbrev pub items_of : Option MetaValue → List MetaItem
items_of (some (items list)) = list
items_of _ = []

abbrev pub all_words : List MetaItem → List GoString → Bool
all_words list [] = true
all_words list (tag ∷ tags) = has_word tag list && all_words list tags

-- hasAllTags
unfoldable pub has_all_tags : Descriptor → List GoString → Bool
has_all_tags d want = all_words (items_of (lookup (codes "tags") d.meta)) want
