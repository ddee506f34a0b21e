-- ===== src/JsonStore.antt =====
-- services/json_state_store.py: a list of JSON objects on disk with a cache in memory, and the
-- reading of an object's fields that the stores on top of it share.
use ko_finance.Common.{
  Text, strip, some_text, Json, null, string, Fields, field_of, truthy, Option, none, some,
  or_default, Bool, true, false, List, [], if◌then◌else◌,
}

-- The cache, and what `json.loads` reads of the file under the root key, less the items that are no
-- objects: `none` for a file that is missing, unreadable or not a list.
pub record JsonStateStore : Type 0 where
  pub cache : Option (List Fields)
  pub file : Option (List Fields)

-- `load()`: the items, and the store with its cache filled.
unfoldable pub load : JsonStateStore → List Fields × JsonStateStore
load s = elim s.cache [
  | some items ↦ (items, s)
  | none ↦ (or_default s.file [], record s { cache = some (or_default s.file []) })
]

-- `store(items)`; `written` says whether `write_json_atomic` succeeds. If it does not, its OSError
-- leaves file and cache as they are.
unfoldable pub store : Bool → List Fields → JsonStateStore → Bool × JsonStateStore
store written items s =
    if written then (true, record { cache = some items; file = some items }) else (false, s)

-- `reset()`
unfoldable pub reset : JsonStateStore → JsonStateStore
reset s = record s { cache = none }

-- `show` is `str` on the values that are no texts.
module _ (show : Json → Text) where
  -- `str(value)`
  abbrev pub text_of : Json → Text
  text_of (string s) = s
  text_of v = show v

  -- `str(item.get(key) or "").strip()`
  abbrev pub text_field : Text → Fields → Text
  text_field k item = elim (field_of k item) [
    | none ↦ []
    | some v ↦ if truthy v then strip (text_of v) else []
  ]

  abbrev pub optional_text : Option Json → Option Text
  optional_text none = none
  optional_text (some null) = none
  optional_text (some v) = some_text (strip (text_of v))

  -- `_normalize_optional(item.get(key))`
  abbrev pub optional_field : Text → Fields → Option Text
  optional_field k item = optional_text (field_of k item)

-- The JSON value of an optional text.
abbrev pub optional : Option Text → Json
optional none = null
optional (some s) = string s
