-- ===== src/PlanConfig.antt =====
-- services/plan_config_store.py over services/json_store.py: the entitlements and quotas of each plan
-- tier, read from a JSON file with defaults and kept in a cache.
use ko_finance.Common.{
  Text, codes, text_eq, strip, normalize, member, some_text, first_texts, Json, null, flag, number,
  real, string, array, object, Items, nil, cons, Fields, end, field, field_of, to_int, truthy, ℤ,
  pos, ltb_ℤ, Dict, lookup, insert, text_keys, Option, none, some, or_default, is_some, Bool, true,
  false, List, [], ◌∷◌, map, keep, nonempty, if◌then◌else◌,
}
use ko_finance.JsonStore.{text_of}
pub mod Normal
pub mod Readback
pub mod Merge
pub mod Store
mod Tests
pub mod Updates
pub mod Entries

pub record Quota : Type 0 where
  pub chat : Option ℤ
  pub rag : Option ℤ
  pub self_check : Bool
  pub peer : Option ℤ

pub record TierConfig : Type 0 where
  pub entitlements : List Text
  pub quota : Quota

-- The config document; the three stamps are whatever the file holds.
pub record Config : Type 0 where
  pub tiers : Dict Text TierConfig
  pub updated_at : Json
  pub updated_by : Json
  pub note : Json

abbrev pub free_tier : TierConfig
free_tier = record {
  entitlements = codes "rag.core" ∷ [];
  quota = record {
    chat = some (pos 20);
    rag = some (pos 4);
    self_check = false;
    peer = some (pos 0);
  };
}

abbrev starter_tier : TierConfig
starter_tier = record {
  entitlements = codes "search.export" ∷ codes "rag.core" ∷ codes "evidence.inline_pdf" ∷ [];
  quota = record {
    chat = some (pos 80);
    rag = some (pos 5);
    self_check = true;
    peer = some (pos 50);
  };
}

abbrev pro_tier : TierConfig
pro_tier = record {
  entitlements =
      codes "search.compare"
      ∷ codes "search.export"
      ∷ codes "evidence.inline_pdf"
      ∷ codes "rag.core"
      ∷ codes "reports.event_export"
      ∷ [];
  quota = record {
    chat = some (pos 500);
    rag = some (pos 6);
    self_check = true;
    peer = some (pos 100);
  };
}

abbrev enterprise_tier : TierConfig
enterprise_tier = record {
  entitlements =
      codes "search.compare"
      ∷ codes "search.export"
      ∷ codes "evidence.inline_pdf"
      ∷ codes "evidence.diff"
      ∷ codes "rag.core"
      ∷ codes "timeline.full"
      ∷ codes "reports.event_export"
      ∷ [];
  quota = record { chat = none; rag = some (pos 10); self_check = true; peer = none };
}

unfoldable pub default_plan_config : Config
default_plan_config = record {
  tiers =
      (codes "free", free_tier)
      ∷ (codes "starter", starter_tier)
      ∷ (codes "pro", pro_tier)
      ∷ (codes "enterprise", enterprise_tier)
      ∷ [];
  updated_at = null;
  updated_by = null;
  note = null;
}

-- What `json.dumps` writes.
abbrev pub limit_json : Option ℤ → Json
limit_json none = null
limit_json (some n) = number n

unfoldable pub texts_items : List Text → Items
texts_items [] = nil
texts_items (t ∷ ts) = cons (string t) (texts_items ts)

unfoldable pub quota_fields : Quota → Fields
quota_fields q = field (codes "chatRequestsPerDay") (limit_json q.chat) (
    field (codes "ragTopK") (limit_json q.rag) (
      field (codes "selfCheckEnabled") (flag q.self_check)
        (field (codes "peerExportRowLimit") (limit_json q.peer) end)))

unfoldable pub entry_fields : TierConfig → Fields
entry_fields t =
    field (codes "entitlements") (array (texts_items t.entitlements))
      (field (codes "quota") (object (quota_fields t.quota)) end)

unfoldable pub tiers_fields : Dict Text TierConfig → Fields
tiers_fields [] = end
tiers_fields ((k, t) ∷ d) = field k (object (entry_fields t)) (tiers_fields d)

unfoldable pub config_fields : Config → Fields
config_fields c = field (codes "tiers") (object (tiers_fields c.tiers)) (
    field (codes "updated_at") c.updated_at
      (field (codes "updated_by") c.updated_by (field (codes "note") c.note end)))

unfoldable pub items_list : Items → List Json
items_list nil = []
items_list (cons v vs) = v ∷ items_list vs

unfoldable pub letters : Text → List Json
letters [] = []
letters (c ∷ s) = string (c ∷ []) ∷ letters s

unfoldable pub keys_of : Fields → List Json
keys_of end = []
keys_of (field k v fs) = string k ∷ keys_of fs

-- `for item in values or []`; `none` is the TypeError of a value that is not iterable.
unfoldable pub iterate : Json → Option (List Json)
iterate (array vs) = some (items_list vs)
iterate (string s) = some (letters s)
iterate (object fs) = some (keys_of fs)
iterate v = if truthy v then none else some []

abbrev pub value_of : Text → Fields → Json
value_of k fs = or_default (field_of k fs) null

-- `normalized or [entry for entry in fallback if entry]`
abbrev pub or_fallback : List Text → List Text → List Text
or_fallback fallback [] = keep nonempty fallback
or_fallback fallback (t ∷ ts) = t ∷ ts

-- What becomes of an `int(value)`.
abbrev pub natural_or : Option ℤ → Option ℤ → Option ℤ
natural_or old none = old
natural_or old (some n) = if ltb_ℤ n (pos 0) then old else some n

-- `_safe_int`, with the quota so far.
unfoldable pub safe_int : Option ℤ → Json → Option ℤ
safe_int old null = none
safe_int old (string []) = none
safe_int old v = natural_or old (to_int v)

abbrev pub overridden : Option ℤ → Option Json → Option ℤ
overridden old none = old
overridden old (some v) = safe_int old v

abbrev pub yes_texts : List Text
yes_texts = codes "1" ∷ codes "true" ∷ codes "yes" ∷ codes "y" ∷ []

abbrev pub no_texts : List Text
no_texts = codes "0" ∷ codes "false" ∷ codes "no" ∷ codes "n" ∷ []

unfoldable pub safe_flag : Bool → Option Json → Bool
safe_flag old (some (flag b)) = b
safe_flag old (some (string s)) =
    if member (normalize s) yes_texts
    then true
    else (if member (normalize s) no_texts then false else old)
safe_flag old v = old

-- `_normalize_quota`
unfoldable pub normalize_quota : Option Json → Quota → Quota
normalize_quota (some (object p)) q = record {
  chat = overridden q.chat (field_of (codes "chatRequestsPerDay") p);
  rag = overridden q.rag (field_of (codes "ragTopK") p);
  self_check = safe_flag q.self_check (field_of (codes "selfCheckEnabled") p);
  peer = overridden q.peer (field_of (codes "peerExportRowLimit") p);
}
normalize_quota payload q = q
