-- ===== src/SessionMemory.antt =====
-- services/memory/session_store.py: the summaries of a session's topics, in the fallback that keeps
-- them in memory when there is no Redis. One call reads the clock once.
pub mod Topics
mod Tests
use ko_finance.Common.{
  ℕ, ◌+◌, ◌-◌, Text, text_eq, Dict, lookup, insert, erase, text_keys, Option, none, some,
  or_default, Bool, not, List, [], ◌∷◌, ◌++◌, map, keep, ltb, leb, if◌then◌else◌,
}

-- services/memory/models.py, `SessionSummaryEntry`.
pub record SessionSummaryEntry : Type 0 where
  pub session_id : Text
  pub topic : Text
  pub highlights : List Text
  pub expires_at : ℕ
  pub metadata : Dict Text Text
  pub created_at : ℕ
  pub updated_at : ℕ

-- `_local_store`: the entries of a session and the instant at which they expire.
abbrev pub LocalStore : Type 0
LocalStore = Dict Text (List SessionSummaryEntry × ℕ)

-- `[item for item in items if item.topic != topic]`
abbrev pub other_topics : Text → List SessionSummaryEntry → List SessionSummaryEntry
other_topics topic items = keep (λ e. not (text_eq e.topic topic)) items

-- The expiry of an entry that is saved at `now`.
abbrev pub saved_expiry : ℕ → ℕ → SessionSummaryEntry → ℕ
saved_expiry default_ttl now e = if ltb now e.expires_at then e.expires_at else now + default_ttl

abbrev pub saved_entry : ℕ → ℕ → SessionSummaryEntry → SessionSummaryEntry
saved_entry default_ttl now e = record e {
  expires_at = saved_expiry default_ttl now e;
  updated_at = now;
}

-- `expires_at - now`, or the default if that is not positive.
abbrev pub saved_ttl : ℕ → ℕ → SessionSummaryEntry → ℕ
saved_ttl default_ttl now e =
    let ttl = saved_expiry default_ttl now e - now in if leb ttl 0 then default_ttl else ttl

abbrev entries_of : Option (List SessionSummaryEntry × ℕ) → List SessionSummaryEntry
entries_of none = []
entries_of (some (items, expiry)) = items

-- The entries under a session, whether or not they have expired.
abbrev pub held : Text → LocalStore → List SessionSummaryEntry
held session s = entries_of (lookup session s)

-- `save`
unfoldable pub save : ℕ → ℕ → SessionSummaryEntry → LocalStore → LocalStore
save default_ttl now e s =
    insert e.session_id
      (
        other_topics e.topic (held e.session_id s) ++ saved_entry default_ttl now e ∷ [],
        now + saved_ttl default_ttl now e,
      )
      s

-- `load`: an expired session is dropped.
unfoldable pub load : ℕ → Text → LocalStore → List SessionSummaryEntry × LocalStore
load now session s = elim (lookup session s) [
  | none ↦ ([], s)
  | some (items, expiry) ↦ if ltb expiry now then ([], erase session s) else (items, s)
]

-- `delete`
unfoldable pub delete : Text → LocalStore → LocalStore
delete session s = erase session s

-- `iter_session_ids`
unfoldable pub iter_session_ids : LocalStore → List Text
iter_session_ids = map (λ item. item.0)

abbrev expired_keys : ℕ → LocalStore → List Text
expired_keys now [] = []
expired_keys now ((k, (items, expiry)) ∷ s) =
    let rest = expired_keys now s in if leb expiry now then k ∷ rest else rest

abbrev erase_all : List Text → LocalStore → LocalStore
erase_all [] s = s
erase_all (k ∷ ks) s = erase_all ks (erase k s)

-- `purge_expired`
unfoldable pub purge_expired : ℕ → LocalStore → LocalStore
purge_expired now s = erase_all (expired_keys now s) s
