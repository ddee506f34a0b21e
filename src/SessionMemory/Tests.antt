-- ===== src/SessionMemory/Tests.antt =====
-- Two topics of one session, the first saved long before the second.
use ko_finance.Common.{ℕ, Text, codes, text_eq, lookup, insert, erase, ◌≡◌, refl, arith, [], ◌∷◌}
use ko_finance.SessionMemory.{
  SessionSummaryEntry, LocalStore, save, load, purge_expired, iter_session_ids,
}
use ko_finance.SessionMemory.Topics.{save-load}

abbrev summary : Text → ℕ → ℕ → SessionSummaryEntry
summary topic expires updated = record {
  session_id = codes "s";
  topic = topic;
  highlights = [];
  expires_at = expires;
  metadata = [];
  created_at = 0;
  updated_at = updated;
}

-- The topic `a` expired at 100.
abbrev old_store : LocalStore
old_store = (codes "s", (summary (codes "a") 100 50 ∷ [], 100)) ∷ []

abbrev flows : Unit {0}
unfolding save load purge_expired iter_session_ids lookup insert erase text_eq
flows = tt

-- Before the save nothing is loaded at 500; after a save of `b`, `a` is back. The entry that is saved
-- names another instant of its update.
save-load_example :
    ((load 500 (codes "s") (save 60 490 (summary (codes "b") 600 7) old_store)).0
      ≡ summary (codes "a") 100 50 ∷ summary (codes "b") 600 490 ∷ [])
    × ((load 500 (codes "r") (save 60 490 (summary (codes "b") 600 7) old_store)).0 ≡ [])
unfolding flows
save-load_example =
    save-load 60 490 500 (summary (codes "b") 600 7) (codes "r") old_store (ground arith)

-- The default is used for an expiry that has passed, and not for one that has not.
default_expiry : (load 551 (codes "s") (save 60 490 (summary (codes "b") 480 7) old_store)).0 ≡ []
unfolding flows
default_expiry = refl

expired_before : (load 490 (codes "s") old_store).0 ≡ []
unfolding flows
expired_before = refl

purged : iter_session_ids (purge_expired 490 old_store) ≡ []
unfolding flows
purged = refl
