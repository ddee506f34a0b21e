-- ===== src/SessionMemory/Topics.antt =====
-- What a session holds after a summary has been saved.
use ko_finance.Common.{
  ℕ, ◌+◌, Text, text_eq, text_eq_iff, lookup, lookup-insert, lookup-insert_self, text_keys, Bool,
  false, not, List, [], ◌∷◌, ◌++◌, keep, exists, ltb, ◌≡◌, ◌≢◌, refl, ap, ◌∙◌, some, arith,
  if◌then◌else◌, Option-cases, Bool-cases, inl, inr,
}
use ko_finance.SessionMemory.{
  SessionSummaryEntry, LocalStore, other_topics, saved_entry, saved_expiry, saved_ttl, held, save,
  load,
}

-- No topic stands twice in the list.
abbrev pub TopicsOnce : List SessionSummaryEntry → Type 0
TopicsOnce [] = Unit
TopicsOnce (e ∷ items) = (exists (λ f. text_eq f.topic e.topic) items ≡ false) × TopicsOnce items

exists-keep :
    (p q : SessionSummaryEntry → Bool) (items : List SessionSummaryEntry)
    → exists p items ≡ false
    → exists p (keep q items) ≡ false
exists-keep p q [] h = refl
exists-keep p q (e ∷ items) h = ground (arith, exists-keep p q items)

none_left :
    (p : SessionSummaryEntry → Bool) (items : List SessionSummaryEntry)
    → exists p (keep (λ f. not (p f)) items) ≡ false
none_left p [] = refl
none_left p (e ∷ items) = ground (arith, none_left p items)

keep-TopicsOnce :
    (q : SessionSummaryEntry → Bool) (items : List SessionSummaryEntry)
    → TopicsOnce items
    → TopicsOnce (keep q items)
keep-TopicsOnce q [] once = tt
keep-TopicsOnce q (e ∷ items) once = elim (Bool-cases (q e)) [
  | inl h ↦
      rw h
        (exists-keep (λ f. text_eq f.topic e.topic) q items once.0, keep-TopicsOnce q items once.1)
  | inr h ↦ rw h (keep-TopicsOnce q items once.1)
]

exists-append_one :
    (p : SessionSummaryEntry → Bool) (items : List SessionSummaryEntry) (x : SessionSummaryEntry)
    → exists p items ≡ false
    → p x ≡ false
    → exists p (items ++ x ∷ []) ≡ false
exists-append_one p [] x h hx = rw hx refl
exists-append_one p (e ∷ items) x h hx = ground (arith, exists-append_one p items x)

append-TopicsOnce :
    (x : SessionSummaryEntry) (items : List SessionSummaryEntry)
    → TopicsOnce items
    → exists (λ f. text_eq f.topic x.topic) items ≡ false
    → TopicsOnce (items ++ x ∷ [])
append-TopicsOnce x [] once h = (refl, tt)
append-TopicsOnce x (e ∷ items) once h =
    let differ : text_eq x.topic e.topic ≡ false =
      ground (arith, text_eq_iff x.topic e.topic, text_eq_iff e.topic x.topic) in
    (
      exists-append_one (λ f. text_eq f.topic e.topic) items x once.0 differ,
      append-TopicsOnce x items once.1 (ground arith),
    )

load_same :
    (later : ℕ) (session : Text) (s s' : LocalStore)
    → lookup session s' ≡ lookup session s
    → (load later session s').0 ≡ (load later session s).0
unfolding load
load_same later session s s' h = elim (Option-cases (lookup session s)) [
  | inl e ↦ rw (load, h, e) refl
  | inr ((items, expiry), e) ↦ elim (Bool-cases (ltb expiry later)) [
    | inl gone ↦ rw (load, h, e, gone) refl
    | inr alive ↦ rw (load, h, e, alive) refl
  ]
]

saved_ttl_lem :
    (default_ttl now : ℕ) (e : SessionSummaryEntry)
    → now + saved_ttl default_ttl now e ≡ saved_expiry default_ttl now e
saved_ttl_lem default_ttl now e = ground arith

-- A save leaves what another session holds as it is, and so what is loaded from it.
pub save_keeps_other_sessions :
    (default_ttl now later : ℕ) (e : SessionSummaryEntry) (session : Text) (s : LocalStore)
    → e.session_id ≢ session
    → (load later session (save default_ttl now e s)).0 ≡ (load later session s).0
unfolding save load
save_keeps_other_sessions default_ttl now later e session s differ =
    let apart : text_eq e.session_id session ≡ false =
      ground (arith, text_eq_iff e.session_id session) in
    let items = other_topics e.topic (held e.session_id s) ++ saved_entry default_ttl now e ∷ [] in
    let same : lookup session (save default_ttl now e s) ≡ lookup session s =
      rw
        (
          save,
          lookup-insert e.session_id session (items, now + saved_ttl default_ttl now e) s,
          apart,
        )
        refl in
    load_same later session s (save default_ttl now e s) same

-- After a save of an entry a session is loaded as follows. The session of the entry gives the entries
-- of the other topics that it held before, expired or not, and then the entry, with its own topic,
-- texts and metadata, updated at the save, with the expiry that it names, or the default after the save
-- if that has passed; it gives them until that expiry, and nothing afterwards. Any other session gives
-- what it gave before.
pub save-load :
    (default_ttl now later : ℕ) (e : SessionSummaryEntry) (session : Text) (s : LocalStore)
    → e.session_id ≢ session
    → let t = if ltb now e.expires_at then e.expires_at else now + default_ttl in
      ((load later e.session_id (save default_ttl now e s)).0 ≡ (
        if ltb t later
        then []
        else keep (λ (f : SessionSummaryEntry). not (text_eq f.topic e.topic)) (held e.session_id s)
          ++ record {
            session_id = e.session_id;
            topic = e.topic;
            highlights = e.highlights;
            expires_at = t;
            metadata = e.metadata;
            created_at = e.created_at;
            updated_at = now;
          }
            ∷ []))
      × ((load later session (save default_ttl now e s)).0 ≡ (load later session s).0)
unfolding save load
save-load default_ttl now later e session s differ =
    let items = other_topics e.topic (held e.session_id s) ++ saved_entry default_ttl now e ∷ [] in
    let t = saved_expiry default_ttl now e in
    let found : lookup e.session_id (save default_ttl now e s) ≡ some (items, t) =
      lookup-insert_self e.session_id (items, now + saved_ttl default_ttl now e) s
      ∙ ap (λ (x : ℕ). some (items, x)) (saved_ttl_lem default_ttl now e) in
    (
      elim (Bool-cases (ltb t later)) [
        | inl gone ↦ rw (load, found, gone) refl
        | inr alive ↦ rw (load, found, alive) refl
      ],
      save_keeps_other_sessions default_ttl now later e session s differ,
    )

-- A session in which no topic stands twice is left so by a save.
pub save_keeps_TopicsOnce :
    (default_ttl now : ℕ) (e : SessionSummaryEntry) (s : LocalStore)
    → TopicsOnce (held e.session_id s)
    → TopicsOnce (held e.session_id (save default_ttl now e s))
unfolding save
save_keeps_TopicsOnce default_ttl now e s once =
    let items = held e.session_id s in
    let expiry = now + saved_ttl default_ttl now e in
    let saved = saved_entry default_ttl now e in
    rw
      (
        held,
        save,
        lookup-insert_self e.session_id (other_topics e.topic items ++ saved ∷ [], expiry) s,
      )
      (append-TopicsOnce saved (other_topics e.topic items)
        (keep-TopicsOnce (λ (f : SessionSummaryEntry). not (text_eq f.topic e.topic)) items once)
        (none_left (λ (f : SessionSummaryEntry). text_eq f.topic e.topic) items))
