-- ===== src/Payments/ContextUse.antt =====
-- The context of an order is found after it has been recorded, and once after it has been popped.
use ko_finance.Common.{
  ℕ, ◌-◌, Text, text_eq, text_eq_refl, nonempty, Json, Option, none, some, Bool, true, false, not,
  List, [], ◌∷◌, ◌++◌, map, keep, find, drop, take_last, length, All, find-append_none,
  find-keep-not, find-drop-none, take_last-append_one, ◌≡◌, refl, ap, ◌∙◌, arith, All-append,
  All-keep, All-drop,
}
use ko_finance.JsonStore.{JsonStateStore, load, store}
use ko_finance.Payments.Contexts.{
  OrderContext, context_dict, is_fresh, prune_expired, take_out, load_context_items, load_contexts,
  store_contexts, get_order_context, new_context, record_order_context, pop_order_context,
}
use ko_finance.Payments.ContextItems.{
  Clean, load_context_items-Clean, load_context_items-context_dict,
}

module _ {ℓ} {A : Type ℓ} where
  pub find-keep-none : (p q : A → Bool) (xs : List A) → find p xs ≡ none → find p (keep q xs) ≡ none
  find-keep-none p q [] h = refl
  find-keep-none p q (x ∷ xs) h = ground (arith, find-keep-none p q xs)

  pub keep-append_one :
      (q : A → Bool) (xs : List A) (x : A)
      → q x ≡ true
      → keep q (xs ++ x ∷ []) ≡ keep q xs ++ x ∷ []
  keep-append_one q [] x h = rw h refl
  keep-append_one q (y ∷ xs) x h = ground (arith, keep-append_one q xs x h)

abbrev owns : Text → OrderContext → Bool
owns id e = text_eq e.order_id id

-- Taking out the last entry, the only one of the order.
take_out_last :
    (id : Text) (others : List OrderContext) (e : OrderContext)
    → find (owns id) others ≡ none
    → owns id e ≡ true
    → take_out id (others ++ e ∷ []) ≡ (some e, others)
unfolding take_out
take_out_last id [] e h own = rw own refl
take_out_last id (o ∷ others) e h own =
    let apart : owns id o ≡ false = ground arith in
    rw (take_out_last id others e (ground arith) own, apart) refl

module _ (show : Json → Text) (parse_iso : Text → Option ℕ) (now : ℕ) (now_text id : Text)
    (org plan user : Option Text) where
  abbrev entry : OrderContext
  entry = new_context now_text id org plan user

  abbrev recorded : JsonStateStore → JsonStateStore
  recorded s = (record_order_context show parse_iso true now now_text id org plan user s).1

  abbrev to_store : JsonStateStore → List OrderContext
  to_store s =
      prune_expired parse_iso now
        (keep (λ (e : OrderContext). not (owns id e)) (load_contexts show s).0 ++ entry ∷ [])

  record_lem :
      (s : JsonStateStore)
      → nonempty id ≡ true
      → record_order_context show parse_iso true now now_text id org plan user s
        ≡ store_contexts show true (to_store s) (load_contexts show s).1
  unfolding record_order_context
  record_lem s h = rw (record_order_context, h) refl

  pub record_written :
      (s : JsonStateStore)
      → nonempty id ≡ true
      → (record_order_context show parse_iso true now now_text id org plan user s).0 ≡ true
  unfolding store_contexts store
  record_written s h = ap (λ (w : Bool × JsonStateStore). w.0) (record_lem s h)

  -- What the store holds after recording: others of other orders, and the new entry.
  recorded-contexts :
      (s : JsonStateStore)
      → Clean entry
      → is_fresh parse_iso now entry ≡ true
      → (others : List OrderContext) × ((load_contexts show (recorded s)).0 ≡ others ++ entry ∷ [])
        × (find (owns id) others ≡ none)
        × All Clean others
  unfolding record_order_context load_contexts store_contexts load store
  recorded-contexts s clean fresh =
      let entries = (load_contexts show s).0 in
      let kept = keep (λ (e : OrderContext). not (owns id e)) entries in
      let pruned = prune_expired parse_iso now kept in
      let others = drop (length pruned - 299) pruned in
      let pruned_Clean : All Clean pruned = All-keep Clean (is_fresh parse_iso now) kept (
        All-keep Clean (λ e. not (owns id e)) entries (load_context_items-Clean show (load s).0)) in
      let others_Clean = All-drop Clean (length pruned - 299) pruned pruned_Clean in
      let written : take_last 300 (prune_expired parse_iso now (kept ++ entry ∷ []))
          ≡ others ++ entry ∷ [] =
        ap (take_last 300) (keep-append_one (is_fresh parse_iso now) kept entry fresh)
        ∙ take_last-append_one 299 pruned entry in
      (
        others,
        ap (λ (r : Bool × JsonStateStore). (load_contexts show r.1).0) (record_lem s clean.1)
            ∙ ap (λ (l : List OrderContext). load_context_items show (map context_dict l)) written
            ∙ load_context_items-context_dict show (others ++ entry ∷ [])
                (All-append Clean others (entry ∷ []) others_Clean (clean, tt)),
        find-drop-none (owns id) (length pruned - 299) pruned (
            find-keep-none (owns id) (is_fresh parse_iso now) kept
              (find-keep-not (owns id) entries)),
        others_Clean,
      )

  -- The context that has just been recorded for an order is the one that is found, for texts that
  -- are read back as they are written, if the file can be written and the instant's text is parsed
  -- to an instant that is not yet 72 hours old.
  pub get-record :
      (s : JsonStateStore)
      → Clean entry
      → is_fresh parse_iso now entry ≡ true
      → (get_order_context show id (recorded s)).0 ≡ some entry
  unfolding get_order_context
  get-record s clean fresh =
      let (others, held, none_of, clean_others) = recorded-contexts s clean fresh in
      rw (get_order_context, clean.1, held)
        (find-append_none (owns id) others (entry ∷ []) none_of ∙ rw (text_eq_refl id) refl)

  abbrev popped : ℕ → JsonStateStore → Option OrderContext × (Bool × JsonStateStore)
  popped later s = pop_order_context show parse_iso true later id s

  popped_lem :
      (later : ℕ) (s : JsonStateStore) (e : OrderContext) (others : List OrderContext)
      → nonempty id ≡ true
      → take_out id (load_contexts show s).0 ≡ (some e, others)
      → popped later s ≡ (
        some e,
        store_contexts show true (prune_expired parse_iso later others) (load_contexts show s).1,
      )
  unfolding pop_order_context
  popped_lem later s e others h taken = rw (popped, pop_order_context, taken, h) (rw taken refl)

  -- Popping the context that has just been recorded for an order returns it, and afterwards none is
  -- found for the order, for texts that are read back as they are written, if the file can be written
  -- and the instant's text is parsed to an instant that is not yet 72 hours old.
  pub pop-record :
      (s : JsonStateStore) (later : ℕ)
      → Clean entry
      → is_fresh parse_iso now entry ≡ true
      → ((popped later (recorded s)).0 ≡ some entry)
        × ((get_order_context show id (popped later (recorded s)).1.1).0 ≡ none)
  unfolding load_contexts store_contexts load store get_order_context
  pop-record s later clean fresh =
      let (others, held, none_of, clean_others) = recorded-contexts s clean fresh in
      let taken : take_out id (load_contexts show (recorded s)).0 ≡ (some entry, others) =
        ap (take_out id) held ∙ take_out_last id others entry none_of (text_eq_refl id) in
      let after = popped_lem later (recorded s) entry others clean.1 taken in
      let left = prune_expired parse_iso later others in
      let kept_Clean =
        All-drop Clean (length left - 300) left
          (All-keep Clean (is_fresh parse_iso later) others clean_others) in
      (
        ap (λ (r : Option OrderContext × (Bool × JsonStateStore)). r.0) after,
        ap
              (λ (r : Option OrderContext × (Bool × JsonStateStore)).
                (get_order_context show id r.1.1).0)
              after
            ∙ rw
                (
                  get_order_context,
                  clean.1,
                  load_context_items-context_dict show (take_last 300 left) kept_Clean,
                )
                (find-drop-none (owns id) (length left - 300) left
                  (find-keep-none (owns id) (is_fresh parse_iso later) others none_of)),
      )
