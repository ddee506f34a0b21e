-- ===== src/Payments/OrderItems.antt =====
-- What the order store writes is what it reads again.
use ko_finance.Common.{
  Text, codes, text_eq, nonempty, or_text, strip, strip_idem, lstrip, rstrip, Json, number, Fields,
  field_of, truthy, to_int, ℤ, pos, negsuc, Option, none, some, true, ◌&&◌, [], ◌∷◌, ◌++◌, ◌≡◌,
  refl, ap, ◌∙◌, arith, Bool-cases, Option-cases, inl, inr, if◌then◌else◌,
}
use mathlib.Core.Path.{subst}
use ko_finance.Entitlement.Billing.{title}
use ko_finance.JsonStore.{text_of, optional_text, optional}
use ko_finance.Payments.Contexts.{normalize_optional}
use ko_finance.Payments.Orders.{
  TossOrderRecord, order_dict, either_field, amount_of, text_or, id_text, tier_text, hydrated,
  hydrate, order_status_pending,
}

-- A text that is read back as it is written.
abbrev pub Trimmed : Text → Type 0
Trimmed s = (strip s ≡ s) × (nonempty s ≡ true)

-- An order that the store does not leave out.
abbrev pub Storable : TossOrderRecord → Type 0
Storable r = Trimmed r.order_id × Trimmed r.plan_tier

-- An order that is read back as it is written.
abbrev pub Clean : TossOrderRecord → Type 0
Clean r =
    Trimmed r.order_id
    × Trimmed r.plan_tier
    × Trimmed r.currency
    × Trimmed r.order_name
    × Trimmed r.status
    × (normalize_optional r.user_id ≡ r.user_id)
    × (normalize_optional r.org_id ≡ r.org_id)
    × Trimmed r.created_at
    × Trimmed r.updated_at

amount_of-number : (n : ℤ) → amount_of (some (number n)) ≡ some n
unfolding truthy to_int
amount_of-number (pos n) = ground arith
amount_of-number (negsuc n) = refl

either_optional :
    (show : Json → Text) (o : Option Text)
    → optional_text show (if truthy (optional o) then some (optional o) else none)
      ≡ normalize_optional o
unfolding truthy normalize_optional strip lstrip rstrip
either_optional show none = refl
either_optional show (some []) = refl
either_optional show (some (c ∷ s)) = refl

or_text_full : (s t : Text) → nonempty s ≡ true → or_text s t ≡ s
or_text_full [] t h = absurd (ground arith)
or_text_full (c ∷ s) t h = refl

module _ (show : Json → Text) where
  pub id_read :
      (r : TossOrderRecord) → Trimmed r.order_id → id_text show (order_dict r) ≡ r.order_id
  unfolding order_dict field_of text_eq truthy
  id_read r h = rw (h.1, h.1, h.0) refl

  pub tier_read :
      (r : TossOrderRecord) → Trimmed r.plan_tier → tier_text show (order_dict r) ≡ r.plan_tier
  unfolding order_dict field_of text_eq truthy
  tier_read r h = rw (h.1, h.1, h.0) refl

  amount_read :
      (r : TossOrderRecord) → amount_of (field_of (codes "amount") (order_dict r)) ≡ some r.amount
  unfolding order_dict field_of text_eq
  amount_read r = amount_of-number r.amount

  hydrate_lem :
      (now : Text) (item : Fields) (n : ℤ)
      → nonempty (id_text show item) ≡ true
      → nonempty (tier_text show item) ≡ true
      → amount_of (field_of (codes "amount") item) ≡ some n
      → hydrate show now item ≡ some (some (hydrated show now item n))
  unfolding hydrate
  hydrate_lem now item n hi ht ha = rw (hydrate, hi, ht, ha) refl

  -- What a stored order is read back as, at the instant `now`.
  pub hydrate-order_dict :
      (now : Text) (r : TossOrderRecord)
      → Storable r
      → hydrate show now (order_dict r) ≡ some (some (hydrated show now (order_dict r) r.amount))
  hydrate-order_dict now r h =
      hydrate_lem now (order_dict r) r.amount (ap nonempty (id_read r h.0) ∙ h.0.1)
        (ap nonempty (tier_read r h.1) ∙ h.1.1) (amount_read r)

  pub hydrated-Clean :
      (now : Text) (r : TossOrderRecord) → Clean r → hydrated show now (order_dict r) r.amount ≡ r
  unfolding hydrated order_dict field_of text_eq truthy
  hydrated-Clean now r h =
      rw (h.0.1, h.1.1, h.2.1, h.3.1, h.4.1, h.7.1, h.8.1)
        (rw (h.0.1, h.1.1, h.3.1, h.7.1, h.8.1)
          (rw
            (
              h.0.0,
              h.1.0,
              h.2.0,
              h.3.0,
              h.4.0,
              h.7.0,
              h.8.0,
              or_text_full r.currency (codes "KRW") h.2.1,
            )
            (rw
              (
                or_text_full r.order_name (codes "Nuvien " ++ (title r.plan_tier ++ codes " 플랜"))
                    h.3.1,
                or_text_full r.status order_status_pending h.4.1,
                either_optional show r.user_id,
                either_optional show r.org_id,
                h.5,
                h.6,
              )
              refl)))

  strip-text_or : (v : Option Json) (d : Text) → strip (text_or show v d) ≡ text_or show v d
  strip-text_or none d = strip_idem d
  strip-text_or (some v) d = elim (Bool-cases (truthy v)) [
    | inl e ↦ rw (text_or, e) (strip_idem (text_of show v))
    | inr e ↦ rw (text_or, e) (strip_idem d)
  ]

  pub read_Storable :
      (now : Text) (item : Fields) (n : ℤ)
      → nonempty (id_text show item) ≡ true
      → nonempty (tier_text show item) ≡ true
      → Storable (hydrated show now item n)
  unfolding hydrated
  read_Storable now item n hi ht = (
    (strip-text_or (either_field (codes "order_id") (codes "orderId") item) [], hi),
    (strip-text_or (either_field (codes "plan_tier") (codes "planTier") item) [], ht),
  )

  pub hydrate-Storable :
      (now : Text) (item : Fields) (r : TossOrderRecord)
      → hydrate show now item ≡ some (some r)
      → Storable r
  unfolding hydrate
  hydrate-Storable now item r h =
      elim (Bool-cases (nonempty (id_text show item) && nonempty (tier_text show item))) [
        | inr empty ↦
            let skipped : hydrate show now item ≡ some none = rw (hydrate, empty) refl in
            absurd (ground arith)
        | inl full ↦ elim (Option-cases (amount_of (field_of (codes "amount") item))) [
          | inl e ↦
              let raised : hydrate show now item ≡ none = rw (hydrate, full, e) refl in
              absurd (ground arith)
          | inr (n, e) ↦
              let filled : (nonempty (id_text show item) ≡ true)
                  × (nonempty (tier_text show item) ≡ true) =
                ground arith in
              let read = hydrate_lem now item n filled.0 filled.1 e in
              let same : hydrated show now item n ≡ r = ground arith in
              subst (λ (x : TossOrderRecord). Storable x) same
                (read_Storable now item n filled.0 filled.1)
        ]
      ]
