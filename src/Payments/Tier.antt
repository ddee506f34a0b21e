-- ===== src/Payments/Tier.antt =====
-- The plan tier that an order id carries.
use ko_finance.Common.{
  ℕ, Text, codes, text_eq, text_eq_iff, member, split_on, some, true, false, List, [], ◌∷◌, ◌++◌,
  exists, ◌==◌, ==_iff, ◌≡◌, refl, arith, Bool-cases, inl, inr,
}
use ko_finance.PlanTiers.{plan_tiers}
use ko_finance.Payments.{extract_tier_from_order_id, generate_order_id}

-- There is always a first part.
split_on_nonempty : (sep : ℕ) (s : Text) → (w : Text) × (ws : List Text) × (split_on sep s ≡ w ∷ ws)
unfolding split_on
split_on_nonempty sep [] = ([], [], refl)
split_on_nonempty sep (c ∷ s) =
    let (w, ws, e) = split_on_nonempty sep s in
    elim (Bool-cases (c == sep)) [
      | inl here ↦ ([], w ∷ ws, rw (split_on, e, here) refl)
      | inr on ↦ (c ∷ w, ws, rw (split_on, e, on) refl)
    ]

-- A part without the separator is split off whole.
split_on-append :
    (sep : ℕ) (w s : Text)
    → exists (λ c. c == sep) w ≡ false
    → split_on sep (w ++ sep ∷ s) ≡ w ∷ split_on sep s
unfolding split_on
split_on-append sep [] s h =
    let (w, ws, e) = split_on_nonempty sep s in rw (e, (==_iff sep sep).1 refl) refl
split_on-append sep (c ∷ w) s h =
    let apart : (c == sep) ≡ false = ground arith in
    rw (split_on-append sep w s (ground arith), apart) refl

dash_free : (tier : Text) → member tier plan_tiers ≡ true → exists (λ c. c == b'-') tier ≡ false
dash_free tier h = elim (Bool-cases (text_eq tier (codes "free"))) [
  | inl e ↦ rw ((text_eq_iff tier (codes "free")).0 e) refl
  | inr e0 ↦ elim (Bool-cases (text_eq tier (codes "starter"))) [
    | inl e ↦ rw ((text_eq_iff tier (codes "starter")).0 e) refl
    | inr e1 ↦ elim (Bool-cases (text_eq tier (codes "pro"))) [
      | inl e ↦ rw ((text_eq_iff tier (codes "pro")).0 e) refl
      | inr e2 ↦
          let e : text_eq tier (codes "enterprise") ≡ true = ground arith in
          rw ((text_eq_iff tier (codes "enterprise")).0 e) refl
    ]
  ]
]

-- The tier of a generated order id is read back, for the four tiers.
pub extract_tier-generate_order_id :
    (tier rest : Text)
    → member tier plan_tiers ≡ true
    → extract_tier_from_order_id (some (generate_order_id tier rest)) ≡ some tier
unfolding extract_tier_from_order_id generate_order_id text_eq
extract_tier-generate_order_id tier rest h =
    let (w, ws, e) = split_on_nonempty b'-' rest in
    rw
      (
        split_on-append b'-' (codes "kfinance") (tier ++ b'-' ∷ rest) refl,
        split_on-append b'-' tier rest (dash_free tier h),
        e,
        h,
      )
      refl
