-- ===== src/Common/DictUse.antt =====
-- Dicts whose keys stand once, and what an insertion or an update leaves of a property of the values.
use ko_finance.Common.Tests.{or_else, Bool-cases}
use ko_finance.Common.Dicts.{Eq, Dict, lookup, insert, update, lookup-insert}
use mathlib.Core.Path.{◌≡◌, refl, ◌∙◌, subst}
use mathlib.Core.Logic.{inl, inr}
use mathlib.Core.Option.{none, some}
use mathlib.Core.List.{[], ◌∷◌}
use native.Mathlib.Omega.{arith}

module _ {ℓ κ} {K : Type ℓ} {V : Type κ} ⦃e : Eq K⦄ where
  -- No key stands twice.
  abbrev pub Distinct : Dict K V → Type κ
  Distinct [] = Unit
  Distinct ((k, v) ∷ d) = (lookup k d ≡ none) × Distinct d

  pub insert-Distinct : (k : K) (v : V) (d : Dict K V) → Distinct d → Distinct (insert k v d)
  unfolding insert lookup
  insert-Distinct k v [] h = (refl, tt)
  insert-Distinct k v ((j, w) ∷ d) (fresh, h) = elim (Bool-cases (e.same j k)) [
    | inl t ↦ rw t (fresh, h)
    | inr f ↦ rw f (
      ground (arith, lookup-insert k j v d, e.same_iff j k, e.same_iff k j),
      insert-Distinct k v d h,
    )
  ]

  pub update-Distinct : (d more : Dict K V) → Distinct d → Distinct (update d more)
  unfolding update
  update-Distinct d [] h = h
  update-Distinct d ((k, v) ∷ more) h =
      update-Distinct (insert k v d) more (insert-Distinct k v d h)

  pub lookup-update :
      (j : K) (d more : Dict K V)
      → Distinct more
      → lookup j (update d more) ≡ or_else (lookup j more) (lookup j d)
  unfolding update lookup
  lookup-update j d [] h = refl
  lookup-update j d ((k, v) ∷ more) (fresh, h) =
      let rest = lookup-update j (insert k v d) more h in
      elim (Bool-cases (e.same k j)) [
        | inl t ↦
            let same : k ≡ j = (e.same_iff k j).0 t in
            let gone : lookup j more ≡ none = subst (λ i. lookup i more ≡ none) same fresh in
            rw t (rest ∙ rw gone (lookup-insert k j v d ∙ rw t refl))
        | inr f ↦ rw f (rest ∙ ground (arith, lookup-insert k j v d))
      ]

module _ {ℓ κ μ} {K : Type ℓ} {V : Type κ} (P : V → Type μ) ⦃e : Eq K⦄ where
  -- Every value satisfies `P`.
  abbrev pub Values : Dict K V → Type μ
  Values [] = Unit
  Values ((k, v) ∷ d) = P v × Values d

  pub insert-Values : (k : K) (v : V) (d : Dict K V) → P v → Values d → Values (insert k v d)
  unfolding insert
  insert-Values k v [] p h = (p, tt)
  insert-Values k v ((j, w) ∷ d) p (q, h) = elim (Bool-cases (e.same j k)) [
    | inl t ↦ rw t (p, h)
    | inr f ↦ rw f (q, insert-Values k v d p h)
  ]

  pub update-Values : (d more : Dict K V) → Values d → Values more → Values (update d more)
  unfolding update
  update-Values d [] h m = h
  update-Values d ((k, v) ∷ more) h (p, m) =
      update-Values (insert k v d) more (insert-Values k v d p h) m

  pub lookup-Values : (k : K) (d : Dict K V) (v : V) → Values d → lookup k d ≡ some v → P v
  unfolding lookup
  lookup-Values k [] v h found = absurd (ground arith)
  lookup-Values k ((j, w) ∷ d) v (p, h) found = elim (Bool-cases (e.same j k)) [
    | inl t ↦ let same : w ≡ v = ground (arith, found) in subst P same p
    | inr f ↦ lookup-Values k d v h (ground (arith, found))
  ]
