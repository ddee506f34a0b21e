-- ===== src/Common/Dicts.antt =====
-- Python's dict in insertion order, over keys with a decidable equality.
use ko_finance.Common.Tests.{◌==◌, ==_iff, if◌then◌else◌}
use ko_finance.Common.Strings.{Text, text_eq, text_eq_iff}
use Prim.Native.Nat.{ℕ}
use mathlib.Core.Path.{◌≡◌, refl}
use mathlib.Core.Logic.{◌↔◌}
use mathlib.Core.Bool.{Bool, true, ◌&&◌}
use mathlib.Core.Option.{Option, none, some}
use mathlib.Core.List.{List, [], ◌∷◌}
use native.Mathlib.Omega.{arith}

pub record Eq {ℓ} (K : Type ℓ) : Type ℓ where
  pub same : K → K → Bool
  pub same_iff : (a b : K) → (same a b ≡ true) ↔ (a ≡ b)

instance abbrev pub nat_keys : Eq ℕ
nat_keys = record { same = ◌==◌; same_iff = ==_iff }

instance abbrev pub text_keys : Eq Text
text_keys = record { same = text_eq; same_iff = text_eq_iff }

abbrev pub Dict {ℓ κ} : Type ℓ → Type κ → Type (ℓ ⊔ κ)
Dict K V = List (K × V)

module _ {ℓ} {K : Type ℓ} ⦃e : Eq K⦄ where
  pub same_refl : (k : K) → e.same k k ≡ true
  same_refl k = (e.same_iff k k).1 refl

module _ {ℓ κ} {K : Type ℓ} {V : Type κ} ⦃e : Eq K⦄ where
  -- `d.get(k)`
  unfoldable pub lookup : K → Dict K V → Option V
  lookup k [] = none
  lookup k ((j, v) ∷ d) = if e.same j k then some v else lookup k d

  -- `d[k] = v`
  unfoldable pub insert : K → V → Dict K V → Dict K V
  insert k v [] = (k, v) ∷ []
  insert k v ((j, w) ∷ d) = if e.same j k then (j, v) ∷ d else (j, w) ∷ insert k v d

  -- `d.pop(k, None)`, for the dict that is left.
  unfoldable pub erase : K → Dict K V → Dict K V
  erase k [] = []
  erase k ((j, w) ∷ d) = let rest = erase k d in if e.same j k then rest else (j, w) ∷ rest

  pub lookup-insert :
      (k j : K) (v : V) (d : Dict K V)
      → lookup j (insert k v d) ≡ (if e.same k j then some v else lookup j d)
  unfolding lookup insert
  lookup-insert k j v [] = refl
  lookup-insert k j v ((i, w) ∷ d) =
      ground (arith, e.same_iff k j, e.same_iff i k, e.same_iff i j, lookup-insert k j v d)

  pub lookup-insert_self : (k : K) (v : V) (d : Dict K V) → lookup k (insert k v d) ≡ some v
  lookup-insert_self k v d = rw (lookup-insert k k v d) (rw (same_refl k))

  -- `dict.update`
  unfoldable pub update : Dict K V → Dict K V → Dict K V
  update d [] = d
  update d ((k, v) ∷ more) = update (insert k v d) more

module _ {ℓ κ} {A : Type ℓ} {B : Type κ} ⦃d : Eq A⦄ ⦃e : Eq B⦄ where
  abbrev pub same_pair : A × B → A × B → Bool
  same_pair x y = d.same x.0 y.0 && e.same x.1 y.1

  pub same_pair_iff : (x y : A × B) → (same_pair x y ≡ true) ↔ (x ≡ y)
  same_pair_iff x y = ground (arith, d.same_iff x.0 y.0, e.same_iff x.1 y.1)

  -- A pair as a key of a dict.
  instance abbrev pub pair_keys : Eq (A × B)
  pair_keys = record { same = same_pair; same_iff = same_pair_iff }
