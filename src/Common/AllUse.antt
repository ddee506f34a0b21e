-- ===== src/Common/AllUse.antt =====
-- What survives of a property of every element, and keys that stand once in a list of rows.
use Prim.Native.Nat.{ℕ, zero, suc}
use mathlib.Core.Path.{◌≡◌, refl, ap, ◌∙◌}
use mathlib.Core.Logic.{inl, inr}
use mathlib.Core.Bool.{Bool, false}
use mathlib.Core.Option.{none, some}
use mathlib.Core.List.{List, [], ◌∷◌, ◌++◌}
use native.Mathlib.Omega.{arith}
use ko_finance.Common.Tests.{Bool-cases, if◌then◌else◌}
use ko_finance.Common.Lists.{
  All, drop, keep, find, update_where, find-append_none, find-update_where-none,
}

module _ {ℓ} {A : Type ℓ} (P : A → Type 0) where
  pub All-append : (xs ys : List A) → All P xs → All P ys → All P (xs ++ ys)
  All-append [] ys h k = k
  All-append (x ∷ xs) ys h k = (h.0, All-append xs ys h.1 k)

  pub All-keep : (p : A → Bool) (xs : List A) → All P xs → All P (keep p xs)
  All-keep p [] h = tt
  All-keep p (x ∷ xs) h = elim (Bool-cases (p x)) [
    | inl e ↦ rw e (h.0, All-keep p xs h.1)
    | inr e ↦ rw e (All-keep p xs h.1)
  ]

  pub All-drop : (n : ℕ) (xs : List A) → All P xs → All P (drop n xs)
  All-drop zero xs h = h
  All-drop (suc n) [] h = tt
  All-drop (suc n) (x ∷ xs) h = All-drop n xs h.1

  pub All-imply : (Q : A → Type 0) (xs : List A) → ((x : A) → P x → Q x) → All P xs → All Q xs
  All-imply Q [] f h = tt
  All-imply Q (x ∷ xs) f (p, h) = (f x p, All-imply Q xs f h)

  pub All-update_where :
      (q : A → Bool) (f : A → A)
      → ((x : A) → P x → P (f x))
      → (xs : List A) → All P xs
      → All P (update_where q f xs)
  All-update_where q f kept [] h = tt
  All-update_where q f kept (x ∷ xs) (p, h) = (
    elim (Bool-cases (q x)) [ inl e ↦ rw e (kept x p) | inr e ↦ rw e p ],
    All-update_where q f kept xs h,
  )

  pub All-find : (p : A → Bool) (xs : List A) (x : A) → All P xs → find p xs ≡ some x → P x
  All-find p [] x h found = absurd (ground arith)
  All-find p (y ∷ ys) x (py, h) found = elim (Bool-cases (p y)) [
    | inl e ↦ ground (arith, found, e, py)
    | inr e ↦ All-find p ys x h (ground (arith, found, e))
  ]

-- Rows that `named x` finds are those with the key of `x`; no key stands twice.
module _ {ℓ} {A : Type ℓ} (named : A → A → Bool) where
  abbrev pub Unique : List A → Type ℓ
  Unique [] = Unit
  Unique (x ∷ xs) = (find (named x) xs ≡ none) × Unique xs

  pub Unique-append_one :
      ((x y : A) → named x y ≡ named y x)
      → (xs : List A) (x : A) → Unique xs
      → find (named x) xs ≡ none
      → Unique (xs ++ x ∷ [])
  Unique-append_one same [] x h new = (refl, tt)
  Unique-append_one same (y ∷ ys) x (none_y, h) new =
      let apart : named y x ≡ false = ground (arith, same x y, new) in
      (
        find-append_none (named y) ys (x ∷ []) none_y ∙ rw apart refl,
        Unique-append_one same ys x h (ground (arith, new)),
      )

  -- An update that keeps the keys keeps them unique.
  pub Unique-update_where :
      (q : A → Bool) (f : A → A)
      → ((x y : A) → named x (f y) ≡ named x y)
      → ((x : A) → named (f x) ≡ named x)
      → (xs : List A) → Unique xs
      → Unique (update_where q f xs)
  Unique-update_where q f same key [] h = tt
  Unique-update_where q f same key (x ∷ xs) (none_x, h) =
      let kept : named (if q x then f x else x) ≡ named x = elim (Bool-cases (q x)) [
        | inl e ↦ rw e (key x)
        | inr e ↦ rw e refl
      ] in
      (
        ap (λ p. find p (update_where q f xs)) kept
            ∙ find-update_where-none (named x) q f (same x) xs none_x,
        Unique-update_where q f same key xs h,
      )
