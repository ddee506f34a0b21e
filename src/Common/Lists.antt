-- ===== src/Common/Lists.antt =====
-- Lists measured by native numbers, Python's slices from the end, and predicates over lists.
use Prim.Native.Nat.{ℕ, zero, suc, ◌+◌, ◌-◌, ◌≤◌}
use mathlib.Core.Logic.{inl, inr}
use mathlib.Core.Path.{◌≡◌, refl, ap}
use mathlib.Core.Bool.{Bool, true, false, not, ◌||◌}
use mathlib.Core.List.{List, [], ◌∷◌, ◌++◌}
use mathlib.Core.Option.{Option, none, some}
use native.Mathlib.Omega.{arith}
use ko_finance.Common.Tests.{Bool-cases, if◌then◌else◌}

module _ {ℓ} {A : Type ℓ} where
  abbrev pub length : List A → ℕ
  length [] = 0
  length (x ∷ xs) = suc (length xs)

  abbrev pub drop : ℕ → List A → List A
  drop zero xs = xs
  drop (suc n) [] = []
  drop (suc n) (x ∷ xs) = drop n xs

  -- `[x for x in xs if p(x)]`
  abbrev pub keep : (A → Bool) → List A → List A
  keep p [] = []
  keep p (x ∷ xs) = let rest = keep p xs in if p x then x ∷ rest else rest

  -- The first `x` of the list with `p(x)`.
  abbrev pub find : (A → Bool) → List A → Option A
  find p [] = none
  find p (x ∷ xs) = let rest = find p xs in if p x then some x else rest

  -- `any(p(x) for x in xs)`
  abbrev pub exists : (A → Bool) → List A → Bool
  exists p [] = false
  exists p (x ∷ xs) = p x || exists p xs

  -- An SQL `UPDATE … WHERE p` that sets columns by `f`.
  abbrev pub update_where : (A → Bool) → (A → A) → List A → List A
  update_where p f [] = []
  update_where p f (x ∷ xs) = (if p x then f x else x) ∷ update_where p f xs

  -- `xs[-n:]`; as in Python, `xs[-0:]` is the whole list.
  abbrev pub take_last : ℕ → List A → List A
  take_last zero xs = xs
  take_last (suc n) xs = drop (length xs - suc n) xs

module _ {ℓ} {A : Type ℓ} where
  pub length-append : (xs ys : List A) → length (xs ++ ys) ≡ length xs + length ys
  length-append [] ys = omega arith
  length-append (x ∷ xs) ys = omega (arith, length-append xs ys)

  pub length-drop : (n : ℕ) (xs : List A) → length (drop n xs) ≡ length xs - n
  length-drop zero xs = omega arith
  length-drop (suc n) [] = omega arith
  length-drop (suc n) (x ∷ xs) = omega (arith, length-drop n xs)

  pub length-take_last : (n : ℕ) (xs : List A) → length (take_last (suc n) xs) ≤ suc n
  length-take_last n xs = omega (arith, length-drop (length xs - suc n) xs)

  pub drop_exact : (xs : List A) → drop (length xs) xs ≡ []
  drop_exact [] = refl
  drop_exact (x ∷ xs) = drop_exact xs

  -- A list that fits is kept whole.
  pub take_last_all : (n : ℕ) (xs : List A) → length xs ≤ suc n → take_last (suc n) xs ≡ xs
  take_last_all n xs h = let e : length xs - suc n ≡ 0 = omega arith in rw e

  pub drop-append : (n : ℕ) (xs ys : List A) → n ≤ length xs → drop n (xs ++ ys) ≡ drop n xs ++ ys
  drop-append zero xs ys h = refl
  drop-append (suc n) [] ys h = absurd (omega arith)
  drop-append (suc n) (x ∷ xs) ys h = drop-append n xs ys (omega arith)

  -- What is appended last survives the cut.
  pub take_last-append_one :
      (n : ℕ) (xs : List A) (x : A)
      → take_last (suc n) (xs ++ x ∷ []) ≡ drop (length xs - n) xs ++ x ∷ []
  take_last-append_one n xs x =
      let e : length (xs ++ x ∷ []) - suc n ≡ length xs - n =
        omega (arith, length-append xs (x ∷ [])) in
      rw e (drop-append (length xs - n) xs (x ∷ []) (omega arith))

  pub length-keep : (p : A → Bool) (xs : List A) → length (keep p xs) ≤ length xs
  length-keep p [] = omega arith
  length-keep p (x ∷ xs) = ground (arith, length-keep p xs)

  pub length-update_where :
      (p : A → Bool) (f : A → A) (xs : List A) → length (update_where p f xs) ≡ length xs
  length-update_where p f [] = refl
  length-update_where p f (x ∷ xs) = ap suc (length-update_where p f xs)

  pub find-append_none :
      (p : A → Bool) (xs ys : List A) → find p xs ≡ none → find p (xs ++ ys) ≡ find p ys
  find-append_none p [] ys h = refl
  find-append_none p (x ∷ xs) ys h = ground (arith, find-append_none p xs ys)

  pub find-keep-not : (p : A → Bool) (xs : List A) → find p (keep (λ x. not (p x)) xs) ≡ none
  find-keep-not p [] = refl
  find-keep-not p (x ∷ xs) = ground (arith, find-keep-not p xs)

  pub find-drop-none :
      (p : A → Bool) (n : ℕ) (xs : List A) → find p xs ≡ none → find p (drop n xs) ≡ none
  find-drop-none p zero xs h = h
  find-drop-none p (suc n) [] h = refl
  find-drop-none p (suc n) (x ∷ xs) h = find-drop-none p n xs (ground arith)

  -- What `find` returns passes the test.
  pub find_holds : (p : A → Bool) (xs : List A) (a : A) → find p xs ≡ some a → p a ≡ true
  find_holds p [] a h = cc
  find_holds p (x ∷ xs) a h = ground (arith, find_holds p xs a)

  -- An update that keeps the tested columns updates the row that is found.
  pub find-update_where :
      (p q : A → Bool) (f : A → A)
      → ((x : A) → p (f x) ≡ p x)
      → (xs : List A) (r : A) → find p xs ≡ some r
      → find p (update_where q f xs) ≡ some (if q r then f r else r)
  find-update_where p q f same [] r h = cc
  find-update_where p q f same (x ∷ xs) r h =
      ground (arith, same x, find-update_where p q f same xs r)

  -- What is found after an update of the tested rows is an updated row.
  pub find-updated :
      (p : A → Bool) (f : A → A)
      → ((x : A) → p (f x) ≡ p x)
      → (xs : List A) (r : A) → find p (update_where p f xs) ≡ some r
      → (x : A) × (find p xs ≡ some x) × (r ≡ f x)
  find-updated p f same [] r h = absurd (ground arith)
  find-updated p f same (x ∷ xs) r h = elim (Bool-cases (p x)) [
    | inl e ↦ (x, rw e, ground (arith, same x))
    | inr e ↦
        let (y, found, eq) = find-updated p f same xs r (ground (arith, same x)) in
        (y, ground (arith, found), eq)
  ]

  pub find-update_where-none :
      (p q : A → Bool) (f : A → A)
      → ((x : A) → p (f x) ≡ p x)
      → (xs : List A) → find p xs ≡ none
      → find p (update_where q f xs) ≡ none
  find-update_where-none p q f same [] h = refl
  find-update_where-none p q f same (x ∷ xs) h =
      ground (arith, same x, find-update_where-none p q f same xs)

-- Every element of the list satisfies `P`.
abbrev pub All {ℓ κ} : {A : Type ℓ} → (A → Type κ) → List A → Type κ
All P [] = Unit
All P (x ∷ xs) = P x × All P xs
