-- ===== src/Common/Strings.antt =====
-- Python's `str` as its list of code points, with the methods that the program calls. `strip` uses
-- Python's own set of white space; `lower` changes the letters A to Z and leaves the rest alone.
use Prim.Native.Nat.{ℕ, ◌+◌}
use Prim.Native.Char.{code}
use Prim.Native.String.{String}
use mathlib.Core.Path.{◌∙◌, ap, ◌≡◌, refl}
use mathlib.Core.Logic.{inl, inr, ◌↔◌}
use mathlib.Core.Bool.{Bool, true, false, ◌&&◌, ◌||◌}
use mathlib.Core.Option.{Option, none, some}
use mathlib.Core.List.{List, [], ◌∷◌, map}
use native.Mathlib.Omega.{arith}
use ko_finance.Common.Tests.{Bool-cases, leb, ◌==◌, if◌then◌else◌}

abbrev pub Text : Type 0
Text = List ℕ

-- The code points of a literal.
abbrev pub codes : String → Text
codes String.[] = []
codes (String.◌∷◌ c s) = code c ∷ codes s

unfoldable pub text_eq : Text → Text → Bool
text_eq [] [] = true
text_eq [] (d ∷ t) = false
text_eq (c ∷ s) [] = false
text_eq (c ∷ s) (d ∷ t) = c == d && text_eq s t

pub text_eq_iff : (s t : Text) → (text_eq s t ≡ true) ↔ (s ≡ t)
unfolding text_eq
text_eq_iff [] [] = ground arith
text_eq_iff [] (d ∷ t) = ground arith
text_eq_iff (c ∷ s) [] = ground arith
text_eq_iff (c ∷ s) (d ∷ t) = ground (arith, text_eq_iff s t)

pub text_eq_refl : (s : Text) → text_eq s s ≡ true
text_eq_refl s = (text_eq_iff s s).1 refl

-- The truth value of a text.
abbrev pub nonempty : Text → Bool
nonempty [] = false
nonempty (c ∷ s) = true

-- `s or t`
abbrev pub or_text : Text → Text → Text
or_text [] t = t
or_text (c ∷ s) t = c ∷ s

-- `s or None`
abbrev pub some_text : Text → Option Text
some_text [] = none
some_text (c ∷ s) = some (c ∷ s)

-- The white space of `str.strip`.
unfoldable pub is_space : ℕ → Bool
is_space c =
    (leb 9 c && leb c 13)
    || (leb 28 c && leb c 32)
    || c == 0x85
    || c == 0xa0
    || c == 0x1680
    || (leb 0x2000 c && leb c 0x200a)
    || c == 0x2028
    || c == 0x2029
    || c == 0x202f
    || c == 0x205f
    || c == 0x3000

unfoldable pub lstrip : Text → Text
unfolding is_space
lstrip [] = []
lstrip (c ∷ s) = let rest = lstrip s in if is_space c then rest else c ∷ s

unfoldable pub rstrip : Text → Text
unfolding is_space
rstrip [] = []
rstrip (c ∷ s) = elim (rstrip s) [ [] ↦ if is_space c then [] else c ∷ [] | d ∷ t ↦ c ∷ d ∷ t ]

unfoldable pub strip : Text → Text
unfolding lstrip rstrip
strip s = rstrip (lstrip s)

abbrev lower_code : ℕ → ℕ
lower_code c = if leb 65 c && leb c 90 then c + 32 else c

unfoldable pub lower : Text → Text
lower = map lower_code

-- `x in xs`
abbrev pub member : Text → List Text → Bool
member s [] = false
member s (t ∷ ts) = text_eq s t || member s ts

-- `s.split(sep)` on one character.
unfoldable pub split_on : ℕ → Text → List Text
split_on sep [] = [] ∷ []
split_on sep (c ∷ s) = elim (split_on sep s) [
  | [] ↦ [] ∷ []
  | w ∷ ws ↦ if c == sep then [] ∷ w ∷ ws else (c ∷ w) ∷ ws
]

-- The first character, if any, is no white space.
abbrev Trimmed : Text → Type 0
Trimmed [] = Unit
Trimmed (c ∷ s) = is_space c ≡ false

lstrip-Trimmed : (s : Text) → Trimmed (lstrip s)
unfolding lstrip
lstrip-Trimmed [] = tt
lstrip-Trimmed (c ∷ s) = elim (Bool-cases (is_space c)) [
  | inl e ↦ rw e (lstrip-Trimmed s)
  | inr e ↦ rw e e
]

lstrip_of_Trimmed : (s : Text) → Trimmed s → lstrip s ≡ s
unfolding lstrip
lstrip_of_Trimmed [] h = refl
lstrip_of_Trimmed (c ∷ s) h = rw h

-- `rstrip` on a text whose tail has been stripped to `t`.
abbrev rstrip_step : ℕ → Text → Text
rstrip_step c [] = if is_space c then [] else c ∷ []
rstrip_step c (d ∷ t) = c ∷ d ∷ t

rstrip_lem : (c : ℕ) (s : Text) → rstrip (c ∷ s) ≡ rstrip_step c (rstrip s)
unfolding rstrip
rstrip_lem c s = ground arith

rstrip-nil : rstrip [] ≡ []
unfolding rstrip
rstrip-nil = refl

rstrip-Trimmed : (s : Text) → Trimmed s → Trimmed (rstrip s)
rstrip-Trimmed [] h = rw rstrip-nil tt
rstrip-Trimmed (c ∷ s) h = rw (rstrip_lem c s) (step (rstrip s))
  where
    step : (t : Text) → Trimmed (rstrip_step c t)
    step [] = rw h h
    step (d ∷ t) = h

rstrip_step_idem : (c : ℕ) (t : Text) → rstrip t ≡ t → rstrip (rstrip_step c t) ≡ rstrip_step c t
unfolding rstrip
rstrip_step_idem c [] h = ground arith
rstrip_step_idem c (d ∷ t) h = rw (h, rstrip)

rstrip_idem : (s : Text) → rstrip (rstrip s) ≡ rstrip s
rstrip_idem [] = rw rstrip-nil rstrip-nil
rstrip_idem (c ∷ s) = rw (rstrip_lem c s) (rstrip_step_idem c (rstrip s) (rstrip_idem s))

-- Stripping a second time changes nothing.
pub strip_idem : (s : Text) → strip (strip s) ≡ strip s
unfolding strip
strip_idem s =
    ap rstrip (lstrip_of_Trimmed (rstrip (lstrip s)) (rstrip-Trimmed (lstrip s) (lstrip-Trimmed s)))
    ∙ rstrip_idem (lstrip s)

-- White space and letters A to Z are apart, so the two normalizations of a text commute.
is_space-lower_code : (c : ℕ) → is_space (lower_code c) ≡ is_space c
unfolding is_space
is_space-lower_code c = ground arith

lstrip-lower : (s : Text) → lstrip (lower s) ≡ lower (lstrip s)
unfolding lstrip lower
lstrip-lower [] = refl
lstrip-lower (c ∷ s) = ground (arith, is_space-lower_code c, lstrip-lower s)

rstrip-lower : (s : Text) → rstrip (lower s) ≡ lower (rstrip s)
unfolding lower
rstrip-lower [] = rw rstrip-nil
rstrip-lower (c ∷ s) =
    rw (rstrip_lem (lower_code c) (lower s), rstrip_lem c s, rstrip-lower s) (step (rstrip s))
  where
    step : (t : Text) → rstrip_step (lower_code c) (lower t) ≡ lower (rstrip_step c t)
    step [] = ground (arith, is_space-lower_code c)
    step (d ∷ t) = refl

lower_idem : (s : Text) → lower (lower s) ≡ lower s
unfolding lower
lower_idem [] = refl
lower_idem (c ∷ s) = ground (arith, lower_idem s)

strip-lower : (s : Text) → strip (lower s) ≡ lower (strip s)
unfolding strip
strip-lower s = ap rstrip (lstrip-lower s) ∙ rstrip-lower (lstrip s)

-- `s.strip().lower()`
unfoldable pub normalize : Text → Text
normalize s = lower (strip s)

-- A normalized text stays as it is when it is normalized again.
pub normalize_idem : (s : Text) → normalize (normalize s) ≡ normalize s
unfolding normalize
normalize_idem s =
    ap lower (strip-lower (strip s)) ∙ lower_idem (strip (strip s)) ∙ ap lower (strip_idem s)
