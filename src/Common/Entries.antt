-- ===== src/Common/Entries.antt =====
-- The loop `if text and text not in seen: …` that cleans lists of entitlements, and the list that it
-- leaves.
use mathlib.Core.Path.{◌≡◌, refl, ap}
use mathlib.Core.Bool.{true, false, not, ◌&&◌}
use mathlib.Core.List.{List, [], ◌∷◌, map}
use native.Mathlib.Omega.{arith}
use mathlib.Core.Logic.{inl, inr}
use ko_finance.Common.Tests.{Bool-cases, if◌then◌else◌}
use ko_finance.Common.Strings.{Text, nonempty, strip, member}

-- The texts that are not empty, each where it stands first, after those of `seen`.
unfoldable pub first_texts : List Text → List Text → List Text
first_texts seen [] = []
first_texts seen (t ∷ ts) =
    let taken = first_texts (t ∷ seen) ts in
    let passed = first_texts seen ts in
    if nonempty t && not (member t seen) then t ∷ taken else passed

-- Texts without white space around them, none empty and none twice or in `seen`.
abbrev pub Fresh : List Text → List Text → Type 0
Fresh seen [] = Unit
Fresh seen (t ∷ ts) =
    (strip t ≡ t) × (nonempty t ≡ true) × (member t seen ≡ false) × Fresh (t ∷ seen) ts

abbrev pub Tidy : List Text → Type 0
Tidy ts = Fresh [] ts

abbrev pub Stripped : List Text → Type 0
Stripped [] = Unit
Stripped (t ∷ ts) = (strip t ≡ t) × Stripped ts

pub first_texts-Fresh : (seen ts : List Text) → Stripped ts → Fresh seen (first_texts seen ts)
unfolding first_texts
first_texts-Fresh seen [] h = tt
first_texts-Fresh seen (t ∷ ts) (s, hs) = elim (Bool-cases (nonempty t && not (member t seen))) [
  | inl e ↦ rw e (s, ground (arith, e), ground (arith, e), first_texts-Fresh (t ∷ seen) ts hs)
  | inr e ↦ rw e (first_texts-Fresh seen ts hs)
]

pub first_texts_of_Fresh : (seen ts : List Text) → Fresh seen ts → first_texts seen ts ≡ ts
unfolding first_texts
first_texts_of_Fresh seen [] h = refl
first_texts_of_Fresh seen (t ∷ ts) (s, n, m, h) =
    rw (n, m) (ap (λ r. t ∷ r) (first_texts_of_Fresh (t ∷ seen) ts h))

pub Fresh-Stripped : (seen ts : List Text) → Fresh seen ts → Stripped ts
Fresh-Stripped seen [] h = tt
Fresh-Stripped seen (t ∷ ts) (s, n, m, h) = (s, Fresh-Stripped (t ∷ seen) ts h)

pub map-strip : (ts : List Text) → Stripped ts → map strip ts ≡ ts
map-strip [] h = refl
map-strip (t ∷ ts) (s, hs) = rw (s, map-strip ts hs) refl
