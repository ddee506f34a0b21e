-- ===== src/Common/JsonValues.antt =====
-- JSON values as Python holds them after `json.loads` or a `jsonb` column, with the truth value and
-- the `int` of each. A number with a fraction is its whole part, cut towards 0, and the fraction.
use Prim.Native.Nat.{ℕ, ◌+◌, ◌-◌, ◌*◌}
use mathlib.Core.Bool.{Bool, true, false, not, ◌&&◌}
use mathlib.Core.Option.{Option, none, some}
use mathlib.Core.List.{[], ◌∷◌}
use ko_finance.Common.Tests.{leb, ◌==◌, if◌then◌else◌}
use ko_finance.Common.Int.{ℤ, pos, negsuc, ◌-ℤ◌}
use ko_finance.Common.Strings.{Text, text_eq, nonempty, strip}
use ko_finance.Common.Dicts.{text_keys}

mutual
  pub data Json : Type 0 where
    null : Json
    flag : Bool → Json
    number : ℤ → Json
    real : ℤ → ℕ → Json
    string : Text → Json
    array : Items → Json
    object : Fields → Json

  pub data Items : Type 0 where
    nil : Items
    cons : Json → Items → Items

  pub data Fields : Type 0 where
    end : Fields
    field : Text → Json → Fields → Fields

-- The digits of a decimal numeral, single underscores between them, read after `n`; the flag says
-- whether a digit stands before.
unfoldable pub read_digits : Bool → ℕ → Text → Option ℕ
read_digits after n [] = if after then some n else none
read_digits after n (c ∷ s) =
    let digit = read_digits true (10 * n + (c - 48)) s in
    let underscore = read_digits false n s in
    if leb 48 c && leb c 57 then digit else (if c == b'_' && after then underscore else none)

abbrev negated : Option ℕ → Option ℤ
negated none = none
negated (some n) = some (pos 0 -ℤ pos n)

abbrev positive : Option ℕ → Option ℤ
positive none = none
positive (some n) = some (pos n)

abbrev read_sign : Text → Option ℤ
read_sign [] = none
read_sign (c ∷ s) =
    if c == b'-'
    then negated (read_digits false 0 s)
    else (if c == b'+'
        then positive (read_digits false 0 s)
        else positive (read_digits false 0 (c ∷ s)))

-- `int(s)` on the ASCII digits; `none` is its ValueError.
unfoldable pub int_of_text : Text → Option ℤ
int_of_text s = read_sign (strip s)

-- `int(value)`; `none` is its TypeError or ValueError.
unfoldable pub to_int : Json → Option ℤ
to_int null = none
to_int (flag b) = some (pos (if b then 1 else 0))
to_int (number n) = some n
to_int (real n f) = some n
to_int (string s) = int_of_text s
to_int (array xs) = none
to_int (object fs) = none

-- `bool(value)`
unfoldable pub truthy : Json → Bool
truthy null = false
truthy (flag b) = b
truthy (number (pos n)) = not (n == 0)
truthy (number (negsuc n)) = true
truthy (real (pos n) f) = not (n == 0 && f == 0)
truthy (real (negsuc n) f) = true
truthy (string s) = nonempty s
truthy (array nil) = false
truthy (array (cons x xs)) = true
truthy (object end) = false
truthy (object (field k v fs)) = true

-- The value under a key of an object's fields.
unfoldable pub field_of : Text → Fields → Option Json
field_of k end = none
field_of k (field j v fs) = let rest = field_of k fs in if text_eq j k then some v else rest
