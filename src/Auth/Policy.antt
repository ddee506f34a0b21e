-- ===== src/Auth/Policy.antt =====
-- The password policy and the retry header (services/auth/common.py).
use ko_finance.Common.{◌≤◌, ◌≡◌, ◌↔◌, true, none, Text, length, arith}
use ko_finance.Auth.Settings.{Settings}
use ko_finance.Auth.Guards.{validate_password_strength}

-- A password meets the policy that is configured.
abbrev pub MeetsPolicy : Settings → Text → Type 0
MeetsPolicy e p =
    (e.password_min_length ≤ length p)
    × (e.require_upper ≡ true → e.has_upper p ≡ true)
    × (e.require_lower ≡ true → e.has_lower p ≡ true)
    × (e.require_digit ≡ true → e.has_digit p ≡ true)
    × (e.require_symbol ≡ true → e.has_symbol p ≡ true)

-- A password passes validation exactly when it is long enough and has every kind of character that
-- the configuration requires.
pub validate_password_strength_iff :
    (e : Settings) (p : Text) → (validate_password_strength e p ≡ none) ↔ MeetsPolicy e p
unfolding validate_password_strength
validate_password_strength_iff e p = ground arith
