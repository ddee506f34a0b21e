-- ===== src/PlanSettings/Exec.antt =====
-- The state of services/plan_service.py and a call of it as a state monad with exceptions.
use ko_finance.Common.{
  Text, Json, Dict, List, Option, none, some, Bool, if◌then◌else◌, ◌≡◌, refl, ◌⊎◌, inl, inr, arith,
}
use ko_finance.PlanConfig.{Quota}
use ko_finance.PlanConfig.Store.{ConfigStore}
use ko_finance.PlanSettings.{PersistedPlanSettings}

-- `_PLAN_SETTINGS_CACHE`, what `json.loads` reads of the settings file (`none` for a file that is
-- missing or cannot be read), the `lru_cache`s of the two base functions, and the plan config.
pub record PlanState : Type 0 where
  pub cache : Option PersistedPlanSettings
  pub file : Option Json
  pub base_entitlements : Dict Text (List Text)
  pub base_quotas : Dict Text Quota
  pub config : ConfigStore

-- PlanSettingsConflictError, ValueError, RuntimeError or OSError, and any other exception.
pub data PlanError : Type 0 where
  conflict : PlanError
  invalid : PlanError
  unavailable : PlanError
  crashed : PlanError

pub data Outcome (A : Type 0) : Type 0 where
  returned : A → Outcome A
  raised : PlanError → Outcome A

-- What a call has written before it raises stays.
abbrev pub Step : Type 0 → Type 0
Step A = PlanState → Outcome A × PlanState

abbrev pub pure : {A : Type 0} → A → Step A
pure a s = (returned a, s)

abbrev pub raise : {A : Type 0} → PlanError → Step A
raise e s = (raised e, s)

abbrev pub or_raise : {A : Type 0} → Option A → PlanError → Step A
or_raise none e = raise e
or_raise (some a) _ = pure a

abbrev pub raise_if : Bool → PlanError → Step (Unit {0})
raise_if c e s = (if c then raised e else returned tt, s)

abbrev pub resume : {A B : Type 0} → (A → Step B) → Outcome A → PlanState → Outcome B × PlanState
resume f (returned a) s = f a s
resume f (raised e) s = (raised e, s)

infixl 5 ◌>>=◌ ◌>>◌
abbrev pub ◌>>=◌ : {A B : Type 0} → Step A → (A → Step B) → Step B
◌>>=◌ m f s = let (r, s') = m s in resume f r s'

abbrev pub ◌>>◌ : {A B : Type 0} → Step A → Step B → Step B
m >> k = m >>= λ _. k

pub Outcome-cases :
    {A : Type 0} (r : Outcome A) → ((a : A) × (r ≡ returned a)) ⊎ ((e : PlanError) × (r ≡ raised e))
Outcome-cases (returned a) = inl (a, refl)
Outcome-cases (raised e) = inr (e, refl)

-- A call that returns has run its first step to the end.
pub resume_returned :
    {A B : Type 0} (f : A → Step B) (r : Outcome A) (s : PlanState) (b : B)
    → (resume f r s).0 ≡ returned b
    → (a : A) × (r ≡ returned a) × ((f a s).0 ≡ returned b) × ((resume f r s).1 ≡ (f a s).1)
resume_returned f (returned a) s b h = (a, refl, h, refl)
resume_returned f (raised e) s b h = absurd (ground arith)
