-- ===== src/PlanSettings/Hoare.antt =====
-- Pre- and postconditions of the calls of services/plan_service.py.
use ko_finance.Common.{
  Text, Option, none, some, lookup, text_keys, Option-cases, inl, inr, Bool, true, false, Json, ◌≡◌,
  refl, arith,
}
use mathlib.Core.Path.{subst}
use ko_finance.PlanConfig.{TierConfig}
use ko_finance.PlanConfig.Store.{ConfigStore, get_tier_config}
use ko_finance.PlanSettings.{Library, PersistedPlanSettings}
use ko_finance.PlanSettings.Exec.{
  PlanState, PlanError, Outcome, returned, raised, Step, or_raise, raise_if, resume, ◌>>=◌, ◌>>◌,
  pure,
}
use ko_finance.PlanSettings.Disk.{
  base_entitlements_for_tier, base_quota_for_tier, entitlements_read, quota_read,
}

-- A call that returns ends in `Q`, one that raises in `E`.
abbrev pub Post :
    {A : Type 0} → (A → PlanState → Type 0) → (PlanState → Type 0) → Outcome A × PlanState → Type 0
Post Q E (returned a, s) = Q a s
Post Q E (raised e, s) = E s

pub record Hoare {A : Type 0} (P : PlanState → Type 0) (m : Step A) (Q : A → PlanState → Type 0)
    (E : PlanState → Type 0) : Type 0 where
  pub run : (s : PlanState) → P s → Post Q E (m s)

pub after :
    {A B : Type 0} {Q : A → PlanState → Type 0} {R : B → PlanState → Type 0}
    {E : PlanState → Type 0} (f : A → Step B) (r : Outcome A × PlanState)
    → Post Q E r
    → ((a : A) → Hoare (Q a) (f a) R E)
    → Post R E (resume f r.0 r.1)
after f (returned a, s) h k = (k a).run s h
after f (raised e, s) h k = h

pub bind :
    {A B : Type 0} {P : PlanState → Type 0} {Q : A → PlanState → Type 0}
    {R : B → PlanState → Type 0} {E : PlanState → Type 0} {m : Step A} {f : A → Step B}
    → Hoare P m Q E
    → ((a : A) → Hoare (Q a) (f a) R E)
    → Hoare P (m >>= f) R E
bind {m = m} {f = f} h k = record { run = λ s p. after f (m s) (h.run s p) k }

-- What is known of a call that has returned.
pub returned-Post :
    {A : Type 0} (Q : A → PlanState → Type 0) (E : PlanState → Type 0) (r : Outcome A × PlanState)
    (a : A)
    → r.0 ≡ returned a
    → Post Q E r
    → Q a r.1
returned-Post Q E (returned b, s) a eq h =
    let same : b ≡ a = ground (arith, eq) in subst (λ x. Q x s) same h
returned-Post Q E (raised e, s) a eq h = absurd (ground arith)

abbrev pub Anything : PlanState → Type 0
Anything s = Unit

-- Nothing is claimed of a call.
pub any_call :
    {A : Type 0} {P : PlanState → Type 0} (m : Step A) → Hoare P m (λ _. Anything) Anything
any_call m = record { run = λ s p. anything (m s) }
  where
    anything : {A : Type 0} → (r : Outcome A × PlanState) → Post (λ _. Anything) Anything r
    anything (returned a, s) = tt
    anything (raised e, s) = tt

module _ {B : Type 0} {P : PlanState → Type 0} {R : B → PlanState → Type 0}
    {E : PlanState → Type 0} where
  -- A value that is there, or an exception.
  pub or_raise_then :
      {A : Type 0} {f : A → Step B} (weak : (s : PlanState) → P s → E s) (o : Option A)
      (e : PlanError)
      → ((a : A) → o ≡ some a → Hoare P (f a) R E)
      → Hoare P (or_raise o e >>= f) R E
  or_raise_then weak none e k = record { run = weak }
  or_raise_then weak (some a) e k = k a refl

  pub raise_if_then :
      {m : Step B} (weak : (s : PlanState) → P s → E s) (c : Bool) (e : PlanError)
      → (c ≡ false → Hoare P m R E)
      → Hoare P (raise_if c e >> m) R E
  raise_if_then weak true e k = record { run = weak }
  raise_if_then weak false e k = record { run = (k refl).run }

  pub pure_then : (b : B) → ((s : PlanState) → P s → R b s) → Hoare P (pure b) R E
  pure_then b h = record { run = h }

-- A call that cannot raise.
abbrev pub Never : PlanState → Type 0
Never s = ⊥

-- A call that cannot raise returns.
pub returns :
    {A : Type 0} (Q : A → PlanState → Type 0) (r : Outcome A × PlanState)
    → Post Q Never r
    → (a : A) × (r.0 ≡ returned a) × Q a r.1
returns Q (returned a, s) h = (a, refl, h)
returns Q (raised e, s) h = absurd h

-- A call needs no more than `P`.
pub needing :
    {A : Type 0} {P P' : PlanState → Type 0} {m : Step A} {Q : A → PlanState → Type 0}
    {E : PlanState → Type 0}
    → ((s : PlanState) → P' s → P s)
    → Hoare P m Q E
    → Hoare P' m Q E
needing f h = record { run = λ s p. h.run s (f s p) }

-- A weaker postcondition.
pub concluding :
    {A : Type 0} {P : PlanState → Type 0} {m : Step A} {Q R : A → PlanState → Type 0}
    {E : PlanState → Type 0}
    → Hoare P m Q E
    → ((a : A) (s : PlanState) → Q a s → R a s)
    → Hoare P m R E
concluding {A = A} {m = m} {Q = Q} {R = R} {E = E} h f = record {
  run = λ s p. weaker (m s) (h.run s p);
}
  where
    weaker : (r : Outcome A × PlanState) → Post Q E r → Post R E r
    weaker (returned a, s) k = f a s k
    weaker (raised e, s) k = k

-- What the precondition says of values that are known.
pub knowing :
    {A F : Type 0} {P : PlanState → Type 0} {m : Step A} {Q : A → PlanState → Type 0}
    {E : PlanState → Type 0}
    → ((s : PlanState) → P s → F)
    → (F → Hoare P m Q E)
    → Hoare P m Q E
knowing f k = record { run = λ s p. (k (f s p)).run s p }

-- A property of the settings in memory and on disk.
abbrev pub OfSettings : (Option PersistedPlanSettings → Option Json → Type 0) → PlanState → Type 0
OfSettings I s = I s.cache s.file

module _ (lib : Library) (I : Option PersistedPlanSettings → Option Json → Type 0) where
  pub base_quota_keeps :
      (tier : Text)
      → Hoare (OfSettings I) (base_quota_for_tier lib tier) (λ _. OfSettings I) (OfSettings I)
  unfolding base_quota_for_tier
  base_quota_keeps tier = record { run = λ s p. held s p }
    where
      step :
          (s : PlanState)
          → OfSettings I s
          → (r : Option TierConfig × ConfigStore)
          → Post (λ _. OfSettings I) (OfSettings I) (quota_read tier s r)
      step s p (none, c) = p
      step s p (some t, c) = p

      held :
          (s : PlanState)
          → OfSettings I s
          → Post (λ _. OfSettings I) (OfSettings I) (base_quota_for_tier lib tier s)
      held s p = elim (Option-cases (lookup tier s.base_quotas)) [
        | inr (q, e) ↦ rw (base_quota_for_tier, e) p
        | inl e ↦ rw (base_quota_for_tier, e) (step s p (get_tier_config lib.show tier s.config))
      ]

  pub base_entitlements_keeps :
      (tier : Text)
      → Hoare
          (OfSettings I)
          (base_entitlements_for_tier lib tier)
          (λ _. OfSettings I)
          (OfSettings I)
  unfolding base_entitlements_for_tier
  base_entitlements_keeps tier = record { run = λ s p. held s p }
    where
      step :
          (s : PlanState)
          → OfSettings I s
          → (r : Option TierConfig × ConfigStore)
          → Post (λ _. OfSettings I) (OfSettings I) (entitlements_read tier s r)
      step s p (none, c) = p
      step s p (some t, c) = p

      held :
          (s : PlanState)
          → OfSettings I s
          → Post (λ _. OfSettings I) (OfSettings I) (base_entitlements_for_tier lib tier s)
      held s p = elim (Option-cases (lookup tier s.base_entitlements)) [
        | inr (q, e) ↦ rw (base_entitlements_for_tier, e) p
        | inl e ↦
            rw (base_entitlements_for_tier, e) (step s p (get_tier_config lib.show tier s.config))
      ]
