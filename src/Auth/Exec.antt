-- ===== src/Auth/Exec.antt =====
-- A call of services/auth/common.py as a state monad with exceptions. `with session.begin()` commits
-- what its block has written if the block ends normally, and rolls the database back if it raises.
use ko_finance.Common.{
  Option, none, some, List, ◌∷◌, Bool, if◌then◌else◌, ◌≡◌, refl, ◌⊎◌, inl, inr, arith,
}
use ko_finance.Auth.Model.{Db, Effect, AuthError}

-- `S` is the state of the Redis server that the rate limiter asks.
pub record World (S : Type 0) : Type 0 where
  pub db : Db
  pub redis : S
  pub effects : List Effect

pub data Result (A : Type 0) : Type 0 where
  ok : A → Result A
  err : AuthError → Result A

abbrev pub Action : Type 0 → Type 0 → Type 0
Action S A = World S → Result A × World S

module _ {S : Type 0} {A : Type 0} where
  abbrev pub pure : A → Action S A
  pure a w = (ok a, w)

  abbrev pub raise : AuthError → Action S A
  raise e w = (err e, w)

  abbrev pub gets : (Db → A) → Action S A
  gets f w = (ok (f w.db), w)

  abbrev pub or_raise : Option A → AuthError → Action S A
  or_raise none e = raise e
  or_raise (some a) _ = pure a

  -- The end of a `with session.begin():` block that was entered at the database `d`.
  abbrev pub commit_or_rollback : Db → Result A × World S → Result A × World S
  commit_or_rollback d (ok a, w) = (ok a, w)
  commit_or_rollback d (err e, w) = (err e, record w { db = d })

  unfoldable pub transaction : Action S A → Action S A
  transaction m w = commit_or_rollback w.db (m w)

-- The rest of a block after a call that has ended.
abbrev pub resume : {S A B : Type 0} → (A → Action S B) → Result A → World S → Result B × World S
resume f (ok a) w = f a w
resume f (err e) w = (err e, w)

infixl 5 ◌>>=◌ ◌>>◌
abbrev pub ◌>>=◌ : {S : Type 0} → {A B : Type 0} → Action S A → (A → Action S B) → Action S B
◌>>=◌ m f w = let (r, w') = m w in resume f r w'

abbrev pub ◌>>◌ : {S A B : Type 0} → Action S A → Action S B → Action S B
m >> k = m >>= λ _. k

abbrev pub raise_if : {S : Type 0} → Bool → AuthError → Action S (Unit {0})
raise_if c e w = (if c then err e else ok tt, w)

abbrev pub modify : {S : Type 0} → (Db → Db) → Action S (Unit {0})
modify f w = (ok tt, record w { db = f w.db })

abbrev pub emit : {S : Type 0} → Effect → Action S (Unit {0})
emit x w = (ok tt, record w { effects = x ∷ w.effects })

pub commit_or_rollback-err :
    {S A : Type 0} (d : Db) (r : Result A × World S) (e : AuthError)
    → (commit_or_rollback d r).0 ≡ err e
    → (commit_or_rollback d r).1.db ≡ d
commit_or_rollback-err d (ok a, w) e h = cc
commit_or_rollback-err d (err x, w) e h = refl

-- A block that raises leaves the database as it was.
pub transaction_rolls_back :
    {S A : Type 0} (m : Action S A) (w : World S) (e : AuthError)
    → (transaction m w).0 ≡ err e
    → (transaction m w).1.db ≡ w.db
unfolding transaction
transaction_rolls_back m w e h = commit_or_rollback-err w.db (m w) e h

commit_or_rollback-ok :
    {S A : Type 0} (d : Db) (r : Result A × World S) (a : A)
    → (commit_or_rollback d r).0 ≡ ok a
    → (r.0 ≡ ok a) × ((commit_or_rollback d r).1 ≡ r.1)
commit_or_rollback-ok d (ok b, w) a h = (h, refl)
commit_or_rollback-ok d (err x, w) a h = absurd (ground arith)

-- A block that ends normally keeps what it has written.
pub transaction_commits :
    {S A : Type 0} (m : Action S A) (w : World S) (a : A)
    → (transaction m w).0 ≡ ok a
    → ((m w).0 ≡ ok a) × ((transaction m w).1 ≡ (m w).1)
unfolding transaction
transaction_commits m w a h = commit_or_rollback-ok w.db (m w) a h

pub Result-cases :
    {A : Type 0} (r : Result A) → ((a : A) × (r ≡ ok a)) ⊎ ((x : AuthError) × (r ≡ err x))
Result-cases (ok a) = inl (a, refl)
Result-cases (err x) = inr (x, refl)

-- A block that returns has run its first call to the end.
pub resume_ok :
    {S A B : Type 0} (f : A → Action S B) (r : Result A) (w : World S) (b : B)
    → (resume f r w).0 ≡ ok b
    → (a : A) × (r ≡ ok a) × ((f a w).0 ≡ ok b) × ((resume f r w).1 ≡ (f a w).1)
resume_ok f (ok a) w b h = (a, refl, h, refl)
resume_ok f (err x) w b h = absurd (ground arith)
