-- ===== src/Common/Responses.antt =====
-- What a route answers: its response, or an HTTP error by its code.
use Prim.Native.Nat.{ℕ}

pub data Response {ℓ} (A : Type ℓ) : Type ℓ where
  responds : A → Response A
  http_error : ℕ → Response A
