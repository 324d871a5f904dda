-- ===== src/Exec.antt =====
-- Methods that change shared state and may return a Go `error`.
pub mod Rules
pub mod Triple
pub mod Ends
use cluster_api_hypervisor.Common.{String, ℕ}

-- google.golang.org/grpc/codes, as far as the host agent's protocol tells them apart.
pub data Code : Type 0 where
  invalid_argument failed_precondition absent aborted out_of_service internal : Code

-- A Go `error`, by the sentinel that `errors.Is` and `errors.As` find in its chain of wrapped
-- errors; `other` has none of them. The words around the sentinel are not modelled.
pub data Error : Type 0 where
  -- internal/hostagent
  invalid_request conflict not_found unauthorized unavailable protocol : Error
  -- internal/agent/inventory, database/sql
  idempotency_conflict operation_not_found no_rows database : Error
  -- internal/k8netd
  net_not_found net_already_exists net_invalid_params net_conflict net_internal : Error
  -- internal/ch: the status code and the body of a StatusError
  ch_status : ℕ → String → Error
  -- google.golang.org/grpc/status
  status_error : Code → Error
  -- a nil pointer or interface was used: the request ends, nothing else is returned
  panic : Error
  other : String → Error

pub data Result {ℓ} (A : Type ℓ) : Type ℓ where
  ok : A → Result A
  err : Error → Result A

-- What was written before an error stays written, so the state comes back beside the error.
abbrev pub Exec {ℓ} : Type ℓ → Type ℓ → Type ℓ
Exec S A = S → Result A × S

module _ {ℓ} {S A : Type ℓ} where
  unfoldable pub pure : A → Exec S A
  pure a s = (ok a, s)

  unfoldable pub raise : Error → Exec S A
  raise e s = (err e, s)

  unfoldable pub lift : Result A → Exec S A
  lift r s = (r, s)

  -- `x, err := m`: the caller looks at the error itself.
  unfoldable pub attempt : Exec S A → Exec S (Result A)
  attempt m s = let (r, s') = m s in (ok r, s')

module _ {ℓ} {S A B : Type ℓ} where
  abbrev pub continue : Result A → (A → Exec S B) → Exec S B
  continue (ok a) f s = f a s
  continue (err e) f s = (err e, s)

  -- `if err != nil { return ..., err }`
  -- Opening this opens `pure`, `raise`, `lift` and `attempt` too.
  infixl 5 ◌>>=◌ ◌>>◌
  unfoldable pub ◌>>=◌ : Exec S A → (A → Exec S B) → Exec S B
  unfolding pure raise lift attempt
  ◌>>=◌ m f s = let (r, s') = m s in continue r f s'

  abbrev pub ◌>>◌ : Exec S A → Exec S B → Exec S B
  m >> n = m >>= λ _. n
