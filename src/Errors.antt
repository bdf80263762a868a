-- ===== src/Errors.antt =====
-- The error values of the packages, and results that carry one (internal/run/domain.go,
-- artifact.go, benchmark.go, claims.go and their users). `errors.Is` on these sentinels is equality.
use perfeng_control_plane.Text.{Text}

pub data Error : Type 0 where
  -- internal/run
  validation not_found conflict run_terminal invalid_transition stale_revision : Error
  unavailable forbidden artifact_conflict lease_lost : Error
  -- internal/baseline
  invalid_baseline_transition : Error
  -- internal/nativeworker
  lease_gone : Error
  -- internal/reconcile
  state_not_handled execution_not_bound : Error
  -- internal/worker
  cancellation_observed : Error
  -- the error of a context that is done
  context_done : Error
  -- any error of a dependency that is none of the above
  other : Text → Error

-- What a Go function with a trailing `error` returns.
pub data Result {ℓ} (A : Type ℓ) : Type ℓ where
  err : Error → Result A
  ok : A → Result A

-- `if err != nil { return err }` before the rest.
infixl 5 ◌>>=◌
abbrev pub ◌>>=◌ {ℓ κ} : {A : Type ℓ} {B : Type κ} → Result A → (A → Result B) → Result B
◌>>=◌ (err reason) rest = err reason
◌>>=◌ (ok value) rest = rest value
