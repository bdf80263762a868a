-- ===== src/Postgres/Transactions.antt =====
-- The transactions on Runs and their leases, and what a sequence of them does.
use perfeng_control_plane.Base.{ℕ, ◌<◌, List, [], ◌∷◌}
use perfeng_control_plane.Base.Int.{ℤ}
use perfeng_control_plane.Text.{Text}
use perfeng_control_plane.Run.{Change, Request, ExecutionTarget}
use perfeng_control_plane.Run.Claims.{Lease}
use perfeng_control_plane.Postgres.Tables.{LeaseRow, Database, Weather}
use perfeng_control_plane.Postgres.Claims.{claim_runs, renew_claim, release_claim, advance_claim}
use perfeng_control_plane.Postgres.Runs.{cancel, advance}
use perfeng_control_plane.Postgres.Acceptance.{accept}
use perfeng_control_plane.Postgres.NativeRenewal
use perfeng_control_plane.Postgres.NativeRenewal.{renew_native_lease}
use perfeng_control_plane.Postgres.NativeRelease.{ReleaseRequest, release_native_lease}
use perfeng_control_plane.Postgres.Kept.{Other}

pub data Transaction : Type 0 where
  claims : Weather → Text → ℤ → ℤ → List Text → ℕ → (ℕ → ℕ) → (ℕ → Text) → Transaction
  renews : Weather → Lease → ℤ → ℕ → Transaction
  releases : Weather → Lease → ℤ → ℕ → Transaction
  advances_claim : Weather → Lease → ℕ → Change → ℕ → Transaction
  cancels : Weather → Text → Text → ℕ → Transaction
  advances : Weather → Text → Text → ℕ → Change → ℕ → Transaction
  creates : Weather → ℕ → ℕ × ℕ × ℕ × ℕ → Text → Text → Request → ExecutionTarget → Transaction
  renews_native : (Text → Text) → Weather → Text → NativeRenewal.Request → ℕ → ℕ → ℕ → Transaction
  releases_native : (Text → Text) → Weather → Text → ReleaseRequest → ℕ → Transaction

unfoldable pub commit : Database → Transaction → Database
commit db (claims w worker limit ttl locked q clock token) =
    (claim_runs w db worker limit ttl locked q clock token).0
commit db (renews w l ttl now) = (renew_claim w db l ttl now).0
commit db (releases w l delay now) = (release_claim w db l delay now).0
commit db (advances_claim w l revision change now) = (advance_claim w db l revision change now).0
commit db (cancels w principal id now) = (cancel w db principal id now).0
commit db (advances w principal id revision change now) =
    (advance w db principal id revision change now).0
commit db (creates w now draw principal key request target) =
    (accept w db now draw principal key request target).0
commit db (renews_native sha256 w worker_id r ttl grace now) =
    (renew_native_lease sha256 w db worker_id r ttl grace now).0
commit db (releases_native sha256 w worker_id r now) =
    (release_native_lease sha256 w db worker_id r now).0

unfoldable pub history : Database → List Transaction → Database
history db [] = db
history db (t ∷ ts) = history (commit db t) ts

-- A transaction that is not the owner's, and reads the clock before the lease expires if it claims.
abbrev pub IsForeign : Text → LeaseRow → Transaction → Type 0
IsForeign id row (claims w worker limit ttl locked q clock token) =
    (n : ℕ) → clock n < row.expires_at
IsForeign id row (renews w l ttl now) = Other id row l
IsForeign id row (releases w l delay now) = Other id row l
IsForeign id row (advances_claim w l revision change now) = Other id row l
IsForeign id row _ = Unit {0}

abbrev pub AllForeign : Text → LeaseRow → List Transaction → Type 0
AllForeign id row [] = Unit {0}
AllForeign id row (t ∷ ts) = IsForeign id row t × AllForeign id row ts
