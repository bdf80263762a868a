-- ===== src/Memory/Calls.antt =====
-- The calls that change the repository, and what a sequence of them does. A create whose draws run
-- out is still in its loop and has changed nothing.
use perfeng_control_plane.Base.{ℕ, List, [], ◌∷◌, Option, none, some}
use perfeng_control_plane.Text.{Text}
use perfeng_control_plane.Errors.{Error, Result}
use perfeng_control_plane.Run.{Request, ExecutionTarget, Change}
use perfeng_control_plane.Run.Artifact.{Artifact, Url}
use perfeng_control_plane.Baseline.Data
use perfeng_control_plane.Memory.Store.{Accepted, Repository}
use perfeng_control_plane.Memory.Runs.{Draw, accept, cancel, advance}
use perfeng_control_plane.Memory.Artifacts.{register_artifact}
use perfeng_control_plane.Memory.Baselines.{create_baseline, transition_baseline}

pub data Call : Type 0 where
  accepts : Option Error → ℕ → List Draw → Text → Text → Request → ExecutionTarget → Call
  cancels : Option Error → ℕ → Text → Text → Call
  advances : Option Error → ℕ → Text → Text → ℕ → Change → Call
  registers : Option Error → Text → Artifact → Call
  creates_baseline : Option Error → ℕ → Text → Data.Create → Call
  decides_baseline : Option Error → ℕ → Text → Text → Text → ℕ → Data.Change → Call

abbrev pub after_accept : Repository → Option (Repository × Result Accepted) → Repository
after_accept m none = m
after_accept m (some (n, r)) = n

module _ (parse_url : Text → Option Url) where
  unfoldable pub step : Repository → Call → Repository
  step m (accepts ctx now draws principal key request target) =
      after_accept m (accept m ctx now draws principal key request target)
  step m (cancels ctx now principal id) = (cancel m ctx now principal id).0
  step m (advances ctx now principal id revision change) =
      (advance m ctx now principal id revision change).0
  step m (registers ctx principal a) = (register_artifact parse_url m ctx principal a).0
  step m (creates_baseline ctx now principal input) =
      (create_baseline parse_url m ctx now principal input).0
  step m (decides_baseline ctx now principal id version revision change) =
      (transition_baseline parse_url m ctx now principal id version revision change).0

  unfoldable pub calls : Repository → List Call → Repository
  calls m [] = m
  calls m (c ∷ cs) = calls (step m c) cs
