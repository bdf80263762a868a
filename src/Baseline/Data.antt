-- ===== src/Baseline/Data.antt =====
-- The types of internal/baseline/domain.go.
use perfeng_control_plane.Base.{ℕ, Bool, true, false, List, Option, holds}
unfoldable use perfeng_control_plane.Base.{ℕ_discrete}
use perfeng_control_plane.Base.Int.{ℤ}
use perfeng_control_plane.Float64.{Float64}
use perfeng_control_plane.Text.{Text}
use perfeng_control_plane.Identity.{Identity}
use perfeng_control_plane.Run.Artifact.{Artifact}

pub data State : Type 0 where
  candidate qualified approved retired : State
  other : Text → State

unfoldable pub State-discrete : Discrete State
unfolding ℕ_discrete
State-discrete = hlevel ℕ_discrete

abbrev pub state_eq : State → State → Bool
state_eq a b = holds (State-discrete a b)

pub data QualificationStatus : Type 0 where
  pending passed failed : QualificationStatus
  other : Text → QualificationStatus

abbrev pub is_passed : QualificationStatus → Bool
is_passed passed = true
is_passed _ = false

abbrev pub is_failed : QualificationStatus → Bool
is_failed failed = true
is_failed _ = false

abbrev pub maximum_revision : ℕ
maximum_revision = 9007199254740991

pub record Software : Type 0 where
  pub git_sha : Text
  pub image : Text
  pub version : Text

pub record Environment : Type 0 where
  pub identity : Identity
  pub fingerprint : Text

unfoldable pub Environment-discrete : Discrete Environment
unfolding ℕ_discrete
Environment-discrete = hlevel ℕ_discrete

pub record Dataset : Type 0 where
  pub kind : Text
  pub id : Text
  pub version : Text
  pub sha256 : Text
  pub seed : Option ℤ

pub record Qualification : Type 0 where
  pub status : QualificationStatus
  pub reasons : List Text
  pub sample_count : Option ℤ
  pub maximum_cv : Option Float64

pub record Event : Type 0 where
  pub state : State
  pub at : ℕ
  pub actor : Text
  pub reason : Text

pub record Record : Type 0 where
  pub schema_version : ℕ
  pub kind : Text
  pub id : Text
  pub version : Text
  pub revision : ℕ
  pub state : State
  pub test_id : Text
  pub source_run_id : Text
  pub artifact : Artifact
  pub software : Software
  pub workload : Identity
  pub environment : Environment
  pub dataset : Dataset
  pub qualification : Qualification
  pub created_at : ℕ
  pub lifecycle : List Event

pub record Create : Type 0 where
  pub id : Text
  pub version : Text
  pub test_id : Text
  pub source_run_id : Text
  pub artifact : Artifact
  pub software : Software
  pub workload : Identity
  pub environment : Environment
  pub dataset : Dataset
  pub actor : Text
  pub reason : Text

pub record Change : Type 0 where
  pub state : State
  pub qualification : Option Qualification
  pub actor : Text
  pub reason : Text

pub record Selection : Type 0 where
  pub id : Text
  pub version : Text
  pub test_id : Text
  pub workload : Identity
  pub environment : Environment
  pub dataset : Dataset
