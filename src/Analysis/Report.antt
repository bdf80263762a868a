-- ===== src/Analysis/Report.antt =====
-- The types of a report.
use perfeng_control_plane.Base.{Bool, List, Option}
unfoldable use perfeng_control_plane.Base.{ℕ_discrete}
use perfeng_control_plane.Base.Int.{ℤ}
use perfeng_control_plane.Float64.{Float64}
use perfeng_control_plane.Text.{Text}
use perfeng_control_plane.Run.Artifact.{Artifact}
use perfeng_control_plane.RawResult.Producer.{Producer}

pub record Policy : Type 0 where
  pub id : Text
  pub version : Text
  pub sha256 : Text
  pub mode : Text

pub record Metric : Type 0 where
  pub name : Text
  pub statistic : Text
  pub unit : Text

unfoldable pub Metric-discrete : Discrete Metric
unfolding ℕ_discrete
Metric-discrete = hlevel ℕ_discrete

pub record Quality : Type 0 where
  pub status : Text
  pub reasons : List Text
  pub samples : Option ℤ
  pub cv : Option Float64

pub record Slo : Type 0 where
  pub status : Text
  pub reasons : List Text
  pub value : Option Float64

pub record Effect : Type 0 where
  pub kind : Text
  pub value : Float64

pub record Method : Type 0 where
  pub name : Text
  pub version : Text

pub record Regression : Type 0 where
  pub status : Text
  pub reasons : List Text
  pub candidate_value : Option Float64
  pub reference_value : Option Float64
  pub reference_artifact_id : Option Text
  pub effect : Option Effect
  pub method : Option Method

pub record Evaluation : Type 0 where
  pub rule_id : Text
  pub metric : Metric
  pub quality : Quality
  pub slo : Slo
  pub regression : Regression

pub record Manifest : Type 0 where
  pub schema_version : ℤ
  pub kind : Text
  pub contracts_version : Text
  pub run_id : Text
  pub test_id : Text
  pub created_at : Text
  pub producer : Producer
  pub policy : Policy
  pub candidate_artifact : Artifact
  pub reference_artifacts : List Artifact
  pub blocking : Bool
  pub evaluations : List Evaluation
