-- ===== src/Memory/Store.antt =====
-- internal/memory/repository.go: the state of the repository, and who sees what of it.
use perfeng_control_plane.Base.{ℕ, List, [], Option, none, some, ◌||◌, not, if◌then◌else◌}
unfoldable use perfeng_control_plane.Base.{ℕ_discrete}
use perfeng_control_plane.Base.Maps.{lookup}
use perfeng_control_plane.Text.{Text, Text-discrete, text_eq}
use perfeng_control_plane.Errors.{Result, ok, err, not_found}
use perfeng_control_plane.Run.{Run, ExecutionTarget}
use perfeng_control_plane.Run.Artifact.{Artifact}
use perfeng_control_plane.Baseline.Data.{Record}

pub record Accepted : Type 0 where
  pub run : Run
  pub expires_at : ℕ

pub record OwnedRun : Type 0 where
  pub principal : Text
  pub run : Run
  pub target : ExecutionTarget

pub record BindingKey : Type 0 where
  pub principal : Text
  pub key : Text

unfoldable pub BindingKey-discrete : Discrete BindingKey
unfolding ℕ_discrete
BindingKey-discrete = hlevel ℕ_discrete

pub record Binding : Type 0 where
  pub accepted : Accepted
  pub target : ExecutionTarget

pub record BaselineKey : Type 0 where
  pub principal : Text
  pub id : Text
  pub version : Text

unfoldable pub BaselineKey-discrete : Discrete BaselineKey
unfolding ℕ_discrete
BaselineKey-discrete = hlevel ℕ_discrete

pub record Repository : Type 0 where
  pub runs : List (Text × OwnedRun)
  pub bindings : List (BindingKey × Binding)
  pub artifacts : List (Text × Artifact)
  pub baselines : List (BaselineKey × Record)

unfoldable pub new : Repository
new = record { runs = []; bindings = []; artifacts = []; baselines = [] }

abbrev pub find_run : Repository → Text → Option OwnedRun
find_run m id = lookup Text-discrete id m.runs

abbrev pub owned_by : Text → Option OwnedRun → Result OwnedRun
owned_by principal none = err not_found
owned_by principal (some o) =
    if text_eq principal [] || not (text_eq o.principal principal) then err not_found else ok o

-- `visible`, with the record that holds the Run; a caller takes `.run` of it.
unfoldable pub visible : Repository → Text → Text → Result OwnedRun
visible m principal id = owned_by principal (find_run m id)
