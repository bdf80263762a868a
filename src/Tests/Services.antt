-- ===== src/Tests/Services.antt =====
-- The same calls on both stores (internal/postgres/repository.go, internal/memory/repository.go).
use perfeng_control_plane.Base.{◌+◌, ◌≡◌, refl, List, [], ◌∷◌}
unfoldable use perfeng_control_plane.Base.Maps.{lookup}
use perfeng_control_plane.Text.{Text, text}
use perfeng_control_plane.Contract.{validating}
use perfeng_control_plane.Run.{kubernetes, to_state}
use perfeng_control_plane.Memory.Store.{new}
use perfeng_control_plane.Memory.Runs.{run_id}
use perfeng_control_plane.Refinement.Related.{no_rows}
use perfeng_control_plane.Refinement.Service.{
  Call, accepts, gets, cancels, advances, AllFresh, on_tables, answers_of_tables,
  answers_in_process,
}
use perfeng_control_plane.Refinement.Simulation.{tables-refine_process}
use perfeng_control_plane.Tests.Samples.{noon, request}

abbrev alice : Text
alice = text "alice"

abbrev key : Text
key = text "0123456789abcdef"

abbrev id : Text
id = run_id noon 10 11 12 13

abbrev four_calls : List Call
four_calls =
    accepts noon (10, 11, 12, 13) alice key request kubernetes
    ∷ gets alice id
    ∷ advances (noon + 5) alice id 1 (to_state validating)
    ∷ cancels (noon + 7) alice id
    ∷ []

four_calls-AllFresh : AllFresh no_rows four_calls
unfolding AllFresh on_tables lookup
four_calls-AllFresh = (refl, (tt, (tt, (tt, tt))))

tables-refine_process_example :
    answers_of_tables no_rows four_calls ≡ answers_in_process new four_calls
tables-refine_process_example = tables-refine_process four_calls four_calls-AllFresh
