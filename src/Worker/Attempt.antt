-- ===== src/Worker/Attempt.antt =====
-- One attempt: the loop of `process`.
use perfeng_control_plane.Base.{
  Bool, true, false, List, [], ◌∷◌, Option, none, some, ◌&&◌, not, if◌then◌else◌,
}
use perfeng_control_plane.Base.Int.{ℤ, pos}
use perfeng_control_plane.Errors.{Error, Result, ok, err, lease_lost}
use perfeng_control_plane.Contract.{State, cancelling}
use perfeng_control_plane.Run.Claims.{Claim}
use perfeng_control_plane.Worker.{
  Config, Completion, Ending, abandoned, released, silent, reports, renewing, release, finish,
}

-- What the select of the loop takes, with the answers of the store that follow it. `down` is
-- `parent.Err() != nil` at that moment.
pub data Taken : Type 0 where
  done : Bool → Result ℤ → Option Error → Taken
  renewed : Bool → Result Claim → Option Error → Taken
  parent_done : Taken

abbrev pub is_cancelling : State → Bool
is_cancelling cancelling = true
is_cancelling _ = false

-- A renewal that failed.
abbrev pub renewal_failed : Claim → Bool → Error → Ending × Completion
renewal_failed c down lease_lost = (abandoned, silent c)
renewal_failed c true e = (abandoned, silent c)
renewal_failed c false e = (abandoned, reports c renewing e)

-- The attempt ends with what it asks and reports, or goes on with a claim.
pub data Next : Type 0 where
  stops : Ending × Completion → Next
  goes_on : Claim → Next

abbrev after_renewal : Claim → Claim → Option Error → Next
after_renewal c next answer =
    if not (is_cancelling c.run.state) && is_cancelling next.run.state
    then stops (released next.lease (pos 0), release next (pos 0) answer)
    else goes_on next

unfoldable pub take : Config → Claim → Taken → Next
take config c (done true result answer) = stops (abandoned, silent c)
take config c (done false result answer) = stops (finish config c result answer)
take config c (renewed down (err e) answer) = stops (renewal_failed c down e)
take config c (renewed down (ok next) answer) = after_renewal c next answer
take config c parent_done = stops (abandoned, silent c)

-- `none` is an attempt that is still going.
unfoldable pub process : Config → Claim → List Taken → Option (Ending × Completion)
process config c [] = none
process config c (t ∷ ts) = elim (take config c t) [
  | stops e ↦ some e
  | goes_on next ↦ process config next ts
]
