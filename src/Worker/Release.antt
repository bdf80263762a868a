-- ===== src/Worker/Release.antt =====
-- How an attempt ends: what it releases, and with which delay.
use perfeng_control_plane.Base.{
  ◌≡◌, refl, Bool, true, false, List, [], ◌∷◌, Option, some, arith, inl, inr, Bool-cases, ap, not,
  ◌&&◌, if◌then◌else◌,
}
use perfeng_control_plane.Base.Int.{ℤ, pos}
use perfeng_control_plane.Errors.{Error, Result, ok, err}
use perfeng_control_plane.Identity.{valid_retry_delay}
use perfeng_control_plane.Run.Claims.{Lease, Claim}
use perfeng_control_plane.Worker.{Config, Completion, abandoned, released, finish}
use perfeng_control_plane.Worker.Attempt.{
  Taken, done, renewed, parent_done, take, process, is_cancelling, renewal_failed,
}

-- The lease that the attempt holds when it ends: that of its last renewal, where a renewal that shows a
-- cancellation ends it.
unfoldable pub last_lease : Claim → List Taken → Lease
last_lease c [] = c.lease
last_lease c (renewed down (ok next) answer ∷ ts) =
    let rest = last_lease next ts in
    if not (is_cancelling c.run.state) && is_cancelling next.run.state then next.lease else rest
last_lease c (t ∷ ts) = c.lease

finish-delay :
    (config : Config) (c : Claim) (result : Result ℤ) (answer : Option Error) (l : Lease) (d : ℤ)
    (completion : Completion)
    → valid_retry_delay config.failure_delay ≡ true
    → finish config c result answer ≡ (released l d, completion)
    → (valid_retry_delay d ≡ true) × (l ≡ c.lease)
unfolding finish
finish-delay config c (err e) answer l d completion fine h = ground arith
finish-delay config c (ok x) answer l d completion fine h = ground arith

no_delay : valid_retry_delay (pos 0) ≡ true
unfolding valid_retry_delay
no_delay = refl

failed-abandoned : (c : Claim) (down : Bool) (z : Error) → (renewal_failed c down z).0 ≡ abandoned
failed-abandoned c down Error.lease_lost = refl
failed-abandoned c true z = ground arith
failed-abandoned c false z = ground arith

released_now :
    (config : Config) (c next : Claim) (answer : Option Error) (l : Lease) (d : ℤ)
    (completion : Completion) (ts : List Taken)
    → not (is_cancelling c.run.state) && is_cancelling next.run.state ≡ true
    → process config c (renewed false (ok next) answer ∷ ts) ≡ some (released l d, completion)
    → (valid_retry_delay d ≡ true) × (l ≡ next.lease)
unfolding process take
released_now config c next answer l d completion ts seen h =
    let now : d ≡ pos 0 = ground arith in (rw now no_delay, ground arith)

-- An attempt that releases its lease does so with the lease of its last renewal and a delay that the
-- store accepts, whatever the reconciler returned.
pub process-released :
    (config : Config) (c : Claim) (ts : List Taken) (l : Lease) (d : ℤ) (completion : Completion)
    → valid_retry_delay config.failure_delay ≡ true
    → process config c ts ≡ some (released l d, completion)
    → (valid_retry_delay d ≡ true) × (l ≡ last_lease c ts)
unfolding process take last_lease
process-released config c [] l d completion fine h = absurd (ground arith)
process-released config c (done true result answer ∷ ts) l d completion fine h =
    absurd (ground arith)
process-released config c (done false result answer ∷ ts) l d completion fine h =
    finish-delay config c result answer l d completion fine (ground arith)
process-released config c (parent_done ∷ ts) l d completion fine h = absurd (ground arith)
process-released config c (renewed down (err z) answer ∷ ts) l d completion fine h =
    let ended : renewal_failed c down z ≡ (released l d, completion) = ground arith in
    absurd (ground (arith, failed-abandoned c down z, ap (λ x. x.0) ended))
process-released config c (renewed down (ok next) answer ∷ ts) l d completion fine h =
    elim (Bool-cases (not (is_cancelling c.run.state) && is_cancelling next.run.state)) [
      | inl seen ↦ rw seen (released_now config c next answer l d completion ts seen h)
      | inr quiet ↦
          let rest : process config next ts ≡ some (released l d, completion) = ground arith in
          rw quiet (process-released config next ts l d completion fine rest)
    ]
