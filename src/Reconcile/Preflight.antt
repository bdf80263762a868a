-- ===== src/Reconcile/Preflight.antt =====
-- The preflight on the PostgreSQL store: what becomes of a VALIDATING Run for every answer.
use perfeng_control_plane.Base.{ℕ, ◌<◌, ◌≡◌, refl, true, Option, none, some, arith}
use perfeng_control_plane.Base.Int.{ℤ, pos}
use perfeng_control_plane.Text.{Text, text}
unfoldable use perfeng_control_plane.Text.Utf8.{valid_string, rune_count}
use perfeng_control_plane.Errors.{Error, Result, ok, err}
use perfeng_control_plane.Contract.{validating, provisioning, can_transition}
use perfeng_control_plane.Run.{
  Change, max_run_revision, bad_exit, bad_failure, requires_failure, accepts_failure, moved,
  transition, to_state,
}
use perfeng_control_plane.Run.Valid.{transition-ok}
use perfeng_control_plane.Run.Claims.{Claim, valid_lease}
use perfeng_control_plane.Postgres.Tables.{Database, done, transact}
use perfeng_control_plane.Postgres.Claims.{lock_owned_claim, advanced, advance_claim}
use perfeng_control_plane.Reconcile.Stage.{ClaimAdvancer, advance_owned_claim, valid_owned_claim}
use perfeng_control_plane.Reconcile.Validation.{
  Preflight, is_validating, rejection, reject, resolution_error, validated, resolved, reconcile,
}
use perfeng_control_plane.Reconcile.Allowed.{Allowed, Allowed-Passes}

-- The PostgreSQL store, whose transactions at `now` begin and commit.
abbrev pub at_time : ℕ → ClaimAdvancer Database
at_time now = record {
  advance_claim = λ db l revision change.
      advance_claim (record { begin = none; commit = done }) db l revision change now;
}

pub data Verdict : Type 0 where
  approve : Verdict
  refuse : Text → Verdict
  keep : Error → Verdict

abbrev refused_plan : Text
refused_plan = text "approved execution plan is invalid"

abbrev unauthorized : Text
unauthorized = text "execution resources are not authorized"

abbrev verdict_error : Error → Verdict
verdict_error Error.validation = refuse refused_plan
verdict_error Error.forbidden = refuse unauthorized
verdict_error e = keep e

abbrev verdict_job : Option Error → Verdict
verdict_job none = approve
verdict_job (some e) = verdict_error e

-- What the resolver and the validator say together.
abbrev pub verdict : {Job : Type 0} → (Job → Option Error) → Result (Option Job) → Verdict
verdict validate (err e) = verdict_error e
verdict validate (ok none) = refuse refused_plan
verdict validate (ok (some job)) = verdict_job (validate job)

abbrev moved_to : Database → Claim → ℕ → Change → Database × Result ℤ
moved_to db c now change = (advanced db c.lease.run_id (moved c.run change now) now, ok (pos 0))

abbrev pub after : Database → Claim → ℕ → Verdict → Database × Result ℤ
after db c now approve = moved_to db c now (to_state provisioning)
after db c now (refuse message) = moved_to db c now (rejection message)
after db c now (keep e) = (db, err e)

-- The lease of the claim is owned and its Run is still the stored one.
pub record Fresh (db : Database) (c : Claim) (now : ℕ) : Type 0 where
  pub owned : lock_owned_claim db c.lease now ≡ ok c.run
  pub well_formed : valid_owned_claim c ≡ true
  pub room : c.run.revision < max_run_revision
  pub waiting : c.run.state ≡ validating

moves :
    (db : Database) (c : Claim) (now : ℕ) (change : Change)
    → Fresh db c now
    → Allowed validating change
    → advance_owned_claim (at_time now) db c change ≡ moved_to db c now change
unfolding advance_owned_claim advance_claim transact valid_owned_claim
moves db c now change f h =
    let made : transition c.run c.run.revision change now ≡ ok (moved c.run change now) =
      transition-ok c.run c.run.revision change now
        (Allowed-Passes c.run change f.room (rw (f.waiting) h)) in
    let leased : valid_lease c.lease ≡ true = ground (arith, f.well_formed) in
    rw (leased, f.owned, made) refl

provisioning-Allowed : Allowed validating (to_state provisioning)
unfolding can_transition bad_exit bad_failure requires_failure
provisioning-Allowed = (refl, refl, refl, λ h. absurd (ground arith))

refused_plan-Allowed : Allowed validating (rejection refused_plan)
unfolding can_transition bad_exit bad_failure accepts_failure requires_failure valid_string
    rune_count
refused_plan-Allowed = (refl, refl, refl, λ h. refl)

unauthorized-Allowed : Allowed validating (rejection unauthorized)
unfolding can_transition bad_exit bad_failure accepts_failure requires_failure valid_string
    rune_count
unauthorized-Allowed = (refl, refl, refl, λ h. refl)

error-table :
    (db : Database) (c : Claim) (now : ℕ) (e : Error)
    → Fresh db c now
    → resolution_error (at_time now) db c e ≡ after db c now (verdict_error e)
unfolding resolution_error reject
error-table db c now Error.validation f =
    moves db c now (rejection refused_plan) f refused_plan-Allowed
error-table db c now Error.forbidden f =
    moves db c now (rejection unauthorized) f unauthorized-Allowed
error-table db c now _ f = refl

job-table :
    {Job : Type 0} (pre : Preflight Database Job) (db : Database) (c : Claim) (now : ℕ)
    (found : Option Error)
    → Fresh db c now
    → validated (at_time now) db c found ≡ after db c now (verdict_job found)
job-table pre db c now none f = moves db c now (to_state provisioning) f provisioning-Allowed
job-table pre db c now (some e) f = error-table db c now e f

resolved-table :
    {Job : Type 0} (pre : Preflight Database Job) (db : Database) (c : Claim) (now : ℕ)
    (answer : Result (Option Job))
    → Fresh db c now
    → resolved (at_time now) pre db c answer
      ≡ after db c now (verdict (pre.validate_job c.run.id) answer)
unfolding reject
resolved-table pre db c now (err e) f = error-table db c now e f
resolved-table pre db c now (ok none) f =
    moves db c now (rejection refused_plan) f refused_plan-Allowed
resolved-table pre db c now (ok (some job)) f =
    job-table pre db c now (pre.validate_job c.run.id job) f

-- The preflight of an owned VALIDATING Run, on the PostgreSQL store: an approved plan moves it to
-- PROVISIONING, one that the resolver or the validator finds invalid or not authorized moves it to
-- INVALID with that failure, and any other error of them is answered and changes nothing.
pub reconcile_table :
    {Job : Type 0} (pre : Preflight Database Job) (db : Database) (c : Claim) (now : ℕ)
    (answer : Result (Option Job))
    → Fresh db c now
    → pre.resolve_job db c.lease.principal c.run ≡ (db, answer)
    → reconcile (at_time now) pre db c ≡ after db c now (verdict (pre.validate_job c.run.id) answer)
unfolding reconcile
reconcile_table pre db c now answer f h =
    let ready : is_validating c.run.state ≡ true = rw (f.waiting) refl in
    rw (f.well_formed, ready, h) (resolved-table pre db c now answer f)
