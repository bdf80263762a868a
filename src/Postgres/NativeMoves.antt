-- ===== src/Postgres/NativeMoves.antt =====
-- What a renewal and a release of a native lease do to the stored Run
-- (internal/postgres/native_renewals.go, native_releases.go).
use perfeng_control_plane.Base.{
  ℕ, zero, suc, ◌+◌, ◌≤◌, ◌≡◌, refl, Bool, true, false, Option, none, some, arith, ◌∙◌, ap, sym,
  not, ◌==◌, inl, inr, Bool-cases, if◌then◌else◌,
}
use mathlib.Core.Path.{subst}
use perfeng_control_plane.Text.{Text}
use perfeng_control_plane.Errors.{Error, Result, ok, err, conflict, validation, stale_revision}
use perfeng_control_plane.Contract.{State, aborted}
use perfeng_control_plane.Run.{Run, to_state, moved, transition}
use perfeng_control_plane.Run.Valid.{transition-Passes}
use perfeng_control_plane.Run.History.{Step, Reach, here, next}
use perfeng_control_plane.Memory.Later.{Reach-trans}
use perfeng_control_plane.Native.{
  Phase, valid_phase, phase_target, phase_state_index, native_phase_state, cross, crossed, toward,
  advance_phase,
}
use perfeng_control_plane.Postgres.Tables.{RunRow, Database, find_row}
use perfeng_control_plane.Postgres.Owner.{bind-ok}
use perfeng_control_plane.Postgres.Progress.{
  Follows, same_runs, set_snapshot-row, set_snapshot-Reach,
}
use perfeng_control_plane.Postgres.NativeRenewal.{is_cancelling, next_run, native_run, with_run}
use perfeng_control_plane.Postgres.NativeRelease.{
  ReleaseReason, asks_cancellation, released_native_run,
}

-- A later Run of the lifecycle, which is the same one if its revision is.
pub record Walk (r s : Run) : Type 0 where
  pub walked : Reach r s
  pub grows : r.revision ≤ s.revision
  pub same : s.revision ≡ r.revision → s ≡ r

stands : (r : Run) → Walk r r
stands r = record { walked = here; grows = omega arith; same = λ e. refl }

first_ok : {r s : Run} → ok r ≡ ok s → r ≡ s
first_ok h = ground (arith, h)

one_step :
    (r s t : Run) (change : _) (now : ℕ)
    → transition r r.revision change now ≡ ok s
    → Walk s t
    → Walk r t
unfolding moved
one_step r s t change now made rest =
    let (_, e) = transition-Passes r r.revision change now {s = s} made in
    let more : s.revision ≡ r.revision + 1 = ap (λ x. x.revision) e in
    record {
      walked = Reach-trans (next here (Step.advance change r.revision now made)) rest.walked;
      grows = omega (arith, more, rest.grows);
      same = λ k. absurd (omega (arith, more, rest.grows, k));
    }

cross-Walk : (count i : ℕ) (r : Run) (now : ℕ) (s : Run) → cross count i r now ≡ ok s → Walk r s
unfolding cross
cross-Walk zero i r now s h = subst (Walk r) (first_ok h) (stands r)
cross-Walk (suc count) i r now s h =
    let (t, made, rest) =
      bind-ok (transition r r.revision (to_state (native_phase_state i)) now)
        (λ t. cross count (suc i) t now) s h in
    one_step r t s (to_state (native_phase_state i)) now made
      (cross-Walk count (suc i) t now s rest)

accepted {ℓ} :
    {A : Type ℓ} (bad : Bool) (e : Error) (x : Result A) (y : A)
    → (if bad then err e else x) ≡ ok y
    → x ≡ ok y
accepted true e x y h = absurd (ground (arith, h))
accepted false e x y h = h

crossed-Walk : (i t : Option ℕ) (r : Run) (now : ℕ) (s : Run) → crossed i t r now ≡ ok s → Walk r s
crossed-Walk none t r now s h = absurd (ground (arith, h))
crossed-Walk (some i) none r now s h = absurd (ground (arith, h))
crossed-Walk (some i) (some t) r now s h = cross-Walk _ (suc i) r now s (accepted _ conflict _ s h)

toward-Walk :
    (target : Option State) (r : Run) (now : ℕ) (s : Run) → toward target r now ≡ ok s → Walk r s
toward-Walk none r now s h = absurd (ground (arith, h))
toward-Walk (some t) r now s h =
    crossed-Walk (phase_state_index r.state) (phase_state_index t) r now s h

advance_phase-Walk :
    (r : Run) (expected : ℕ) (phase : Phase) (now : ℕ) (s : Run)
    → advance_phase r expected phase now ≡ ok s
    → Walk r s
unfolding advance_phase
advance_phase-Walk r expected phase now s h =
    let later = toward (phase_target phase) r now in
    toward-Walk (phase_target phase) r now s (
      accepted (not (valid_phase phase)) validation later s
        (accepted (not (r.revision == expected)) stale_revision _ s h))

pub next_run-Walk :
    (r : Run) (phase : Phase) (now : ℕ) (s : Run) → next_run r phase now ≡ ok s → Walk r s
unfolding next_run
next_run-Walk r phase now s h = elim (Bool-cases (is_cancelling r.state)) [
  | inl stopping ↦ let e : r ≡ s = ground (arith, h, stopping) in subst (Walk r) e (stands r)
  | inr active ↦ advance_phase-Walk r r.revision phase now s (ground (arith, h, active))
]

pub released_native_run-Walk :
    (r : Run) (reason : ReleaseReason) (now : ℕ) (s : Run)
    → released_native_run r reason now ≡ ok s
    → Walk r s
unfolding released_native_run
released_native_run-Walk r reason now s h = elim (Bool-cases (asks_cancellation reason)) [
  | inl asks ↦ one_step r s s (to_state aborted) now (ground (arith, h, asks)) (stands s)
  | inr other ↦ let e : r ≡ s = ground (arith, h, other) in subst (Walk r) e (stands r)
]

-- The row behind a native Run.
pub native_run-row :
    (id : Text) (o : Option RunRow) (r : Run)
    → native_run id o ≡ ok r
    → (row : RunRow) × (o ≡ some row) × (row.snapshot ≡ r)
native_run-row id none r h = absurd (ground (arith, h))
native_run-row id (some row) r h = (row, refl, first_ok (accepted _ _ _ r h))

-- The Run is stored as it has moved, also when the write is left out because it has not.
pub with_run-row :
    (db : Database) (id : Text) (row : RunRow) (s : Run)
    → find_row db id ≡ some row
    → Walk row.snapshot s
    → find_row (with_run db id row.snapshot s) id ≡ some (record row { snapshot = s })
with_run-row db id row s found walk = elim (Bool-cases (s.revision == row.snapshot.revision)) [
  | inl e ↦
      rw (e, with_run)
        (found ∙ ap (λ r. some (record row { snapshot = r })) (sym (walk.same (ground (arith, e)))))
  | inr e ↦ rw (e, with_run) (set_snapshot-row db id row s found)
]

pub with_run-Follows :
    (db : Database) (id : Text) (row : RunRow) (s : Run)
    → find_row db id ≡ some row
    → Walk row.snapshot s
    → Follows db (with_run db id row.snapshot s)
with_run-Follows db id row s found walk = elim (Bool-cases (s.revision == row.snapshot.revision)) [
  | inl e ↦ rw (e, with_run) (same_runs db db refl)
  | inr e ↦ rw (e, with_run) (set_snapshot-Reach db id row s found walk.walked)
]
