-- ===== src/Native/Phases.antt =====
-- A reported phase moves a Run to the state of the phase, through every state between.
use perfeng_control_plane.Base.{
  ℕ, zero, suc, ◌+◌, ◌-◌, ◌≤◌, ◌<◌, ◌≡◌, refl, true, false, some, arith, ◌∙◌, ap, sym, ltb,
  if◌then◌else◌,
}
use perfeng_control_plane.Errors.{Result, ok, err, conflict}
use perfeng_control_plane.Contract.{
  State, created, validating, provisioning, warming_up, running, collecting, can_transition,
}
use perfeng_control_plane.Run.{Run, max_run_revision, to_state, moved, transition, requires_failure}
use perfeng_control_plane.Run.Valid.{transition-ok}
use perfeng_control_plane.Run.History.{Step, Reach, here, next}
use perfeng_control_plane.Reconcile.Allowed.{Allowed, Allowed-Passes, quiet-Allowed}
use perfeng_control_plane.Memory.Later.{Reach-trans}
use perfeng_control_plane.Native.{
  Phase, valid_phase, phase_target, phase_state_index, native_phase_state, cross, crossed,
  advance_phase,
}

index-state :
    (s : State) (i : ℕ) → phase_state_index s ≡ some i → (s ≡ native_phase_state i) × (i ≤ 5)
unfolding phase_state_index native_phase_state
index-state created i h = let e : 0 ≡ i = ground arith in rw⁻¹ e (refl, omega arith)
index-state validating i h = let e : 1 ≡ i = ground arith in rw⁻¹ e (refl, omega arith)
index-state provisioning i h = let e : 2 ≡ i = ground arith in rw⁻¹ e (refl, omega arith)
index-state warming_up i h = let e : 3 ≡ i = ground arith in rw⁻¹ e (refl, omega arith)
index-state running i h = let e : 4 ≡ i = ground arith in rw⁻¹ e (refl, omega arith)
index-state collecting i h = let e : 5 ≡ i = ground arith in rw⁻¹ e (refl, omega arith)
index-state _ i h = absurd (ground arith)

edge :
    (i : ℕ)
    → i < 5
    → (can_transition (native_phase_state i) (native_phase_state (suc i)) ≡ true)
      × (requires_failure (native_phase_state (suc i)) ≡ false)
unfolding native_phase_state can_transition requires_failure
edge zero h = (refl, refl)
edge (suc zero) h = (refl, refl)
edge (suc (suc zero)) h = (refl, refl)
edge (suc (suc (suc zero))) h = (refl, refl)
edge (suc (suc (suc (suc zero)))) h = (refl, refl)
edge (suc (suc (suc (suc (suc n))))) h = absurd (omega (arith, h))

step :
    (r : Run) (i now : ℕ)
    → r.state ≡ native_phase_state i
    → i < 5
    → r.revision < max_run_revision
    → transition r r.revision (to_state (native_phase_state (suc i))) now
      ≡ ok (moved r (to_state (native_phase_state (suc i))) now)
step r i now at low room =
    let (there, quiet) = edge i low in
    let allowed : Allowed r.state (to_state (native_phase_state (suc i))) =
      rw at (quiet-Allowed (native_phase_state i) (native_phase_state (suc i)) there quiet) in
    transition-ok r r.revision (to_state (native_phase_state (suc i))) now
      (Allowed-Passes r (to_state (native_phase_state (suc i))) room allowed)

-- The Run at the end of the way, reached by one transition for each state.
pub record Arrives (r : Run) (count : ℕ) (state : State) (answer : Result Run) : Type 0 where
  pub final : Run
  pub answered : answer ≡ ok final
  pub arrived : final.state ≡ state
  pub counted : final.revision ≡ r.revision + count
  pub walked : Reach r final

cross-Arrives :
    (count i : ℕ) (r : Run) (now : ℕ)
    → r.state ≡ native_phase_state i
    → i + count ≤ 5
    → r.revision + count ≤ max_run_revision
    → Arrives r count (native_phase_state (i + count)) (cross count (suc i) r now)
unfolding cross moved
cross-Arrives zero i r now at low room = record {
  final = r;
  answered = refl;
  arrived = at ∙ ap native_phase_state (omega arith);
  counted = omega arith;
  walked = here;
}
cross-Arrives (suc count) i r now at low room =
    let change = to_state (native_phase_state (suc i)) in
    let made = step r i now at (omega (arith, low)) (omega (arith, room)) in
    let rest =
      cross-Arrives count (suc i) (moved r change now) now refl (omega (arith, low))
        (omega (arith, room)) in
    record {
      final = rest.final;
      answered = rw made (rest.answered);
      arrived = rest.arrived ∙ ap native_phase_state (omega arith);
      counted = omega (arith, rest.counted);
      walked = Reach-trans (next here (Step.advance change r.revision now made)) rest.walked;
    }

target-valid :
    (phase : Phase) (target : State) → phase_target phase ≡ some target → valid_phase phase ≡ true
unfolding phase_target valid_phase
target-valid (Phase.other name) target h = absurd (ground arith)
target-valid _ target h = refl

not_past : (i t : ℕ) (x : Result Run) → i ≤ t → (if ltb t i then err conflict else x) ≡ x
not_past i t x le = ground arith

advance_phase-crossed :
    (r : Run) (phase : Phase) (target : State) (i t now : ℕ)
    → phase_target phase ≡ some target
    → phase_state_index r.state ≡ some i
    → phase_state_index target ≡ some t
    → advance_phase r r.revision phase now ≡ crossed (some i) (some t) r now
unfolding advance_phase
advance_phase-crossed r phase target i t now named from to =
    rw (target-valid phase target named, named, from, to) (ground arith)

-- A known phase moves a Run whose state is not past that of the phase to it, at its own revision:
-- through every state between, one revision for each. A Run that is past it is refused.
pub advance_phase-Arrives :
    (r : Run) (phase : Phase) (target : State) (i t now : ℕ)
    → phase_target phase ≡ some target
    → phase_state_index r.state ≡ some i
    → phase_state_index target ≡ some t
    → r.revision + (t - i) ≤ max_run_revision
    → (i ≤ t → Arrives r (t - i) target (advance_phase r r.revision phase now))
      × (t < i → advance_phase r r.revision phase now ≡ err conflict)
advance_phase-Arrives r phase target i t now named from to room =
    let e = advance_phase-crossed r phase target i t now named from to in
    let (at, _) = index-state r.state i from in
    let (there, low) = index-state target t to in
    (
      λ le.
          let same : i + (t - i) ≡ t = omega (arith, le) in
          let way = cross-Arrives (t - i) i r now at (omega (arith, le, low)) room in
          record {
            final = way.final;
            answered = e ∙ (not_past i t (cross (t - i) (suc i) r now) le ∙ way.answered);
            arrived = way.arrived ∙ (ap native_phase_state same ∙ sym there);
            counted = way.counted;
            walked = way.walked;
          },
      λ past. e ∙ ground arith,
    )
