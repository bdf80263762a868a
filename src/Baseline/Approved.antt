-- ===== src/Baseline/Approved.antt =====
-- What the selection of an approved baseline guarantees, and that a retired one stays retired.
use perfeng_control_plane.Base.{
  ℕ, suc, ◌≤◌, ◌≡◌, refl, true, false, ◌&&◌, List, [], ◌∷◌, Option, some, arith, ap, length, ◌∙◌,
}
use perfeng_control_plane.Base.Int.{pos}
use perfeng_control_plane.Float64.{Float64}
use perfeng_control_plane.Text.{Text}
use perfeng_control_plane.Errors.{err, invalid_baseline_transition}
use perfeng_control_plane.Run.Artifact.{Url}
use perfeng_control_plane.Baseline.Data.{
  candidate, qualified, approved, retired, QualificationStatus, passed, is_passed, Event, Record,
  Change, Selection, Qualification,
}
use perfeng_control_plane.Baseline.Evidence.{
  valid_qualification, valid_evidence, valid_reasons, bad_cv,
}
use perfeng_control_plane.Baseline.Lifecycle.{
  allowed_transition, valid_standing, valid_record, matches_selection, transition,
}
use perfeng_control_plane.Baseline.Trail.{states, approved-states}
use perfeng_control_plane.Baseline.Decision.{valid_record-IsValid, transition-outcome}

-- Evidence that passed: a positive sample count and a finite, non-negative coefficient of variation.
pub record Passed (q : Qualification) : Type 0 where
  pub status : q.status ≡ passed
  pub samples : (n : ℕ) × (q.sample_count ≡ some (pos n)) × (1 ≤ n)
  pub variation : (cv : Float64) × (q.maximum_cv ≡ some cv) × (bad_cv cv ≡ false)

samples_of :
    (q : Qualification)
    → valid_evidence passed q ≡ true
    → ((n : ℕ) × (q.sample_count ≡ some (pos n)) × (1 ≤ n))
      × ((cv : Float64) × (q.maximum_cv ≡ some cv) × (bad_cv cv ≡ false))
unfolding valid_evidence
samples_of q h = ground arith

standing-Passed :
    (q : Qualification)
    → valid_qualification q ≡ true
    → valid_standing approved q.status ≡ true
    → Passed q
unfolding valid_qualification valid_standing
standing-Passed q v s = go q.status refl v s
  where
    go :
        (status : QualificationStatus)
        → q.status ≡ status
        → (valid_evidence status q && valid_reasons [] q.reasons) ≡ true
        → is_passed status ≡ true
        → Passed q
    go passed e h p =
        let (samples, variation) = samples_of q (ground arith) in
        record { status = e; samples = samples; variation = variation }
    go _ e h p = absurd (cc)

length-states : (es : List Event) → length (states es) ≡ length es
length-states [] = refl
length-states (e ∷ es) = ap suc (length-states es)

module _ (parse_url : Text → Option Url) where
  selected :
      (r : Record) (s : Selection)
      → matches_selection parse_url r s ≡ true
      → (valid_record parse_url r ≡ true)
        × (r.state ≡ approved)
        × (r.id ≡ s.id)
        × (r.version ≡ s.version)
        × (r.test_id ≡ s.test_id)
        × (r.workload ≡ s.workload)
        × (r.environment ≡ s.environment)
  unfolding matches_selection
  selected r s h = ground arith

  -- A record that matches a selection has the selected identity, test, workload and environment; its
  -- evidence passed; and it went through CANDIDATE, QUALIFIED and APPROVED, one decision each.
  pub matches_selection-evidence :
      (r : Record) (s : Selection)
      → matches_selection parse_url r s ≡ true
      → Passed r.qualification
        × (states r.lifecycle ≡ candidate ∷ qualified ∷ approved ∷ [])
        × (r.revision ≡ 3)
        × (r.id ≡ s.id)
        × (r.version ≡ s.version)
        × (r.test_id ≡ s.test_id)
        × (r.workload ≡ s.workload)
        × (r.environment ≡ s.environment)
  matches_selection-evidence r s h =
      let (valid, state, id, version, test, workload, environment) = selected r s h in
      let v = valid_record-IsValid parse_url r valid in
      let trail = approved-states r.created_at r.lifecycle (rw state at v.trail) in
      (
        standing-Passed r.qualification v.qualification (rw state at v.standing),
        trail,
        omega (arith, v.counted, length-states r.lifecycle, ap length trail),
        id,
        version,
        test,
        workload,
        environment,
      )

  -- No decision changes a valid retired record: each is refused for its edge.
  pub retired-transition :
      (r : Record) (change : Change) (now : ℕ)
      → valid_record parse_url r ≡ true
      → r.state ≡ retired
      → transition parse_url r r.revision change now ≡ err invalid_baseline_transition
  unfolding allowed_transition
  retired-transition r change now h e = transition-outcome parse_url r change now h ∙ rw e
