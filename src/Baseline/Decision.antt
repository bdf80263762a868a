-- ===== src/Baseline/Decision.antt =====
-- The lifecycle decisions on a valid baseline record.
use perfeng_control_plane.Base.{
  ℕ, ◌≤◌, ◌<◌, ◌≡◌, refl, Bool, true, false, not, ◌&&◌, Option, none, some, arith, ltb, length,
  if◌then◌else◌, Bool-cases, inl, inr, ◌∙◌,
}
use perfeng_control_plane.Text.{Text}
use perfeng_control_plane.Errors.{Result, ok, err, validation, invalid_baseline_transition}
use perfeng_control_plane.Run.Artifact.{Url}
use perfeng_control_plane.Baseline.Data.{
  State, Event, Record, Change, Qualification, maximum_revision,
}
use perfeng_control_plane.Baseline.Evidence.{valid_audit_text, valid_qualification}
use perfeng_control_plane.Baseline.Lifecycle.{
  allowed_transition, valid_event, valid_lifecycle, valid_standing, valid_provenance, valid_record,
  last_at, next_qualification, decided, rechecked, transition,
}
use perfeng_control_plane.Identity.{valid_timestamp}
use perfeng_control_plane.Baseline.Trail.{
  length-append_one, valid_lifecycle-length, valid_lifecycle-append,
}

-- What the audit text and the clock must satisfy.
abbrev pub audited : Record → Change → ℕ → Bool
audited r change now =
    valid_audit_text change.actor 128
    && valid_audit_text change.reason 1024
    && valid_timestamp now
    && not (ltb now (last_at r.lifecycle))

abbrev decision : Change → ℕ → Event
decision change now = record {
  state = change.state;
  at = now;
  actor = change.actor;
  reason = change.reason;
}

audited-valid_event :
    (r : Record) (change : Change) (now : ℕ)
    → audited r change now ≡ true
    → (valid_event (decision change now) ≡ true) × (ltb now (last_at r.lifecycle) ≡ false)
unfolding valid_event
audited-valid_event r change now h = ground arith

abbrev settled : Record → Change → ℕ → Option Qualification → Result Record
settled r change now none = err validation
settled r change now (some q) = ok (decided r change q now)

-- What a decision on a valid record at its own revision comes to.
abbrev pub outcome : Record → Change → ℕ → Result Record
outcome r change now =
    if not (allowed_transition r.state change.state)
    then err invalid_baseline_transition
    else if not (audited r change now)
    then err validation
    else settled r change now
        (next_qualification change.state r.state r.qualification change.qualification)

module _ (parse_url : Text → Option Url) where
  -- The parts of a passed `Validate`.
  pub record IsValid (r : Record) : Type 0 where
    pub provenance : valid_provenance parse_url r ≡ true
    pub numbered : (1 ≤ r.revision) × (r.revision ≤ maximum_revision)
    pub qualification : valid_qualification r.qualification ≡ true
    pub counted : r.revision ≡ length r.lifecycle
    pub standing : valid_standing r.state r.qualification.status ≡ true
    pub trail : valid_lifecycle r.state r.created_at r.lifecycle ≡ true

  pub valid_record-IsValid : (r : Record) → valid_record parse_url r ≡ true → IsValid r
  unfolding valid_record
  valid_record-IsValid r h = ground arith

  pub IsValid-valid_record : (r : Record) → IsValid r → valid_record parse_url r ≡ true
  unfolding valid_record
  IsValid-valid_record r v = ground arith

  -- A valid record has at most four revisions.
  pub valid_record-revision_bound : (r : Record) → valid_record parse_url r ≡ true → r.revision ≤ 4
  valid_record-revision_bound r h =
      let v = valid_record-IsValid r h in
      omega (arith, v.counted, valid_lifecycle-length r.state r.created_at r.lifecycle v.trail)

  next_qualification-fits :
      (from to : State) (old q : Qualification) (change : Option Qualification)
      → allowed_transition from to ≡ true
      → valid_qualification old ≡ true
      → valid_standing from old.status ≡ true
      → next_qualification to from old change ≡ some q
      → (valid_qualification q ≡ true) × (valid_standing to q.status ≡ true)
  unfolding next_qualification valid_standing allowed_transition
  next_qualification-fits from to old q change a v s e = ground arith

  decided-IsValid :
      (r : Record) (change : Change) (q : Qualification) (now : ℕ)
      → IsValid r
      → r.revision < maximum_revision
      → allowed_transition r.state change.state ≡ true
      → audited r change now ≡ true
      → next_qualification change.state r.state r.qualification change.qualification ≡ some q
      → IsValid (decided r change q now)
  unfolding decided valid_provenance
  decided-IsValid r change q now v room edge audit e =
      let (fit, standing) =
        next_qualification-fits r.state change.state r.qualification q change.qualification edge
          v.qualification v.standing e in
      let (event, order) = audited-valid_event r change now audit in
      let f : Event = decision change now in
      record {
        provenance = v.provenance;
        numbered = (omega arith, omega arith);
        qualification = fit;
        counted = omega (arith, v.counted, length-append_one r.lifecycle f);
        standing = standing;
        trail = valid_lifecycle-append r.state r.created_at f r.lifecycle v.trail event edge order;
      }

  rechecked-settled :
      (r : Record) (change : Change) (now : ℕ) (o : Option Qualification)
      → IsValid r
      → r.revision < maximum_revision
      → allowed_transition r.state change.state ≡ true
      → audited r change now ≡ true
      → next_qualification change.state r.state r.qualification change.qualification ≡ o
      → rechecked parse_url r change now o ≡ settled r change now o
  rechecked-settled r change now none v room edge audit e = refl
  rechecked-settled r change now (some q) v room edge audit e =
      rw (IsValid-valid_record _ (decided-IsValid r change q now v room edge audit e))

  transition-guards :
      (r : Record) (change : Change) (now : ℕ)
      → valid_record parse_url r ≡ true
      → r.revision < maximum_revision
      → transition parse_url r r.revision change now ≡ (
          if not (allowed_transition r.state change.state)
          then err invalid_baseline_transition
          else if not (audited r change now)
          then err validation
          else rechecked parse_url r change now
              (next_qualification change.state r.state r.qualification change.qualification))
  unfolding transition
  transition-guards r change now h room = ground arith

  -- On a valid record the revision limit never refuses and the final check never fails: a decision at
  -- the current revision is refused for its edge, its audit text and time, or its qualification,
  -- and is otherwise written, with one more event at the end of the trail.
  pub transition-outcome :
      (r : Record) (change : Change) (now : ℕ)
      → valid_record parse_url r ≡ true
      → transition parse_url r r.revision change now ≡ outcome r change now
  transition-outcome r change now h =
      let v = valid_record-IsValid r h in
      let room : r.revision < maximum_revision = omega (arith, valid_record-revision_bound r h) in
      let guards = transition-guards r change now h room in
      elim (Bool-cases (allowed_transition r.state change.state)) [
        | inr refused ↦ guards ∙ rw refused
        | inl edge ↦ elim (Bool-cases (audited r change now)) [
          | inr refused ↦ guards ∙ rw (edge, refused)
          | inl audit ↦
              guards ∙ rw (edge, audit) (rechecked-settled r change now _ v room edge audit refl)
        ]
      ]
