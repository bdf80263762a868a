-- ===== src/Baseline/Trail.antt =====
-- The audit trail of a baseline record: what appending an event does to it, how long it can get, and
-- the one way to APPROVED.
use perfeng_control_plane.Base.{
  ℕ, ◌+◌, ◌≤◌, ◌≡◌, refl, true, false, List, [], ◌∷◌, ◌++◌, Option, none, some, arith, ltb, length,
  ap,
}
use perfeng_control_plane.Baseline.Data.{State, candidate, qualified, approved, Event}
use perfeng_control_plane.Baseline.Lifecycle.{
  allowed_transition, valid_event, valid_trail, last_event, valid_lifecycle, last_at,
}

pub last_event-append : (b f : Event) (es : List Event) → last_event b (es ++ f ∷ []) ≡ f
unfolding last_event
last_event-append b f [] = refl
last_event-append b f (e ∷ es) = last_event-append e f es

pub length-append_one {ℓ} :
    {A : Type ℓ} (xs : List A) (x : A) → length (xs ++ x ∷ []) ≡ length xs + 1
length-append_one [] x = refl
length-append_one (y ∷ xs) x = omega (arith, length-append_one xs x)

pub valid_trail-append :
    (b f : Event) (es : List Event)
    → valid_trail b es ≡ true
    → valid_event f ≡ true
    → allowed_transition (last_event b es).state f.state ≡ true
    → ltb f.at (last_event b es).at ≡ false
    → valid_trail b (es ++ f ∷ []) ≡ true
unfolding valid_trail last_event
valid_trail-append b f [] h v a o = ground arith
valid_trail-append b f (e ∷ es) h v a o = ground (arith, valid_trail-append e f es)

-- The decisions that can still follow a state.
abbrev pub decisions_left : State → ℕ
decisions_left candidate = 3
decisions_left qualified = 2
decisions_left approved = 1
decisions_left _ = 0

pub valid_trail-length :
    (b : Event) (es : List Event) → valid_trail b es ≡ true → length es ≤ decisions_left b.state
unfolding valid_trail allowed_transition
valid_trail-length b [] h = omega arith
valid_trail-length b (e ∷ es) h = ground (arith, valid_trail-length e es)

abbrev pub states : List Event → List State
states [] = []
states (e ∷ es) = e.state ∷ states es

abbrev pub way_to_approved : State → Option (List State)
way_to_approved candidate = some (qualified ∷ approved ∷ [])
way_to_approved qualified = some (approved ∷ [])
way_to_approved approved = some []
way_to_approved _ = none

way-step :
    (s t : State) (rest : List State)
    → allowed_transition s t ≡ true
    → some rest ≡ way_to_approved t
    → some (t ∷ rest) ≡ way_to_approved s
unfolding allowed_transition
way-step s t rest a h = ground arith

valid_trail-cons :
    (b e : Event) (es : List Event)
    → valid_trail b (e ∷ es) ≡ true
    → (allowed_transition b.state e.state ≡ true) × (valid_trail e es ≡ true)
unfolding valid_trail
valid_trail-cons b e es h = ground arith

pub states-way_to_approved :
    (b : Event) (es : List Event)
    → valid_trail b es ≡ true
    → (last_event b es).state ≡ approved
    → some (states es) ≡ way_to_approved b.state
unfolding last_event
states-way_to_approved b [] h l = rw l
states-way_to_approved b (e ∷ es) h l =
    let (a, r) = valid_trail-cons b e es h in
    way-step b.state e.state (states es) a (states-way_to_approved e es r l)

-- The parts of a valid lifecycle.
pub valid_lifecycle-cons :
    (state : State) (created : ℕ) (e : Event) (es : List Event)
    → valid_lifecycle state created (e ∷ es) ≡ true
    → (e.state ≡ candidate)
      × (e.at ≡ created)
      × ((last_event e es).state ≡ state)
      × (valid_event e ≡ true)
      × (valid_trail e es ≡ true)
unfolding valid_lifecycle
valid_lifecycle-cons state created e es h = ground arith

pub cons-valid_lifecycle :
    (state : State) (created : ℕ) (e : Event) (es : List Event)
    → (e.state ≡ candidate)
      × (e.at ≡ created)
      × ((last_event e es).state ≡ state)
      × (valid_event e ≡ true)
      × (valid_trail e es ≡ true)
    → valid_lifecycle state created (e ∷ es) ≡ true
unfolding valid_lifecycle
cons-valid_lifecycle state created e es h = ground arith

pub valid_lifecycle-length :
    (state : State) (created : ℕ) (es : List Event)
    → valid_lifecycle state created es ≡ true
    → length es ≤ 4
valid_lifecycle-length state created [] h = omega arith
valid_lifecycle-length state created (e ∷ es) h =
    let (first, _, _, _, t) = valid_lifecycle-cons state created e es h in
    ground (arith, valid_trail-length e es t, first)

-- A permitted event, no earlier than the last, keeps the lifecycle valid.
pub valid_lifecycle-append :
    (state : State) (created : ℕ) (f : Event) (es : List Event)
    → valid_lifecycle state created es ≡ true
    → valid_event f ≡ true
    → allowed_transition state f.state ≡ true
    → ltb f.at (last_at es) ≡ false
    → valid_lifecycle f.state created (es ++ f ∷ []) ≡ true
unfolding valid_lifecycle
valid_lifecycle-append state created f [] h v a o = cc
valid_lifecycle-append state created f (e ∷ es) h v a o =
    let (first, at, last, event, t) = valid_lifecycle-cons state created e es h in
    cons-valid_lifecycle f.state created e (es ++ f ∷ []) (
      first,
      at,
      ap (λ x. x.state) (last_event-append e f es),
      event,
      valid_trail-append e f es t v (rw last a) o,
    )

-- The states of an approved record's trail are CANDIDATE, QUALIFIED, APPROVED.
pub approved-states :
    (created : ℕ) (es : List Event)
    → valid_lifecycle approved created es ≡ true
    → states es ≡ candidate ∷ qualified ∷ approved ∷ []
unfolding valid_lifecycle
approved-states created [] h = cc
approved-states created (e ∷ es) h =
    let (first, at, last, event, t) = valid_lifecycle-cons approved created e es h in
    ground (arith, states-way_to_approved e es t last, first)
