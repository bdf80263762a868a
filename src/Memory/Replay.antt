-- ===== src/Memory/Replay.antt =====
-- Idempotent creation: a binding outlives every other call until it expires.
use perfeng_control_plane.Base.{
  ℕ, ◌<◌, ◌≡◌, refl, false, List, [], ◌∷◌, Option, none, some, arith, inl, inr, Option-cases,
  Bool-cases, ltb, ltb→lt, ◌∙◌, sym, ap,
}
use perfeng_control_plane.Base.Maps.{lookup-insert_self, lookup-insert_ne}
use perfeng_control_plane.Text.{Text}
use perfeng_control_plane.Errors.{Error, Result, ok, err}
use perfeng_control_plane.Run.{Run, Request, ExecutionTarget}
use perfeng_control_plane.Run.Artifact.{Artifact, Url}
use perfeng_control_plane.Baseline.Data.{Record}
use perfeng_control_plane.Run.History.{accepted_run}
use perfeng_control_plane.Memory.Store.{
  OwnedRun, Accepted, Binding, BindingKey, BindingKey-discrete, BaselineKey, Repository, visible,
}
use perfeng_control_plane.Memory.Runs.{
  Draw, draw_id, store_run, create_run, accept_valid, accept, refused_create, find_binding, live,
  replay, acceptance, update, under, cancel, advance,
}
use perfeng_control_plane.Memory.Artifacts.{register_artifact}
use perfeng_control_plane.Memory.Baselines.{
  stored_baseline, replaced_baseline, create_baseline, transition_baseline,
}
use perfeng_control_plane.Memory.Calls.{
  Call, accepts, cancels, advances, registers, creates_baseline, decides_baseline, after_accept,
  step, calls,
}
use perfeng_control_plane.Memory.Acceptance.{accept_valid-live, accept_valid-fresh, accept_replayed}

-- The clock of a create is before `t`; other calls may come at any time.
abbrev pub Before : ℕ → Call → Type 0
Before t (accepts ctx now draws principal key request target) = now < t
Before t _ = Unit {0}

abbrev pub AllBefore : ℕ → List Call → Type 0
AllBefore t [] = Unit {0}
AllBefore t (c ∷ cs) = Before t c × AllBefore t cs

live-some : (o : Option Binding) (now : ℕ) (b : Binding) → live o now ≡ some b → o ≡ some b
live-some none now b e = e
live-some (some a) now b e = ground arith

module _ (p k : Text) (b : Binding) where
  create_run-binding :
      (m : Repository) (principal key : Text) (request : Request) (target : ExecutionTarget)
      (now : ℕ) (drawn : Option (Result Text))
      → find_binding m p k ≡ some b
      → now < b.accepted.expires_at
      → live (find_binding m principal key) now ≡ none
      → find_binding (after_accept m (create_run m principal key request target now drawn)) p k
        ≡ some b
  unfolding store_run
  create_run-binding m principal key request target now none bound soon stale = bound
  create_run-binding m principal key request target now (some (err e)) bound soon stale = bound
  create_run-binding m principal key request target now (some (ok id)) bound soon stale =
      rw
        (lookup-insert_ne BindingKey-discrete (record { principal = principal; key = key })
          (record { principal = p; key = k })
          (record { accepted = acceptance id request now; target = target }) m.bindings
          λ same. go same)
        bound
    where
      go :
          ◌≡◌ {A = BindingKey}
            (record { principal = principal; key = key })
            (record { principal = p; key = k })
          → ⊥
      go same =
          let one : principal ≡ p = ap (λ x. x.principal) same in
          let two : key ≡ k = ap (λ x. x.key) same in
          let found : find_binding m principal key ≡ some b = rw (one, two) bound in ground arith

  accept_valid-binding :
      (m : Repository) (now : ℕ) (draws : List Draw) (principal key : Text) (request : Request)
      (target : ExecutionTarget)
      → find_binding m p k ≡ some b
      → now < b.accepted.expires_at
      → find_binding (after_accept m (accept_valid m now draws principal key request target)) p k
        ≡ some b
  unfolding accept_valid
  accept_valid-binding m now draws principal key request target bound soon =
      elim (Option-cases (live (find_binding m principal key) now)) [
        | inl stale ↦
            rw (stale, after_accept)
              (create_run-binding m principal key request target now _ bound soon stale)
        | inr (c, found) ↦ rw (found, after_accept) bound
      ]

  accept-binding :
      (m : Repository) (ctx : Option Error) (now : ℕ) (draws : List Draw) (principal key : Text)
      (request : Request) (target : ExecutionTarget)
      → find_binding m p k ≡ some b
      → now < b.accepted.expires_at
      → find_binding (after_accept m (accept m ctx now draws principal key request target)) p k
        ≡ some b
  unfolding accept
  accept-binding m ctx now draws principal key request target bound soon =
      elim (Bool-cases (refused_create principal key request target)) [
        | inl refused ↦ rw refused bound
        | inr fine ↦ rw fine (go ctx)
      ]
    where
      go :
          (ctx : Option Error)
          → find_binding
              (after_accept m (elim ctx [
                | some e ↦ some (m, err e)
                | none ↦ accept_valid m now draws principal key request target
              ]))
              p
              k
            ≡ some b
      go none = accept_valid-binding m now draws principal key request target bound soon
      go (some e) = bound

-- No other call writes a binding.
update-bindings :
    (m : Repository) (id : Text) (seen : Result OwnedRun) (f : Run → Result Run)
    → (update m id seen f).0.bindings ≡ m.bindings
update-bindings m id seen f = ground arith

register-bindings :
    (parse_url : Text → Option Url) (m : Repository) (ctx : Option Error) (principal : Text)
    (a : Artifact)
    → (register_artifact parse_url m ctx principal a).0.bindings ≡ m.bindings
unfolding register_artifact
register-bindings parse_url m ctx principal a = ground arith

stored-bindings :
    (m : Repository) (principal : Text) (r : Result Record)
    → (stored_baseline m principal r).0.bindings ≡ m.bindings
stored-bindings m principal r = ground arith

replaced-bindings :
    (m : Repository) (key : BaselineKey) (r : Result Record)
    → (replaced_baseline m key r).0.bindings ≡ m.bindings
replaced-bindings m key r = ground arith

-- What a successful create leaves: its arguments are valid and a binding holds its answer.
record Bound (m : Repository) (principal key : Text) (request : Request) (target : ExecutionTarget)
    (a : Accepted) : Type 0 where
  bound : find_binding m principal key ≡ some (record { accepted = a; target = target })
  asked : request ≡ a.run.request

replay-ok :
    (b : Binding) (request : Request) (target : ExecutionTarget) (a : Accepted)
    → replay b request target ≡ ok a
    → (b ≡ record { accepted = a; target = target }) × (request ≡ a.run.request)
unfolding replay
replay-ok b request target a e = ground arith

create_run-Bound :
    (m n : Repository) (principal key : Text) (request : Request) (target : ExecutionTarget)
    (now : ℕ) (drawn : Option (Result Text)) (a : Accepted)
    → create_run m principal key request target now drawn ≡ some (n, ok a)
    → Bound n principal key request target a
unfolding store_run accepted_run
create_run-Bound m n principal key request target now none a e = absurd (cc)
create_run-Bound m n principal key request target now (some (err x)) a e = absurd (cc)
create_run-Bound m n principal key request target now (some (ok id)) a e =
    let stored : store_run m principal key (acceptance id request now) target ≡ n = ground arith in
    let answer : acceptance id request now ≡ a = ground arith in
    rw (← stored, ← answer)
      (record {
        bound =
            lookup-insert_self BindingKey-discrete (record { principal = principal; key = key })
              (record { accepted = acceptance id request now; target = target }) m.bindings;
        asked = refl;
      })

answered :
    (m n : Repository) (r s : Result Accepted)
    → ◌≡◌ {A = Option (Repository × Result Accepted)} (some (m, r)) (some (n, s))
    → (m ≡ n) × (r ≡ s)
answered m n r s e = ground arith

accept_valid-Bound :
    (m n : Repository) (now : ℕ) (draws : List Draw) (principal key : Text) (request : Request)
    (target : ExecutionTarget) (a : Accepted)
    → accept_valid m now draws principal key request target ≡ some (n, ok a)
    → Bound n principal key request target a
accept_valid-Bound m n now draws principal key request target a e =
    elim (Option-cases (find_binding m principal key)) [
      | inl none_bound ↦
          create_run-Bound m n principal key request target now (draw_id m now draws) a
            (sym (accept_valid-fresh m now draws principal key request target (rw none_bound)) ∙ e)
      | inr (b, bound) ↦ elim (Bool-cases (ltb now b.accepted.expires_at)) [
        | inr stale ↦
            create_run-Bound m n principal key request target now (draw_id m now draws) a (
              sym (accept_valid-fresh m now draws principal key request target (rw (bound, stale)))
              ∙ e)
        | inl soon ↦
            let live_answer =
              accept_valid-live m now draws principal key request target b bound
                (ltb→lt now b.accepted.expires_at soon) in
            let (same, replayed) =
              answered m n (replay b request target) (ok a) (sym live_answer ∙ e) in
            let (whole, asked) = replay-ok b request target a replayed in
            rw (← same) (record { bound = bound ∙ ap some whole; asked = asked })
      ]
    ]

accept-Bound :
    (m n : Repository) (ctx : Option Error) (now : ℕ) (draws : List Draw) (principal key : Text)
    (request : Request) (target : ExecutionTarget) (a : Accepted)
    → accept m ctx now draws principal key request target ≡ some (n, ok a)
    → (refused_create principal key request target ≡ false)
      × (accept_valid m now draws principal key request target ≡ some (n, ok a))
unfolding accept
accept-Bound m n ctx now draws principal key request target a e = ground arith

module _ (parse_url : Text → Option Url) where
  step-binding :
      (m : Repository) (p k : Text) (b : Binding) (c : Call)
      → find_binding m p k ≡ some b
      → Before b.accepted.expires_at c
      → find_binding (step parse_url m c) p k ≡ some b
  unfolding step cancel advance create_baseline transition_baseline
  step-binding m p k b (accepts ctx now draws principal key request target) bound soon =
      accept-binding p k b m ctx now draws principal key request target bound soon
  step-binding m p k b (cancels ctx now principal id) bound soon =
      rw (update-bindings m id (under ctx (visible m principal id)) _) bound
  step-binding m p k b (advances ctx now principal id revision change) bound soon =
      rw (update-bindings m id (under ctx (visible m principal id)) _) bound
  step-binding m p k b (registers ctx principal a) bound soon =
      rw (register-bindings parse_url m ctx principal a) bound
  step-binding m p k b (creates_baseline ctx now principal input) bound soon =
      rw (stored-bindings m principal _) bound
  step-binding m p k b (decides_baseline ctx now principal id version revision change) bound soon =
      rw (replaced-bindings m _ _) bound

  calls-binding :
      (m : Repository) (p k : Text) (b : Binding) (cs : List Call)
      → find_binding m p k ≡ some b
      → AllBefore b.accepted.expires_at cs
      → find_binding (calls parse_url m cs) p k ≡ some b
  unfolding calls
  calls-binding m p k b [] bound soon = bound
  calls-binding m p k b (c ∷ cs) bound soon =
      calls-binding (step parse_url m c) p k b cs (step-binding m p k b c bound soon.0) soon.1

  -- A create that succeeded is answered alike, with the same Run and expiry and without any change,
  -- whenever it is repeated with the same request and target before that expiry: whatever calls
  -- came between, by anybody, as long as the creates among them were made before the expiry too.
  pub accept_again :
      (m n : Repository) (ctx : Option Error) (now later : ℕ) (draws draws' : List Draw)
      (principal key : Text) (request : Request) (target : ExecutionTarget) (a : Accepted)
      (cs : List Call)
      → accept m ctx now draws principal key request target ≡ some (n, ok a)
      → AllBefore a.expires_at cs
      → later < a.expires_at
      → let m' = calls parse_url n cs in
        accept m' none later draws' principal key request target ≡ some (m', ok a)
  accept_again m n ctx now later draws draws' principal key request target a cs e soon last =
      let (fine, valid) = accept-Bound m n ctx now draws principal key request target a e in
      let b = accept_valid-Bound m n now draws principal key request target a valid in
      let kept =
        calls-binding n principal key (record { accepted = a; target = target }) cs b.bound soon in
      (accept_replayed (calls parse_url n cs) later draws' principal key request target
          (record { accepted = a; target = target }) fine kept last).0
        b.asked refl
