-- ===== src/Memory/Extends.antt =====
-- No call takes anything back: a stored Run only moves along its lifecycle, under the same owner and
-- target, and a registered artifact stays what it is.
use perfeng_control_plane.Base.{
  ℕ, ◌≡◌, refl, List, [], ◌∷◌, Option, none, some, arith, inl, inr, Option-cases, Bool-cases, holds,
}
use mathlib.Core.Logic.{if_neg}
use perfeng_control_plane.Base.Maps.{lookup-insert}
use perfeng_control_plane.Text.{Text, Text-discrete}
use perfeng_control_plane.Errors.{Error, Result, ok, err}
use perfeng_control_plane.Run.{Run, Request, ExecutionTarget}
use perfeng_control_plane.Run.Artifact.{Artifact, Artifact-discrete, Url, valid_artifact}
use perfeng_control_plane.Baseline.Data.{Record}
use perfeng_control_plane.Run.History.{Step, here, next, accepted_run}
use perfeng_control_plane.Memory.Store.{
  OwnedRun, Accepted, Repository, find_run, visible, BaselineKey,
}
use perfeng_control_plane.Memory.Runs.{
  Draw, store_run, create_run, accept_valid, accept, written, update, under, find_binding, live,
  acceptance, refused_create, cancel, advance,
}
use perfeng_control_plane.Memory.Artifacts.{
  find_artifact, bind_artifact, bind_visible, register_artifact, lowered,
}
use perfeng_control_plane.Memory.Baselines.{
  stored_baseline, replaced_baseline, create_baseline, transition_baseline,
}
use perfeng_control_plane.Memory.Calls.{
  Call, accepts, cancels, advances, registers, creates_baseline, decides_baseline, after_accept,
  step, calls,
}
use perfeng_control_plane.Memory.Later.{
  Extends, Extends-refl, Extends-trans, Later, Later-same, draw_id-free, visible-ok, write-runs,
}

store_run-Extends :
    (m : Repository) (principal key : Text) (a : Accepted) (target : ExecutionTarget)
    → find_run m a.run.id ≡ none
    → Extends m (store_run m principal key a target)
unfolding store_run
store_run-Extends m principal key a target free = record {
  runs = write-runs m.runs a.run.id _ (λ o e. absurd (cc));
  artifacts = λ id x e. e;
}

create_run-Extends :
    (m : Repository) (principal key : Text) (request : Request) (target : ExecutionTarget) (now : ℕ)
    (drawn : Option (Result Text))
    → ((id : Text) → drawn ≡ some (ok id) → find_run m id ≡ none)
    → Extends m (after_accept m (create_run m principal key request target now drawn))
unfolding accepted_run
create_run-Extends m principal key request target now none free = Extends-refl m
create_run-Extends m principal key request target now (some (err e)) free = Extends-refl m
create_run-Extends m principal key request target now (some (ok id)) free =
    store_run-Extends m principal key (acceptance id request now) target (free id refl)

accept_valid-Extends :
    (m : Repository) (now : ℕ) (draws : List Draw) (principal key : Text) (request : Request)
    (target : ExecutionTarget)
    → Extends m (after_accept m (accept_valid m now draws principal key request target))
unfolding accept_valid
accept_valid-Extends m now draws principal key request target =
    elim (Option-cases (live (find_binding m principal key) now)) [
      | inl none_live ↦
          rw (none_live, after_accept)
            (create_run-Extends m principal key request target now _ (draw_id-free m now draws))
      | inr (b, found) ↦ rw (found, after_accept) (Extends-refl m)
    ]

accept-Extends :
    (m : Repository) (ctx : Option Error) (now : ℕ) (draws : List Draw) (principal key : Text)
    (request : Request) (target : ExecutionTarget)
    → Extends m (after_accept m (accept m ctx now draws principal key request target))
unfolding accept
accept-Extends m ctx now draws principal key request target =
    elim (Bool-cases (refused_create principal key request target)) [
      | inl refused ↦ rw refused (Extends-refl m)
      | inr fine ↦ rw fine (go ctx)
    ]
  where
    go :
        (ctx : Option Error)
        → Extends m (
            after_accept m (elim ctx [
              | some e ↦ some (m, err e)
              | none ↦ accept_valid m now draws principal key request target
            ]))
    go none = accept_valid-Extends m now draws principal key request target
    go (some e) = Extends-refl m

update-Extends :
    (m : Repository) (id : Text) (seen : Result OwnedRun) (f : Run → Result Run)
    → ((o : OwnedRun) → seen ≡ ok o → find_run m id ≡ some o)
    → ((r s : Run) → f r ≡ ok s → Step r s)
    → Extends m (update m id seen f).0
update-Extends m id (err e) f at steps = Extends-refl m
update-Extends m id (ok o) f at steps = go (f o.run) refl
  where
    over :
        (s : Run)
        → f o.run ≡ ok s
        → (p : OwnedRun) → find_run m id ≡ some p
        → Later p (some (record o { run = s }))
    over s e p found =
        let same : p ≡ o = cc (at o refl) in rw same (refl, refl, next here (steps o.run s e))

    go : (r : Result Run) → f o.run ≡ r → Extends m (written m id o r).0
    go (err e) h = Extends-refl m
    go (ok s) h = record { runs = write-runs m.runs id _ (over s h); artifacts = λ j a e. e }

under-ok {ℓ} :
    {A : Type ℓ} (ctx : Option Error) (r : Result A) (a : A) → under ctx r ≡ ok a → r ≡ ok a
under-ok none r a e = e
under-ok (some x) r a e = absurd (cc)

seen-found :
    (m : Repository) (ctx : Option Error) (principal id : Text) (o : OwnedRun)
    → under ctx (visible m principal id) ≡ ok o
    → find_run m id ≡ some o
seen-found m ctx principal id o e =
    (visible-ok m principal id o (under-ok ctx (visible m principal id) o e)).0

bind_artifact-Extends :
    (m : Repository) (a : Artifact) (found : Option Artifact)
    → find_artifact m a.id ≡ found
    → Extends m (bind_artifact m a found).0
bind_artifact-Extends m a none e = record {
  runs = λ id o h. Later-same o _ h;
  artifacts = λ id b h.
      rw (lookup-insert Text-discrete a.id id a m.artifacts) (elim (Text-discrete a.id id) [
        | yes same ↦ absurd (ground arith)
        | no other ↦ rw (if_neg _ other) h
      ]);
}
bind_artifact-Extends m a (some b) e = elim (Bool-cases (holds (Artifact-discrete b a))) [
  | inl same ↦ rw same (Extends-refl m)
  | inr other ↦ rw other (Extends-refl m)
]

register_artifact-Extends :
    (parse_url : Text → Option Url) (m : Repository) (ctx : Option Error) (principal : Text)
    (a : Artifact)
    → Extends m (register_artifact parse_url m ctx principal a).0
unfolding register_artifact
register_artifact-Extends parse_url m ctx principal a =
    elim (Bool-cases (valid_artifact parse_url (lowered a))) [
      | inl fine ↦ rw fine (go (under ctx (visible m principal a.run_id)))
      | inr bad ↦ rw bad (Extends-refl m)
    ]
  where
    go : (seen : Result OwnedRun) → Extends m (bind_visible m (lowered a) seen).0
    go (err e) = Extends-refl m
    go (ok o) = bind_artifact-Extends m (lowered a) (find_artifact m (lowered a).id) refl

-- The baselines apart, the store is the same.
baselines-Extends :
    (m : Repository) (b : List (BaselineKey × Record)) → Extends m (record m { baselines = b })
baselines-Extends m b = record { runs = λ id o e. Later-same o _ e; artifacts = λ id a e. e }

stored_baseline-Extends :
    (m : Repository) (principal : Text) (r : Result Record)
    → Extends m (stored_baseline m principal r).0
stored_baseline-Extends m principal (err e) = Extends-refl m
stored_baseline-Extends m principal (ok r) = baselines-Extends m _

replaced_baseline-Extends :
    (m : Repository) (key : BaselineKey) (r : Result Record)
    → Extends m (replaced_baseline m key r).0
replaced_baseline-Extends m key (err e) = Extends-refl m
replaced_baseline-Extends m key (ok r) = baselines-Extends m _

module _ (parse_url : Text → Option Url) where
  pub step-Extends : (m : Repository) (c : Call) → Extends m (step parse_url m c)
  unfolding step cancel advance create_baseline transition_baseline
  step-Extends m (accepts ctx now draws principal key request target) =
      accept-Extends m ctx now draws principal key request target
  step-Extends m (cancels ctx now principal id) =
      update-Extends m id _ _ (seen-found m ctx principal id) (λ r s e. Step.cancel now e)
  step-Extends m (advances ctx now principal id revision change) =
      update-Extends m id _ _ (seen-found m ctx principal id)
        (λ r s e. Step.advance change revision now e)
  step-Extends m (registers ctx principal a) = register_artifact-Extends parse_url m ctx principal a
  step-Extends m (creates_baseline ctx now principal input) = stored_baseline-Extends m principal _
  step-Extends m (decides_baseline ctx now principal id version revision change) =
      replaced_baseline-Extends m _ _

  -- Over any sequence of calls every stored Run moves only along accepted transitions and
  -- cancellations, under its owner and its execution target, and every registered artifact stays.
  pub calls-Extends : (m : Repository) (cs : List Call) → Extends m (calls parse_url m cs)
  unfolding calls
  calls-Extends m [] = Extends-refl m
  calls-Extends m (c ∷ cs) =
      Extends-trans (step-Extends m c) (calls-Extends (step parse_url m c) cs)
