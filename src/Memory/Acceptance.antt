-- ===== src/Memory/Acceptance.antt =====
-- What one accepted create stores, who sees it, and that the draw of its identifier ends.
use perfeng_control_plane.Base.{ℕ, ◌<◌, ◌≡◌, ◌≢◌, false, List, [], ◌∷◌, none, some, arith, ◌⊎◌, ◌∙◌}
use perfeng_control_plane.Base.Maps.{lookup-insert_self}
use perfeng_control_plane.Text.{Text, Text-discrete}
use perfeng_control_plane.Errors.{ok, err, conflict, not_found}
use perfeng_control_plane.Run.{Request, ExecutionTarget}
use perfeng_control_plane.Memory.Store.{OwnedRun, Accepted, Binding, Repository, find_run, visible}
use perfeng_control_plane.Memory.Runs.{
  Draw, bytes, draw_id, run_id, store_run, create_run, accept_valid, accept, refused_create,
  find_binding, live, replay, acceptance, get,
}

-- The draws up to the first whose identifier is free all succeed and all meet a taken identifier.
pub data FreeDraw (m : Repository) (now : ℕ) : List Draw → Text → Type 0 where
  free :
      (a b c d : ℕ) {rest : List Draw}
      → find_run m (run_id now a b c d) ≡ none
      → FreeDraw m now (bytes a b c d ∷ rest) (run_id now a b c d)
  taken :
      (a b c d : ℕ) {rest : List Draw} {id : Text} (o : OwnedRun)
      → find_run m (run_id now a b c d) ≡ some o
      → FreeDraw m now rest id
      → FreeDraw m now (bytes a b c d ∷ rest) id

-- The loop ends at the first free identifier, however many draws come after it.
pub draw_id-FreeDraw :
    {m : Repository} {now : ℕ} {draws : List Draw} {id : Text}
    → FreeDraw m now draws id
    → draw_id m now draws ≡ some (ok id)
unfolding draw_id
draw_id-FreeDraw (free a b c d e) = rw (e, draw_id)
draw_id-FreeDraw (taken a b c d o e rest) = rw (e, draw_id) (draw_id-FreeDraw rest)

pub accept-accept_valid :
    (m : Repository) (now : ℕ) (draws : List Draw) (principal key : Text) (request : Request)
    (target : ExecutionTarget)
    → refused_create principal key request target ≡ false
    → accept m none now draws principal key request target
      ≡ accept_valid m now draws principal key request target
unfolding accept
accept-accept_valid m now draws principal key request target fine = rw fine

pub accept_valid-fresh :
    (m : Repository) (now : ℕ) (draws : List Draw) (principal key : Text) (request : Request)
    (target : ExecutionTarget)
    → live (find_binding m principal key) now ≡ none
    → accept_valid m now draws principal key request target
      ≡ create_run m principal key request target now (draw_id m now draws)
unfolding accept_valid
accept_valid-fresh m now draws principal key request target fresh = rw (fresh, accept_valid)

pub accept_valid-live :
    (m : Repository) (now : ℕ) (draws : List Draw) (principal key : Text) (request : Request)
    (target : ExecutionTarget) (b : Binding)
    → find_binding m principal key ≡ some b
    → now < b.accepted.expires_at
    → accept_valid m now draws principal key request target ≡ some (m, replay b request target)
unfolding accept_valid
accept_valid-live m now draws principal key request target b bound soon =
    rw (bound, accept_valid) (ground arith)

pub accept-store_run :
    (m : Repository) (now : ℕ) (draws : List Draw) (principal key id : Text) (request : Request)
    (target : ExecutionTarget)
    → refused_create principal key request target ≡ false
    → live (find_binding m principal key) now ≡ none
    → FreeDraw m now draws id
    → let a = acceptance id request now in
      accept m none now draws principal key request target
      ≡ some (store_run m principal key a target, ok a)
accept-store_run m now draws principal key id request target fine fresh d =
    accept-accept_valid m now draws principal key request target fine
    ∙ (accept_valid-fresh m now draws principal key request target fresh ∙ rw (draw_id-FreeDraw d))

-- The stored Run is read back by its owner and is not found by anybody else.
pub get-store_run :
    (m : Repository) (principal key other : Text) (a : Accepted) (target : ExecutionTarget)
    → principal ≢ []
    → (get (store_run m principal key a target) none principal a.run.id ≡ ok a.run)
      × (other ≢ principal
          → get (store_run m principal key a target) none other a.run.id ≡ err not_found)
unfolding get visible store_run
get-store_run m principal key other a target owner =
    rw
      (
        lookup-insert_self Text-discrete a.run.id
            (record { principal = principal; run = a.run; target = target }) m.runs,
        visible,
      )
      (ground arith, λ foreign. ground arith)

-- A replay under a live binding answers from the binding alone: with the original acceptance for the
-- same request and target, with a conflict for any other, and the store stays as it is.
pub accept_replayed :
    (m : Repository) (now : ℕ) (draws : List Draw) (principal key : Text) (request : Request)
    (target : ExecutionTarget) (b : Binding)
    → refused_create principal key request target ≡ false
    → find_binding m principal key ≡ some b
    → now < b.accepted.expires_at
    → let answer = accept m none now draws principal key request target in
      (request ≡ b.accepted.run.request → target ≡ b.target → answer ≡ some (m, ok b.accepted))
      × ((request ≢ b.accepted.run.request) ⊎ (target ≢ b.target) → answer ≡ some (m, err conflict))
unfolding replay
accept_replayed m now draws principal key request target b fine bound soon =
    let answer =
      accept-accept_valid m now draws principal key request target fine
      ∙ accept_valid-live m now draws principal key request target b bound soon in
    (λ r t. answer ∙ ground arith, λ differ. answer ∙ ground arith)
