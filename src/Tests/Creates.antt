-- ===== src/Tests/Creates.antt =====
-- Creates in the process-local repository (internal/memory).
use perfeng_control_plane.Base.{
  ◌+◌, ◌≡◌, ◌≢◌, refl, none, some, false, arith, ◌⊎◌, [], ◌∷◌, List, ℕ_discrete, Option,
}
use perfeng_control_plane.Base.Maps.{lookup, insert}
use perfeng_control_plane.Text.{Text, text, Text-discrete}
use perfeng_control_plane.Time.{format_stamp}
use perfeng_control_plane.Errors.{ok, err, not_found, conflict}
use perfeng_control_plane.Contract.{validating}
use perfeng_control_plane.Run.{
  Request-discrete, ExecutionTarget-discrete, kubernetes, native_linux, valid_key, valid_request,
  valid_target, to_state,
}
use perfeng_control_plane.Run.Artifact.{Url}
use perfeng_control_plane.Run.History.{accepted_run}
use perfeng_control_plane.Memory.Store.{Repository, Accepted, new, BindingKey-discrete}
use perfeng_control_plane.Memory.Runs.{
  Draw, bytes, accept, accept_valid, replay, store_run, acceptance, refused_create, run_id, get,
  find_binding,
}
use perfeng_control_plane.Memory.Calls.{Call, advances, accepts, step, calls}
use perfeng_control_plane.Memory.Refused.{refusal, step-refusal}
use perfeng_control_plane.Memory.Created.{Fresh, Stored, accept_new}
use perfeng_control_plane.Memory.Acceptance.{
  FreeDraw, free, accept-store_run, get-store_run, accept_replayed,
}
use perfeng_control_plane.Memory.Later.{Extends}
use perfeng_control_plane.Memory.Extends.{calls-Extends}
use perfeng_control_plane.Memory.Replay.{accept_again}
use perfeng_control_plane.Tests.Samples.{noon, request, fresh_run}

abbrev alice : Text
alice = text "alice"

abbrev key : Text
key = text "0123456789abcdef"

abbrev no_parser : Text → Option Url
no_parser uri = none

request-fine : refused_create alice key request kubernetes ≡ false
unfolding valid_key valid_request valid_target Text-discrete
request-fine = refl

request-fine_native : refused_create alice key request native_linux ≡ false
unfolding valid_key valid_request valid_target Text-discrete
request-fine_native = refl

abbrev draws : List Draw
draws = bytes 10 11 12 13 ∷ []

drawn : FreeDraw new noon draws (run_id noon 10 11 12 13)
unfolding new lookup
drawn = free 10 11 12 13 refl

abbrev answer : Accepted
answer = acceptance (run_id noon 10 11 12 13) request noon

first_create :
    accept new none noon draws alice key request kubernetes
    ≡ some (store_run new alice key answer kubernetes, ok answer)
unfolding new lookup
first_create =
    accept-store_run new noon draws alice key (run_id noon 10 11 12 13) request kubernetes
      request-fine refl drawn

accept_new_example :
    (m : Repository) × (a : Accepted) × (accept new none noon draws alice key request kubernetes
      ≡ some (m, ok a))
    × Fresh (run_id noon 10 11 12 13) request noon a.run
    × (a.expires_at ≡ noon + 86400000000000)
    × Stored new m alice key a kubernetes
unfolding new lookup
accept_new_example =
    accept_new new noon draws alice key (run_id noon 10 11 12 13) request kubernetes request-fine
      refl drawn

-- The identifier is spelled as the service spells it.
run_id-spelled : run_id noon 10 11 12 13 ≡ fresh_run.id
unfolding run_id format_stamp accepted_run
run_id-spelled = refl

abbrev one_run : Repository
one_run = store_run new alice key answer kubernetes

get-store_run_example :
    (get one_run none alice answer.run.id ≡ ok answer.run)
    × (text "mallory" ≢ alice → get one_run none (text "mallory") answer.run.id ≡ err not_found)
unfolding accepted_run
get-store_run_example = get-store_run new alice key (text "mallory") answer kubernetes (λ e. cc)

binding-found :
    find_binding one_run alice key ≡ some (record { accepted = answer; target = kubernetes })
unfolding store_run new insert lookup BindingKey-discrete ℕ_discrete
binding-found = refl

accept_replayed_example :
    (request ≡ answer.run.request
      → native_linux ≡ kubernetes
      → accept one_run none (noon + 1) [] alice key request native_linux
        ≡ some (one_run, ok answer))
    × ((request ≢ answer.run.request) ⊎ (native_linux ≢ kubernetes)
        → accept one_run none (noon + 1) [] alice key request native_linux
          ≡ some (one_run, err conflict))
accept_replayed_example =
    accept_replayed one_run (noon + 1) [] alice key request native_linux
      (record { accepted = answer; target = kubernetes }) request-fine_native binding-found
      (omega arith)

-- The Run moves on, somebody else creates another, and the first create is sent again.
abbrev busy : List Call
busy =
    advances none (noon + 3) alice answer.run.id 1 (to_state validating)
    ∷ accepts none (noon + 4) (bytes 1 2 3 4 ∷ []) (text "bob") key request native_linux
    ∷ []

accept_again_example :
    accept (calls no_parser one_run busy) none (noon + 20) [] alice key request kubernetes
    ≡ some (calls no_parser one_run busy, ok answer)
accept_again_example =
    accept_again no_parser new one_run none noon (noon + 20) draws [] alice key request kubernetes
      answer busy first_create (tt, (omega arith, tt)) (omega arith)

calls-Extends_example : Extends one_run (calls no_parser one_run busy)
calls-Extends_example = calls-Extends no_parser one_run busy

-- The same key for another target.
abbrev clashing : Call
clashing = accepts none (noon + 5) draws alice key request native_linux

clashing-refused : refusal no_parser one_run clashing ≡ some conflict
unfolding refusal accept accept_valid replay store_run new lookup insert valid_key valid_request
    valid_target Text-discrete BindingKey-discrete Request-discrete ExecutionTarget-discrete
    accepted_run
clashing-refused = refl

step-refusal_example : step no_parser one_run clashing ≡ one_run
step-refusal_example = step-refusal no_parser one_run clashing conflict clashing-refused
