-- ===== src/Reconcile/Shelf.antt =====
-- A store that keeps one Run and its evidence, listed by identifier, for the attempts at its collection,
-- analysis and report (internal/reconcile/collection.go, analysis.go, reporting.go).
use mathlib.Core.List.{Permᴰ}
use mathlib.Core.List.Permᴰ
use perfeng_control_plane.Base.{
  ℕ, ◌<◌, Bool, true, false, List, [], ◌∷◌, ◌++◌, Option, none, ◌≡◌, refl, ap, arith, if◌then◌else◌,
}
use perfeng_control_plane.Base.Int.{ℤ, pos}
use perfeng_control_plane.Text.{Text}
use perfeng_control_plane.Errors.{Result, ok, err}
use perfeng_control_plane.Contract.{State}
use perfeng_control_plane.Run.{Run, Change, max_run_revision, moved, transition, to_state}
use perfeng_control_plane.Run.Valid.{transition-ok}
use perfeng_control_plane.Run.Artifact.{Artifact, Url}
use perfeng_control_plane.Run.Claims.{Lease, Claim}
use perfeng_control_plane.Memory.Artifacts.{text_lt, place}
use perfeng_control_plane.Reconcile.Allowed.{Allowed, Allowed-Passes}
use perfeng_control_plane.Reconcile.Stage.{valid_owned_claim, advance_owned_claim}
use perfeng_control_plane.Reconcile.Attempts.{EvidenceStore, register_each}

pub record Shelf : Type 0 where
  pub run : Run
  pub artifacts : List Artifact

abbrev stepped : Shelf → Result Run → Shelf × Result Run
stepped s (ok r) = (record s { run = r }, ok r)
stepped s (err e) = (s, err e)

abbrev pub shelved : Shelf → Artifact → Shelf
shelved s a = record s { artifacts = place a s.artifacts }

abbrev pub shelf : ℕ → EvidenceStore Shelf
shelf now = record {
  claims = record {
    advance_claim = λ s l revision change. stepped s (transition s.run revision change now);
  };
  list_artifacts = λ s principal id. (s, ok s.artifacts);
  register_artifact = λ s principal a. (shelved s a, none);
}

abbrev pub claim : Lease → Run → Claim
claim lease r = record { lease = lease; run = r }

abbrev pub then_moved : Shelf → State → ℕ → Shelf
then_moved s next now = record s { run = moved s.run (to_state next) now }

pub advance-shelf :
    (s : Shelf) (lease : Lease) (from next : State) (now : ℕ) (artifacts : List Artifact)
    → s.run.state ≡ from
    → Allowed from (to_state next)
    → s.run.revision < max_run_revision
    → advance_owned_claim
        (shelf now).claims
        (record s { artifacts = artifacts })
        (claim lease s.run)
        (to_state next)
      ≡ (record (then_moved s next now) { artifacts = artifacts }, ok (pos 0))
unfolding advance_owned_claim
advance-shelf s lease from next now artifacts state h room =
    rw
      (transition-ok s.run s.run.revision (to_state next) now
        (Allowed-Passes s.run (to_state next) room (rw (state) h)))
      refl

pub moved-valid_owned_claim :
    (lease : Lease) (r : Run) (change : Change) (now : ℕ)
    → valid_owned_claim (claim lease r) ≡ true
    → valid_owned_claim (claim lease (moved r change now)) ≡ true
unfolding valid_owned_claim moved
moved-valid_owned_claim lease r change now h = ground (arith, h)

unfoldable pub placed : List Artifact → List Artifact → List Artifact
placed [] ys = ys
placed (x ∷ xs) ys = placed xs (place x ys)

placed_first :
    (b : Bool) (a x : Artifact) (xs rest : List Artifact)
    → Permᴰ (a ∷ xs) rest
    → Permᴰ (a ∷ x ∷ xs) (if b then x ∷ rest else a ∷ x ∷ xs)
placed_first true a x xs rest p = Permᴰ.trans (Permᴰ.swap refl refl) (Permᴰ.cons refl p)
placed_first false a x xs rest p = Permᴰ.refl (a ∷ x ∷ xs)

pub place-Permᴰ : (a : Artifact) (xs : List Artifact) → Permᴰ (a ∷ xs) (place a xs)
unfolding place
place-Permᴰ a [] = Permᴰ.cons refl Permᴰ.nil
place-Permᴰ a (x ∷ xs) = placed_first (text_lt x.id a.id) a x xs (place a xs) (place-Permᴰ a xs)

pub placed-Permᴰ : (xs ys : List Artifact) → Permᴰ (xs ++ ys) (placed xs ys)
unfolding placed
placed-Permᴰ [] ys = Permᴰ.refl ys
placed-Permᴰ (x ∷ xs) ys =
    Permᴰ.trans (Permᴰ.symm (Permᴰ.middle x xs ys))
      (Permᴰ.trans (Permᴰ.append_left xs (place-Permᴰ x ys)) (placed-Permᴰ xs (place x ys)))

-- Where a list has one more element.
pub record Split (a : Artifact) (xs ys : List Artifact) : Type 0 where
  pub before : List Artifact
  pub after : List Artifact
  pub whole : ys ≡ before ++ (a ∷ after)
  pub rest : xs ≡ before ++ after

Split-there : (a x : Artifact) (xs ys : List Artifact) → Split a xs ys → Split a (x ∷ xs) (x ∷ ys)
Split-there a x xs ys s = record {
  before = x ∷ s.before;
  after = s.after;
  whole = ap (λ l. x ∷ l) s.whole;
  rest = ap (λ l. x ∷ l) s.rest;
}

Split-place :
    (b : Bool) (a x : Artifact) (xs rest : List Artifact)
    → Split a xs rest
    → Split a (x ∷ xs) (if b then x ∷ rest else a ∷ x ∷ xs)
Split-place true a x xs rest s = Split-there a x xs rest s
Split-place false a x xs rest s = record { before = []; after = x ∷ xs; whole = refl; rest = refl }

pub place-Split : (a : Artifact) (xs : List Artifact) → Split a xs (place a xs)
unfolding place
place-Split a [] = record { before = []; after = []; whole = refl; rest = refl }
place-Split a (x ∷ xs) = Split-place (text_lt x.id a.id) a x xs (place a xs) (place-Split a xs)

module _ (parse_url : Text → Option Url) (retry_after : ℤ) (now : ℕ) where
  pub register_each-shelf :
      (s : Shelf) (principal : Text) (xs : List Artifact) (rest : Shelf → Shelf × Result ℤ)
      → register_each (shelf now) parse_url retry_after s principal xs rest
        ≡ rest (record s { artifacts = placed xs s.artifacts })
  unfolding register_each placed
  register_each-shelf s principal [] rest = refl
  register_each-shelf s principal (x ∷ xs) rest =
      register_each-shelf (shelved s x) principal xs rest
