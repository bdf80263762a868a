-- ===== src/Memory/Later.antt =====
-- When one state of the repository extends another, and what a lookup in it says.
use perfeng_control_plane.Base.{
  ℕ, ◌≡◌, refl, List, [], ◌∷◌, Option, none, some, arith, inl, inr, ◌∙◌, Option-cases, ◌≢◌,
}
use mathlib.Core.Logic.{if_pos, if_neg}
use perfeng_control_plane.Base.Maps.{lookup, insert, lookup-insert}
use perfeng_control_plane.Text.{Text, Text-discrete}
use perfeng_control_plane.Errors.{ok}
use perfeng_control_plane.Run.{Run}
use perfeng_control_plane.Run.Artifact.{Artifact}
use perfeng_control_plane.Run.History.{Reach, here, next}
use perfeng_control_plane.Memory.Store.{OwnedRun, Repository, find_run, visible}
use perfeng_control_plane.Memory.Runs.{Draw, bytes, failure, draw_id, run_id}
use perfeng_control_plane.Memory.Artifacts.{find_artifact}

-- A Run as it is stored later.
abbrev pub Later : OwnedRun → Option OwnedRun → Type 0
Later o none = ⊥
Later o (some p) = (p.principal ≡ o.principal) × (p.target ≡ o.target) × Reach o.run p.run

pub record Extends (m n : Repository) : Type 0 where
  pub runs : (id : Text) (o : OwnedRun) → find_run m id ≡ some o → Later o (find_run n id)
  pub artifacts :
      (id : Text) (a : Artifact) → find_artifact m id ≡ some a → find_artifact n id ≡ some a

pub Reach-trans : {r s t : Run} → Reach r s → Reach s t → Reach r t
Reach-trans h here = h
Reach-trans h (next k st) = next (Reach-trans h k) st

pub Later-same : (o : OwnedRun) (found : Option OwnedRun) → found ≡ some o → Later o found
Later-same o none e = absurd (cc)
Later-same o (some p) e = let same : p ≡ o = cc in rw same (refl, refl, here)

pub Later-trans :
    (o p : OwnedRun) (found : Option OwnedRun) → Later o (some p) → Later p found → Later o found
Later-trans o p none h k = k
Later-trans o p (some q) h k = (k.0 ∙ h.0, k.1 ∙ h.1, Reach-trans h.2 k.2)

pub Extends-refl : (m : Repository) → Extends m m
Extends-refl m = record { runs = λ id o e. Later-same o _ e; artifacts = λ id a e. e }

pub Extends-trans : {m n k : Repository} → Extends m n → Extends n k → Extends m k
Extends-trans {m} {n} {k} f g = record {
  runs = λ id o e. through id o (find_run n id) refl (f.runs id o e);
  artifacts = λ id a e. g.artifacts id a (f.artifacts id a e);
}
  where
    through :
        (id : Text) (o : OwnedRun) (found : Option OwnedRun)
        → find_run n id ≡ found
        → Later o found
        → Later o (find_run k id)
    through id o none e h = absurd h
    through id o (some p) e h = Later-trans o p (find_run k id) h (g.runs id p e)

-- Writing a Run at `id`: a new one where there was none, or a later one over the old.
pub write-runs :
    (m : List (Text × OwnedRun)) (id : Text) (p : OwnedRun)
    → ((o : OwnedRun) → lookup Text-discrete id m ≡ some o → Later o (some p))
    → (j : Text) (o : OwnedRun) → lookup Text-discrete j m ≡ some o
    → Later o (lookup Text-discrete j (insert Text-discrete id p m))
write-runs m id p over j o e =
    rw (lookup-insert Text-discrete id j p m) (elim (Text-discrete id j) [
      | yes same ↦ rw (if_pos _ same) (over o (rw same e))
      | no other ↦ rw (if_neg _ other) (Later-same o _ e)
    ])

pub draw_id-free :
    (m : Repository) (now : ℕ) (draws : List Draw) (id : Text)
    → draw_id m now draws ≡ some (ok id)
    → find_run m id ≡ none
unfolding draw_id
draw_id-free m now [] id e = absurd (cc)
draw_id-free m now (failure x ∷ draws) id e = absurd (cc)
draw_id-free m now (bytes a b c d ∷ draws) id e =
    elim (Option-cases (find_run m (run_id now a b c d))) [
      | inl free ↦ ground arith
      | inr (o, taken) ↦ draw_id-free m now draws id (ground arith)
    ]

-- What a call on a visible Run sees.
pub visible-ok :
    (m : Repository) (principal id : Text) (o : OwnedRun)
    → visible m principal id ≡ ok o
    → (find_run m id ≡ some o) × (o.principal ≡ principal) × (principal ≢ [])
unfolding visible
visible-ok m principal id o e = ground arith
