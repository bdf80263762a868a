-- ===== src/Worker/Bounded.antt =====
-- The worker keeps at most its capacity of attempts going, and at most one for a Run.
use perfeng_control_plane.Base.{
  Bool, ◌+◌, ◌≤◌, ◌≡◌, refl, true, false, List, [], ◌∷◌, ◌||◌, not, arith, inl, inr, Bool-cases,
  length,
}
use perfeng_control_plane.Base.Int.{pos_part}
use perfeng_control_plane.Text.{Text, text_eq}
use perfeng_control_plane.Errors.{Result, ok, err}
use perfeng_control_plane.Run.Claims.{Claim}
use perfeng_control_plane.Worker.{Config, valid_claim}
use perfeng_control_plane.Worker.Pool.{
  Pool, Taken, completed, polled, mem, delete, start, start_all, free, can_poll, answered, take,
  takes, empty,
}

unfoldable pub NoDup : List Text → Type 0
NoDup [] = Unit {0}
NoDup (t ∷ ts) = (mem t ts ≡ false) × NoDup ts

-- The answer to a poll has at most as many claims as it asked for.
abbrev pub Fits : Config → Pool → Taken → Type 0
Fits config p (polled down (ok claims)) = length claims ≤ free config p
Fits config p _ = Unit {0}

unfoldable pub AllFit : Config → Pool → List Taken → Type 0
AllFit config p [] = Unit {0}
AllFit config p (t ∷ ts) = Fits config p t × AllFit config (take config p t) ts

delete-length : (t : Text) (ts : List Text) → length (delete t ts) ≤ length ts
unfolding delete
delete-length t [] = omega arith
delete-length t (s ∷ ss) = ground (arith, delete-length t ss)

mem-delete : (t u : Text) (ts : List Text) → mem u ts ≡ false → mem u (delete t ts) ≡ false
unfolding delete mem
mem-delete t u [] h = refl
mem-delete t u (s ∷ ss) h =
    let (a, b) : (text_eq s u ≡ false) × (mem u ss ≡ false) = ground (arith, h) in
    let rest = mem-delete t u ss b in
    elim (Bool-cases (text_eq s t)) [ inl same ↦ rw same rest | inr other ↦ rw (other, a) rest ]

delete-NoDup : (t : Text) (ts : List Text) → NoDup ts → NoDup (delete t ts)
unfolding delete NoDup
delete-NoDup t [] h = tt
delete-NoDup t (s ∷ ss) (fresh, h) =
    let rest = delete-NoDup t ss h in
    elim (Bool-cases (text_eq s t)) [
      | inl same ↦ rw same rest
      | inr other ↦ rw other (mem-delete t s ss fresh, rest)
    ]

start-NoDup : (p : Pool) (c : Claim) → NoDup p.active → NoDup (start p c).active
unfolding start NoDup
start-NoDup p c h = elim (Bool-cases (not (valid_claim c) || mem c.run.id p.active)) [
  | inl bad ↦ rw bad h
  | inr fine ↦
      let fresh : mem c.run.id p.active ≡ false = ground (arith, fine) in rw fine (fresh, h)
]

start-length : (p : Pool) (c : Claim) → length (start p c).active ≤ length p.active + 1
unfolding start
start-length p c = elim (Bool-cases (not (valid_claim c) || mem c.run.id p.active)) [
  | inl bad ↦ rw bad (omega arith)
  | inr fine ↦ rw fine (omega arith)
]

start_all-NoDup : (p : Pool) (cs : List Claim) → NoDup p.active → NoDup (start_all p cs).active
unfolding start_all
start_all-NoDup p [] h = h
start_all-NoDup p (c ∷ cs) h = start_all-NoDup (start p c) cs (start-NoDup p c h)

start_all-length :
    (p : Pool) (cs : List Claim) → length (start_all p cs).active ≤ length p.active + length cs
unfolding start_all
start_all-length p [] = omega arith
start_all-length p (c ∷ cs) = omega (arith, start_all-length (start p c) cs, start-length p c)

abbrev pub Bounded : Config → Pool → Type 0
Bounded config p = NoDup p.active × (length p.active ≤ pos_part config.capacity)

answered-Bounded :
    (config : Config) (p : Pool) (down : Bool) (answer : Result (List Claim))
    → Fits config p (polled down answer)
    → Bounded config p
    → Bounded config (answered p down answer)
answered-Bounded config p down (ok claims) fits (h, le) =
    (start_all-NoDup p claims h, omega (arith, le, fits, start_all-length p claims))
answered-Bounded config p true (err e) _ h = h
answered-Bounded config p false (err e) _ h = h

take-Bounded :
    (config : Config) (p : Pool) (t : Taken)
    → Fits config p t
    → Bounded config p
    → Bounded config (take config p t)
unfolding take
take-Bounded config p (completed c) _ (h, le) =
    (delete-NoDup c.run_id p.active h, omega (arith, le, delete-length c.run_id p.active))
take-Bounded config p (polled down answer) fits h = elim (Bool-cases (can_poll config p)) [
  | inl open_slot ↦ rw open_slot (answered-Bounded config p down answer fits h)
  | inr full ↦ rw full h
]

takes-kept :
    (config : Config) (p : Pool) (ts : List Taken)
    → AllFit config p ts
    → Bounded config p
    → Bounded config (takes config p ts)
unfolding takes AllFit
takes-kept config p [] _ h = h
takes-kept config p (t ∷ ts) (fits, rest) h =
    takes-kept config (take config p t) ts rest (take-Bounded config p t fits h)

-- Whatever the loop takes, in any order, if each poll is answered with at most the claims it asked
-- for, then at most `Capacity` attempts are active and no two of them work on the same Run.
pub takes-Bounded :
    (config : Config) (ts : List Taken)
    → AllFit config empty ts
    → Bounded config (takes config empty ts)
unfolding NoDup
takes-Bounded config ts fit = takes-kept config empty ts fit (tt, omega arith)
