-- ===== src/Postgres/Batch.antt =====
-- The size of the batch that a claim returns.
use perfeng_control_plane.Base.{
  ℕ, zero, suc, ◌+◌, ◌≤◌, ◌≡◌, List, [], ◌∷◌, ◌++◌, Option, none, some, refl, inl, inr, Bool-cases,
  arith, length,
}
use perfeng_control_plane.Base.Int.{ℤ, pos_part}
use perfeng_control_plane.Text.{Text}
use perfeng_control_plane.Errors.{ok}
use perfeng_control_plane.Run.Claims.{Claim, valid_claim_options}
use perfeng_control_plane.Postgres.Tables.{Database, Weather, transact}
use perfeng_control_plane.Postgres.Candidates.{
  Candidate, Found, first, found_rows, lock_claim_candidates,
}
use perfeng_control_plane.Postgres.Claims.{taken, try_acquire_claim, acquire_each, claim_runs}
use perfeng_control_plane.Postgres.Owner.{transact-ok}

length-snoc : (xs : List Claim) (x : Claim) → length (xs ++ x ∷ []) ≡ length xs + 1
length-snoc [] x = refl
length-snoc (y ∷ ys) x = ground (arith, length-snoc ys x)

taken-length :
    (db : Database) (claims : List Claim) (r : Option (Database × Claim))
    → length (taken db claims r).1 ≤ length claims + 1
taken-length db claims none = omega arith
taken-length db claims (some (new, c)) = omega (arith, length-snoc claims c)

acquire_each-length :
    (worker : Text) (ttl : ℤ) (clock : ℕ → ℕ) (token : ℕ → Text) (n : ℕ) (db : Database)
    (claims : List Claim) (cs : List Candidate)
    → length (acquire_each worker ttl clock token n (db, claims) cs).1 ≤ length claims + length cs
unfolding acquire_each
acquire_each-length worker ttl clock token n db claims [] = omega arith
acquire_each-length worker ttl clock token n db claims (c ∷ cs) =
    let r = try_acquire_claim db c worker ttl (clock n) (token n) in
    let s = taken db claims r in
    omega (
      arith,
      acquire_each-length worker ttl clock token (suc n) s.0 s.1 cs,
      taken-length db claims r,
    )

first-length : (n : ℕ) (rows : List Found) → length (first n rows) ≤ n
unfolding first
first-length zero rows = omega arith
first-length (suc n) [] = omega arith
first-length (suc n) (r ∷ rows) = omega (arith, first-length n rows)

-- An answered claim has no more Runs than it asked for.
pub claim_runs-length :
    (w : Weather) (db new : Database) (worker : Text) (limit ttl : ℤ) (locked : List Text) (q : ℕ)
    (clock : ℕ → ℕ) (token : ℕ → Text) (claims : List Claim)
    → claim_runs w db worker limit ttl locked q clock token ≡ (new, ok claims)
    → length claims ≤ pos_part limit
unfolding claim_runs lock_claim_candidates
claim_runs-length w db new worker limit ttl locked q clock token claims h =
    let candidates = first (pos_part limit) (found_rows db q locked db.runs) in
    let s = acquire_each worker ttl clock token 0 (db, []) candidates in
    elim (Bool-cases (valid_claim_options worker limit ttl)) [
      | inr bad ↦ absurd (ground arith)
      | inl good ↦
          let go : transact w db (ok s) ≡ (new, ok claims) = ground arith in
          let e : s.1 ≡ claims = ground (arith, transact-ok w db new (ok s) claims go) in
          rw⁻¹ e (
            omega (
              arith,
              acquire_each-length worker ttl clock token 0 db [] candidates,
              first-length (pos_part limit) (found_rows db q locked db.runs),
            ))
    ]
