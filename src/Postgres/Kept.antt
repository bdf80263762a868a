-- ===== src/Postgres/Kept.antt =====
-- What the writes of one transaction leave as it was.
use perfeng_control_plane.Base.{
  ℕ, suc, ◌<◌, ◌≡◌, refl, ◌≢◌, List, [], ◌∷◌, Option, none, some, arith, inl, inr, ◌∙◌, ap, sym,
  Bool-cases, Bool, true, false, if◌then◌else◌,
}
use perfeng_control_plane.Base.Int.{ℤ}
use perfeng_control_plane.Base.Maps.{lookup-insert_ne}
use perfeng_control_plane.Text.{Text, Text-discrete}
use perfeng_control_plane.Errors.{Error, Result, ok, err}
use perfeng_control_plane.Contract.{terminal}
use perfeng_control_plane.Run.{Run}
use perfeng_control_plane.Run.Claims.{Lease, Claim}
use perfeng_control_plane.Postgres.Tables.{
  RunRow, LeaseRow, Database, find_row, find_lease, Weather, Commit, done, rolled_back, uncertain,
  transact,
}
use perfeng_control_plane.Postgres.Candidates.{Candidate}
use perfeng_control_plane.Postgres.Claims.{
  put_lease, try_acquire_claim, taken, acquire_each, lock_owned_claim, set_snapshot, with_snapshot,
  with_expiry, with_delay, advanced,
}
use perfeng_control_plane.Postgres.Fencing.{lock_owned_claim-Owns, try_acquire_claim-written}

abbrev pub Other : Text → LeaseRow → Lease → Type 0
Other id row l = l.run_id ≡ id → row.worker_id ≡ l.worker_id → row.token ≢ l.token

find_lease-put_lease_ne :
    (db : Database) (j id : Text) (row : LeaseRow)
    → j ≢ id
    → find_lease (put_lease db j row) id ≡ find_lease db id
find_lease-put_lease_ne db j id row h = lookup-insert_ne Text-discrete j id row db.leases h

not_acquired :
    (db : Database) (row : LeaseRow) (c : Candidate) (worker_id token : Text) (ttl : ℤ) (now : ℕ)
    → find_lease db c.snapshot.id ≡ some row
    → now < row.expires_at
    → try_acquire_claim db c worker_id ttl now token ≡ none
unfolding try_acquire_claim
not_acquired db row c worker_id token ttl now kept soon = rw kept (ground arith)

taken-other :
    (db : Database) (id : Text) (row : LeaseRow) (c : Candidate) (cs : List Claim)
    (r : Option (Database × Claim))
    → find_lease db id ≡ some row
    → ((new : Database) (claim : Claim) → r ≡ some (new, claim) → find_lease new id ≡ some row)
    → find_lease (taken db cs r).0 id ≡ some row
taken-other db id row c cs none kept f = kept
taken-other db id row c cs (some (new, claim)) kept f = f new claim refl

acquired :
    (db : Database) (id : Text) (row : LeaseRow) (c : Candidate) (worker_id token : Text) (ttl : ℤ)
    (now : ℕ) (cs : List Claim)
    → find_lease db id ≡ some row
    → now < row.expires_at
    → find_lease (taken db cs (try_acquire_claim db c worker_id ttl now token)).0 id ≡ some row
acquired db id row c worker_id token ttl now cs kept soon =
    taken-other db id row c cs (try_acquire_claim db c worker_id ttl now token) kept λ new claim h.
      elim (Text-discrete c.snapshot.id id) [
        | yes same ↦
            let here : find_lease db c.snapshot.id ≡ some row = ap (find_lease db) same ∙ kept in
            absurd (cc (h, not_acquired db row c worker_id token ttl now here soon))
        | no other ↦
            let (e, _) = try_acquire_claim-written db new c worker_id token ttl now claim h in
            ap (λ d. find_lease d id) e
            ∙ (find_lease-put_lease_ne db c.snapshot.id id _ other ∙ kept)
      ]

pub acquire_each-kept :
    (id : Text) (row : LeaseRow) (worker_id : Text) (ttl : ℤ) (clock : ℕ → ℕ) (token : ℕ → Text)
    (n : ℕ) (db : Database) (held : List Claim) (cs : List Candidate)
    → ((k : ℕ) → clock k < row.expires_at)
    → find_lease db id ≡ some row
    → find_lease (acquire_each worker_id ttl clock token n (db, held) cs).0 id ≡ some row
unfolding acquire_each
acquire_each-kept id row worker_id ttl clock token n db held [] soon kept = kept
acquire_each-kept id row worker_id ttl clock token n db held (c ∷ cs) soon kept =
    let s = taken db held (try_acquire_claim db c worker_id ttl (clock n) (token n)) in
    acquire_each-kept id row worker_id ttl clock token (suc n) s.0 s.1 cs soon
      (acquired db id row c worker_id (token n) ttl (clock n) held kept (soon n))

-- What holds of the tables after a transaction.
transact-ends {ℓ} :
    {A : Type ℓ} (P : Database → Type 0) (begin : Option Error) (c : Commit) (db : Database)
    (body : Result (Database × A))
    → P db
    → ((new : Database) (a : A) → body ≡ ok (new, a) → P new)
    → P (transact (record { begin = begin; commit = c }) db body).0
unfolding transact
transact-ends P (some e) c db body p f = p
transact-ends P none c db (err e) p f = p
transact-ends P none done db (ok (new, a)) p f = f new a refl
transact-ends P none (rolled_back e) db (ok (new, a)) p f = p
transact-ends P none (uncertain e) db (ok (new, a)) p f = f new a refl

pub transact-after {ℓ} :
    {A : Type ℓ} (P : Database → Type 0) (w : Weather) (db : Database)
    (body : Result (Database × A))
    → P db
    → ((new : Database) (a : A) → body ≡ ok (new, a) → P new)
    → P (transact w db body).0
transact-after P w db body p f = transact-ends P w.begin w.commit db body p f

pub set_expiry-kept :
    (db : Database) (j id : Text) (t : ℕ) (row : LeaseRow) (o : Option LeaseRow)
    → j ≢ id
    → find_lease db id ≡ some row
    → find_lease (with_expiry t o db j) id ≡ some row
set_expiry-kept db j id t row none other kept = kept
set_expiry-kept db j id t row (some r) other kept =
    find_lease-put_lease_ne db j id (record r { expires_at = t }) other ∙ kept

pub with_delay-kept :
    (db : Database) (j id : Text) (now t : ℕ) (row : LeaseRow) (o : Option LeaseRow)
    → j ≢ id
    → find_lease db id ≡ some row
    → find_lease (with_delay now t o db j) id ≡ some row
with_delay-kept db j id now t row none other kept = kept
with_delay-kept db j id now t row (some r) other kept =
    find_lease-put_lease_ne db j id (record r { expires_at = now; available_at = t }) other ∙ kept

pub set_snapshot-kept :
    (db : Database) (j id : Text) (next : Run) (o : Option RunRow)
    → find_lease (with_snapshot next o db j) id ≡ find_lease db id
set_snapshot-kept db j id next none = refl
set_snapshot-kept db j id next (some r) = refl

pub advanced-kept :
    (db : Database) (j id : Text) (next : Run) (now : ℕ) (row : LeaseRow)
    → j ≢ id
    → find_lease db id ≡ some row
    → find_lease (advanced db j next now) id ≡ some row
advanced-kept db j id next now row other kept =
    let after = set_snapshot-kept db j id next (find_row db j) ∙ kept in
    let ended =
      set_expiry-kept (set_snapshot db j next) j id now row (find_lease (set_snapshot db j next) j)
        other after in
    elim (Bool-cases (terminal next.state)) [
      | inl final ↦ rw final ended
      | inr active ↦ rw active after
    ]

-- The owner of another lease of the Run has no rows to write.
pub not_owned :
    (db : Database) (id : Text) (row : LeaseRow) (l : Lease) (now : ℕ) (r : Run)
    → find_lease db id ≡ some row
    → Other id row l
    → lock_owned_claim db l now ≡ ok r
    → l.run_id ≢ id
not_owned db id row l now r kept other h same =
    let o = lock_owned_claim-Owns db l now r h in
    let e : some o.stored ≡ some row = sym o.kept ∙ (ap (find_lease db) same ∙ kept) in
    other same (grind (arith, o.worker, e)) (grind (arith, o.same_token, e))

pub guard-after {ℓ} :
    {A : Type ℓ} (P : Database → Type 0) (b : Bool) (x y : Database × A)
    → P x.0
    → P y.0
    → P (if b then x else y).0
guard-after P true x y p q = p
guard-after P false x y p q = q
