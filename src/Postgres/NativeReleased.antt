-- ===== src/Postgres/NativeReleased.antt =====
-- A released native lease stays released.
use perfeng_control_plane.Base.{
  ℕ, ◌≡◌, refl, Bool, true, false, none, some, arith, ◌∙◌, ap, sym, not, ◌||◌, ◌&&◌, ◌==◌, is_none,
  ltb, inl, inr, Bool-cases, if◌then◌else◌,
}
use mathlib.Core.Path.{subst}
use perfeng_control_plane.Base.Maps.{lookup-insert_self}
use perfeng_control_plane.Text.{Text, Text-discrete, text_eq}
use perfeng_control_plane.Errors.{Error, Result, ok, err, conflict, lease_gone, stale_revision}
use perfeng_control_plane.Contract.{terminal}
use perfeng_control_plane.Run.{Run}
use perfeng_control_plane.Postgres.Tables.{NativeRow, Database, Weather}
use perfeng_control_plane.Postgres.Owner.{bind-ok, transact-ok}
use perfeng_control_plane.Postgres.NativeRenewal.{
  Request, Scope, valid_native_worker, find_native, with_run,
}
unfoldable use perfeng_control_plane.Postgres.NativeRenewal.{
  native_lease_location, lock_native_renewal_scope, matching_authority, current_native_lease,
  renew_scope,
}
use perfeng_control_plane.Postgres.NativeRelease.{
  ReleaseRequest, reason_text, valid_release, released_row, put_native, string_of, repeated,
  first_release,
}
unfoldable use perfeng_control_plane.Postgres.NativeRelease.{
  released_native_run, release_scope, release_native_lease,
}
use perfeng_control_plane.Postgres.NativeLocked.{
  Locked, locked, Locked-lock, location-insert, released_native_run-id, with_run-tables,
  with_run-run,
}

ok_first : (x y : Text × Text) → ok x ≡ ok y → x.0 ≡ y.0
ok_first x y h = ground arith

some_row : {a b : NativeRow} → some a ≡ some b → a ≡ b
some_row h = ground arith

after_checks {ℓ} :
    {A : Type ℓ} (a b : Bool) (db : Database) (e f : Error) (x : Database × Result A)
    {y : Database × A}
    → (if a then (db, err e) else if b then (db, err f) else x) ≡ (y.0, ok y.1)
    → x ≡ (y.0, ok y.1)
after_checks a b db e f x h = ground arith

module _ (sha256 : Text → Text) where
  -- The lease is locked in the tables, with a stored release for the reason.
  pub record Over (db : Database) (worker_id : Text) (r : ReleaseRequest) (s : Scope) : Type 0 where
    pub locked : lock_native_renewal_scope db worker_id r.lease_id ≡ ok s
    pub matching :
        matching_authority sha256 s.stored worker_id r.lease_id r.attempt_id r.capability ≡ true
    pub released : is_none s.stored.released_at ≡ false
    pub reason : string_of s.stored.release_reason ≡ reason_text r.reason

  written-Over :
      (db : Database) (worker_id : Text) (r : ReleaseRequest) (now : ℕ) (s : Scope) (next : Run)
      → Locked db worker_id r.lease_id s
      → matching_authority sha256 s.stored worker_id r.lease_id r.attempt_id r.capability ≡ true
      → next.id ≡ s.current.id
      → (t : Scope) × Over
          (put_native (with_run db s.run_id s.current next) s.run_id (released_row s.stored r now))
          worker_id
          r
          t
  unfolding matching_authority
  written-Over db worker_id r now s next l mine same =
      let (leases, present) = with_run-tables db s.run_id s.current next in
      let (cur, run) = with_run-run db s.run_id s.current next l.run same in
      let t : Scope = record {
        run_id = s.run_id;
        current = cur;
        stored = released_row s.stored r now;
      } in
      (
        t,
        record {
          locked = Locked-lock _ worker_id r.lease_id t (record {
            located =
                location-insert (with_run db s.run_id s.current next).native_leases s.run_id
                  r.lease_id s.stored (released_row s.stored r now) (rw leases l.lease) refl refl
                ∙ rw leases l.located;
            known = rw present l.known;
            run = run;
            lease = lookup-insert_self Text-discrete s.run_id (released_row s.stored r now) _;
          });
          matching = mine;
          released = refl;
          reason = refl;
        },
      )

  first_release-Over :
      (w : Weather) (db new : Database) (worker_id : Text) (r : ReleaseRequest) (now : ℕ)
      (s : Scope)
      → Locked db worker_id r.lease_id s
      → matching_authority sha256 s.stored worker_id r.lease_id r.attempt_id r.capability ≡ true
      → first_release w db s r now ≡ (new, ok tt)
      → (t : Scope) × Over new worker_id r t
  first_release-Over w db new worker_id r now s l mine h =
      let body =
        after_checks (not (ltb now s.stored.expires_at) || terminal s.current.state)
          (not (s.current.revision == r.expected_run_revision)) db lease_gone stale_revision _ h in
      let row = released_row s.stored r now in
      let made = transact-ok w db new _ tt body in
      let (next, moves, e) =
        bind-ok (released_native_run s.current r.reason now)
          (λ n. ok (put_native (with_run db s.run_id s.current n) s.run_id row, tt)) _ made in
      let same = released_native_run-id s.current r.reason now next moves in
      let (t, o) = written-Over db worker_id r now s next l mine same in
      let stored : put_native (with_run db s.run_id s.current next) s.run_id
            (released_row s.stored r now)
          ≡ new =
        ground arith in
      (t, subst (λ d. Over d worker_id r t) stored o)

  release_scope-Over :
      (w : Weather) (db new : Database) (worker_id : Text) (r : ReleaseRequest) (now : ℕ)
      (s : Scope)
      → Locked db worker_id r.lease_id s
      → release_scope sha256 w db worker_id r now (ok s) ≡ (new, ok tt)
      → (t : Scope) × Over new worker_id r t
  unfolding release_scope
  release_scope-Over w db new worker_id r now s l h =
      elim (Bool-cases
        (matching_authority sha256 s.stored worker_id r.lease_id r.attempt_id r.capability)) [
          | inr foreign ↦ absurd (ground arith)
          | inl mine ↦ elim (Bool-cases (is_none s.stored.released_at)) [
            | inl fresh ↦
                first_release-Over w db new worker_id r now s l mine
                  (sym (rw (mine, fresh) refl) ∙ h)
            | inr again ↦
                let e : repeated db s.stored r.reason ≡ (new, ok tt) =
                  sym (rw (mine, again) refl) ∙ h in
                let kept : db ≡ new = ground arith in
                (
                  s,
                  subst (λ d. Over d worker_id r s) kept
                      (record {
                        locked = Locked-lock db worker_id r.lease_id s l;
                        matching = mine;
                        released = again;
                        reason = ground arith;
                      }),
                )
          ]
        ]

  lock-Over :
      (w : Weather) (db new : Database) (worker_id : Text) (r : ReleaseRequest) (now : ℕ)
      (o : Result Scope)
      → lock_native_renewal_scope db worker_id r.lease_id ≡ o
      → release_scope sha256 w db worker_id r now o ≡ (new, ok tt)
      → (s : Scope) × Over new worker_id r s
  unfolding release_scope
  lock-Over w db new worker_id r now (err e) at h = absurd (ground arith)
  lock-Over w db new worker_id r now (ok s) at h =
      release_scope-Over w db new worker_id r now s (locked db worker_id r.lease_id s at) h

  release-Over :
      (w : Weather) (db new : Database) (worker_id : Text) (r : ReleaseRequest) (now : ℕ)
      → release_native_lease sha256 w db worker_id r now ≡ (new, ok tt)
      → (s : Scope) × Over new worker_id r s
  unfolding release_native_lease
  release-Over w db new worker_id r now h =
      lock-Over w db new worker_id r now (lock_native_renewal_scope db worker_id r.lease_id) refl
        (ground arith)

  -- Only the reason of a later release of the same attempt matters.
  abbrev pub SameAttempt : ReleaseRequest → ReleaseRequest → Type 0
  SameAttempt r q =
      (q.lease_id ≡ r.lease_id) × (q.attempt_id ≡ r.attempt_id) × (q.capability ≡ r.capability)

  Over-repeats :
      (db : Database) (worker_id : Text) (r : ReleaseRequest) (s : Scope)
      → Over db worker_id r s
      → (w : Weather) (q : ReleaseRequest) (later : ℕ) → w.begin ≡ none
      → (valid_native_worker worker_id && valid_release q) ≡ true
      → SameAttempt r q
      → release_native_lease sha256 w db worker_id q later ≡ (
        db,
        if text_eq (reason_text r.reason) (reason_text q.reason) then ok tt else err conflict,
      )
  unfolding release_native_lease release_scope
  Over-repeats db worker_id r s o w q later calm fine (l, a, c) =
      let checked : (not (valid_native_worker worker_id) || not (valid_release q)) ≡ false =
        ground arith in
      rw (checked, calm, l, o.locked, a, c, o.matching, o.released, o.reason) (ground arith)

  Over-gone :
      (db : Database) (worker_id : Text) (r : ReleaseRequest) (s : Scope)
      → Over db worker_id r s
      → (worker : Text) (q : Request) (ttl grace now : ℕ) (t : Scope) → q.lease_id ≡ r.lease_id
      → lock_native_renewal_scope db worker q.lease_id ≡ ok t
      → renew_scope sha256 db worker q ttl grace now t ≡ err lease_gone
  unfolding renew_scope current_native_lease
  Over-gone db worker_id r s o worker q ttl grace now t same at =
      let mine = locked db worker_id r.lease_id s o.locked in
      let theirs = locked db worker q.lease_id t at in
      let run : t.run_id ≡ s.run_id =
        ok_first (t.run_id, worker) (s.run_id, worker_id)
          (sym theirs.located
            ∙ (ap (native_lease_location db.native_leases) same ∙ mine.located)) in
      let row : t.stored ≡ s.stored =
        some_row (sym theirs.lease ∙ (ap (find_native db) run ∙ mine.lease)) in
      rw (row, o.released) (ground arith)

  -- An answered release ends the lease for good: a later release of the same attempt, in a
  -- transaction that begins, is answered as the first one for the same reason and with a conflict for
  -- any other, and changes nothing; a renewal that finds the lease is refused at every time.
  pub release_native_lease_ends :
      (w : Weather) (db new : Database) (worker_id : Text) (r : ReleaseRequest) (now : ℕ)
      (v : Weather) (q : ReleaseRequest) (worker : Text) (n : Request) (ttl grace later : ℕ)
      (t : Scope)
      → release_native_lease sha256 w db worker_id r now ≡ (new, ok tt)
      → v.begin ≡ none
      → (valid_native_worker worker_id && valid_release q) ≡ true
      → SameAttempt r q
      → n.lease_id ≡ r.lease_id
      → lock_native_renewal_scope new worker n.lease_id ≡ ok t
      → (release_native_lease sha256 v new worker_id q later ≡ (
        new,
        if text_eq (reason_text r.reason) (reason_text q.reason) then ok tt else err conflict,
      ))
        × (renew_scope sha256 new worker n ttl grace later t ≡ err lease_gone)
  release_native_lease_ends w db new worker_id r now v q worker n ttl grace later t h begun fine
        same lease at =
      let (s, o) = release-Over w db new worker_id r now h in
      (
        Over-repeats new worker_id r s o v q later begun fine same,
        Over-gone new worker_id r s o worker n ttl grace later t lease at,
      )
