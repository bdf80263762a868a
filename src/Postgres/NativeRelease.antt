-- ===== src/Postgres/NativeRelease.antt =====
-- internal/nativeworker/release.go and internal/postgres/native_releases.go: the release of a native
-- worker's lease. `sha256` stands for the digest of Go's library.
use perfeng_control_plane.Base.{
  ℕ, Bool, true, false, [], Option, none, some, not, ◌&&◌, ◌||◌, ltb, leb, ◌==◌, if◌then◌else◌,
  is_none,
}
use perfeng_control_plane.Base.Maps.{insert}
use perfeng_control_plane.Text.{Text, Text-discrete, text, text_eq}
use perfeng_control_plane.Text.Utf8.{valid_string, rune_count}
use perfeng_control_plane.Errors.{
  Result, ok, err, ◌>>=◌, validation, conflict, stale_revision, lease_gone,
}
use perfeng_control_plane.Contract.{aborted, terminal}
use perfeng_control_plane.Run.{Run, to_state, transition}
use perfeng_control_plane.Native.{valid_lease_identifier}
use perfeng_control_plane.Postgres.Tables.{NativeRow, Database, Weather, begun, transact}
use perfeng_control_plane.Postgres.NativeRenewal.{
  Scope, valid_native_worker, valid_lease_capability, lock_native_renewal_scope, matching_authority,
  is_cancelling, with_run,
}

pub data ReleaseReason : Type 0 where
  cancellation_requested lease_lost worker_shutdown preparation_failed : ReleaseReason
  other : Text → ReleaseReason

abbrev pub reason_text : ReleaseReason → Text
reason_text cancellation_requested = text "CANCELLATION_REQUESTED"
reason_text lease_lost = text "LEASE_LOST"
reason_text worker_shutdown = text "WORKER_SHUTDOWN"
reason_text preparation_failed = text "PREPARATION_FAILED"
reason_text (ReleaseReason.other name) = name

unfoldable pub valid_reason : ReleaseReason → Bool
valid_reason (ReleaseReason.other name) = false
valid_reason _ = true

pub record ReleaseRequest : Type 0 where
  pub lease_id : Text
  pub attempt_id : Text
  pub expected_run_revision : ℕ
  pub reason : ReleaseReason
  pub message : Text
  pub capability : Text

unfoldable pub valid_release_message : Text → Bool
unfolding valid_string rune_count
valid_release_message message =
    text_eq message [] || valid_string message && leb (rune_count message) 512

unfoldable pub valid_release : ReleaseRequest → Bool
unfolding valid_reason valid_release_message
valid_release r =
    valid_lease_identifier r.lease_id
    && valid_lease_identifier r.attempt_id
    && leb 1 r.expected_run_revision
    && valid_reason r.reason
    && valid_release_message r.message
    && valid_lease_capability r.capability

abbrev pub asks_cancellation : ReleaseReason → Bool
asks_cancellation cancellation_requested = true
asks_cancellation _ = false

-- A worker that confirms a cancellation ends the Run; any other reason leaves an active Run as it is.
unfoldable pub released_native_run : Run → ReleaseReason → ℕ → Result Run
released_native_run r reason now =
    if asks_cancellation reason
    then if not (is_cancelling r.state)
      then err conflict
      else transition r r.revision (to_state aborted) now
    else if is_cancelling r.state
    then err conflict
    else ok r

abbrev pub null_if_empty : Text → Option Text
null_if_empty t = if text_eq t [] then none else some t

abbrev pub released_row : NativeRow → ReleaseRequest → ℕ → NativeRow
released_row row r now = record row {
  expires_at = now;
  released_at = some now;
  release_reason = some (reason_text r.reason);
  release_message = null_if_empty r.message;
}

abbrev pub put_native : Database → Text → NativeRow → Database
put_native db id row = record db { native_leases = insert Text-discrete id row db.native_leases }

-- A `NULL` reads as the empty string.
abbrev pub string_of : Option Text → Text
string_of none = []
string_of (some t) = t

-- A release that was made before: the same reason is answered as the first was.
abbrev pub repeated : Database → NativeRow → ReleaseReason → Database × Result (Unit {0})
repeated db row reason =
    if text_eq (string_of row.release_reason) (reason_text reason)
    then (db, ok tt)
    else (db, err conflict)

abbrev pub first_release :
    Weather → Database → Scope → ReleaseRequest → ℕ → Database × Result (Unit {0})
first_release w db s r now =
    if not (ltb now s.stored.expires_at) || terminal s.current.state
    then (db, err lease_gone)
    else if not (s.current.revision == r.expected_run_revision)
    then (db, err stale_revision)
    else transact w db (
        released_native_run s.current r.reason now >>= λ next. ok (
          put_native (with_run db s.run_id s.current next) s.run_id (released_row s.stored r now),
          tt,
        ))

module _ (sha256 : Text → Text) where
  unfoldable pub release_scope :
      Weather → Database → Text → ReleaseRequest → ℕ → Result Scope → Database × Result (Unit {0})
  release_scope w db worker_id r now (err e) = (db, err e)
  release_scope w db worker_id r now (ok s) =
      if not (matching_authority sha256 s.stored worker_id r.lease_id r.attempt_id r.capability)
      then (db, err lease_gone)
      else if not (is_none s.stored.released_at)
      then repeated db s.stored r.reason
      else first_release w db s r now

  unfoldable pub release_native_lease :
      Weather → Database → Text → ReleaseRequest → ℕ → Database × Result (Unit {0})
  release_native_lease w db worker_id r now =
      if not (valid_native_worker worker_id) || not (valid_release r)
      then (db, err validation)
      else begun w.begin db
          (release_scope w db worker_id r now (lock_native_renewal_scope db worker_id r.lease_id))
