-- ===== src/Postgres/NativeRenewal.antt =====
-- internal/postgres/native_renewals.go: the renewal of a native worker's lease. `sha256` stands for the
-- digest of Go's library. A negative duration is refused by the first check, so durations are natural
-- numbers here.
use perfeng_control_plane.Base.{
  ℕ, ◌+◌, ◌*◌, Bool, true, false, List, [], ◌∷◌, Option, none, some, not, ◌&&◌, ◌||◌, ltb, leb,
  ◌==◌, length, if◌then◌else◌, is_none,
}
use perfeng_control_plane.Base.Int.{pos}
use perfeng_control_plane.Base.Maps.{lookup, insert}
use perfeng_control_plane.Text.{Text, Text-discrete, text, text_eq}
use perfeng_control_plane.Text.Regex.{Regex, seq, one_of, matches, lower, lower_digit, up_to, among}
use perfeng_control_plane.Time.{second}
use perfeng_control_plane.Errors.{
  Error, Result, ok, err, ◌>>=◌, validation, stale_revision, lease_gone,
}
use perfeng_control_plane.Contract.{State, cancelling, terminal}
use perfeng_control_plane.Identity.{valid_lease_ttl}
use perfeng_control_plane.Run.{Run, ExecutionTarget, native_linux}
use perfeng_control_plane.Native.{
  Phase, valid_phase, advance_phase, Renewal, valid_renewal, valid_lease_identifier,
  valid_lease_policy, valid_cancellation_grace,
}
use perfeng_control_plane.Native.Timing.{response}
use perfeng_control_plane.Postgres.Tables.{
  RunRow, NativeRow, Database, find_row, member, Weather, transact,
}
use perfeng_control_plane.Postgres.Claims.{set_snapshot}

pub record Request : Type 0 where
  pub lease_id : Text
  pub attempt_id : Text
  pub expected_run_revision : ℕ
  pub phase : Phase
  pub capability : Text

-- Visible ASCII without a comma.
unfoldable pub visible : Text → Bool
visible [] = true
visible (c ∷ cs) = not (ltb c 33 || ltb 126 c || c == 44) && visible cs

unfoldable pub valid_lease_capability : Text → Bool
valid_lease_capability value = leb 32 (length value) && leb (length value) 4096 && visible value

-- `^[a-z][a-z0-9-]{1,62}$`
abbrev worker_pattern : Regex
worker_pattern =
    let rest = one_of (λ c. lower_digit c || among "-" c) in
    seq (one_of lower) (seq rest (up_to 61 rest))

unfoldable pub valid_native_worker : Text → Bool
unfolding matches
valid_native_worker value = matches worker_pattern value

unfoldable pub valid_renewal_request : Request → Bool
valid_renewal_request r =
    valid_lease_identifier r.lease_id
    && valid_lease_identifier r.attempt_id
    && leb 1 r.expected_run_revision
    && valid_phase r.phase
    && valid_lease_capability r.capability

unfoldable pub native_lease_location : List (Text × NativeRow) → Text → Result (Text × Text)
native_lease_location [] lease_id = err lease_gone
native_lease_location ((run_id, row) ∷ rows) lease_id =
    let rest = native_lease_location rows lease_id in
    if text_eq row.lease_id lease_id then ok (run_id, row.worker_id) else rest

abbrev pub find_native : Database → Text → Option NativeRow
find_native db id = lookup Text-discrete id db.native_leases

abbrev is_native : ExecutionTarget → Bool
is_native native_linux = true
is_native _ = false

abbrev pub native_run : Text → Option RunRow → Result Run
native_run id none = err lease_gone
native_run id (some row) =
    if not (text_eq row.snapshot.id id) || not (is_native row.target)
    then err (Error.other (text "invalid stored native execution target"))
    else ok row.snapshot

abbrev pub native_row : Option NativeRow → Result NativeRow
native_row none = err lease_gone
native_row (some row) = ok row

pub record Scope : Type 0 where
  pub run_id : Text
  pub current : Run
  pub stored : NativeRow

abbrev pub lock_rows : Database → Text → Result Scope
lock_rows db id = native_run id (find_row db id) >>= λ r.
    native_row (find_native db id) >>= λ row. ok (record { run_id = id; current = r; stored = row })

unfoldable pub lock_native_renewal_scope : Database → Text → Text → Result Scope
lock_native_renewal_scope db worker_id lease_id =
    native_lease_location db.native_leases lease_id >>= λ found.
    if not (text_eq found.1 worker_id) || not (member worker_id db.present)
    then err lease_gone
    else lock_rows db found.0

abbrev pub is_cancelling : State → Bool
is_cancelling cancelling = true
is_cancelling _ = false

abbrev pub malformed : Text → Request → ℕ → ℕ → Bool
malformed worker_id r ttl grace =
    not (valid_native_worker worker_id)
    || not (valid_renewal_request r)
    || not (valid_lease_ttl (pos ttl))
    || not (valid_cancellation_grace (pos grace) (pos ttl))

-- A CANCELLING Run stays as it is.
unfoldable pub next_run : Run → Phase → ℕ → Result Run
next_run r phase now = if is_cancelling r.state then ok r else advance_phase r r.revision phase now

abbrev pub with_run : Database → Text → Run → Run → Database
with_run db id current next =
    if next.revision == current.revision then db else set_snapshot db id next

abbrev pub renewed_row : NativeRow → ℕ → NativeRow
renewed_row row t = record row { expires_at = t }

abbrev pub written : Database → Scope → Run → ℕ → Database
written db s next t =
    let moved = with_run db s.run_id s.current next in
    record moved {
      native_leases = insert Text-discrete s.run_id (renewed_row s.stored t) moved.native_leases;
    }

abbrev pub answer : Request → Scope → Run → ℕ → ℕ → ℕ → Renewal
answer r s next now ttl grace =
    response r.lease_id r.attempt_id next.revision now ttl grace s.stored.renew_after_seconds
      (is_cancelling s.current.state)

abbrev pub checked : Database × Renewal → Result (Database × Renewal)
checked (db, r) =
    if not (valid_renewal r)
    then err (Error.other (text "invalid native lease renewal"))
    else ok (db, r)

module _ (sha256 : Text → Text) where
  unfoldable pub matching_authority : NativeRow → Text → Text → Text → Text → Bool
  matching_authority row worker_id lease_id attempt_id capability =
      text_eq row.lease_id lease_id
      && text_eq row.attempt_id attempt_id
      && text_eq row.worker_id worker_id
      && text_eq row.capability_digest (sha256 capability)

  unfoldable pub current_native_lease : NativeRow → Text → Request → ℕ → Bool
  current_native_lease row worker_id r now =
      matching_authority row worker_id r.lease_id r.attempt_id r.capability
      && is_none row.released_at
      && ltb now row.expires_at

  unfoldable pub renew_scope :
      Database → Text → Request → ℕ → ℕ → ℕ → Scope → Result (Database × Renewal)
  renew_scope db worker_id r ttl grace now s =
      if not (current_native_lease s.stored worker_id r now)
      then err lease_gone
      else if not (s.current.revision == r.expected_run_revision)
      then err stale_revision
      else if terminal s.current.state
      then err lease_gone
      else if not (valid_lease_policy (pos ttl) (pos (s.stored.renew_after_seconds * second)))
      then err (Error.other (text "invalid stored native lease policy"))
      else next_run s.current r.phase now >>= λ next.
          checked (written db s next (now + ttl), answer r s next now ttl grace)

  unfoldable pub renew_native_lease :
      Weather → Database → Text → Request → ℕ → ℕ → ℕ → Database × Result Renewal
  renew_native_lease w db worker_id r ttl grace now =
      if malformed worker_id r ttl grace
      then (db, err validation)
      else transact w db (
          lock_native_renewal_scope db worker_id r.lease_id
          >>= renew_scope db worker_id r ttl grace now)
