-- ===== src/Postgres/Runs.antt =====
-- internal/postgres/repository.go: reading, cancelling and advancing a stored Run. A row whose bytes
-- are no Run answers as a failed statement does.
use perfeng_control_plane.Base.{ℕ, Option, none, some, ◌==◌, if◌then◌else◌}
use perfeng_control_plane.Text.{Text, text_eq}
use perfeng_control_plane.Errors.{Error, Result, ok, err, not_found}
use perfeng_control_plane.Run.{Run, Change, transition, request_cancellation}
use perfeng_control_plane.Postgres.Tables.{RunRow, Database, find_row, Weather, transact}
use perfeng_control_plane.Postgres.Claims.{set_snapshot}

abbrev pub visible_row : Text → Option RunRow → Result Run
visible_row principal none = err not_found
visible_row principal (some row) =
    if text_eq row.principal principal then ok row.snapshot else err not_found

unfoldable pub locked_run : Database → Text → Text → Result Run
locked_run db principal id = visible_row principal (find_row db id)

abbrev read_run : Option Error → Result Run → Result Run
read_run (some e) found = err e
read_run none found = found

unfoldable pub get : Option Error → Database → Text → Text → Result Run
get failed db principal id = read_run failed (locked_run db principal id)

-- The transaction rolls back and answers with the current Run.
abbrev pub unchanged : Option Error → Database → Run → Database × Result Run
unchanged none db current = (db, ok current)
unchanged (some e) db current = (db, err e)

-- The write of a mutation. The same revision writes nothing.
abbrev pub changed : Weather → Database → Text → Run → Result Run → Database × Result Run
changed w db id current (err e) = transact w db (err e)
changed w db id current (ok next) =
    if next.revision == current.revision
    then unchanged w.begin db current
    else transact w db (ok (set_snapshot db id next, next))

abbrev pub on_locked :
    Weather → Database → Text → (Run → Result Run) → Result Run → Database × Result Run
on_locked w db id change (err e) = transact w db (err e)
on_locked w db id change (ok current) = changed w db id current (change current)

unfoldable pub mutate :
    Weather → Database → Text → Text → (Run → Result Run) → Database × Result Run
mutate w db principal id change = on_locked w db id change (locked_run db principal id)

unfoldable pub cancel : Weather → Database → Text → Text → ℕ → Database × Result Run
cancel w db principal id now = mutate w db principal id (λ r. request_cancellation r now)

unfoldable pub advance : Weather → Database → Text → Text → ℕ → Change → ℕ → Database × Result Run
advance w db principal id revision change now =
    mutate w db principal id (λ r. transition r revision change now)
