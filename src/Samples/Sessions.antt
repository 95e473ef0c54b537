-- ===== src/Samples/Sessions.antt =====
-- Session "s1" starts, its lease runs out, and "s2" takes over.
use mathlib.Core.List.{[], ◌∷◌}
use model_lib.Prelude.{◌+◌, ◌*◌, ◌<◌, ◌≡◌, ◌≢◌, ◌≤◌, ◌⊎◌, refl, none, some, true, false, arith}
use model_lib.Tx.{ok, err, tx_steps}
use model_lib.Text.{strip, is_empty}
use model_lib.Stamp.{text_lt, plus_seconds, microseconds}
use model_lib.Schema.{Db, master_session_expired}
use model_lib.Schema.Rows.{MasterSession}
use model_lib.Tables.{find_project, update_project, insert_event}
use model_lib.Session.{
  fresh_session, find_session, has_history, start_master_session, start_block, resume_existing,
  displace_active, open_session, insert_session, raise_epoch, find_active, mark_stale,
  update_session,
}
use model_lib.Prelude.{find_row, exists_row, count_rows, update_rows}
use model_lib.Session.Epoch.{epoch_of}
use model_lib.Session.Single.{IsConsistent, start_master_session-IsConsistent}
use model_lib.Session.Keep.{upkeep-IsConsistent}
use model_lib.Session.Outcome.{Opened, Resumed, start_master_session_lem}
use model_lib.Session.Upkeep.{
  renew, heartbeat_block, heartbeat_master_session, inspect_master_session, end_master_session,
  advance_master_epoch,
}
use model_lib.Session.Heartbeat.{
  is_accepted, Answered, heartbeat_master_session_lem, heartbeat_is_timely,
}
use model_lib.Session.Fence.{start_fences_earlier_epochs, expired_session_never_restarts}
use model_lib.Samples.{project, project_db, seconds}
use model_lib.Samples.Printer.{codec}

abbrev first : MasterSession
first = fresh_session "p" "s1" 1 (seconds 0) (seconds 60)

abbrev second : MasterSession
second = fresh_session "p" "s2" 2 (seconds 100) (seconds 160)

abbrev one_session : Db
one_session = record project_db { master_sessions = first ∷ [] }

unfoldable run_sessions : Unit {0}
unfolding tx_steps start_master_session start_block resume_existing displace_active open_session
    insert_session insert_event raise_epoch find_active mark_stale update_session find_session
    has_history find_project update_project find_row exists_row count_rows update_rows strip
    is_empty text_lt epoch_of
run_sessions = tt

first_starts : (start_master_session codec "p" "s1" 0 60 project_db).0 ≡ ok first
unfolding run_sessions
first_starts = refl

second_starts : (start_master_session codec "p" "s2" (seconds 100) 60 one_session).0 ≡ ok second
unfolding run_sessions
second_starts = refl

one_session-IsConsistent : IsConsistent "p" one_session
unfolding run_sessions
one_session-IsConsistent = record { one_active = omega arith; none_ahead = refl }

start_master_session-IsConsistent_example :
    IsConsistent "p" (start_master_session codec "p" "s2" (seconds 100) 60 one_session).1
start_master_session-IsConsistent_example =
    start_master_session-IsConsistent "p" codec "p" "s2" (seconds 100) 60 one_session
      one_session-IsConsistent

upkeep-IsConsistent_example :
    IsConsistent "p" (heartbeat_master_session "p" "s1" 1 (seconds 30) 60 one_session).1
    × IsConsistent "p" (inspect_master_session codec "p" (seconds 30) one_session).1
    × IsConsistent "p" (end_master_session codec "p" "s1" 1 "done" (seconds 30) one_session).1
    × IsConsistent "p" (advance_master_epoch codec "p" 1 "u" one_session).1
upkeep-IsConsistent_example =
    upkeep-IsConsistent "p" codec "p" "s1" "done" "u" 1 (seconds 30) 60 one_session
      one_session-IsConsistent

start_master_session_lem_example :
    let after = (start_master_session codec "p" "s2" (seconds 100) 60 one_session).1 in
    Resumed (strip "p") (strip "s2") (seconds 100) one_session second after
    ⊎ Opened
        (strip "p")
        (strip "s2")
        (seconds 100)
        (plus_seconds (seconds 100) 60)
        one_session
        second
        after
start_master_session_lem_example =
    start_master_session_lem codec "p" "s2" (seconds 100) 60 one_session second_starts

unused : find_session (strip "p") (strip "s2") one_session ≡ none
unfolding run_sessions
unused = refl

history : has_history (strip "p") one_session ≡ true
unfolding run_sessions
history = refl

epoch_one : 1 ≤ epoch_of (strip "p") one_session
unfolding run_sessions
epoch_one = omega arith

start_fences_earlier_epochs_example :
    let after = (start_master_session codec "p" "s2" (seconds 100) 60 one_session).1 in
    ((heartbeat_master_session "p" "s1" 1 (seconds 101) 60 after).0 ≢ ok first)
    × ((end_master_session codec "p" "s1" 1 "done" (seconds 101) after).0 ≢ ok first)
start_fences_earlier_epochs_example =
    start_fences_earlier_epochs codec "p" "s2" (seconds 100) 60 one_session "s1" "done" 1
      (seconds 101) 60 second_starts unused history epoch_one

found_project : find_project (strip "p") one_session ≡ some project
unfolding run_sessions
found_project = refl

found_first : find_session (strip "p") (strip "s1") one_session ≡ some first
unfolding run_sessions
found_first = refl

run_out : text_lt (seconds 100) (seconds 60) ≡ false
unfolding run_sessions
run_out = refl

expired_session_never_restarts_example :
    (start_master_session codec "p" "s1" (seconds 100) 60 one_session).0 ≢ ok first
expired_session_never_restarts_example =
    expired_session_never_restarts codec "p" "s1" (seconds 100) 60 one_session project first first
      found_project found_first run_out

heartbeat_master_session_lem_example :
    Answered
      (strip "p")
      (strip "s1")
      1
      (seconds 100)
      60
      one_session
      (heartbeat_master_session "p" "s1" 1 (seconds 100) 60 one_session)
heartbeat_master_session_lem_example =
    heartbeat_master_session_lem "p" "s1" 1 (seconds 100) 60 one_session

abbrev beaten : MasterSession
beaten = record first { heartbeat_at = seconds 30; lease_until = plus_seconds (seconds 30) 60 }

beats : (heartbeat_master_session "p" "s1" 1 (seconds 30) 60 one_session).0 ≡ ok beaten
unfolding run_sessions heartbeat_master_session heartbeat_block renew
beats = refl

heartbeat_is_timely_example :
    ((old : MasterSession) × (find_session (strip "p") (strip "s1") one_session ≡ some old)
      × (seconds 30 < old.lease_until + microseconds))
    × (plus_seconds (seconds 30) 60 ≡ seconds 30 + 60 * microseconds)
heartbeat_is_timely_example = heartbeat_is_timely "p" "s1" 1 (seconds 30) 60 one_session beats

-- the first session beats in time, and not once its lease has run out
beats_in_time : is_accepted "p" "s1" 1 (seconds 30) 60 one_session ≡ true
unfolding run_sessions
beats_in_time = refl

late_beat_raises :
    heartbeat_master_session "p" "s1" 1 (seconds 100) 60 one_session
    ≡ (err master_session_expired, one_session)
unfolding run_sessions heartbeat_master_session heartbeat_block
late_beat_raises = refl
