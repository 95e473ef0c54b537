-- ===== src/Session.antt =====
-- The master session lease of master_a_dynamic_v4/state_store.py: `start_master_session`,
-- `heartbeat_master_session`, `inspect_master_session`, `end_master_session` and
-- `advance_master_epoch`; `MasterWatchdog` of master_watchdog.py only passes its arguments on.
pub mod Upkeep
pub mod Epoch
pub mod Single
pub mod Keep
pub mod Outcome
pub mod Heartbeat
pub mod Fence
use Prim.Native.String.{◌++◌ as append}
use mathlib.Core.List.{◌∷◌}
use model_lib.Prelude.{
  ℕ, ◌+◌, ◌-◌, String, Bool, true, false, not, ◌&&◌, ◌||◌, Option, none, some, ◌==◌, string_eq,
  nat_eq, find_row, exists_row, update_rows, if◌then◌else◌,
}
use model_lib.Text.{strip, is_empty}
use model_lib.Tx.{
  branch, write_unless, Result, err, Body, return, raise, raise_if, write, select, require,
  transaction, ◌>>=◌, ◌>>◌,
}
use model_lib.Stamp.{text_lt, plus_seconds}
use model_lib.Json.{Json, num, str, null, obj, end, field, Codec}
use model_lib.Schema.{
  Db, Error, integrity_error, project_not_found, project_id_empty, master_epoch_conflict,
  master_session_id_invalid, master_session_ttl_invalid, master_session_terminal_project,
  master_session_id_reused, master_session_active, master_session_heartbeat_invalid,
  master_session_not_active, master_session_fenced, master_session_expired,
  master_session_end_invalid, master_session_not_found,
}
use model_lib.Schema.Rows.{
  ProjectState, ProjectStatus, MasterSession, SessionState, stale, ended, Event,
}
use model_lib.Tables.{Action, find_project, update_project, is_closed, insert_event}

abbrev pub is_active : SessionState → Bool
is_active SessionState.active = true
is_active _ = false

abbrev pub has_key : String → String → MasterSession → Bool
has_key project session r = r.project_id == project && r.session_id == session

abbrev pub is_active_of : String → MasterSession → Bool
is_active_of project r = r.project_id == project && is_active r.state

unfoldable pub find_session : String → String → Db → Option MasterSession
find_session project session db = find_row (has_key project session) db.master_sessions

unfoldable pub find_active : String → Db → Option MasterSession
find_active project db = find_row (is_active_of project) db.master_sessions

unfoldable pub update_session : String → String → (MasterSession → MasterSession) → Db → Db
update_session project session f db = record db {
  master_sessions = update_rows (has_key project session) f db.master_sessions;
}

-- the epoch is the project's and the lease has not run out
abbrev pub is_live : ProjectState → ℕ → MasterSession → Bool
is_live state now r = r.master_epoch == state.master_epoch && text_lt now r.lease_until

-- `reason` of the three places that mark a session STALE
abbrev pub stale_reason : ProjectState → MasterSession → String
stale_reason state r =
    if not (r.master_epoch == state.master_epoch) then "EPOCH_FENCED" else "LEASE_EXPIRED"

unfoldable pub mark_stale : String → String → ℕ → String → Db → Db
unfolding update_session
mark_stale project session now reason =
    update_session project session
      (λ r. record r { state = stale; ended_at = some now; end_reason = some reason })

-- INSERT INTO master_sessions: the key, and the index `master_sessions_one_active`
unfoldable pub insert_session : MasterSession → Action Unit
insert_session r db =
    write_unless
      (exists_row (has_key r.project_id r.session_id) db.master_sessions
        || (is_active r.state && exists_row (is_active_of r.project_id) db.master_sessions))
      integrity_error (λ d. record d { master_sessions = r ∷ d.master_sessions }) db

-- `history is not None`
unfoldable pub has_history : String → Db → Bool
has_history project db = exists_row (λ r. r.project_id == project) db.master_sessions

-- `current_epoch += 1` and its UPDATE
unfoldable pub raise_epoch : Bool → String → ℕ → Db → Db
raise_epoch true project epoch db =
    update_project project (λ p. record p { master_epoch = epoch }) db
raise_epoch false project epoch db = db

abbrev pub current_epoch : Bool → ProjectState → ℕ
current_epoch history state = if history then state.master_epoch + 1 else state.master_epoch

-- the row that `start_master_session` inserts
abbrev pub fresh_session : String → String → ℕ → ℕ → ℕ → MasterSession
fresh_session project session epoch now lease_until = record {
  project_id = project;
  session_id = session;
  master_epoch = epoch;
  state = SessionState.active;
  started_at = now;
  heartbeat_at = now;
  lease_until = lease_until;
  ended_at = none;
  end_reason = none;
}

module _ (codec : Codec) where
  abbrev pub started_payload : String → ℕ → String
  started_payload session epoch =
      codec.canonical_json
        (obj (field "session_id" (str session) (field "master_epoch" (num epoch) end)))

  -- from `history = …` to the end of the block; the last SELECT reads back the row just inserted
  unfoldable pub open_session : String → String → ℕ → ℕ → ProjectState → Action MasterSession
  open_session project session now lease_until state = do
    history ← select (has_history project)
    let epoch = current_epoch history state
    write (raise_epoch history project epoch)
    insert_session (fresh_session project session epoch now lease_until)
    insert_event (record {
      event_id = append "master-session-start-" (append project (append "-" session));
      project_id = project;
      kind = "MASTER_SESSION_STARTED";
      payload_json = started_payload session epoch;
    })
    return (fresh_session project session epoch now lease_until)

  -- the block on `active`
  unfoldable pub displace_active :
      String → String → ℕ → ℕ → ProjectState → Option MasterSession → Action MasterSession
  displace_active project session now lease_until state none =
      open_session project session now lease_until state
  displace_active project session now lease_until state (some a) =
      branch (is_live state now a) (raise master_session_active) (do
        write (mark_stale project a.session_id now (stale_reason state a))
        open_session project session now lease_until state)

  -- the block on `existing`
  unfoldable pub resume_existing :
      String → String → ℕ → ℕ → ProjectState → Option MasterSession → Action MasterSession
  resume_existing project session now lease_until state none = do
    active ← select (find_active project)
    displace_active project session now lease_until state active
  resume_existing project session now lease_until state (some e) =
      branch (is_active e.state)
        (branch (is_live state now e) (return e) (do
          write (mark_stale project session now (stale_reason state e))
          active ← select (find_active project)
          displace_active project session now lease_until state active))
        (raise master_session_id_reused)

  -- the argument checks and the `with` block
  unfoldable pub start_block : String → String → ℕ → ℕ → Action MasterSession
  start_block project session now ttl_seconds = do
    raise_if (is_empty project || is_empty session) master_session_id_invalid
    raise_if (ttl_seconds == 0) master_session_ttl_invalid
    found ← select (find_project project)
    state ← require found project_not_found
    raise_if (is_closed state.status) master_session_terminal_project
    existing ← select (find_session project session)
    resume_existing project session now (plus_seconds now ttl_seconds) state existing

  unfoldable pub start_master_session :
      String → String → ℕ → ℕ → Db → Result Error MasterSession × Db
  start_master_session project_id session_id now ttl_seconds =
      transaction (start_block (strip project_id) (strip session_id) now ttl_seconds)
