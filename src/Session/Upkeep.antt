-- ===== src/Session/Upkeep.antt =====
-- What happens to a master session after its start: heartbeat, inspection by the watchdog, end, and the
-- fencing of the epoch (master_a_dynamic_v4/state_store.py). `uuid4().hex` is an argument.
use Prim.Native.String.{◌++◌ as append, slice}
use model_lib.Prelude.{
  true, ℕ, ◌+◌, String, not, ◌&&◌, ◌||◌, Option, none, some, ◌==◌, string_eq, nat_eq, find_row,
}
use model_lib.Text.{strip, is_empty}
use model_lib.Tx.{
  branch, Result, return, raise, raise_if, write, select, require, transaction, ◌>>=◌, ◌>>◌,
}
use model_lib.Stamp.{text_lt, plus_seconds}
use model_lib.Json.{Json, num, str, null, obj, end, field, Codec}
use model_lib.Schema.{
  Db, Error, project_not_found, project_id_empty, master_epoch_conflict,
  master_session_heartbeat_invalid, master_session_not_active, master_session_fenced,
  master_session_expired, master_session_end_invalid, master_session_not_found,
}
use model_lib.Schema.Rows.{ProjectState, ProjectStatus, MasterSession, ended, Event}
use model_lib.Tables.{Action, find_project, is_closed, insert_event}
use model_lib.Session.{
  is_active, is_live, stale_reason, find_session, find_active, update_session, mark_stale,
  raise_epoch,
}

-- the UPDATE of a heartbeat
unfoldable pub renew : String → String → ℕ → ℕ → Db → Db
renew project session now ttl_seconds =
    update_session project session
      (λ s. record s { heartbeat_at = now; lease_until = plus_seconds now ttl_seconds })

unfoldable pub heartbeat_block : String → String → ℕ → ℕ → ℕ → Action MasterSession
heartbeat_block project session master_epoch now ttl_seconds = do
  raise_if (is_empty project || is_empty session || ttl_seconds == 0)
      master_session_heartbeat_invalid
  found ← select (find_project project)
  row ← select (find_session project session)
  state ← require found master_session_not_active
  r ← require row master_session_not_active
  raise_if (not (state.master_epoch == master_epoch) || not (r.master_epoch == master_epoch))
      master_session_fenced
  raise_if (not (is_active r.state)) master_session_not_active
  branch (not (text_lt now r.lease_until))
      (do write (mark_stale project session now "LEASE_EXPIRED"); raise master_session_expired)
      (do
        write (renew project session now ttl_seconds)
        after ← select (find_session project session)
        require after master_session_not_active)

unfoldable pub heartbeat_master_session :
    String → String → ℕ → ℕ → ℕ → Db → Result Error MasterSession × Db
heartbeat_master_session project_id session_id master_epoch now ttl_seconds =
    transaction (heartbeat_block (strip project_id) (strip session_id) master_epoch now ttl_seconds)

-- the UPDATE of `end_master_session`
unfoldable pub mark_ended : String → String → String → ℕ → Db → Db
mark_ended project session why now =
    update_session project session (λ s. record s {
      state = ended;
      ended_at = some now;
      end_reason = some why;
      lease_until = now;
    })

-- the three shapes of the answer of `inspect_master_session`
pub data Inspection : Type 0 where
  terminal : String → ProjectStatus → Inspection
  master_active : MasterSession → Inspection
  resume_required : (project : String) (epoch : ℕ) (event_id : String) → Option String → Inspection

abbrev optional_text : Option String → Json
optional_text none = null
optional_text (some s) = str s

module _ (codec : Codec) where
  abbrev pub resume_payload : ℕ → Option String → String
  resume_payload epoch stale_session = codec.canonical_json (
      obj (
        field "master_epoch" (num epoch)
          (field "stale_session_id" (optional_text stale_session) end)))

  abbrev resume_id : String → String → String
  resume_id project payload =
      append "master-resume-" (slice (codec.sha256_hex (append project payload)) 0 24)

  -- the event that is already there, or a new one
  unfoldable pub answer_resume :
      String → ProjectState → Option String → Option Event → Action Inspection
  answer_resume project state stale_session (some e) =
      return (resume_required project state.master_epoch e.event_id stale_session)
  answer_resume project state stale_session none = do
    let payload = resume_payload state.master_epoch stale_session
    insert_event (record {
      event_id = resume_id project payload;
      project_id = project;
      kind = "MASTER_RESUME_REQUIRED";
      payload_json = payload;
    })
    return (resume_required project state.master_epoch (resume_id project payload) stale_session)

  -- from `payload = …` to the end of the block
  unfoldable pub signal_resume : String → ProjectState → Option String → Action Inspection
  signal_resume project state stale_session = do
    let payload = resume_payload state.master_epoch stale_session
    existing ← select (λ db.
        find_row
          (λ e.
            e.project_id == project
            && e.kind == "MASTER_RESUME_REQUIRED"
            && e.payload_json == payload)
          db.events)
    answer_resume project state stale_session existing

  unfoldable pub inspect_active :
      String → ℕ → ProjectState → Option MasterSession → Action Inspection
  inspect_active project now state none = signal_resume project state none
  inspect_active project now state (some r) =
      branch (is_live state now r) (return (master_active r)) (do
        write (mark_stale project r.session_id now (stale_reason state r))
        signal_resume project state (some r.session_id))

  unfoldable pub inspect_block : String → ℕ → Action Inspection
  inspect_block project now = do
    raise_if (is_empty project) project_id_empty
    found ← select (find_project project)
    state ← require found project_not_found
    branch (is_closed state.status) (return (terminal project state.status))
        (do row ← select (find_active project); inspect_active project now state row)

  unfoldable pub inspect_master_session : String → ℕ → Db → Result Error Inspection × Db
  inspect_master_session project_id now = transaction (inspect_block (strip project_id) now)

  abbrev ended_payload : String → ℕ → String → String
  ended_payload session epoch why = codec.canonical_json (
      obj (
        field "session_id" (str session)
          (field "master_epoch" (num epoch) (field "reason" (str why) end))))

  unfoldable pub end_block : String → String → ℕ → String → ℕ → Action MasterSession
  end_block project session master_epoch why now = do
    raise_if (is_empty project || is_empty session || is_empty why) master_session_end_invalid
    found ← select (find_project project)
    row ← select (find_session project session)
    state ← require found master_session_not_found
    r ← require row master_session_not_found
    raise_if (not (state.master_epoch == master_epoch) || not (r.master_epoch == master_epoch))
        master_session_fenced
    branch (not (is_active r.state)) (return r) (do
      write (mark_ended project session why now)
      insert_event (record {
        event_id = append "master-session-end-" (append project (append "-" session));
        project_id = project;
        kind = "MASTER_SESSION_ENDED";
        payload_json = ended_payload session master_epoch why;
      })
      after ← select (find_session project session)
      require after master_session_not_found)

  unfoldable pub end_master_session :
      String → String → ℕ → String → ℕ → Db → Result Error MasterSession × Db
  end_master_session project_id session_id master_epoch reason now =
      transaction (end_block (strip project_id) (strip session_id) master_epoch (strip reason) now)

  abbrev advanced_payload : ℕ → ℕ → String
  advanced_payload previous current =
      codec.canonical_json
        (obj (field "previous" (num previous) (field "current" (num current) end)))

  unfoldable pub advance_block : String → ℕ → String → Action ℕ
  advance_block project_id expected_epoch uuid = do
    found ← select (find_project project_id)
    state ← require found project_not_found
    raise_if (not (state.master_epoch == expected_epoch)) master_epoch_conflict
    write (raise_epoch true project_id (state.master_epoch + 1))
    insert_event (record {
      event_id = append "event-" uuid;
      project_id = project_id;
      kind = "MASTER_EPOCH_ADVANCED";
      payload_json = advanced_payload state.master_epoch (state.master_epoch + 1);
    })
    return (state.master_epoch + 1)

  unfoldable pub advance_master_epoch : String → ℕ → String → Db → Result Error ℕ × Db
  advance_master_epoch project_id expected_epoch uuid =
      transaction (advance_block project_id expected_epoch uuid)
