-- ===== src/Daemon.antt =====
-- The daemon lease of master_a_dynamic_v4/state_store.py: `acquire_daemon_lease` and
-- `heartbeat_daemon_lease`. The SELECT after a write always finds the row, so that the errors of the
-- last `require` of each block never arise.
pub mod Exclusive
use Prim.Native.String.{◌++◌ as append}
use mathlib.Core.List.{◌∷◌}
use model_lib.Prelude.{
  ℕ, ◌+◌, String, Bool, true, false, not, ◌&&◌, ◌||◌, Option, none, some, ◌==◌, string_eq, nat_eq,
  find_row, exists_row, update_rows, if◌then◌else◌,
}
use model_lib.Text.{strip, is_empty, decimal}
use model_lib.Tx.{branch, Result, raise_if, write, select, require, transaction, ◌>>=◌, ◌>>◌}
use model_lib.Stamp.{text_lt, plus_seconds}
use model_lib.Json.{Json, num, str, obj, end, field, Codec}
use model_lib.Schema.{
  Db, Error, project_not_found, daemon_lease_invalid, daemon_lease_active, daemon_heartbeat_invalid,
  daemon_lease_not_found, daemon_lease_fenced, daemon_lease_expired,
}
use model_lib.Schema.Rows.{DaemonLease, Event}
use model_lib.Tables.{Action, find_project, insert_event}

unfoldable pub find_lease : String → Db → Option DaemonLease
find_lease project db = find_row (λ r. r.project_id == project) db.daemon_leases

-- UPDATE daemon_leases SET heartbeat_at=?,lease_until=? WHERE project_id=? AND owner_id=? AND daemon_epoch=?
unfoldable pub renew_lease : String → String → ℕ → ℕ → ℕ → Db → Db
renew_lease project owner epoch now ttl_seconds db = record db {
  daemon_leases =
      update_rows (λ r. r.project_id == project && r.owner_id == owner && r.daemon_epoch == epoch)
        (λ r. record r { heartbeat_at = now; lease_until = plus_seconds now ttl_seconds })
        db.daemon_leases;
}

-- INSERT … ON CONFLICT(project_id) DO UPDATE SET …
unfoldable pub upsert_lease : DaemonLease → Db → Db
upsert_lease lease db = record db {
  daemon_leases =
      if exists_row (λ r. r.project_id == lease.project_id) db.daemon_leases
      then update_rows (λ r. r.project_id == lease.project_id) (λ r. lease) db.daemon_leases
      else lease ∷ db.daemon_leases;
}

abbrev pub new_lease : String → String → ℕ → ℕ → ℕ → DaemonLease
new_lease project owner epoch now ttl_seconds = record {
  project_id = project;
  daemon_epoch = epoch;
  owner_id = owner;
  heartbeat_at = now;
  lease_until = plus_seconds now ttl_seconds;
}

module _ (codec : Codec) (project owner : String) (now ttl_seconds : ℕ) where
  abbrev acquired_payload : ℕ → String
  acquired_payload epoch =
      codec.canonical_json
        (obj (field "daemon_epoch" (num epoch) (field "owner_id" (str owner) end)))

  -- from the INSERT to the end of the block
  unfoldable pub take_lease : ℕ → Action DaemonLease
  take_lease epoch = do
    write (upsert_lease (new_lease project owner epoch now ttl_seconds))
    insert_event (record {
      event_id = append "daemon-lease-" (append project (append "-" (decimal epoch)));
      project_id = project;
      kind = "DAEMON_LEASE_ACQUIRED";
      payload_json = acquired_payload epoch;
    })
    after ← select (find_lease project)
    require after daemon_lease_not_found

  unfoldable pub acquire_existing : Option DaemonLease → Action DaemonLease
  acquire_existing none = take_lease 1
  acquire_existing (some r) =
      branch (text_lt now r.lease_until)
        (do
          raise_if (not (r.owner_id == owner)) daemon_lease_active
          write (renew_lease project owner r.daemon_epoch now ttl_seconds)
          after ← select (find_lease project)
          require after daemon_lease_not_found)
        (take_lease (r.daemon_epoch + 1))

  unfoldable pub acquire_block : Action DaemonLease
  acquire_block = do
    raise_if (is_empty project || is_empty owner || ttl_seconds == 0) daemon_lease_invalid
    found ← select (find_project project)
    state ← require found project_not_found
    existing ← select (find_lease project)
    acquire_existing existing

unfoldable pub acquire_daemon_lease :
    Codec → String → String → ℕ → ℕ → Db → Result Error DaemonLease × Db
acquire_daemon_lease codec project_id owner_id now ttl_seconds =
    transaction (acquire_block codec (strip project_id) (strip owner_id) now ttl_seconds)

unfoldable pub heartbeat_lease_block : String → String → ℕ → ℕ → ℕ → Action DaemonLease
heartbeat_lease_block project owner daemon_epoch now ttl_seconds = do
  raise_if (is_empty project || is_empty owner || daemon_epoch == 0 || ttl_seconds == 0)
      daemon_heartbeat_invalid
  row ← select (find_lease project)
  r ← require row daemon_lease_not_found
  raise_if (not (r.owner_id == owner) || not (r.daemon_epoch == daemon_epoch)) daemon_lease_fenced
  raise_if (not (text_lt now r.lease_until)) daemon_lease_expired
  write (renew_lease project owner daemon_epoch now ttl_seconds)
  after ← select (find_lease project)
  require after daemon_lease_not_found

unfoldable pub heartbeat_daemon_lease :
    String → String → ℕ → ℕ → ℕ → Db → Result Error DaemonLease × Db
heartbeat_daemon_lease project_id owner_id daemon_epoch now ttl_seconds =
    transaction
      (heartbeat_lease_block (strip project_id) (strip owner_id) daemon_epoch now ttl_seconds)
