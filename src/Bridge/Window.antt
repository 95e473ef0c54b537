-- ===== src/Bridge/Window.antt =====
-- The master window's lease: `MasterWindowLeaseStore` of chatgpt-gui-bridge/master_window_lease_v3.py. The
-- file is a mapping from projects to leases, here a list of leases.
pub mod Fence
pub mod Held
use mathlib.Core.List.{[], ◌∷◌}
use model_lib.Prelude.{
  ℕ, ◌+◌, String, Bool, true, false, not, ◌&&◌, Option, none, some, List, ◌==◌, string_eq, nat_eq,
  ltb, if◌then◌else◌, find_row, exists_row, update_rows,
}
use model_lib.Text.{strip}
use model_lib.Tx.{
  Body, Result, branch, return, raise, raise_if, write, select, require, ◌>>=◌, ◌>>◌,
}
use model_lib.Stamp.{plus_seconds}
use model_lib.Bridge.{require_text}

pub data Status : Type 0 where
  active drained released : Status

-- `window_id` is the session, and `project_state_version_at_start` is `version`
pub record Lease : Type 0 where
  pub project_id : String
  pub session_id : String
  pub turn_id : String
  pub version : ℕ
  pub status : Status
  pub acquired_at : ℕ
  pub heartbeat_at : ℕ
  pub lease_until : ℕ
  pub finished_at : Option ℕ
  pub drain_reason : Option String
  pub release_reason : Option String

abbrev pub Leases : Type 0
Leases = List Lease

abbrev pub Action : Type 0 → Type 0
Action A = Body Leases String A

abbrev pub is_active_status : Status → Bool
is_active_status active = true
is_active_status _ = false

-- `value.get(project)`
unfoldable pub find_window : String → Leases → Option Lease
find_window project leases = find_row (λ l. l.project_id == project) leases

-- `value[lease["project_id"]] = lease`
unfoldable pub set_window : Lease → Leases → Leases
set_window lease leases =
    if exists_row (λ l. l.project_id == lease.project_id) leases
    then update_rows (λ l. l.project_id == lease.project_id) (λ l. lease) leases
    else lease ∷ leases

-- `status == ACTIVE and _parse(lease_until) > now`
abbrev pub is_live : ℕ → Lease → Bool
is_live now l = is_active_status l.status && ltb now l.lease_until

abbrev is_live_window : ℕ → Option Lease → Bool
is_live_window now none = false
is_live_window now (some l) = is_live now l

unfoldable pub has_live_window : String → ℕ → Leases → Bool
has_live_window project now leases = is_live_window now (find_window project leases)

unfoldable pub is_active_window : String → ℕ → Action Bool
is_active_window project_id now = do
  project ← require_text project_id "PROJECT_ID_EMPTY"
  select (has_live_window project now)

abbrev pub new_window : String → String → String → ℕ → ℕ → ℕ → Lease
new_window project session turn version now ttl = record {
  project_id = project;
  session_id = session;
  turn_id = turn;
  version = version;
  status = active;
  acquired_at = now;
  heartbeat_at = now;
  lease_until = plus_seconds now ttl;
  finished_at = none;
  drain_reason = none;
  release_reason = none;
}

unfoldable pub save_window : Lease → Action Lease
save_window lease = do write (set_window lease); return lease

unfoldable pub acquire_current : Lease → ℕ → Option Lease → Action Lease
acquire_current lease now none = save_window lease
acquire_current lease now (some current) =
    branch (is_live now current)
      (do
        raise_if (not (current.session_id == lease.session_id)) "MASTER_WINDOW_ALREADY_ACTIVE"
        return current)
      (save_window lease)

unfoldable pub acquire_window : String → String → String → ℕ → ℕ → ℕ → Action Lease
acquire_window project_id session_id turn_id version now ttl = do
  project ← require_text project_id "PROJECT_ID_EMPTY"
  session ← require_text session_id "SESSION_ID_EMPTY"
  turn ← require_text turn_id "TURN_ID_EMPTY"
  raise_if (ltb ttl 1) "MASTER_LEASE_TTL_INVALID"
  current ← select (find_window project)
  acquire_current (new_window project session turn version now ttl) now current

unfoldable pub heartbeat_window : String → String → ℕ → ℕ → Action Lease
heartbeat_window project_id session_id now ttl = do
  project ← require_text project_id "PROJECT_ID_EMPTY"
  session ← require_text session_id "SESSION_ID_EMPTY"
  raise_if (ltb ttl 1) "MASTER_LEASE_TTL_INVALID"
  found ← select (find_window project)
  current ← require found "MASTER_WINDOW_NOT_ACTIVE"
  raise_if (not (is_active_status current.status)) "MASTER_WINDOW_NOT_ACTIVE"
  raise_if (not (current.session_id == session)) "MASTER_WINDOW_OWNER_MISMATCH"
  raise_if (not (ltb now current.lease_until)) "MASTER_WINDOW_LEASE_EXPIRED"
  save_window (record current { heartbeat_at = now; lease_until = plus_seconds now ttl })

-- the fields that `_finish` sets
abbrev pub finished_window : Status → String → ℕ → Lease → Lease
finished_window drained reason now l = record l {
  status = drained;
  lease_until = now;
  finished_at = some now;
  drain_reason = some reason;
}
finished_window s reason now l = record l {
  status = s;
  lease_until = now;
  finished_at = some now;
  release_reason = some reason;
}

unfoldable pub finish_window : String → String → Status → String → ℕ → Action Lease
finish_window project_id session_id status reason now = do
  project ← require_text project_id "PROJECT_ID_EMPTY"
  session ← require_text session_id "SESSION_ID_EMPTY"
  why ← require_text reason "MASTER_WINDOW_REASON_EMPTY"
  found ← select (find_window project)
  current ← require found "MASTER_WINDOW_NOT_FOUND"
  raise_if (not (current.session_id == session)) "MASTER_WINDOW_OWNER_MISMATCH"
  save_window (finished_window status why now current)

abbrev pub drain_window : String → String → String → ℕ → Action Lease
drain_window project session reason now = finish_window project session drained reason now

abbrev pub release_window : String → String → String → ℕ → Action Lease
release_window project session reason now = finish_window project session released reason now
