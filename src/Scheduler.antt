-- ===== src/Scheduler.antt =====
-- The worker scheduler of master_a_dynamic_v4/scheduler.py: its queries and updates, `_scopes_conflict` and
-- `recover_expired_leases`. The children model the other operations.
pub mod Claim
pub mod Grants
pub mod Exclusive
pub mod Keep
pub mod Grow
pub mod Fenced
pub mod Verified
pub mod Claims
pub mod Queue
pub mod Runs
pub mod Graph
pub mod Results
use Prim.Native.String.{◌++◌ as append}
use mathlib.Core.List.{[], ◌∷◌}
use model_lib.Prelude.{
  ℕ, zero, suc, ◌+◌, String, Bool, true, false, not, ◌&&◌, ◌||◌, Option, none, some, List, ◌++◌,
  map, ◌==◌, string_eq, nat_eq, ltb, if◌then◌else◌, length, find_row, exists_row, update_rows,
  sort_by,
}
use model_lib.Tx.{
  branch, Result, ok, err, return, raise_if, write, write_unless, select, require, transaction,
  ◌>>=◌, ◌>>◌,
}
use model_lib.Stamp.{text_lt, plus_seconds}
use model_lib.Json.{Json, str, obj, field, end, Codec, sha256_json, is_mapping}
use model_lib.Schema.{
  Db, Error, integrity_error, project_not_found, task_context_invalid, master_epoch_fenced,
  lease_seconds_invalid, v4_worker_limit_invalid,
}
use model_lib.Schema.Rows.{ProjectState, ProjectStatus, Event}
use model_lib.Schema.Tasks.{
  TaskNode, TaskDependency, TaskState, Assignment, AssignmentState, WorkerLease, LeaseState,
}
use model_lib.Tables.{Action, find_project, insert_event}

abbrev pub is_active : LeaseState → Bool
is_active LeaseState.active = true
is_active _ = false

abbrev pub is_active_assignment : AssignmentState → Bool
is_active_assignment AssignmentState.active = true
is_active_assignment _ = false

abbrev pub is_queued : TaskState → Bool
is_queued TaskState.queued = true
is_queued _ = false

-- `state IN ('VERIFIED','ACCEPTED')`
abbrev pub is_done : TaskState → Bool
is_done TaskState.verified = true
is_done TaskState.accepted = true
is_done _ = false

abbrev pub is_open : ProjectStatus → Bool
is_open ProjectStatus.active = true
is_open _ = false

unfoldable pub find_assignment : String → Db → Option Assignment
find_assignment id db = find_row (λ a. a.assignment_id == id) db.assignments

unfoldable pub find_task : String → String → Db → Option TaskNode
find_task project task db =
    find_row (λ t. t.project_id == project && t.task_id == task) db.task_nodes

-- UPDATE task_nodes SET state=? WHERE project_id=? AND task_id=?
unfoldable pub set_task_state : String → String → TaskState → Db → Db
set_task_state project task s db = record db {
  task_nodes =
      update_rows (λ t. t.project_id == project && t.task_id == task) (λ t. record t { state = s })
        db.task_nodes;
}

-- UPDATE assignments SET state=? WHERE assignment_id=?
unfoldable pub set_assignment_state : String → AssignmentState → Db → Db
set_assignment_state id s db = record db {
  assignments =
      update_rows (λ a. a.assignment_id == id) (λ a. record a { state = s }) db.assignments;
}

-- a JOIN of `leases` with `assignments` on the assignment's key
unfoldable pub join_leases :
    (WorkerLease → Bool) → List WorkerLease → Db → List (WorkerLease × Assignment)
join_leases p [] db = []
join_leases p (l ∷ ls) db =
    let rest = join_leases p ls db in
    if p l
    then (elim (find_assignment l.assignment_id db) [ none ↦ rest | some a ↦ (l, a) ∷ rest ])
    else rest

abbrev pub is_held : String → WorkerLease → Bool
is_held project l = l.project_id == project && is_active l.state

abbrev pub is_expired : String → ℕ → WorkerLease → Bool
is_expired project now l = l.project_id == project && is_active l.state && text_lt l.expires_at now

unfoldable pub expire_lease : String → Db → Db
expire_lease token db = record db {
  leases =
      update_rows (λ l. l.lease_token == token) (λ l. record l { state = LeaseState.expired })
        db.leases;
}

-- `bool(first_scope & second_scope) and (first_mode == "write" or second_mode == "write")`
abbrev pub scopes_conflict : List String → String → List String → String → Bool
scopes_conflict first_scope first_mode second_scope second_mode =
    exists_row (λ x. exists_row (λ y. y == x) second_scope) first_scope
    && (first_mode == "write" || second_mode == "write")

module _ (codec : Codec) (project : String) where
  abbrev expired_payload : WorkerLease → String
  expired_payload l = codec.canonical_json (
      obj (
        field "assignment_id" (str l.assignment_id)
          (field "lease_token_sha256" (str (sha256_json codec (str l.lease_token))) end)))

  -- the `for` of `recover_expired_leases`; `uuids` gives the name of each event
  unfoldable pub recover_rows : List (WorkerLease × Assignment) → (ℕ → String) → ℕ → Action Unit
  recover_rows [] uuids i = return tt
  recover_rows ((l, a) ∷ rows) uuids i = do
    write (expire_lease l.lease_token)
    write (set_assignment_state l.assignment_id AssignmentState.fenced)
    write (λ db.
        if is_active_assignment a.state
        then set_task_state project a.task_id TaskState.queued db
        else db)
    insert_event (record {
      event_id = append "event-" (uuids i);
      project_id = project;
      kind = "WORKER_LEASE_EXPIRED";
      payload_json = expired_payload l;
    })
    recover_rows rows uuids (i + 1)

  unfoldable pub recover_block : (ℕ → String) → ℕ → Action ℕ
  recover_block uuids now = do
    expired ←
        select
          (λ db. sort_by (λ r. r.0.slot_id) (join_leases (is_expired project now) db.leases db))
    recover_rows expired uuids 0
    return (length expired)

  unfoldable pub recover_expired_leases : (ℕ → String) → ℕ → Db → Result Error ℕ × Db
  recover_expired_leases uuids now = transaction (recover_block uuids now)
