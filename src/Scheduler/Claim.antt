-- ===== src/Scheduler/Claim.antt =====
-- `claim_runnable` and `load_active_claims` of master_a_dynamic_v4/scheduler.py. The random names of an
-- assignment, a worker and a lease are arguments; `loads` is `json.loads`, `none` where it raises.
use Prim.Native.String.{◌++◌ as append}
use mathlib.Core.List.{[], ◌∷◌}
use model_lib.Prelude.{
  ℕ, zero, suc, ◌+◌, String, Bool, true, not, ◌&&◌, ◌||◌, Option, none, some, List, map, ◌==◌,
  string_eq, nat_eq, ltb, if◌then◌else◌, find_row, exists_row, sort_by, member, sorted_set,
}
use model_lib.Tx.{
  branch, Result, return, raise_if, write, write_unless, select, require, transaction, ◌>>=◌, ◌>>◌,
}
use model_lib.Stamp.{text_lt, plus_seconds}
use model_lib.Json.{Json, Codec, is_mapping}
use model_lib.Schema.{
  Db, Error, integrity_error, project_not_found, task_context_invalid, master_epoch_fenced,
  lease_seconds_invalid, v4_worker_limit_invalid,
}
use model_lib.Schema.Rows.{ProjectState}
use model_lib.Schema.Tasks.{
  TaskNode, TaskState, Assignment, AssignmentState, WorkerLease, LeaseState,
}
use model_lib.Tables.{Action, find_project}
use model_lib.Scheduler.{
  is_active, is_active_assignment, is_queued, is_done, is_open, find_task, set_task_state,
  join_leases, is_held, scopes_conflict, recover_expired_leases,
}

-- `uuid.uuid4().hex` for an assignment and for a worker, and `secrets.token_urlsafe(32)`
pub record Names : Type 0 where
  pub assignment_uuid : String
  pub worker_uuid : String
  pub token : String

pub record AssignmentClaim : Type 0 where
  pub assignment_id : String
  pub project_id : String
  pub task_id : String
  pub worker_id : String
  pub slot_id : String
  pub lease_token : String
  pub master_epoch : ℕ
  pub base_state_version : ℕ
  pub objective_sha256 : String
  pub resource_scope : List String
  pub access_mode : String
  pub expires_at : ℕ
  pub task_context : Json

-- what an assignment may touch, and how
abbrev pub Grant : Type 0
Grant = List String × String

-- `(set(json.loads(row["resource_scope_json"])), str(row["access_mode"]))`
abbrev pub grant_of : WorkerLease × Assignment → Grant
grant_of (l, a) = (a.resource_scope, a.access_mode)

-- `any(self._scopes_conflict(scope, mode, other, other_mode) for other, other_mode in active)`
unfoldable pub any_conflict : Grant → List Grant → Bool
any_conflict g active = exists_row (λ o. scopes_conflict g.0 g.1 o.0 o.1) active

-- the key is `assignment_id`, and `lease_token` is unique
unfoldable pub insert_assignment : Assignment → Action Unit
insert_assignment a db =
    write_unless
      (exists_row (λ r. r.assignment_id == a.assignment_id || r.lease_token == a.lease_token)
        db.assignments)
      integrity_error (λ d. record d { assignments = a ∷ d.assignments }) db

-- the key is `lease_token`; `assignment_id` is unique, and so is an active lease's slot
unfoldable pub insert_lease : WorkerLease → Action Unit
insert_lease l db =
    write_unless
      (exists_row (λ r. r.lease_token == l.lease_token) db.leases
        || exists_row (λ r. r.assignment_id == l.assignment_id) db.leases
        || (is_active l.state
            && exists_row (λ r. is_held l.project_id r && r.slot_id == l.slot_id) db.leases))
      integrity_error (λ d. record d { leases = l ∷ d.leases }) db

-- `dependency.state IS NULL OR dependency.state NOT IN ('VERIFIED','ACCEPTED')`
abbrev pub is_unfinished : Option TaskNode → Bool
is_unfinished none = true
is_unfinished (some t) = not (is_done t.state)

-- the task has a dependency that is missing, or that is not done
unfoldable pub is_blocked : String → String → Db → Bool
is_blocked project task db =
    exists_row
      (λ d.
        d.project_id == project
        && d.task_id == task
        && is_unfinished (find_task project d.depends_on_task_id db))
      db.task_dependencies

abbrev pub worker_slots : List String
worker_slots = "worker-slot-1" ∷ "worker-slot-2" ∷ []

-- `[slot for … if slot not in occupied]`
unfoldable pub free_slots : List String → List String → List String
free_slots occupied [] = []
free_slots occupied (s ∷ slots) =
    let rest = free_slots occupied slots in if member s occupied then rest else s ∷ rest

unfoldable pub take : {A : Type 0} → ℕ → List A → List A
take zero xs = []
take (suc n) [] = []
take (suc n) (x ∷ xs) = x ∷ take n xs

unfoldable pub select_rows : {A : Type 0} → (A → Bool) → List A → List A
select_rows p [] = []
select_rows p (x ∷ xs) = let rest = select_rows p xs in if p x then x ∷ rest else rest

module _ (loads : String → Option Json) where
  unfoldable pub decode_task_context : String → Action Json
  decode_task_context raw = do
    value ← require (loads (if raw == "" then "{}" else raw)) task_context_invalid
    raise_if (not (is_mapping value)) task_context_invalid
    return value

  module _ (project : String) (epoch version expires : ℕ) (names : ℕ → Names) where
    abbrev pub new_assignment : TaskNode → String → ℕ → Assignment
    new_assignment task slot i = record {
      assignment_id = append "assignment-" (names i).assignment_uuid;
      project_id = project;
      task_id = task.task_id;
      worker_id = append "worker-" (names i).worker_uuid;
      slot_id = slot;
      master_epoch = epoch;
      base_state_version = version;
      lease_token = (names i).token;
      objective_sha256 = task.objective_sha256;
      resource_scope = task.resource_scope;
      access_mode = task.access_mode;
      state = AssignmentState.active;
    }

    abbrev pub new_worker_lease : String → ℕ → WorkerLease
    new_worker_lease slot i = record {
      lease_token = (names i).token;
      assignment_id = append "assignment-" (names i).assignment_uuid;
      project_id = project;
      slot_id = slot;
      master_epoch = epoch;
      state = LeaseState.active;
      expires_at = expires;
    }

    -- the statements of one iteration that claims its task
    unfoldable pub claim_task : TaskNode → String → ℕ → Action AssignmentClaim
    claim_task task slot i = do
      insert_assignment (new_assignment task slot i)
      insert_lease (new_worker_lease slot i)
      write (set_task_state project task.task_id TaskState.running)
      context ← decode_task_context task.task_context_json
      return (record {
        assignment_id = append "assignment-" (names i).assignment_uuid;
        project_id = project;
        task_id = task.task_id;
        worker_id = append "worker-" (names i).worker_uuid;
        slot_id = slot;
        lease_token = (names i).token;
        master_epoch = epoch;
        base_state_version = version;
        objective_sha256 = task.objective_sha256;
        resource_scope = sorted_set task.resource_scope;
        access_mode = task.access_mode;
        expires_at = expires;
        task_context = context;
      })

    -- the `for` over the queued tasks; `slots` are the first `capacity` free slots less those that are
    -- claimed, so that the loop ends when they do. The order of `active` has no effect.
    unfoldable pub claim_loop :
        List TaskNode → List String → List Grant → ℕ → Action (List AssignmentClaim)
    claim_loop [] slots active i = return []
    claim_loop (task ∷ tasks) [] active i = return []
    claim_loop (task ∷ tasks) (slot ∷ slots) active i = do
      skip ← select (λ db.
          is_blocked project task.task_id db
          || any_conflict (task.resource_scope, task.access_mode) active)
      branch skip (claim_loop tasks (slot ∷ slots) active i) (do
        claim ← claim_task task slot i
        claims ← claim_loop tasks slots ((task.resource_scope, task.access_mode) ∷ active) (i + 1)
        return (claim ∷ claims))

  module _ (project : String) (epoch now lease_seconds limit : ℕ) (names : ℕ → Names) where
    -- the claims, given the active leases of the project and its queued tasks
    unfoldable pub claim_free :
        ProjectState
        → List (WorkerLease × Assignment)
        → List TaskNode
        → Action (List AssignmentClaim)
    claim_free state held tasks =
        claim_loop project epoch state.state_version (plus_seconds now lease_seconds) names tasks
          (take limit (free_slots (map (λ r. r.0.slot_id) held) worker_slots)) (map grant_of held) 0

    unfoldable pub claim_block : Action (List AssignmentClaim)
    claim_block = do
      found ← select (find_project project)
      state ← require found project_not_found
      raise_if (not (state.master_epoch == epoch)) master_epoch_fenced
      branch (is_open state.status)
          (do
            held ← select (λ db. join_leases (is_held project) db.leases db)
            tasks ← select (λ db.
                sort_by (λ t. t.task_id)
                  (select_rows (λ t. t.project_id == project && is_queued t.state) db.task_nodes))
            claim_free state held tasks)
          (return [])

    -- leases that have run out stay fenced also where no claim follows
    unfoldable pub claim_runnable :
        Codec → (ℕ → String) → Db → Result Error (List AssignmentClaim) × Db
    claim_runnable codec uuids = do
      raise_if (ltb lease_seconds 1) lease_seconds_invalid
      raise_if (ltb 2 limit) v4_worker_limit_invalid
      branch (ltb limit 1) (return [])
          (do recover_expired_leases codec project uuids now; transaction claim_block)

-- a row of the JOIN of `assignments` with `task_nodes` and `leases`
pub record ActiveRow : Type 0 where
  pub assignment : Assignment
  pub task_context_json : String
  pub expires_at : ℕ

abbrev active_row : Assignment → Option TaskNode → Option WorkerLease → Option ActiveRow
active_row a (some t) (some l) =
    if is_active l.state
    then some (record {
      assignment = a;
      task_context_json = t.task_context_json;
      expires_at = l.expires_at;
    })
    else none
active_row a _ _ = none

abbrev add_row : Option ActiveRow → List ActiveRow → List ActiveRow
add_row none rows = rows
add_row (some r) rows = r ∷ rows

module _ (project : String) (epoch now : ℕ) where
  unfoldable pub join_active : List Assignment → Db → List ActiveRow
  join_active [] db = []
  join_active (a ∷ rows) db =
      let rest = join_active rows db in
      if a.project_id == project && a.master_epoch == epoch && is_active_assignment a.state
      then add_row
          (active_row a (find_task project a.task_id db)
            (find_row (λ l. l.assignment_id == a.assignment_id) db.leases))
          rest
      else rest

  -- the `for` of `load_active_claims`
  unfoldable pub load_rows : (String → Option Json) → List ActiveRow → Action (List AssignmentClaim)
  load_rows loads [] = return []
  load_rows loads (r ∷ rows) = branch (not (text_lt now r.expires_at)) (load_rows loads rows) (do
    context ← decode_task_context loads r.task_context_json
    claims ← load_rows loads rows
    return (
        (record {
          assignment_id = r.assignment.assignment_id;
          project_id = project;
          task_id = r.assignment.task_id;
          worker_id = r.assignment.worker_id;
          slot_id = r.assignment.slot_id;
          lease_token = r.assignment.lease_token;
          master_epoch = r.assignment.master_epoch;
          base_state_version = r.assignment.base_state_version;
          objective_sha256 = r.assignment.objective_sha256;
          resource_scope = sort_by (λ x. x) r.assignment.resource_scope;
          access_mode = r.assignment.access_mode;
          expires_at = r.expires_at;
          task_context = context;
        })
        ∷ claims))

  -- ORDER BY a.slot_id,a.assignment_id
  unfoldable pub load_active_claims :
      (String → Option Json) → Codec → (ℕ → String) → Db → Result Error (List AssignmentClaim) × Db
  load_active_claims loads codec uuids = do
    recover_expired_leases codec project uuids now
    found ← select (find_project project)
    state ← require found project_not_found
    raise_if (not (state.master_epoch == epoch)) master_epoch_fenced
    branch (is_open state.status)
        (do
          rows ← select (λ db.
              sort_by (λ r. r.assignment.slot_id)
                (sort_by (λ r. r.assignment.assignment_id) (join_active db.assignments db)))
          load_rows loads rows)
        (return [])
