-- ===== src/Scheduler/Results.antt =====
-- `record_candidate`, `record_work_result` and `verify_candidate` of master_a_dynamic_v4/scheduler.py.
use Prim.Native.String.{◌++◌ as append}
use mathlib.Core.List.{◌∷◌}
use model_lib.Prelude.{
  ℕ, String, Bool, true, false, not, ◌&&◌, ◌||◌, Option, none, some, ◌==◌, string_eq, nat_eq,
  if◌then◌else◌, find_row, exists_row, update_rows,
}
use model_lib.Text.{strip}
use model_lib.Tx.{
  branch, Result, ok, err, return, raise, raise_if, write, write_unless, select, require,
  transaction, ◌>>=◌, ◌>>◌,
}
use model_lib.Stamp.{text_lt}
use model_lib.Json.{
  Json, obj, Fields, end, field, Codec, sha256_json, is_mapping, get_field, text_or,
}
use model_lib.Schema.{
  Db, Error, integrity_error, project_not_found, task_graph_version_fenced, worker_id_mismatch,
  worker_result_invalid, assignment_not_found, worker_fenced, worker_result_conflict,
  result_sha256_invalid, candidate_not_ready, result_payload_invalid, result_identity_missing,
  result_sha256_mismatch, work_result_rejected,
}
use model_lib.Schema.Rows.{ProjectState}
use model_lib.Schema.Tasks.{
  TaskState, Assignment, AssignmentState, WorkerLease, LeaseState, CandidateResult,
  VerificationState,
}
use model_lib.Tables.{Action, find_project}
use model_lib.Evidence.{is_hex}
use model_lib.WorkResult.{Reader, Identity, Check, validate_work_result}
use model_lib.Scheduler.{is_active, find_assignment, set_assignment_state}
use model_lib.Scheduler.Claim.{AssignmentClaim}

abbrev pub is_received : AssignmentState → Bool
is_received AssignmentState.result_received = true
is_received _ = false

abbrev pub is_result_kind : String → Bool
is_result_kind k = k == "HANDOFF" || k == "BLOCKER" || k == "WORK_RESULT"

unfoldable pub find_lease_of : String → Db → Option WorkerLease
find_lease_of assignment db = find_row (λ l. l.assignment_id == assignment) db.leases

unfoldable pub find_result : String → Db → Option CandidateResult
find_result id db = find_row (λ r. r.result_id == id) db.candidate_results

-- the key is `result_id`, and `assignment_id` is unique
unfoldable pub insert_result : CandidateResult → Action Unit
insert_result c db =
    write_unless
      (exists_row (λ r. r.result_id == c.result_id || r.assignment_id == c.assignment_id)
        db.candidate_results)
      integrity_error (λ d. record d { candidate_results = c ∷ d.candidate_results }) db

-- UPDATE candidate_results SET verification_state=?,verified_result_sha256=? WHERE result_id=?
unfoldable pub verify_result : String → VerificationState → String → Db → Db
verify_result id s digest db = record db {
  candidate_results =
      update_rows (λ r. r.result_id == id)
        (λ r. record r { verification_state = s; verified_result_sha256 = some digest })
        db.candidate_results;
}

-- UPDATE task_nodes SET state=?,result_sha256=? WHERE project_id=? AND task_id=?
unfoldable pub finish_task : String → String → TaskState → String → Db → Db
finish_task project task s digest db = record db {
  task_nodes =
      update_rows (λ t. t.project_id == project && t.task_id == task)
        (λ t. record t { state = s; result_sha256 = some digest }) db.task_nodes;
}

-- UPDATE leases SET state='RELEASED' WHERE assignment_id=?
unfoldable pub release_lease : String → Db → Db
release_lease assignment db = record db {
  leases =
      update_rows (λ l. l.assignment_id == assignment)
        (λ l. record l { state = LeaseState.released }) db.leases;
}

-- a refusal of the contract becomes a `SchedulerError` with its message
unfoldable pub admit : {A : Type 0} → Check A → Action A
admit check db = elim (check tt).0 [
  | ok a ↦ (ok a, db)
  | err e ↦ (err (work_result_rejected e), db)
]

-- the lease is the caller's, active, and of the epoch that the project still has
abbrev pub is_fenced : Assignment → WorkerLease → ProjectState → String → ℕ → ℕ → Bool
is_fenced a l state token epoch now =
    not (a.lease_token == token)
    || not (is_active l.state)
    || not (a.master_epoch == epoch)
    || not (state.master_epoch == epoch)
    || text_lt l.expires_at now

abbrev pub result_id_of : String → String
result_id_of assignment = append "result-" assignment

module _ (codec : Codec) (project : String) where
  unfoldable pub candidate_existing : CandidateResult → Option CandidateResult → Action String
  candidate_existing c (some r) =
      branch (r.payload_sha256 == c.payload_sha256 && r.result_kind == c.result_kind)
        (return c.result_id) (raise worker_result_conflict)
  candidate_existing c none = do
    insert_result c
    write (set_assignment_state c.assignment_id AssignmentState.result_received)
    return c.result_id

  abbrev pub new_candidate : String → String → ℕ → String → Json → CandidateResult
  new_candidate assignment token epoch kind payload = record {
    result_id = result_id_of assignment;
    project_id = project;
    assignment_id = assignment;
    lease_token = token;
    master_epoch = epoch;
    result_kind = kind;
    payload_json = codec.canonical_json payload;
    payload_sha256 = sha256_json codec payload;
    verification_state = VerificationState.pending;
    verified_result_sha256 = none;
  }

  -- a row that the JOIN does not have reads as an assignment that is not there
  unfoldable pub candidate_block : String → String → ℕ → String → Json → ℕ → Action String
  candidate_block assignment token epoch kind payload now = do
    found ← select (find_assignment assignment)
    a ← require found assignment_not_found
    raise_if (not (a.project_id == project)) assignment_not_found
    leased ← select (find_lease_of assignment)
    l ← require leased assignment_not_found
    of_project ← select (find_project project)
    state ← require of_project assignment_not_found
    raise_if (is_fenced a l state token epoch now) worker_fenced
    existing ← select (find_result (result_id_of assignment))
    candidate_existing (new_candidate assignment token epoch kind payload) existing

  unfoldable pub record_candidate :
      String → String → ℕ → String → Json → ℕ → Db → Result Error String × Db
  record_candidate assignment token epoch kind payload now = do
    raise_if (not (is_result_kind (codec.upper kind)) || not (is_mapping payload))
        worker_result_invalid
    transaction (candidate_block assignment token epoch (codec.upper kind) payload now)

  abbrev pub identity_of : AssignmentClaim → Identity
  identity_of claim = record {
    project_id = project;
    assignment_id = claim.assignment_id;
    task_id = claim.task_id;
    objective_sha256 = claim.objective_sha256;
    base_state_version = claim.base_state_version;
  }

  unfoldable pub record_work_result :
      Reader → AssignmentClaim → Json → ℕ → Db → Result Error String × Db
  record_work_result reader claim payload now = do
    found ← select (find_project project)
    state ← require found project_not_found
    raise_if (not (state.state_version == claim.base_state_version)) task_graph_version_fenced
    normalized ← admit (validate_work_result codec reader (identity_of claim) payload)
    raise_if (not (text_or codec "" (get_field "worker_id" normalized) == claim.worker_id))
        worker_id_mismatch
    record_candidate claim.assignment_id claim.lease_token claim.master_epoch "WORK_RESULT"
        (obj normalized) now

-- `key in value`
unfoldable pub has_field : String → Fields → Bool
has_field key end = false
has_field key (field k v rest) = k == key || has_field key rest

module _ (codec : Codec) (reader : Reader) (project : String) where
  -- a `WORK_RESULT` is checked once more, against the project's version of now
  unfoldable pub revalidate : CandidateResult → Assignment → Fields → Action Unit
  revalidate r a payload =
      branch (r.result_kind == "WORK_RESULT")
        (do
          found ← select (find_project project)
          state ← require found (work_result_rejected "'NoneType' object is not subscriptable")
          normalized ← admit (
              validate_work_result codec reader
                (record {
                  project_id = project;
                  assignment_id = r.assignment_id;
                  task_id = a.task_id;
                  objective_sha256 = a.objective_sha256;
                  base_state_version = state.state_version;
                })
                (obj payload))
          return tt)
        (return tt)

  -- the UPDATEs that end an assignment
  unfoldable pub accept_result : CandidateResult → Assignment → String → Action Unit
  accept_result r a digest = do
    write (
        verify_result r.result_id
          (if r.result_kind == "WORK_RESULT"
            then VerificationState.verified
            else VerificationState.verified_legacy)
          digest)
    write (
        finish_task project a.task_id
          (if r.result_kind == "WORK_RESULT" then TaskState.accepted else TaskState.verified)
          digest)
    write (set_assignment_state r.assignment_id AssignmentState.retired)
    write (release_lease r.assignment_id)

  unfoldable pub verify_payload : CandidateResult → Assignment → String → Json → Action Unit
  verify_payload r a digest (obj payload) = do
    raise_if (not (has_field "result_sha256" payload)) result_identity_missing
    let declared = codec.lower (strip (text_or codec "" (get_field "result_sha256" payload)))
    raise_if (not (is_hex 64 declared)) result_sha256_invalid
    raise_if (not (digest == declared)) result_sha256_mismatch
    revalidate r a payload
    accept_result r a digest
  verify_payload r a digest value = raise result_payload_invalid

  unfoldable pub verify_block : String → String → Action Unit
  verify_block result_id digest = do
    found ← select (find_result result_id)
    r ← require found candidate_not_ready
    raise_if (not (r.project_id == project)) candidate_not_ready
    joined ← select (find_assignment r.assignment_id)
    a ← require joined candidate_not_ready
    raise_if (not (is_received a.state)) candidate_not_ready
    payload ← require (reader.loads r.payload_json) result_payload_invalid
    verify_payload r a digest payload

  unfoldable pub verify_candidate : String → String → Db → Result Error Unit × Db
  verify_candidate result_id result_sha256 = do
    let digest = codec.lower (strip result_sha256)
    raise_if (not (is_hex 64 digest)) result_sha256_invalid
    transaction (verify_block result_id digest)
