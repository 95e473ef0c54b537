-- ===== src/Schema.antt =====
-- The tables of master_a_dynamic_v4/schema.sql that the modelled operations read and write. Columns
-- that are only ever written (`created_at`, `updated_at`, `available_at`, …) are left out.
pub mod Rows
pub mod Tasks
use mathlib.Core.List.{[], ◌∷◌}
use model_lib.Prelude.{ℕ, String, List}
use model_lib.Schema.Rows.{
  Contract, ProjectState, DaemonLease, MasterSession, Event, Transition, ActionIntent, Outbox,
  EvidenceReceipt, ReleaseCandidate, BrowserBinding, ReviewDeadline, ReviewFinding,
}
use model_lib.Schema.Tasks.{TaskNode, TaskDependency, Assignment, WorkerLease, CandidateResult}

-- what an operation of the store may raise: `StoreInvariantError` with its message, or
-- `sqlite3.IntegrityError` when a row breaks a key or a unique index; and `SchedulerError`,
-- `WorkerFenceError` and `WorkResultRejected` of the scheduler
pub data Error : Type 0 where
  integrity_error : Error
  project_not_found project_id_empty : Error
  daemon_lease_invalid daemon_lease_active daemon_heartbeat_invalid daemon_lease_not_found : Error
  daemon_lease_fenced daemon_lease_expired : Error
  master_epoch_conflict : Error
  master_session_id_invalid master_session_ttl_invalid master_session_terminal_project : Error
  master_session_id_reused master_session_active : Error
  master_session_heartbeat_invalid master_session_not_active master_session_fenced : Error
  master_session_expired master_session_end_invalid master_session_not_found : Error
  intent_invalid intent_identity_conflict intent_not_found intent_not_submittable : Error
  intent_block_evidence_invalid submit_identity_missing intent_confirm_state_invalid : Error
  positive_not_submitted_proof_required intent_retry_proof_state_invalid : Error
  response_empty response_identity_missing intent_response_state_invalid : Error
  local_execution_receipt_empty local_execution_observation_empty : Error
  intent_not_local_execution local_execution_capture_state_invalid : Error
  intent_not_response_captured : Error
  browser_binding_invalid initial_binding_provenance_invalid : Error
  browser_binding_actor_changed rebind_provenance_required : Error
  timestamp_invalid timestamp_must_be_timezone_aware review_id_empty review_identity_conflict :
      Error
  review_finding_invalid review_not_found review_finding_append_only_conflict : Error
  review_verdict_invalid review_verdict_immutable : Error
  candidate_commit_invalid candidate_manifest_invalid release_candidate_identity_conflict : Error
  evidence_identity_invalid evidence_candidate_invalid evidence_digest_invalid : Error
  evidence_observation_invalid evidence_time_reversed evidence_identity_conflict : Error
  task_graph_empty task_context_too_large task_id_invalid_or_duplicate : Error
  task_objective_sha256_invalid task_dependencies_invalid task_dependency_not_in_graph : Error
  task_dependency_cycle task_identity_conflict task_context_invalid path_refused : Error
  master_epoch_fenced lease_seconds_invalid v4_worker_limit_invalid : Error
  task_graph_version_fenced worker_id_mismatch worker_result_invalid assignment_not_found : Error
  worker_fenced worker_result_conflict result_sha256_invalid candidate_not_ready : Error
  result_payload_invalid result_identity_missing result_sha256_mismatch : Error
  work_result_rejected : String → Error
  root_contract_invalid acceptance_contract_invalid contract_identity_mismatch : Error

pub record Db : Type 0 where
  pub contracts : List Contract
  pub project_states : List ProjectState
  pub daemon_leases : List DaemonLease
  pub master_sessions : List MasterSession
  pub events : List Event
  pub transitions : List Transition
  pub action_intents : List ActionIntent
  pub outbox : List Outbox
  pub release_candidates : List ReleaseCandidate
  pub evidence_receipts : List EvidenceReceipt
  pub browser_bindings : List BrowserBinding
  pub review_deadlines : List ReviewDeadline
  pub review_findings : List ReviewFinding
  pub task_nodes : List TaskNode
  pub task_dependencies : List TaskDependency
  pub assignments : List Assignment
  pub leases : List WorkerLease
  pub candidate_results : List CandidateResult

abbrev pub empty : Db
empty = record {
  contracts = [];
  project_states = [];
  daemon_leases = [];
  master_sessions = [];
  events = [];
  transitions = [];
  action_intents = [];
  outbox = [];
  release_candidates = [];
  evidence_receipts = [];
  browser_bindings = [];
  review_deadlines = [];
  review_findings = [];
  task_nodes = [];
  task_dependencies = [];
  assignments = [];
  leases = [];
  candidate_results = [];
}
