-- ===== src/Schema/Tasks.antt =====
-- The rows of the scheduler's tables in master_a_dynamic_v4/schema.sql. A column that holds a JSON list of
-- texts is kept as that list.
use model_lib.Prelude.{ℕ, String, Option, Bool, List}

pub data TaskState : Type 0 where
  queued running verified accepted : TaskState

pub data AssignmentState : Type 0 where
  active fenced result_received retired : AssignmentState

pub data LeaseState : Type 0 where
  active expired released : LeaseState

-- `candidate_results.verification_state`
pub data VerificationState : Type 0 where
  pending verified verified_legacy : VerificationState

pub record TaskNode : Type 0 where
  pub project_id : String
  pub task_id : String
  pub objective_sha256 : String
  pub resource_scope : List String
  pub task_context_json : String
  pub access_mode : String
  pub required : Bool
  pub state : TaskState
  pub result_sha256 : Option String

pub record TaskDependency : Type 0 where
  pub project_id : String
  pub task_id : String
  pub depends_on_task_id : String

pub record Assignment : Type 0 where
  pub assignment_id : String
  pub project_id : String
  pub task_id : String
  pub worker_id : String
  pub slot_id : String
  pub master_epoch : ℕ
  pub base_state_version : ℕ
  pub lease_token : String
  pub objective_sha256 : String
  pub resource_scope : List String
  pub access_mode : String
  pub state : AssignmentState

pub record WorkerLease : Type 0 where
  pub lease_token : String
  pub assignment_id : String
  pub project_id : String
  pub slot_id : String
  pub master_epoch : ℕ
  pub state : LeaseState
  pub expires_at : ℕ

pub record CandidateResult : Type 0 where
  pub result_id : String
  pub project_id : String
  pub assignment_id : String
  pub lease_token : String
  pub master_epoch : ℕ
  pub result_kind : String
  pub payload_json : String
  pub payload_sha256 : String
  pub verification_state : VerificationState
  pub verified_result_sha256 : Option String
