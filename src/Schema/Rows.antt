-- ===== src/Schema/Rows.antt =====
-- One record for each table of master_a_dynamic_v4/schema.sql, and the enumerations of its text columns
-- (master_a_dynamic_v4/models.py). Times are instants, in microseconds.
use model_lib.Prelude.{ℕ, String, Option, Bool}

-- `project_state.status`
pub data ProjectStatus : Type 0 where
  active complete hard_blocked terminal : ProjectStatus

pub data SessionState : Type 0 where
  active stale ended : SessionState

-- `CommitResult` of models.py
pub data CommitResult : Type 0 where
  committed already_committed version_conflict fenced rejected : CommitResult

-- `IntentState` of models.py
pub data IntentState : Type 0 where
  prepared may_have_submitted confirmed_submitted response_captured : IntentState
  verified_not_submitted blocked_ambiguous : IntentState

-- `outbox.state`
pub data OutboxState : Type 0 where
  pending submitting blocked reconcile retryable pending_cleanup completed : OutboxState

pub record Contract : Type 0 where
  pub project_id : String
  pub root_contract_sha256 : String
  pub acceptance_contract_json : String
  pub acceptance_contract_sha256 : String
  pub contract_sha256 : String

pub record ProjectState : Type 0 where
  pub project_id : String
  pub state_version : ℕ
  pub master_epoch : ℕ
  pub status : ProjectStatus
  pub phase : String
  pub completion_candidate_commit : Option String

pub record DaemonLease : Type 0 where
  pub project_id : String
  pub daemon_epoch : ℕ
  pub owner_id : String
  pub heartbeat_at : ℕ
  pub lease_until : ℕ

pub record MasterSession : Type 0 where
  pub project_id : String
  pub session_id : String
  pub master_epoch : ℕ
  pub state : SessionState
  pub started_at : ℕ
  pub heartbeat_at : ℕ
  pub lease_until : ℕ
  pub ended_at : Option ℕ
  pub end_reason : Option String

pub record Event : Type 0 where
  pub event_id : String
  pub project_id : String
  pub kind : String
  pub payload_json : String

pub record Transition : Type 0 where
  pub transition_id : String
  pub project_id : String
  pub expected_version : ℕ
  pub master_epoch : ℕ
  pub proposal_sha256 : String
  pub evidence_refs_sha256 : String
  pub content_sha256 : String
  pub result : CommitResult
  pub committed_version : ℕ

pub record ActionIntent : Type 0 where
  pub intent_id : String
  pub project_id : String
  pub actor_id : String
  pub channel : String
  pub action_kind : String
  pub payload_json : String
  pub payload_sha256 : String
  pub state : IntentState
  pub attempt : ℕ
  pub conversation_url : Option String
  pub remote_identity : Option String
  pub response_json : Option String
  pub response_sha256 : Option String
  pub ambiguity_reason : Option String
  pub observation_json : Option String

pub record Outbox : Type 0 where
  pub outbox_id : String
  pub project_id : String
  pub intent_id : String
  pub kind : String
  pub state : OutboxState

pub record ReleaseCandidate : Type 0 where
  pub project_id : String
  pub candidate_commit : String
  pub manifest_json : String
  pub manifest_sha256 : String

pub record EvidenceReceipt : Type 0 where
  pub evidence_ref : String
  pub project_id : String
  pub acceptance_id : String
  pub result : String
  pub candidate_commit : String
  pub contract_sha256 : String
  pub artifact_sha256 : String
  pub command_or_action : String
  pub observed_state_json : String
  pub raw_output_reference : String
  pub started_at : String
  pub finished_at : String

pub record BrowserBinding : Type 0 where
  pub project_id : String
  pub channel : String
  pub actor_id : String
  pub conversation_url : String
  pub generation : ℕ
  pub predecessor_url : Option String
  pub rebind_reason : String
  pub evidence_json : String

pub record ReviewDeadline : Type 0 where
  pub project_id : String
  pub review_id : String
  pub deadline : String
  pub verdict : Option String
  pub closed_at : Option String

pub record ReviewFinding : Type 0 where
  pub project_id : String
  pub review_id : String
  pub finding_id : String
  pub severity : String
  pub blocking : Bool
  pub payload_json : String
  pub observed_at : String
  pub late : Bool
