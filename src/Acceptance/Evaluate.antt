-- ===== src/Acceptance/Evaluate.antt =====
-- `AcceptanceValidator.evaluate` of master_a_dynamic_v4/acceptance.py. No code writes
-- `review_findings.resolved_at`, which reads as NULL.
use Prim.Native.String.{◌++◌ as append}
use mathlib.Core.List.{[], ◌∷◌}
use model_lib.Prelude.{
  String, Bool, true, false, not, ◌&&◌, Option, none, some, List, ◌++◌, ◌==◌, string_eq, exists_row,
  member, sorted_set,
}
use model_lib.Text.{strip}
use model_lib.Json.{Json, Codec}
use model_lib.Schema.{Db}
use model_lib.Schema.Rows.{
  Contract, ProjectState, ReleaseCandidate, Outbox, OutboxState, ActionIntent, IntentState,
  ReviewFinding,
}
use model_lib.Schema.Tasks.{
  TaskNode, Assignment, AssignmentState, CandidateResult, VerificationState,
}
use model_lib.Tables.{find_project}
use model_lib.Contract.{find_contract}
use model_lib.Scheduler.{is_done, find_assignment}
use model_lib.Acceptance.{
  find_release, block_if, block_all, block_each, Manifest, read_manifest, manifest_blockers,
  artifacts_of, requirement_blockers, read_required, unsound,
}

abbrev pub is_required : String → TaskNode → Bool
is_required project t = t.project_id == project && t.required

abbrev pub is_structured : CandidateResult → Bool
is_structured r = elim r.verification_state [
  | VerificationState.verified ↦ r.result_kind == "WORK_RESULT"
  | _ ↦ false
]

abbrev pub is_for_task : String → Option Assignment → Bool
is_for_task task none = false
is_for_task task (some a) = a.task_id == task

-- a verified `WORK_RESULT` of the project whose assignment is of the task
unfoldable pub has_structured_result : String → String → Db → Bool
has_structured_result project task db =
    exists_row
      (λ r.
        r.project_id == project
        && is_structured r
        && is_for_task task (find_assignment r.assignment_id db))
      db.candidate_results

unfoldable pub task_blockers : String → Db → TaskNode → List String
task_blockers project db t = block_all (
    (is_required project t && not (is_done t.state), append "REQUIRED_TASK_NOT_VERIFIED:" t.task_id)
    ∷ (
      is_required project t && not (has_structured_result project t.task_id db),
      append "REQUIRED_TASK_STRUCTURED_RESULT_MISSING:" t.task_id,
    )
    ∷ [])

-- `state IN ('ACTIVE','RESULT_RECEIVED')`
abbrev pub is_working : String → Assignment → Bool
is_working project a = a.project_id == project && (elim a.state [
  | AssignmentState.active ↦ true
  | AssignmentState.result_received ↦ true
  | _ ↦ false
])

abbrev pub is_unverified : String → CandidateResult → Bool
is_unverified project r =
    r.project_id == project
    && (elim r.verification_state [ VerificationState.verified ↦ false | _ ↦ true ])

abbrev pub is_unresolved : String → Outbox → Bool
is_unresolved project o =
    o.project_id == project && (elim o.state [ OutboxState.completed ↦ false | _ ↦ true ])

abbrev pub is_ambiguous : String → ActionIntent → Bool
is_ambiguous project i = i.project_id == project && (elim i.state [
  | IntentState.may_have_submitted ↦ true
  | IntentState.blocked_ambiguous ↦ true
  | _ ↦ false
])

abbrev pub is_blocking : String → ReviewFinding → Bool
is_blocking project f = f.project_id == project && f.blocking

unfoldable pub table_blockers : String → Db → List String
table_blockers project db = block_all (
    (exists_row (is_working project) db.assignments, "ACTIVE_WORKERS")
    ∷ (exists_row (is_unverified project) db.candidate_results, "UNVERIFIED_CANDIDATE_RESULTS")
    ∷ (exists_row (is_unresolved project) db.outbox, "OUTBOX_UNRESOLVED")
    ∷ (exists_row (is_ambiguous project) db.action_intents, "BROWSER_INTENTS_UNRESOLVED")
    ∷ (exists_row (is_blocking project) db.review_findings, "BLOCKING_FINDINGS")
    ∷ (
      exists_row (λ f. is_blocking project f && f.late) db.review_findings,
      "LATE_BLOCKING_FINDINGS",
    )
    ∷ [])

abbrev pub is_candidate : String → Option String → Bool
is_candidate candidate none = candidate == ""
is_candidate candidate (some commit) = commit == candidate

-- a receipt of a required acceptance says FAIL
unfoldable pub has_failed : String → List String → Db → Bool
has_failed project names db =
    exists_row (λ r. r.project_id == project && r.result == "FAIL" && member r.acceptance_id names)
      db.evidence_receipts

module _ (codec : Codec) (loads : String → Option Json) where
  abbrev pub manifest_of : Option ReleaseCandidate → Manifest
  manifest_of none = unsound "RELEASE_CANDIDATE_MISSING"
  manifest_of (some r) = read_manifest codec r.manifest_sha256 (loads r.manifest_json)

  unfoldable pub release_blockers : String → ProjectState → Option ReleaseCandidate → List String
  release_blockers candidate state none = "RELEASE_CANDIDATE_MISSING" ∷ []
  release_blockers candidate state (some r) =
      block_if (not (r.candidate_commit == candidate)) "RELEASE_CANDIDATE_MISMATCH"
      ++ block_if (not (is_candidate candidate state.completion_candidate_commit))
          "PROJECT_CANDIDATE_MISMATCH"
      ++ manifest_blockers (manifest_of (some r))

  -- the blockers of a project that is there
  unfoldable pub blockers_of :
      String → String → Contract → ProjectState → Option ReleaseCandidate → Db → List String
  blockers_of project candidate contract state release db =
      let required = read_required codec loads (loads contract.acceptance_contract_json) in
      release_blockers candidate state release
      ++ required.1
      ++ block_each
          (requirement_blockers codec loads project candidate contract.contract_sha256
            (artifacts_of (manifest_of release)) db.evidence_receipts)
          required.0
      ++ block_each (task_blockers project db) db.task_nodes
      ++ table_blockers project db

-- `AcceptanceStatus` of models.py
pub data AcceptanceStatus : Type 0 where
  pass fail blocked not_run : AcceptanceStatus

pub record AcceptanceDecision : Type 0 where
  pub status : AcceptanceStatus
  pub blockers : List String

abbrev pub decide_acceptance : Bool → List String → AcceptanceDecision
decide_acceptance true ordered = record { status = AcceptanceStatus.fail; blockers = ordered }
decide_acceptance false [] = record { status = AcceptanceStatus.pass; blockers = [] }
decide_acceptance false (b ∷ bs) = record { status = AcceptanceStatus.blocked; blockers = b ∷ bs }

module _ (codec : Codec) (loads : String → Option Json) (project : String) where
  unfoldable pub evaluate_found :
      String → Option Contract → Option ProjectState → Db → AcceptanceDecision
  evaluate_found candidate (some contract) (some state) db =
      decide_acceptance
        (has_failed project (read_required codec loads (loads contract.acceptance_contract_json)).0
          db)
        (sorted_set
          (blockers_of codec loads project candidate contract state (find_release project db) db))
  evaluate_found candidate contract state db = record {
    status = AcceptanceStatus.blocked;
    blockers = "PROJECT_OR_CONTRACT_MISSING" ∷ [];
  }

  unfoldable pub evaluate : String → Db → AcceptanceDecision
  evaluate candidate_commit db =
      evaluate_found (codec.lower (strip candidate_commit)) (find_contract project db)
        (find_project project db) db
