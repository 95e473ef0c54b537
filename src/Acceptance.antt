-- ===== src/Acceptance.antt =====
-- What stands in the way of completion: `evidence_blockers` of master_a_dynamic_v4/evidence.py, and what
-- acceptance.py reads of a release's manifest and of the acceptance contract. `loads` is `json.loads`, `none`
-- where it raises.
pub mod Release
pub mod Evaluate
pub mod Blockers
pub mod Complete
use Prim.Native.String.{◌++◌ as append}
use mathlib.Core.List.{[], ◌∷◌}
use model_lib.Prelude.{
  String, Bool, true, false, not, ◌&&◌, ◌||◌, Option, none, some, List, ◌++◌, map, ◌==◌, string_eq,
  if◌then◌else◌, find_row, exists_row, member, sorted_set,
}
use model_lib.Text.{strip, is_empty, decimal}
use model_lib.Tx.{
  branch, Result, return, raise, raise_if, write, write_unless, select, require, transaction, ◌>>=◌,
  ◌>>◌,
}
use model_lib.Json.{
  Json, null, flag, num, str, arr, obj, Items, nil, cons, Fields, end, field, Codec, sha256_json,
  get_field, text_or, is_nonempty_mapping,
}
use model_lib.Schema.{
  Db, Error, integrity_error, project_not_found, candidate_commit_invalid,
  candidate_manifest_invalid, release_candidate_identity_conflict,
}
use model_lib.Schema.Rows.{
  Contract, ProjectState, ReleaseCandidate, EvidenceReceipt, Outbox, OutboxState, ActionIntent,
  IntentState, ReviewFinding,
}
use model_lib.Schema.Tasks.{
  TaskNode, Assignment, AssignmentState, CandidateResult, VerificationState,
}
use model_lib.Tables.{Action, find_project, update_project}
use model_lib.Contract.{find_contract}
use model_lib.Evidence.{is_hex}
use model_lib.Scheduler.{is_done, find_assignment}

unfoldable pub find_release : String → Db → Option ReleaseCandidate
find_release project db = find_row (λ r. r.project_id == project) db.release_candidates

-- `if test: blockers.add(text)`
abbrev pub block_if : Bool → String → List String
block_if true text = text ∷ []
block_if false text = []

-- several of these, one after another
unfoldable pub block_all : List (Bool × String) → List String
block_all [] = []
block_all (test ∷ tests) = block_if test.0 test.1 ++ block_all tests

unfoldable pub block_each : {A : Type 0} → (A → List String) → List A → List String
block_each f [] = []
block_each f (x ∷ xs) = f x ++ block_each f xs

-- `str(value)`
unfoldable pub text_of : Codec → Json → String
text_of codec null = "None"
text_of codec (flag true) = "True"
text_of codec (flag false) = "False"
text_of codec (num n) = decimal n
text_of codec (str s) = s
text_of codec (arr xs) = codec.repr (arr xs)
text_of codec (obj fs) = codec.repr (obj fs)

unfoldable pub texts_of : Codec → Items → List String
texts_of codec nil = []
texts_of codec (cons x xs) = text_of codec x ∷ texts_of codec xs

-- the digests of `files.values()`, where all are SHA-256
unfoldable pub digests_of : Codec → Fields → Option (List String)
digests_of codec end = some []
digests_of codec (field k v rest) =
    let others = digests_of codec rest in
    let digest = codec.lower (strip (text_or codec "" v)) in
    if is_hex 64 digest then (elim others [ none ↦ none | some ds ↦ some (digest ∷ ds) ]) else none

-- the artifacts that a manifest vouches for, or what is wrong with it
pub data Manifest : Type 0 where
  sound : List String → Manifest
  unsound : String → Manifest

abbrev pub files_manifest : Option (List String) → Manifest
files_manifest none = unsound "RELEASE_MANIFEST_INVALID"
files_manifest (some digests) = sound digests

unfoldable pub read_files : Codec → Json → Manifest
read_files codec (obj (field k v rest)) = files_manifest (digests_of codec (field k v rest))
read_files codec value = unsound "RELEASE_MANIFEST_INVALID"

unfoldable pub read_manifest : Codec → String → Option Json → Manifest
read_manifest codec digest (some (obj (field k v rest))) =
    if digest == sha256_json codec (obj (field k v rest))
    then read_files codec (get_field "files" (field k v rest))
    else unsound "RELEASE_MANIFEST_HASH_MISMATCH"
read_manifest codec digest value = unsound "RELEASE_MANIFEST_INVALID"

abbrev pub manifest_blockers : Manifest → List String
manifest_blockers (sound artifacts) = []
manifest_blockers (unsound text) = text ∷ []

abbrev pub artifacts_of : Manifest → List String
artifacts_of (sound artifacts) = artifacts
artifacts_of (unsound text) = []

-- `observed == {"status": "PASS"}`
abbrev pub is_self_asserted : Option Json → Bool
is_self_asserted (some (obj (field k (str v) end))) = k == "status" && v == "PASS"
is_self_asserted _ = false

-- `isinstance(observed, dict) and observed`
abbrev pub is_observed : Option Json → Bool
is_observed (some value) = is_nonempty_mapping value
is_observed none = false

abbrev pub result_blockers : String → String → List String
result_blockers name result =
    if result == "FAIL"
    then append "EVIDENCE_FAILED:" name ∷ []
    else block_if (not (result == "PASS"))
        (append "EVIDENCE_NOT_PASS:" (append name (append ":" result)))

abbrev pub is_receipt_for : String → String → EvidenceReceipt → Bool
is_receipt_for project name r = r.project_id == project && r.acceptance_id == name

module _ (codec : Codec) (loads : String → Option Json) where
  unfoldable pub evidence_blockers : EvidenceReceipt → String → String → List String → List String
  evidence_blockers r candidate contract_sha256 artifacts =
      let suffix = append ":" (if r.acceptance_id == "" then "UNKNOWN" else r.acceptance_id) in
      let observed = loads r.observed_state_json in
      block_all (
        (not (r.candidate_commit == candidate), append "EVIDENCE_CANDIDATE_MISMATCH" suffix)
        ∷ (not (r.contract_sha256 == contract_sha256), append "EVIDENCE_CONTRACT_MISMATCH" suffix)
        ∷ (not (member r.artifact_sha256 artifacts), append "EVIDENCE_ARTIFACT_MISMATCH" suffix)
        ∷ (is_empty (strip r.command_or_action), append "EVIDENCE_ACTION_EMPTY" suffix)
        ∷ (is_empty (strip r.raw_output_reference), append "EVIDENCE_RAW_OUTPUT_EMPTY" suffix)
        ∷ (not (is_observed observed), append "EVIDENCE_OBSERVED_STATE_EMPTY" suffix)
        ∷ (is_self_asserted observed, append "SELF_ASSERTED_PASS" suffix)
        ∷ [])

  -- one required acceptance: every receipt for it counts
  unfoldable pub requirement_blockers :
      String → String → String → List String → List EvidenceReceipt → String → List String
  requirement_blockers project candidate contract_sha256 artifacts receipts name =
      if exists_row (is_receipt_for project name) receipts
      then block_each
          (λ r.
            if is_receipt_for project name r
            then result_blockers name r.result
              ++ evidence_blockers r candidate contract_sha256 artifacts
            else [])
          receipts
      else append "MISSING_EVIDENCE:" name ∷ []

  -- the required acceptances, or what is wrong with the contract
  unfoldable pub read_required : Option Json → List String × List String
  read_required (some (obj fields)) = elim (get_field "required" fields) [
    | arr (cons x xs) ↦ (texts_of codec (cons x xs), [])
    | _ ↦ ([], "ACCEPTANCE_REQUIREMENTS_EMPTY" ∷ [])
  ]
  read_required value = ([], "ACCEPTANCE_CONTRACT_INVALID" ∷ "ACCEPTANCE_REQUIREMENTS_EMPTY" ∷ [])
