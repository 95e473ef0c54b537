-- ===== src/WorkResult.antt =====
-- The contract of a Worker's result, master_a_dynamic_v4/work_result.py. A refusal is the message of a
-- `WorkResultRejected`. `Reader` stands for `json.loads` and `int` of a text.
use Prim.Native.String.{◌++◌ as append}
use mathlib.Core.List.{[], ◌∷◌}
use model_lib.Prelude.{
  ℕ, String, Bool, true, false, not, ◌&&◌, ◌||◌, Option, none, some, List, ◌==◌, string_eq, nat_eq,
  if◌then◌else◌,
}
use model_lib.Text.{strip, is_empty}
use model_lib.Tx.{Body, return, raise, raise_if, require, branch, ◌>>=◌, ◌>>◌}
use model_lib.Json.{
  Json, nil, flag, num, str, arr, obj, Fields, end, field, Codec, sha256_json, get_field, set_field,
  text_or,
}
use model_lib.Evidence.{is_hex}

-- what `int` makes of a text that it reads
pub data Integer : Type 0 where
  natural : ℕ → Integer
  negative : Integer

pub record Reader : Type 0 where
  pub loads : String → Option Json
  pub int_text : String → Option Integer

-- `_LIST_FIELDS`
abbrev pub list_fields : List String
list_fields =
    "scope_completed" ∷ "scope_not_completed" ∷ "deliverables" ∷ "evidence" ∷ "acceptance_coverage"
    ∷ "facts" ∷ "inferences" ∷ "unknowns" ∷ "contradictions" ∷ "followup_proposals" ∷ []

abbrev pub is_status : String → Bool
is_status s = s == "COMPLETE" || s == "PARTIAL" || s == "BLOCKED" || s == "INVALID"

-- `{… for key, item in value.items() if key != "result_sha256"}`
unfoldable pub without_field : String → Fields → Fields
without_field key end = end
without_field key (field k v rest) =
    let others = without_field key rest in if k == key then others else field k v others

unfoldable pub result_content_sha256 : Codec → Fields → String
result_content_sha256 codec value = sha256_json codec (obj (without_field "result_sha256" value))

-- `int(value)` of what is neither a bool nor absent; a list or a mapping raises `TypeError`
unfoldable pub int_of : Reader → Json → Option Integer
int_of reader (num n) = some (natural n)
int_of reader (str s) = reader.int_text s
int_of reader _ = none

abbrev pub is_flag : Json → Bool
is_flag (flag b) = true
is_flag _ = false

-- `observed_version >= 0 and observed_version == expected_version`
abbrev pub is_version : ℕ → Integer → Bool
is_version expected (natural n) = n == expected
is_version expected negative = false

-- the body of the `for` refuses what is not a list; a list is kept as it is
abbrev pub is_list : Json → Bool
is_list (arr items) = true
is_list _ = false

-- `not normalized[field]`, of a list
abbrev pub is_no_item : Json → Bool
is_no_item (arr nil) = true
is_no_item _ = false

-- the identity of the assignment that a result has to name
pub record Identity : Type 0 where
  pub project_id : String
  pub assignment_id : String
  pub task_id : String
  pub objective_sha256 : String
  pub base_state_version : ℕ

-- a check that returns or raises
abbrev pub Check : Type 0 → Type 0
Check A = Body (Unit {0}) String A

unfoldable pub require_nonempty : Codec → Json → String → Check String
require_nonempty codec value name = do
  raise_if (is_empty (strip (text_or codec "" value))) (append name "_MISSING")
  return (strip (text_or codec "" value))

-- `lengths` is the length 64, or also 40
unfoldable pub require_hex : Codec → Json → String → Bool → Check String
require_hex codec value name short = do
  raise_if
      (not (
        is_hex 64 (codec.lower (strip (text_or codec "" value)))
        || (short && is_hex 40 (codec.lower (strip (text_or codec "" value))))))
      (append name "_INVALID")
  return (codec.lower (strip (text_or codec "" value)))

-- the `for` over the list fields: each is a list, and is written back as it is
unfoldable pub require_lists : Codec → Fields → List String → Fields → Check Fields
require_lists codec result [] normalized = return normalized
require_lists codec result (name ∷ names) normalized = do
  raise_if (not (is_list (get_field name result))) (append (codec.upper name) "_INVALID")
  require_lists codec result names (set_field name (get_field name result) normalized)

module _ (codec : Codec) (reader : Reader) where
  -- the fields that have to agree with the assignment's
  unfoldable pub validate_identity : Identity → Fields → Check Unit
  validate_identity identity result = do
    project ← require_nonempty codec (str identity.project_id) "PROJECT_ID"
    assignment ← require_nonempty codec (str identity.assignment_id) "ASSIGNMENT_ID"
    task ← require_nonempty codec (str identity.task_id) "TASK_ID"
    objective ← require_hex codec (str identity.objective_sha256) "OBJECTIVE_SHA256" false
    actual_project ← require_nonempty codec (get_field "project_id" result) "PROJECT_ID"
    raise_if (not (actual_project == project)) "PROJECT_ID_MISMATCH"
    actual_assignment ← require_nonempty codec (get_field "assignment_id" result) "ASSIGNMENT_ID"
    raise_if (not (actual_assignment == assignment)) "ASSIGNMENT_ID_MISMATCH"
    actual_task ← require_nonempty codec (get_field "task_id" result) "TASK_ID"
    raise_if (not (actual_task == task)) "TASK_ID_MISMATCH"
    actual_objective ←
        require_hex codec (get_field "objective_sha256" result) "OBJECTIVE_SHA256" false
    raise_if (not (actual_objective == objective)) "OBJECTIVE_HASH_MISMATCH"

  -- `observed_version`
  unfoldable pub validate_version : ℕ → Json → Check Unit
  validate_version expected value = do
    raise_if (is_flag value) "BASE_STATE_VERSION_INVALID"
    observed ← require (int_of reader value) "BASE_STATE_VERSION_INVALID"
    raise_if (not (is_version expected observed)) "BASE_STATE_VERSION_MISMATCH"

  -- the body is normalised with what the checks have returned
  unfoldable pub normalize : Identity → String → String → String → String → Fields → Fields
  normalize identity worker commit status digest result = set_field "result_sha256" (str digest) (
      set_field "status" (str status) (
        set_field "candidate_commit" (str commit) (
          set_field "worker_id" (str worker) (
            set_field "base_state_version" (num identity.base_state_version) (
              set_field "objective_sha256" (str (codec.lower (strip identity.objective_sha256))) (
                set_field "task_id" (str (strip identity.task_id)) (
                  set_field "assignment_id" (str (strip identity.assignment_id)) (
                    set_field "project_id" (str (strip identity.project_id))
                      (set_field "work_result_version" (str "1") result)))))))))

  -- a complete result carries evidence and covers the acceptance criteria
  unfoldable pub validate_complete : String → Fields → Check Unit
  validate_complete status normalized =
      branch (status == "COMPLETE")
        (do
          raise_if (is_no_item (get_field "evidence" normalized)) "COMPLETE_EVIDENCE_MISSING"
          raise_if (is_no_item (get_field "acceptance_coverage" normalized))
              "COMPLETE_ACCEPTANCE_COVERAGE_MISSING")
        (return tt)

  unfoldable pub validate_fields : Identity → Fields → Check Fields
  validate_fields identity result = do
    raise_if (not (text_or codec "" (get_field "work_result_version" result) == "1"))
        "WORK_RESULT_VERSION_UNSUPPORTED"
    validate_identity identity result
    validate_version identity.base_state_version (get_field "base_state_version" result)
    worker ← require_nonempty codec (get_field "worker_id" result) "WORKER_ID"
    commit ← require_hex codec (get_field "candidate_commit" result) "CANDIDATE_COMMIT" true
    let status = codec.upper (strip (text_or codec "" (get_field "status" result)))
    raise_if (not (is_status status)) "STATUS_INVALID"
    digest ← require_hex codec (get_field "result_sha256" result) "RESULT_SHA256" false
    raise_if (not (digest == result_content_sha256 codec result)) "RESULT_CONTENT_HASH_MISMATCH"
    normalized ←
        require_lists codec result list_fields
          (normalize identity worker commit status digest result)
    validate_complete status normalized
    return normalized

  unfoldable pub validate_work_result : Identity → Json → Check Fields
  validate_work_result identity (obj result) = validate_fields identity result
  validate_work_result identity value = raise "WORK_RESULT_NOT_MAPPING"
