-- ===== src/Samples/Completion.antt =====
-- A project with one required acceptance and no tasks, which passes.
use mathlib.Core.List.{[], ◌∷◌}
use model_lib.Prelude.{
  ◌≡◌, refl, String, Option, none, some, ◌==◌, string_eq, if◌then◌else◌, find_row, exists_row,
  update_rows, sort_by, distinct,
}
use model_lib.Text.{strip, is_empty, decimal}
use model_lib.Tx.{tx_steps}
use model_lib.Json.{Json, str, arr, obj, nil, cons, field, end, sha256_json, get_field, text_or}
use model_lib.Schema.{Db, empty}
use model_lib.Schema.Rows.{EvidenceReceipt}
use model_lib.Tables.{find_project, update_project}
use model_lib.Contract.{
  find_contract, insert_contract, insert_project, new_contract, create_existing, create_block,
  create_contract,
}
use model_lib.Evidence.{is_hex}
use model_lib.Acceptance.{
  find_release, block_all, block_each, text_of, texts_of, digests_of, read_files, read_manifest,
  evidence_blockers, requirement_blockers, read_required,
}
use model_lib.Acceptance.Release.{
  insert_release, release_existing, release_block, record_release_candidate,
}
use model_lib.Acceptance.Evaluate.{
  has_structured_result, task_blockers, table_blockers, release_blockers, blockers_of, has_failed,
  AcceptanceStatus, evaluate_found, evaluate,
}
use model_lib.Acceptance.Complete.{IsComplete, evaluate-IsComplete}
use model_lib.Samples.Printer.{codec}

unfoldable run_completion : Unit {0}
unfolding tx_steps strip is_empty decimal find_row exists_row update_rows sort_by distinct
    sha256_json get_field text_or find_project update_project find_contract insert_contract
    insert_project create_existing create_block create_contract is_hex find_release block_all
    block_each text_of texts_of digests_of read_files read_manifest evidence_blockers
    requirement_blockers read_required insert_release release_existing release_block
    record_release_candidate has_structured_result task_blockers table_blockers release_blockers
    blockers_of has_failed evaluate_found evaluate
run_completion = tt

abbrev digest : String
digest = "0123456789abcdef0123456789abcdef0123456789abcdef0123456789abcdef"

abbrev commit : String
commit = "0123456789abcdef0123456789abcdef01234567"

abbrev acceptance : Json
acceptance = obj (field "required" (arr (cons (str "tests") nil)) end)

abbrev manifest : Json
manifest = obj (field "files" (obj (field "app.zip" (str digest) end)) end)

abbrev observed : Json
observed = obj (field "tests" (str "12 passed") end)

-- reads back what the sample prints
abbrev loads : String → Option Json
loads s =
    if s == codec.canonical_json acceptance
    then some acceptance
    else if s == codec.canonical_json manifest
    then some manifest
    else if s == "observed"
    then some observed
    else none

abbrev released : Db
released =
    (record_release_candidate codec "p" commit manifest
      (create_contract codec "p" (obj (field "goal" (str "ship") end)) acceptance empty).1).1

abbrev receipt : EvidenceReceipt
receipt = record {
  evidence_ref = "e1";
  project_id = "p";
  acceptance_id = "tests";
  result = "PASS";
  candidate_commit = commit;
  contract_sha256 =
      (new_contract codec "p" (obj (field "goal" (str "ship") end)) acceptance).contract_sha256;
  artifact_sha256 = digest;
  command_or_action = "run the tests";
  observed_state_json = "observed";
  raw_output_reference = "log";
  started_at = "2026-01-01T00:00:00Z";
  finished_at = "2026-01-01T00:01:00Z";
}

abbrev evidenced : Db
evidenced = record released { evidence_receipts = receipt ∷ [] }

-- without the receipt the project is blocked
blocked : (evaluate codec loads "p" commit released).status ≡ AcceptanceStatus.blocked
unfolding run_completion
blocked = refl

passes : (evaluate codec loads "p" commit evidenced).status ≡ AcceptanceStatus.pass
unfolding run_completion
passes = refl

evaluate-IsComplete_example : IsComplete codec loads "p" (codec.lower (strip commit)) evidenced
evaluate-IsComplete_example = evaluate-IsComplete codec loads "p" commit evidenced passes
