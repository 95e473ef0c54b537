-- ===== src/Acceptance/Complete.antt =====
-- A project passes acceptance only where nothing is left to do: what a PASS of `evaluate` shows.
use mathlib.Core.List.{[], ◌∷◌}
use model_lib.Prelude.{
  String, Bool, true, false, not, Option, none, some, List, ◌++◌, ◌≡◌, refl, ap, subst, arith, ◌==◌,
  string_eq, eq_iff, All,
}
use model_lib.Text.{strip}
use model_lib.Json.{Json, Codec}
use model_lib.Schema.{Db}
use model_lib.Schema.Rows.{Contract, ProjectState, ReleaseCandidate}
use model_lib.Tables.{find_project}
use model_lib.Contract.{find_contract}
use model_lib.Acceptance.{
  find_release, block_if, block_each, Manifest, sound, unsound, read_manifest, manifest_blockers,
  artifacts_of, requirement_blockers, read_required,
}
use model_lib.Acceptance.Evaluate.{
  task_blockers, table_blockers, is_candidate, manifest_of, release_blockers, blockers_of,
  AcceptanceStatus, decide_acceptance, evaluate_found, evaluate,
}
use model_lib.Acceptance.Blockers.{
  append3-nil, block_if-nil, block_each-nil, All-weaken, sorted_set-nil, requirement-Met,
  task-settled, table-quiet, Met, is_settled, is_quiet,
}

-- the project has a contract and a release of this candidate with a sound manifest; every required
-- acceptance is met, every required task is settled, and nothing is left open
pub record IsComplete (codec : Codec) (loads : String → Option Json) (project candidate : String)
    (db : Db) : Type 0 where
  contract : Contract
  state : ProjectState
  release : ReleaseCandidate
  contract_found : find_contract project db ≡ some contract
  state_found : find_project project db ≡ some state
  release_found : find_release project db ≡ some release
  of_candidate : release.candidate_commit ≡ candidate
  recorded : is_candidate candidate state.completion_candidate_commit ≡ true
  artifacts : List String
  vouched :
      read_manifest codec release.manifest_sha256 (loads release.manifest_json) ≡ sound artifacts
  required : List String
  names : read_required codec loads (loads contract.acceptance_contract_json) ≡ (required, [])
  met : All (Met project candidate contract.contract_sha256 artifacts db.evidence_receipts) required
  settled : All (λ t. is_settled project db t ≡ true) db.task_nodes
  quiet : is_quiet project db ≡ true

pass-nil :
    (failed : Bool) (ordered : List String)
    → (decide_acceptance failed ordered).status ≡ AcceptanceStatus.pass
    → ordered ≡ []
pass-nil true ordered h = cc
pass-nil false [] h = refl
pass-nil false (b ∷ bs) h = cc

manifest-sound :
    (m : Manifest) → manifest_blockers m ≡ [] → (artifacts : List String) × (m ≡ sound artifacts)
manifest-sound (sound artifacts) h = (artifacts, refl)
manifest-sound (unsound text) h = cc

module _ (codec : Codec) (loads : String → Option Json) (project candidate : String) (db : Db)
    (contract : Contract) (state : ProjectState)
    (contract_found : find_contract project db ≡ some contract)
    (state_found : find_project project db ≡ some state) where
  blockers_of-nil :
      (o : Option ReleaseCandidate)
      → blockers_of codec loads project candidate contract state o db ≡ []
      → (release_blockers codec loads candidate state o ≡ [])
        × ((read_required codec loads (loads contract.acceptance_contract_json)).1 ≡ [])
        × (block_each
              (requirement_blockers codec loads project candidate contract.contract_sha256
                (artifacts_of (manifest_of codec loads o))
                db.evidence_receipts)
              (read_required codec loads (loads contract.acceptance_contract_json)).0
            ≡ [])
        × (block_each (task_blockers project db) db.task_nodes ≡ [])
        × (table_blockers project db ≡ [])
  unfolding blockers_of
  blockers_of-nil o h =
      let required = read_required codec loads (loads contract.acceptance_contract_json) in
      let requirements =
        block_each
          (requirement_blockers codec loads project candidate contract.contract_sha256
            (artifacts_of (manifest_of codec loads o)) db.evidence_receipts)
          required.0 in
      let tasks = block_each (task_blockers project db) db.task_nodes in
      let release = release_blockers codec loads candidate state o in
      let last =
        append3-nil (release ++ required.1 ++ requirements) tasks (table_blockers project db) h in
      let first = append3-nil release required.1 requirements last.0 in
      (first.0, first.1, first.2, last.1, last.2)

  released-IsComplete :
      (o : Option ReleaseCandidate)
      → find_release project db ≡ o
      → blockers_of codec loads project candidate contract state o db ≡ []
      → IsComplete codec loads project candidate db
  unfolding release_blockers
  released-IsComplete none found h = absurd (ground (arith, (blockers_of-nil none h).0))
  released-IsComplete (some r) found h =
      let parts = blockers_of-nil (some r) h in
      let of_release =
        append3-nil (block_if (not (r.candidate_commit == candidate)) "RELEASE_CANDIDATE_MISMATCH")
          (block_if (not (is_candidate candidate state.completion_candidate_commit))
            "PROJECT_CANDIDATE_MISMATCH")
          (manifest_blockers (manifest_of codec loads (some r))) parts.0 in
      let (artifacts, vouched) = manifest-sound (manifest_of codec loads (some r)) of_release.2 in
      record {
        contract = contract;
        state = state;
        release = r;
        contract_found = contract_found;
        state_found = state_found;
        release_found = found;
        of_candidate = ground (
          arith,
          eq_iff r.candidate_commit candidate,
          block_if-nil (not (r.candidate_commit == candidate)) _ of_release.0,
        );
        recorded = ground (
          arith,
          block_if-nil (not (is_candidate candidate state.completion_candidate_commit)) _
              of_release.1,
        );
        artifacts = artifacts;
        vouched = vouched;
        required = (read_required codec loads (loads contract.acceptance_contract_json)).0;
        names =
            ap
              (λ (t : List String).
                ((read_required codec loads (loads contract.acceptance_contract_json)).0, t))
              parts.1;
        met =
            All-weaken _ _ (read_required codec loads (loads contract.acceptance_contract_json)).0
              (λ name none_of.
                requirement-Met codec loads project candidate contract.contract_sha256 artifacts
                  db.evidence_receipts name
                  (subst
                    (λ m.
                      requirement_blockers codec loads project candidate contract.contract_sha256
                        (artifacts_of m) db.evidence_receipts name
                      ≡ [])
                    vouched none_of))
              (block_each-nil _ _ parts.2);
        settled =
            All-weaken _ _ db.task_nodes (λ t. task-settled project db t)
              (block_each-nil _ _ parts.3);
        quiet = table-quiet project db parts.4;
      }

found-IsComplete :
    (codec : Codec) (loads : String → Option Json) (project candidate : String) (db : Db)
    (c : Option Contract) (s : Option ProjectState)
    → find_contract project db ≡ c
    → find_project project db ≡ s
    → (evaluate_found codec loads project candidate c s db).status ≡ AcceptanceStatus.pass
    → IsComplete codec loads project candidate db
unfolding evaluate_found
found-IsComplete codec loads project candidate db none s c_found s_found h = cc
found-IsComplete codec loads project candidate db (some c) none c_found s_found h = cc
found-IsComplete codec loads project candidate db (some c) (some s) c_found s_found h =
    released-IsComplete codec loads project candidate db c s c_found s_found
      (find_release project db) refl
      (sorted_set-nil (blockers_of codec loads project candidate c s (find_release project db) db)
        (pass-nil _ _ h))

-- A project passes acceptance for a candidate only where it has a contract and a release of this candidate,
-- which is recorded with the project and whose manifest is sound; every receipt for a required acceptance
-- says PASS for this candidate, this contract and an artifact of the manifest, and there is one; every
-- required task is done with a verified structured result; and no Worker is at work, and no result, outbox
-- row, submission or blocking finding is left.
pub evaluate-IsComplete :
    (codec : Codec) (loads : String → Option Json) (project candidate_commit : String) (db : Db)
    → (evaluate codec loads project candidate_commit db).status ≡ AcceptanceStatus.pass
    → IsComplete codec loads project (codec.lower (strip candidate_commit)) db
unfolding evaluate
evaluate-IsComplete codec loads project candidate_commit db h =
    found-IsComplete codec loads project (codec.lower (strip candidate_commit)) db _ _ refl refl h
