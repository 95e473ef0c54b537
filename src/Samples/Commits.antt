-- ===== src/Samples/Commits.antt =====
-- Transition "t1" commits, is sent again, and "t2" loses the race.
use mathlib.Core.List.{[]}
use model_lib.Prelude.{
  ◌≡◌, ◌≢◌, ◌⊎◌, refl, String, arith, find_row, exists_row, count_rows, update_rows, string_eq,
}
use model_lib.Tx.{ok, tx_steps}
use model_lib.Text.{strip, is_empty}
use model_lib.Json.{str, field, end, get_field, set_field, text_or, sha256_json}
use model_lib.Schema.Rows.{committed, already_committed}
use model_lib.Tables.{find_project, insert_event}
use model_lib.Commit.{
  Proposal, validate_proposal, content_sha256, has_duplicate, find_transition,
  evidence_belongs_to_project, advance_version, insert_transition, commit_transition,
  commit_on_state, commit_on_transition, commit_block, commit_checked, commit,
}
use model_lib.Commit.Outcome.{HasOneRow}
use model_lib.Commit.Accepted.{Accepted, commit_lem}
use model_lib.Commit.Versions.{IsCounted, version_of, transitions_of, commit-IsCounted}
use model_lib.Commit.Once.{commit-commit, second_commit_loses}
use model_lib.Samples.{project_db, set_phase}
use model_lib.Samples.Printer.{codec}

unfoldable run_commits : Unit {0}
unfolding tx_steps commit commit_checked commit_block commit_on_transition commit_on_state
    commit_transition insert_transition advance_version evidence_belongs_to_project find_transition
    has_duplicate content_sha256 validate_proposal get_field set_field text_or sha256_json strip
    is_empty find_project insert_event find_row exists_row count_rows update_rows
run_commits = tt

first_commits : (commit codec 0 1 "t1" set_phase [] "u1" project_db).0 ≡ ok committed
unfolding run_commits
first_commits = refl

keyed : (q : String) → HasOneRow q project_db
unfolding count_rows
keyed q = ground arith

counted : (q : String) → IsCounted q project_db
unfolding version_of transitions_of count_rows find_project find_row
counted q = record { one_row = ground arith; counted = ground arith }

abbrev checked : Proposal
checked = record {
  fields = field "project_id" (str "p") (
      field "kind" (str "SET_PHASE")
        (field "phase" (str "build") (field "master_identity" (str "A") end)));
  project_id = "p";
  kind = "SET_PHASE";
  phase = "build";
}

valid : validate_proposal codec set_phase ≡ ok checked
unfolding run_commits
valid = refl

commit_lem_example :
    let after = (commit codec 0 1 "t1" set_phase [] "u1" project_db).1 in
    ((committed ≡ committed) × Accepted codec 0 1 "t1" set_phase [] project_db after)
    ⊎ ((committed ≢ committed) × (after ≡ project_db))
commit_lem_example = commit_lem codec 0 1 "t1" set_phase [] "u1" project_db keyed first_commits

commit-IsCounted_example : IsCounted "p" (commit codec 0 1 "t1" set_phase [] "u1" project_db).1
commit-IsCounted_example = commit-IsCounted codec 0 1 "t1" set_phase [] "u1" project_db counted "p"

commit-commit_example :
    let after = (commit codec 0 1 "t1" set_phase [] "u1" project_db).1 in
    commit codec 0 1 "t1" set_phase [] "u2" after ≡ (ok already_committed, after)
commit-commit_example =
    commit-commit codec 0 1 "t1" set_phase [] "u1" "u2" project_db keyed first_commits

second_commit_loses_example :
    (commit codec 0 1 "t2" set_phase [] "u2"
      (commit codec 0 1 "t1" set_phase [] "u1" project_db).1).0
    ≢ ok committed
second_commit_loses_example =
    second_commit_loses codec 0 1 1 "t1" "t2" set_phase set_phase [] [] "u1" "u2" project_db checked
      checked counted valid valid refl first_commits
