-- ===== src/Contract.antt =====
-- The contract of a project: `create_contract` of master_a_dynamic_v4/state_store.py.
pub mod Immutable
use mathlib.Core.List.{◌∷◌}
use model_lib.Prelude.{
  ℕ, String, Bool, not, ◌||◌, Option, none, some, ◌==◌, string_eq, find_row, exists_row,
}
use model_lib.Text.{strip, is_empty}
use model_lib.Tx.{
  branch, Result, return, raise, raise_if, write_unless, select, require, transaction, ◌>>=◌, ◌>>◌,
}
use model_lib.Json.{Json, str, obj, end, field, Codec, sha256_json, is_nonempty_mapping}
use model_lib.Schema.{
  Db, Error, integrity_error, project_not_found, root_contract_invalid, acceptance_contract_invalid,
  contract_identity_mismatch,
}
use model_lib.Schema.Rows.{Contract, ProjectState, ProjectStatus}
use model_lib.Tables.{Action}

unfoldable pub find_contract : String → Db → Option Contract
find_contract project db = find_row (λ r. r.project_id == project) db.contracts

unfoldable pub insert_contract : Contract → Action Unit
insert_contract r db =
    write_unless (exists_row (λ x. x.project_id == r.project_id) db.contracts) integrity_error
      (λ d. record d { contracts = r ∷ d.contracts }) db

unfoldable pub insert_project : ProjectState → Action Unit
insert_project r db =
    write_unless (exists_row (λ x. x.project_id == r.project_id) db.project_states) integrity_error
      (λ d. record d { project_states = r ∷ d.project_states }) db

-- the defaults of schema.sql
abbrev pub new_project : String → ProjectState
new_project project = record {
  project_id = project;
  state_version = 0;
  master_epoch = 0;
  status = ProjectStatus.active;
  phase = "BOOTSTRAP";
  completion_candidate_commit = none;
}

module _ (codec : Codec) (project : String) (root acceptance : Json) where
  -- `contract_hash`
  abbrev pub contract_sha256_of : String
  contract_sha256_of = sha256_json codec (
      obj (
        field "root_contract_sha256" (str (sha256_json codec root))
          (field "acceptance_contract_sha256" (str (sha256_json codec acceptance)) end)))

  abbrev pub new_contract : Contract
  new_contract = record {
    project_id = project;
    root_contract_sha256 = sha256_json codec root;
    acceptance_contract_json = codec.canonical_json acceptance;
    acceptance_contract_sha256 = sha256_json codec acceptance;
    contract_sha256 = contract_sha256_of;
  }

  -- the last SELECT finds the row just inserted, so that its error never arises
  unfoldable pub create_existing : Option Contract → Action Contract
  create_existing (some c) =
      branch (not (c.contract_sha256 == contract_sha256_of)) (raise contract_identity_mismatch)
        (return c)
  create_existing none = do
    insert_contract new_contract
    insert_project (new_project project)
    after ← select (find_contract project)
    require after project_not_found

  unfoldable pub create_block : Action Contract
  create_block = do
    raise_if (is_empty project || not (is_nonempty_mapping root)) root_contract_invalid
    raise_if (not (is_nonempty_mapping acceptance)) acceptance_contract_invalid
    existing ← select (find_contract project)
    create_existing existing

unfoldable pub create_contract : Codec → String → Json → Json → Db → Result Error Contract × Db
create_contract codec project_id root_contract acceptance_contract =
    transaction (create_block codec (strip project_id) root_contract acceptance_contract)
