-- ===== src/Acceptance/Release.antt =====
-- `record_release_candidate` of master_a_dynamic_v4/state_store.py.
use mathlib.Core.List.{◌∷◌}
use model_lib.Prelude.{String, not, ◌&&◌, Option, none, some, ◌==◌, string_eq, exists_row}
use model_lib.Text.{strip}
use model_lib.Tx.{
  Result, return, raise_if, write, write_unless, select, require, transaction, ◌>>=◌, ◌>>◌,
}
use model_lib.Json.{Json, Codec, sha256_json, is_nonempty_mapping}
use model_lib.Schema.{
  Db, Error, integrity_error, project_not_found, candidate_commit_invalid,
  candidate_manifest_invalid, release_candidate_identity_conflict,
}
use model_lib.Schema.Rows.{ReleaseCandidate}
use model_lib.Tables.{Action, find_project, update_project}
use model_lib.Evidence.{is_hex}
use model_lib.Acceptance.{find_release}

-- the key is the project
unfoldable pub insert_release : ReleaseCandidate → Action Unit
insert_release c db =
    write_unless (exists_row (λ r. r.project_id == c.project_id) db.release_candidates)
      integrity_error (λ d. record d { release_candidates = c ∷ d.release_candidates }) db

-- the last SELECT finds the row just inserted, so that its error never arises
unfoldable pub release_existing :
    ReleaseCandidate → Option ReleaseCandidate → Action ReleaseCandidate
release_existing c (some r) = do
  raise_if
      (not (r.candidate_commit == c.candidate_commit && r.manifest_sha256 == c.manifest_sha256))
      release_candidate_identity_conflict
  return r
release_existing c none = do
  insert_release c
  write (
      update_project c.project_id
        (λ s. record s { completion_candidate_commit = some c.candidate_commit }))
  after ← select (find_release c.project_id)
  require after project_not_found

unfoldable pub release_block : ReleaseCandidate → Action ReleaseCandidate
release_block c = do
  found ← select (find_project c.project_id)
  state ← require found project_not_found
  existing ← select (find_release c.project_id)
  release_existing c existing

unfoldable pub record_release_candidate :
    Codec → String → String → Json → Db → Result Error ReleaseCandidate × Db
record_release_candidate codec project candidate_commit manifest = do
  let commit = codec.lower (strip candidate_commit)
  raise_if (not (is_hex 40 commit)) candidate_commit_invalid
  raise_if (not (is_nonempty_mapping manifest)) candidate_manifest_invalid
  transaction (
      release_block (record {
        project_id = project;
        candidate_commit = commit;
        manifest_json = codec.canonical_json manifest;
        manifest_sha256 = sha256_json codec manifest;
      }))
