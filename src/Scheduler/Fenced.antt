-- ===== src/Scheduler/Fenced.antt =====
-- What it takes for a Worker's result to be recorded and verified by scheduler.py, and what is then so.
use mathlib.Core.List.{◌∷◌}
use model_lib.Prelude.{
  ℕ, String, true, false, Option, none, some, ◌≡◌, refl, string_eq, nat_eq, eq_iff, arith, find_row,
}
use model_lib.Tx.{ok}
use model_lib.Tx.Rules.{
  Commits, Commits-return, Commits-raise, Commits-ok, Commits-raise_if, Commits-branch,
  Commits-require, Commits-weaken, Commits-write_unless, Commits-transaction,
}
use model_lib.Stamp.{text_lt}
use model_lib.Json.{Json, Codec, sha256_json}
use model_lib.Schema.{Db}
use model_lib.Schema.Rows.{ProjectState}
use model_lib.Schema.Tasks.{Assignment, AssignmentState, WorkerLease, CandidateResult}
use model_lib.Tables.{find_project}
use model_lib.Scheduler.{is_active, find_assignment, set_assignment_state}
use model_lib.Scheduler.Results.{
  find_lease_of, find_result, insert_result, result_id_of, candidate_existing, new_candidate,
  candidate_block, record_candidate,
}

-- the caller holds the assignment: its token, under an active lease that has not run out, in the epoch that
-- the project is still in
pub record Holds (p assignment token : String) (epoch now : ℕ) (db : Db) : Type 0 where
  pub row : Assignment
  pub lease : WorkerLease
  pub state : ProjectState
  pub row_found : find_assignment assignment db ≡ some row
  pub lease_found : find_lease_of assignment db ≡ some lease
  pub state_found : find_project p db ≡ some state
  pub of_project : row.project_id ≡ p
  pub token_same : row.lease_token ≡ token
  pub active : is_active lease.state ≡ true
  pub epoch_same : (row.master_epoch ≡ epoch) × (state.master_epoch ≡ epoch)
  pub alive : text_lt lease.expires_at now ≡ false

-- the result is in the ledger as it was given
pub record Recorded (codec : Codec) (assignment kind : String) (payload : Json) (result : String)
    (after : Db) : Type 0 where
  pub id : result ≡ result_id_of assignment
  pub row : CandidateResult
  pub found : find_result result after ≡ some row
  pub same_payload : row.payload_sha256 ≡ sha256_json codec payload
  pub same_kind : row.result_kind ≡ kind

module _ (codec : Codec) (p assignment token : String) (epoch : ℕ) (kind : String)
    (payload : Json) where
  find_result-recorded :
      (db : Db)
      → find_result (result_id_of assignment) (
          set_assignment_state assignment AssignmentState.result_received (record db {
            candidate_results =
                new_candidate codec p assignment token epoch kind payload ∷ db.candidate_results;
          }))
        ≡ some (new_candidate codec p assignment token epoch kind payload)
  unfolding find_result set_assignment_state find_row
  find_result-recorded db =
      ground (arith, eq_iff (result_id_of assignment) (result_id_of assignment))

  candidate_existing-Recorded :
      (o : Option CandidateResult) (db : Db)
      → find_result (result_id_of assignment) db ≡ o
      → Commits (Recorded codec assignment kind payload) (
          candidate_existing codec p
            (new_candidate codec p assignment token epoch kind payload)
            o
            db)
  unfolding candidate_existing insert_result
  candidate_existing-Recorded none db found = Commits-write_unless _ _ _ _ _ _ λ _.
      Commits-return _ _ _ (record {
        id = refl;
        row = new_candidate codec p assignment token epoch kind payload;
        found = find_result-recorded db;
        same_payload = refl;
        same_kind = refl;
      })
  candidate_existing-Recorded (some r) db found =
      Commits-branch _ _ _ _ _
        (λ same. Commits-return _ _ db (record {
          id = refl;
          row = r;
          found = found;
          same_payload = ground (arith, same, eq_iff r.payload_sha256 (sha256_json codec payload));
          same_kind = ground (arith, same, eq_iff r.result_kind kind);
        }))
        (λ _. Commits-raise _ _ db)

  candidate_block_lem :
      (now : ℕ) (db : Db)
      → Commits
          (λ result after.
            Holds p assignment token epoch now db
            × Recorded codec assignment kind payload result after)
          (candidate_block codec p assignment token epoch kind payload now db)
  unfolding candidate_block
  candidate_block_lem now db = Commits-require _ _ _ _ _ λ a a_found.
      Commits-raise_if _ _ _ _ _ λ of_project. Commits-require _ _ _ _ _ λ l l_found.
        Commits-require _ _ _ _ _ λ state state_found. Commits-raise_if _ _ _ _ _ λ unfenced.
          Commits-weaken _ _ _
            (λ result after recorded. (
              record {
                row = a;
                lease = l;
                state = state;
                row_found = a_found;
                lease_found = l_found;
                state_found = state_found;
                of_project = ground (arith, of_project, eq_iff a.project_id p);
                token_same = ground (arith, unfenced, eq_iff a.lease_token token);
                active = ground (arith, unfenced);
                epoch_same = (ground (arith, unfenced), ground (arith, unfenced));
                alive = ground (arith, unfenced);
              },
              recorded,
            ))
            (candidate_existing-Recorded _ db refl)

-- A Worker's result is recorded only for the holder of its assignment: the token is the assignment's, its
-- lease is active and has not run out, and the assignment is of the epoch that the caller names and the
-- project is still in. The ledger then has, under the assignment's one result id, a row with this payload's
-- digest and this kind.
pub record_candidate_lem :
    (codec : Codec) (project assignment token : String) (epoch : ℕ) (kind : String) (payload : Json)
    (now : ℕ) (db : Db) {result : String}
    → (record_candidate codec project assignment token epoch kind payload now db).0 ≡ ok result
    → Holds project assignment token epoch now db
      × Recorded codec assignment
          (codec.upper kind)
          payload
          result
          (record_candidate codec project assignment token epoch kind payload now db).1
unfolding record_candidate
record_candidate_lem codec project assignment token epoch kind payload now db h =
    Commits-ok
      (λ result after.
        Holds project assignment token epoch now db
        × Recorded codec assignment (codec.upper kind) payload result after)
      (record_candidate codec project assignment token epoch kind payload now db)
      (Commits-raise_if _ _ _ _ _ λ _.
        Commits-transaction _
          (candidate_block codec project assignment token epoch (codec.upper kind) payload now) db
          (candidate_block_lem codec project assignment token epoch (codec.upper kind) payload now
            db))
      h
