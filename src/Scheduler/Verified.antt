-- ===== src/Scheduler/Verified.antt =====
-- What a verified result leaves: `verify_candidate` of scheduler.py ends its assignment, once.
use mathlib.Core.Option
use model_lib.Prelude.{
  String, true, ◌&&◌, some, ◌≡◌, ◌≢◌, refl, ◌∙◌, sym, subst, ap, ◌==◌, string_eq, nat_eq, eq_iff,
  arith, if◌then◌else◌, find_row-holds, find_row-update_rows_same,
}
use model_lib.Text.{strip}
use model_lib.Tx.{ok}
use model_lib.Tx.Rules.{
  Commits, Commits-return, Commits-raise, Commits-ok, Commits-raise_if, Commits-branch,
  Commits-require, Commits-bind, Commits-transaction,
}
use model_lib.Json.{Json, obj, Fields, Codec}
use model_lib.Schema.{Db}
use model_lib.Schema.Tasks.{
  TaskNode, TaskState, Assignment, AssignmentState, WorkerLease, LeaseState, CandidateResult,
  VerificationState,
}
use model_lib.WorkResult.{Reader}
use model_lib.Scheduler.{find_assignment, find_task, set_assignment_state}
use model_lib.Scheduler.Results.{
  is_received, find_lease_of, find_result, verify_result, finish_task, release_lease, revalidate,
  accept_result, verify_payload, verify_block, verify_candidate,
}
use model_lib.Scheduler.Keep.{Commits-admit}

abbrev pub verdict : String → VerificationState
verdict kind =
    if kind == "WORK_RESULT" then VerificationState.verified else VerificationState.verified_legacy

abbrev pub outcome : String → TaskState
outcome kind = if kind == "WORK_RESULT" then TaskState.accepted else TaskState.verified

abbrev marked_row : VerificationState → String → CandidateResult → CandidateResult
marked_row s digest r = record r { verification_state = s; verified_result_sha256 = some digest }

abbrev pub verified_row : String → CandidateResult → CandidateResult
verified_row digest r = record r {
  verification_state = verdict r.result_kind;
  verified_result_sha256 = some digest;
}

abbrev pub retired_row : Assignment → Assignment
retired_row a = record a { state = AssignmentState.retired }

abbrev pub finished_row : String → String → TaskNode → TaskNode
finished_row kind digest t = record t { state = outcome kind; result_sha256 = some digest }

abbrev pub released_row : WorkerLease → WorkerLease
released_row l = record l { state = LeaseState.released }

-- the result was waiting; it is verified now, its assignment retired, its task finished and its lease
-- released, and nothing else of their rows has changed
pub record Verified (p id digest : String) (db after : Db) : Type 0 where
  pub result : CandidateResult
  pub row : Assignment
  pub result_found : find_result id db ≡ some result
  pub row_found : find_assignment result.assignment_id db ≡ some row
  pub of_project : result.project_id ≡ p
  pub waiting : is_received row.state ≡ true
  pub verified : find_result id after ≡ some (verified_row digest result)
  pub retired : find_assignment result.assignment_id after ≡ some (retired_row row)
  pub finished :
      find_task p row.task_id after
      ≡ Option.map (finished_row result.result_kind digest) (find_task p row.task_id db)
  pub released :
      find_lease_of result.assignment_id after
      ≡ Option.map released_row (find_lease_of result.assignment_id db)

module _ (codec : Codec) (reader : Reader) (p id digest : String) (db : Db) (r : CandidateResult)
    (a : Assignment) (r_found : find_result id db ≡ some r)
    (a_found : find_assignment r.assignment_id db ≡ some a) (of_project : r.project_id ≡ p)
    (waiting : is_received a.state ≡ true) where
  same_id : r.result_id ≡ id
  unfolding find_result
  same_id =
      (eq_iff r.result_id id).0
        (find_row-holds (λ x. x.result_id == id) db.candidate_results r_found)

  found_verified :
      find_result id (verify_result r.result_id (verdict r.result_kind) digest db)
      ≡ some (verified_row digest r)
  unfolding find_result verify_result
  found_verified =
      subst
        (λ i.
          find_result i (verify_result r.result_id (verdict r.result_kind) digest db)
          ≡ some (verified_row digest r))
        same_id
        (find_row-update_rows_same (λ x. x.result_id == r.result_id)
            (marked_row (verdict r.result_kind) digest) db.candidate_results (λ x h. h)
          ∙ ap (Option.map (marked_row (verdict r.result_kind) digest))
              (subst (λ i. find_result i db ≡ some r) (sym same_id) r_found))

  accept_result-Verified :
      Commits (λ _. Verified p id digest db) (accept_result codec reader p r a digest db)
  unfolding accept_result verify_result finish_task set_assignment_state release_lease find_result
      find_assignment find_task find_lease_of
  accept_result-Verified = Commits-return _ _ _ (record {
    result = r;
    row = a;
    result_found = r_found;
    row_found = a_found;
    of_project = of_project;
    waiting = waiting;
    verified = found_verified;
    retired =
        find_row-update_rows_same (λ x. x.assignment_id == r.assignment_id) retired_row
          db.assignments (λ x h. h)
        ∙ ap (Option.map retired_row) a_found;
    finished =
        find_row-update_rows_same (λ t. t.project_id == p && t.task_id == a.task_id)
          (finished_row r.result_kind digest) db.task_nodes (λ t h. h);
    released =
        find_row-update_rows_same (λ l. l.assignment_id == r.assignment_id) released_row db.leases
          (λ l h. h);
  })

  revalidate-same :
      (payload : Fields) → Commits (λ _ s. s ≡ db) (revalidate codec reader p r a payload db)
  unfolding revalidate
  revalidate-same payload =
      Commits-branch _ _ _ _ _
        (λ _.
          Commits-require _ _ _ _ _
            λ state _. Commits-admit p _ _ _ db λ normalized. Commits-return _ _ db refl)
        (λ _. Commits-return _ _ db refl)

  verify_payload-Verified :
      (payload : Json)
      → Commits (λ _. Verified p id digest db) (verify_payload codec reader p r a digest payload db)
  unfolding verify_payload
  verify_payload-Verified (obj payload) = Commits-raise_if _ _ _ _ _ λ _.
      Commits-raise_if _ _ _ _ _ λ _. Commits-raise_if _ _ _ _ _ λ _.
        Commits-bind (λ _ s. s ≡ db) (λ _. Verified p id digest db)
          (revalidate codec reader p r a payload) (λ _. accept_result codec reader p r a digest) db
          (revalidate-same payload)
          λ _ after same.
            subst
              (λ s.
                Commits (λ _. Verified p id digest db) (accept_result codec reader p r a digest s))
              (sym same) accept_result-Verified
  verify_payload-Verified value = Commits-raise _ _ db

module _ (codec : Codec) (reader : Reader) (p : String) where
  verify_block-Verified :
      (id digest : String) (db : Db)
      → Commits (λ _. Verified p id digest db) (verify_block codec reader p id digest db)
  unfolding verify_block
  verify_block-Verified id digest db = Commits-require _ _ _ _ _ λ r r_found.
      Commits-raise_if _ _ _ _ _ λ same. Commits-require _ _ _ _ _ λ a a_found.
        Commits-raise_if _ _ _ _ _ λ waiting. Commits-require _ _ _ _ _ λ payload _.
          verify_payload-Verified codec reader p id digest db r a r_found a_found
            (ground (arith, same, eq_iff r.project_id p)) (ground (arith, waiting)) payload

  -- A verification that returns was of a result of the project whose assignment waited for it. It sets the
  -- result's verdict and digest, retires the assignment, finishes its task with the digest and releases its
  -- lease, and leaves the rest of these rows.
  pub verify_candidate_lem :
      (result_id result_sha256 : String) (db : Db)
      → (verify_candidate codec reader p result_id result_sha256 db).0 ≡ ok tt
      → Verified p result_id
          (codec.lower (strip result_sha256))
          db
          (verify_candidate codec reader p result_id result_sha256 db).1
  unfolding verify_candidate
  verify_candidate_lem result_id result_sha256 db h =
      let digest = codec.lower (strip result_sha256) in
      Commits-ok (λ _. Verified p result_id digest db)
        (verify_candidate codec reader p result_id result_sha256 db)
        (Commits-raise_if _ _ _ _ _ λ _.
          Commits-transaction _ (verify_block codec reader p result_id digest) db
            (verify_block-Verified result_id digest db))
        h

  -- A result that has been verified is not verified again, under whatever digest.
  pub verify_candidate_once :
      (result_id result_sha256 other : String) (db : Db)
      → (verify_candidate codec reader p result_id result_sha256 db).0 ≡ ok tt
      → (verify_candidate codec reader p result_id other
          (verify_candidate codec reader p result_id result_sha256 db).1).0
        ≢ ok tt
  verify_candidate_once result_id result_sha256 other db h again =
      let after = (verify_candidate codec reader p result_id result_sha256 db).1 in
      let first = verify_candidate_lem result_id result_sha256 db h in
      let second = verify_candidate_lem result_id other after again in
      absurd (
        ground (
          arith, first.verified, first.retired, second.result_found, second.row_found,
          second.waiting,
        ))
