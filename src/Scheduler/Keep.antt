-- ===== src/Scheduler/Keep.antt =====
-- The operations of scheduler.py that end leases and assignments keep the active leases apart.
use mathlib.Core.List.{List, [], ◌∷◌}
use model_lib.Prelude.{
  ℕ, ◌+◌, String, Bool, true, false, Option, none, some, refl, length, sort_by, ◌==◌, string_eq,
  nat_eq, if◌then◌else◌,
}
use model_lib.Text.{strip}
use model_lib.Tx.{Result, ok, err, ◌>>=◌, return}
use model_lib.Tx.Rules.{
  Commits, Commits-return, Commits-raise, Commits-raise_if, Commits-branch, Commits-require,
  Commits-bind, Commits-write_unless, keeps_of_Commits,
}
use model_lib.Tx.Keeps.{keeps_raise_if, keeps_require}
use model_lib.Json.{Json, obj, Fields, Codec}
use model_lib.Schema.{Db, work_result_rejected}
use model_lib.Schema.Rows.{Event}
use model_lib.Schema.Tasks.{
  Assignment, AssignmentState, TaskState, WorkerLease, LeaseState, CandidateResult,
}
use model_lib.Tables.{Action}
use model_lib.Tables.Insert.{Commits-insert_event}
use model_lib.WorkResult.{Reader, Check, validate_work_result}
use model_lib.Scheduler.{
  is_active_assignment, find_assignment, set_task_state, join_leases, is_expired, recover_rows,
  recover_block, recover_expired_leases,
}
use model_lib.Scheduler.Claim.{AssignmentClaim}
use model_lib.Scheduler.Results.{
  identity_of, insert_result, verify_result, finish_task, release_lease, admit, candidate_existing,
  candidate_block, record_candidate, record_work_result, revalidate, accept_result, verify_payload,
  verify_block, verify_candidate,
}
use model_lib.Scheduler.Exclusive.{
  Exclusive, Exclusive-same, Exclusive-fewer, Exclusive-set_assignment_state,
  Exclusive-set_task_state, Exclusive-expire_lease,
}

module _ (q : String) where
  -- an event
  Exclusive-events :
      (db : Db) (events : List Event) → Exclusive q db → Exclusive q (record db { events = events })
  unfolding find_assignment
  Exclusive-events db events h =
      Exclusive-same q db (record db { events = events }) refl (λ id. refl) h

  module _ (codec : Codec) (p : String) (uuids : ℕ → String) where
    requeued :
        (b : Bool) (task : String) (db : Db)
        → Exclusive q db
        → Exclusive q (if b then set_task_state p task TaskState.queued db else db)
    requeued true task db h = Exclusive-set_task_state q p task TaskState.queued db h
    requeued false task db h = h

    recover_rows-Exclusive :
        (rows : List (WorkerLease × Assignment)) (i : ℕ) (db : Db)
        → Exclusive q db
        → Commits (λ _. Exclusive q) (recover_rows codec p rows uuids i db)
    unfolding recover_rows
    recover_rows-Exclusive [] i db h = Commits-return _ tt db h
    recover_rows-Exclusive ((l, a) ∷ rows) i db h = Commits-insert_event _ _ _ _ λ _.
        recover_rows-Exclusive rows (i + 1) _ (
          Exclusive-events _ _ (
            requeued (is_active_assignment a.state) a.task_id _ (
              Exclusive-set_assignment_state q l.assignment_id AssignmentState.fenced _
                (Exclusive-expire_lease q l.lease_token db h))))

    recover_block-Exclusive :
        (now : ℕ) (db : Db)
        → Exclusive q db
        → Commits (λ _. Exclusive q) (recover_block codec p uuids now db)
    unfolding recover_block
    recover_block-Exclusive now db h =
        let expired = sort_by (λ r. r.0.slot_id) (join_leases (is_expired p now) db.leases db) in
        Commits-bind (λ _. Exclusive q) (λ _. Exclusive q) (recover_rows codec p expired uuids 0)
          (λ _. return (length expired)) db (recover_rows-Exclusive expired 0 db h)
          λ _ after k. Commits-return (λ _. Exclusive q) (length expired) after k

    -- Fencing the expired leases of a project leaves every project's active leases apart, if they were.
    pub recover_expired_leases-Exclusive :
        (now : ℕ) (db : Db)
        → Exclusive q db
        → Exclusive q (recover_expired_leases codec p uuids now db).1
    unfolding recover_expired_leases
    recover_expired_leases-Exclusive now db h =
        keeps_of_Commits (Exclusive q) (recover_block codec p uuids now) db h
          (recover_block-Exclusive now db h)

  module _ (codec : Codec) (p : String) where
    candidate_existing-Exclusive :
        (c : CandidateResult) (o : Option CandidateResult) (db : Db)
        → Exclusive q db
        → Commits (λ _. Exclusive q) (candidate_existing codec p c o db)
    unfolding candidate_existing insert_result find_assignment
    candidate_existing-Exclusive c none db h = Commits-write_unless _ _ _ _ _ _ λ _.
        Commits-return _ _ _ (
          Exclusive-set_assignment_state q c.assignment_id AssignmentState.result_received _ (
            Exclusive-same q db (record db { candidate_results = c ∷ db.candidate_results }) refl
              (λ id. refl) h))
    candidate_existing-Exclusive c (some r) db h =
        Commits-branch _ _ _ _ _ (λ _. Commits-return _ _ db h) (λ _. Commits-raise _ _ db)

    candidate_block-Exclusive :
        (assignment token : String) (epoch : ℕ) (kind : String) (payload : Json) (now : ℕ) (db : Db)
        → Exclusive q db
        → Commits
            (λ _. Exclusive q)
            (candidate_block codec p assignment token epoch kind payload now db)
    unfolding candidate_block
    candidate_block-Exclusive assignment token epoch kind payload now db h =
        Commits-require _ _ _ _ _ λ a _. Commits-raise_if _ _ _ _ _ λ _.
          Commits-require _ _ _ _ _ λ l _.
            Commits-require _ _ _ _ _
              λ state _. Commits-raise_if _ _ _ _ _ λ _. candidate_existing-Exclusive _ _ db h

    record_candidate-Exclusive :
        (assignment token : String) (epoch : ℕ) (kind : String) (payload : Json) (now : ℕ) (db : Db)
        → Exclusive q db
        → Exclusive q (record_candidate codec p assignment token epoch kind payload now db).1
    unfolding record_candidate
    record_candidate-Exclusive assignment token epoch kind payload now db h =
        keeps_raise_if (Exclusive q) _ _ _ db h (
          keeps_of_Commits (Exclusive q)
            (candidate_block codec p assignment token epoch (codec.upper kind) payload now) db h
            (candidate_block-Exclusive assignment token epoch (codec.upper kind) payload now db h))

  pub Commits-admit :
      {A B : Type 0} (P : B → Db → Type 0) (check : Check A) (k : A → Action B) (db : Db)
      → ((a : A) → Commits P (k a db))
      → Commits P ((admit check >>= k) db)
  unfolding admit
  Commits-admit {A = A} P check k db h = admitted (check tt).0
    where
      admitted :
          (r : Result String A)
          → Commits P (
              ((λ d. elim r [ ok a ↦ (ok a, d) | err e ↦ (err (work_result_rejected e), d) ]) >>= k)
                db)
      admitted (ok a) = h a
      admitted (err e) = Commits-raise P (work_result_rejected e) db

  keeps_admit :
      {A B : Type 0} (P : Db → Type 0) (check : Check A) (k : A → Action B) (db : Db)
      → P db
      → ((a : A) → P (k a db).1)
      → P ((admit check >>= k) db).1
  unfolding admit
  keeps_admit {A = A} P check k db h next = admitted (check tt).0
    where
      admitted :
          (r : Result String A)
          → P
              (((λ d. elim r [ ok a ↦ (ok a, d) | err e ↦ (err (work_result_rejected e), d) ])
                  >>= k)
                db).1
      admitted (ok a) = next a
      admitted (err e) = h

  module _ (codec : Codec) (reader : Reader) (p : String) where
    revalidate-Exclusive :
        (r : CandidateResult) (a : Assignment) (payload : Fields) (db : Db)
        → Exclusive q db
        → Commits (λ _. Exclusive q) (revalidate codec reader p r a payload db)
    unfolding revalidate
    revalidate-Exclusive r a payload db h =
        Commits-branch _ _ _ _ _
          (λ _.
            Commits-require _ _ _ _ _
              λ state _. Commits-admit _ _ _ db λ normalized. Commits-return _ _ db h)
          (λ _. Commits-return _ _ db h)

    accept_result-Exclusive :
        (r : CandidateResult) (a : Assignment) (digest : String) (db : Db)
        → Exclusive q db
        → Commits (λ _. Exclusive q) (accept_result codec reader p r a digest db)
    unfolding accept_result verify_result finish_task release_lease find_assignment
    accept_result-Exclusive r a digest db h = Commits-return _ _ _ (
        Exclusive-fewer q (λ l. l.assignment_id == r.assignment_id)
          (λ l. record l { state = LeaseState.released }) _ (λ l. refl) (λ l. refl)
          (Exclusive-set_assignment_state q r.assignment_id AssignmentState.retired _
            (Exclusive-same q db _ refl (λ id. refl) h)))

    verify_payload-Exclusive :
        (r : CandidateResult) (a : Assignment) (digest : String) (payload : Json) (db : Db)
        → Exclusive q db
        → Commits (λ _. Exclusive q) (verify_payload codec reader p r a digest payload db)
    unfolding verify_payload
    verify_payload-Exclusive r a digest (obj payload) db h = Commits-raise_if _ _ _ _ _ λ _.
        Commits-raise_if _ _ _ _ _ λ _. Commits-raise_if _ _ _ _ _ λ _.
          Commits-bind (λ _. Exclusive q) (λ _. Exclusive q) (revalidate codec reader p r a payload)
            (λ _. accept_result codec reader p r a digest) db
            (revalidate-Exclusive r a payload db h)
            λ _ after k. accept_result-Exclusive r a digest after k
    verify_payload-Exclusive r a digest value db h = Commits-raise _ _ db

    verify_block-Exclusive :
        (result_id digest : String) (db : Db)
        → Exclusive q db
        → Commits (λ _. Exclusive q) (verify_block codec reader p result_id digest db)
    unfolding verify_block
    verify_block-Exclusive result_id digest db h = Commits-require _ _ _ _ _ λ r _.
        Commits-raise_if _ _ _ _ _ λ _. Commits-require _ _ _ _ _ λ a _.
          Commits-raise_if _ _ _ _ _ λ _.
            Commits-require _ _ _ _ _ λ payload _. verify_payload-Exclusive r a digest payload db h

  pub record_work_result-Exclusive :
      (codec : Codec) (reader : Reader) (p : String) (claim : AssignmentClaim) (payload : Json)
      (now : ℕ) (db : Db)
      → Exclusive q db
      → Exclusive q (record_work_result codec p reader claim payload now db).1
  unfolding record_work_result
  record_work_result-Exclusive codec reader p claim payload now db h =
      keeps_require (Exclusive q) _ _ _ db h λ state. keeps_raise_if (Exclusive q) _ _ _ db h (
        keeps_admit (Exclusive q)
          (validate_work_result codec reader (identity_of codec p claim) payload) _ db h
          λ normalized. keeps_raise_if (Exclusive q) _ _ _ db h (
            record_candidate-Exclusive codec p claim.assignment_id claim.lease_token
              claim.master_epoch "WORK_RESULT" (obj normalized) now db h))

  pub verify_candidate-Exclusive :
      (codec : Codec) (reader : Reader) (p result_id digest : String) (db : Db)
      → Exclusive q db
      → Exclusive q (verify_candidate codec reader p result_id digest db).1
  unfolding verify_candidate
  verify_candidate-Exclusive codec reader p result_id digest db h =
      keeps_raise_if (Exclusive q) _ _ _ db h (
        keeps_of_Commits (Exclusive q)
          (verify_block codec reader p result_id (codec.lower (strip digest))) db h
          (verify_block-Exclusive codec reader p result_id (codec.lower (strip digest)) db h))
