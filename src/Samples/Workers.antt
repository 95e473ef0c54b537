-- ===== src/Samples/Workers.antt =====
-- A graph of three tasks is queued, a Worker claims one, and its result is recorded and verified.
use mathlib.Core.List.{[], ◌∷◌}
use Prim.Native.String.{◌++◌ as append}
use model_lib.Prelude.{
  arith, ℕ, ◌+◌, ◌≡◌, ◌≢◌, ◌≤◌, ◌↔◌, refl, String, List, true, false, Option, none, some, string_eq,
  find_row, exists_row, count_rows, update_rows, sort_by, distinct, no_repeats,
}
use model_lib.Text.{strip, is_empty, decimal}
use model_lib.Tx.{ok, tx_steps}
use model_lib.Stamp.{text_lt}
use model_lib.Json.{
  Json, Fields, null, num, str, arr, obj, nil, cons, field, end, Codec, sha256_json, get_field,
  set_field, text_or,
}
use model_lib.Schema.{Db}
use model_lib.Tables.{find_project, insert_event}
use model_lib.Evidence.{is_hex}
use model_lib.WorkResult.{
  Reader, without_field, result_content_sha256, int_of, require_nonempty, require_hex,
  require_lists, validate_identity, validate_version, normalize, validate_complete, validate_fields,
  validate_work_result,
}
use model_lib.Scheduler.{
  find_assignment, find_task, set_task_state, set_assignment_state, join_leases, expire_lease,
  recover_rows, recover_block, recover_expired_leases, is_held,
}
use model_lib.Scheduler.Claim.{
  Names, AssignmentClaim, any_conflict, insert_assignment, insert_lease, is_blocked, free_slots,
  take, select_rows, decode_task_context, claim_task, claim_loop, claim_free, claim_block,
  claim_runnable,
}
use model_lib.Scheduler.Graph.{
  TaskRequest, Task, utf8_length, normalize_task, normalize_tasks, dependencies_of, visit_each,
  visit, search_cycle, insert_task, enqueue_existing, enqueue_tasks, insert_dependency,
  insert_dependencies, link_tasks, enqueue_block, enqueue_graph, is_done_visit, has_stranger,
  ids_of,
}
use model_lib.Scheduler.Results.{
  find_lease_of, find_result, insert_result, verify_result, finish_task, release_lease, admit,
  candidate_existing, candidate_block, record_candidate, record_work_result, has_field, revalidate,
  accept_result, verify_payload, verify_block, verify_candidate,
}
use model_lib.Scheduler.Graph.Search.{is_out_of_fuel, Ranks}
use model_lib.Scheduler.Graph.Acyclic.{search_cycle-ends, search_cycle-iff_Ranks}
use model_lib.Scheduler.Runs.{
  Call, enqueue, recover, record_result, verify, perform, run, run-Exclusive,
}
use model_lib.Scheduler.Claims.{claim_runnable-Exclusive}
use model_lib.Scheduler.Fenced.{Holds, Recorded, record_candidate_lem}
use model_lib.Scheduler.Verified.{Verified, verify_candidate_lem, verify_candidate_once}
use model_lib.Scheduler.Exclusive.{Exclusive}
use model_lib.Samples.{project_db, seconds}
use model_lib.Samples.Printer.{codec}

unfoldable run_workers : Unit {0}
unfolding tx_steps find_project insert_event find_row exists_row count_rows update_rows sort_by
    distinct no_repeats strip is_empty decimal text_lt sha256_json get_field set_field text_or
    is_hex without_field result_content_sha256 int_of require_nonempty require_hex require_lists
    validate_identity validate_version normalize validate_complete validate_fields
    validate_work_result find_assignment find_task set_task_state set_assignment_state join_leases
    expire_lease recover_rows recover_block recover_expired_leases any_conflict insert_assignment
    insert_lease is_blocked free_slots take select_rows decode_task_context claim_task claim_loop
    claim_free claim_block claim_runnable utf8_length normalize_task normalize_tasks dependencies_of
    visit_each visit search_cycle insert_task enqueue_existing enqueue_tasks insert_dependency
    insert_dependencies link_tasks enqueue_block enqueue_graph find_lease_of find_result
    insert_result verify_result finish_task release_lease admit candidate_existing candidate_block
    record_candidate record_work_result has_field revalidate accept_result verify_payload
    verify_block verify_candidate
run_workers = tt

abbrev digest : String
digest = "0123456789abcdef0123456789abcdef0123456789abcdef0123456789abcdef"

abbrev hashing : Codec
hashing = record codec { sha256_hex = λ s. digest }

abbrev request : String → List String → String → TaskRequest
request id dependencies scope = record {
  task_id = str id;
  objective_sha256 = str digest;
  access_mode = null;
  dependencies = dependencies;
  task_context = obj end;
  resource_scope = str scope;
  required = num 1;
}

abbrev authorize : Json → String → Option (List String)
authorize (str s) mode = some (s ∷ [])
authorize value mode = none

abbrev queued : Db
queued =
    (enqueue_graph "p" hashing authorize
      (request "t1" [] "src" ∷ request "t2" ("t1" ∷ []) "docs" ∷ request "t3" [] "src" ∷ [])
      project_db).1

abbrev names : ℕ → Names
names i = record {
  assignment_uuid = decimal i;
  worker_uuid = decimal i;
  token = append "token-" (decimal i);
}

abbrev loads : String → Option Json
loads s = some (obj end)

abbrev running : Db
running = (claim_runnable loads "p" 1 (seconds 0) 60 2 names hashing decimal queued).1

-- "t2" waits for "t1", and "t3" is at odds with it
one_claim : count_rows (is_held "p") running.leases ≡ 1
unfolding run_workers
one_claim = refl

abbrev task : String → List String → Task
task id dependencies = record {
  task_id = id;
  objective_sha256 = digest;
  resource_scope = "src" ∷ [];
  task_context_json = "{}";
  access_mode = "write";
  dependencies = dependencies;
  required = true;
}

abbrev chain : List Task
chain = task "t2" ("t1" ∷ []) ∷ task "t1" [] ∷ []

chain_known : exists_row (λ t. has_stranger (ids_of chain) t.dependencies) chain ≡ false
unfolding run_workers
chain_known = refl

search_cycle-ends_example : is_out_of_fuel (search_cycle chain) ≡ false
search_cycle-ends_example = search_cycle-ends chain chain_known

search_cycle-iff_Ranks_example :
    (is_done_visit (search_cycle chain) ≡ true)
    ↔ ((rank : String → ℕ) × Ranks (dependencies_of chain) rank)
search_cycle-iff_Ranks_example = search_cycle-iff_Ranks chain chain_known

loop_refused :
    is_done_visit (search_cycle (task "t1" ("t2" ∷ []) ∷ task "t2" ("t1" ∷ []) ∷ [])) ≡ false
unfolding run_workers
loop_refused = refl

queued-Exclusive : Exclusive "p" queued
unfolding run_workers
queued-Exclusive = record { compatible = refl; placed = refl; single = λ slot. omega arith }

claim_runnable-Exclusive_example :
    Exclusive "p" (claim_runnable loads "p" 1 (seconds 0) 60 2 names hashing decimal queued).1
claim_runnable-Exclusive_example =
    claim_runnable-Exclusive loads "p" "p" 1 (seconds 0) 60 2 names hashing decimal queued
      queued-Exclusive

abbrev some_text : Json
some_text = arr (cons (str "x") nil)

abbrev result : Fields
result = field "work_result_version" (num 1) (
    field "project_id" (str "p") (
      field "assignment_id" (str "assignment-0") (
        field "task_id" (str "t1") (
          field "objective_sha256" (str digest) (
            field "base_state_version" (num 0) (
              field "worker_id" (str "worker-0") (
                field "candidate_commit" (str digest) (
                  field "status" (str "COMPLETE") (
                    field "result_sha256" (str digest) (
                      field "scope_completed" some_text (
                        field "scope_not_completed" (arr nil) (
                          field "deliverables" some_text (
                            field "evidence" some_text (
                              field "acceptance_coverage" some_text (
                                field "facts" some_text (
                                  field "inferences" (arr nil) (
                                    field "unknowns" (arr nil) (
                                      field "contradictions" (arr nil)
                                        (field "followup_proposals" (arr nil) end)))))))))))))))))))

abbrev reader : Reader
reader = record { loads = λ s. some (obj result); int_text = λ s. none }

abbrev claim : AssignmentClaim
claim = record {
  assignment_id = "assignment-0";
  project_id = "p";
  task_id = "t1";
  worker_id = "worker-0";
  slot_id = "worker-slot-1";
  lease_token = "token-0";
  master_epoch = 1;
  base_state_version = 0;
  objective_sha256 = digest;
  resource_scope = "src" ∷ [];
  access_mode = "write";
  expires_at = seconds 60;
  task_context = obj end;
}

claims :
    (claim_runnable loads "p" 1 (seconds 0) 60 2 names hashing decimal queued).0 ≡ ok (claim ∷ [])
unfolding run_workers
claims = refl

abbrev received : Db
received = (record_work_result hashing "p" reader claim (obj result) (seconds 5) running).1

abbrev later_names : ℕ → Names
later_names i = names (i + 1)

-- the day of the Worker: queued, claimed twice, recovered, recorded, verified, and the next claim
abbrev day : List Call
day =
    enqueue "p" authorize (request "t1" [] "src" ∷ request "t2" ("t1" ∷ []) "docs" ∷ [])
    ∷ Call.claim "p" 1 (seconds 0) 60 2 names decimal
    ∷ Call.claim "p" 1 (seconds 1) 60 2 names decimal
    ∷ recover "p" decimal (seconds 2)
    ∷ record_result "p" claim (obj result) (seconds 5)
    ∷ verify "p" "result-assignment-0" digest
    ∷ Call.claim "p" 1 (seconds 9) 60 2 later_names decimal
    ∷ []

-- "t2" is claimed once "t1" is done
ends_with_a_claim : count_rows (is_held "p") (run loads hashing reader day project_db).leases ≡ 1
unfolding run_workers perform run
ends_with_a_claim = refl

run-Exclusive_example :
    let after = run loads hashing reader day project_db in
    Exclusive "p" after × (count_rows (is_held "p") after.leases ≤ 2)
run-Exclusive_example = run-Exclusive loads hashing reader day project_db "p" refl

receives :
    (record_candidate hashing "p" "assignment-0" "token-0" 1 "WORK_RESULT"
      (obj result)
      (seconds 5)
      running).0
    ≡ ok "result-assignment-0"
unfolding run_workers
receives = refl

record_candidate_lem_example :
    Holds "p" "assignment-0" "token-0" 1 (seconds 5) running
    × Recorded hashing "assignment-0" "WORK_RESULT"
        (obj result)
        "result-assignment-0"
        (record_candidate hashing "p" "assignment-0" "token-0" 1 "WORK_RESULT"
          (obj result)
          (seconds 5)
          running).1
record_candidate_lem_example =
    record_candidate_lem hashing "p" "assignment-0" "token-0" 1 "WORK_RESULT" (obj result)
      (seconds 5) running receives

verifies : (verify_candidate hashing reader "p" "result-assignment-0" digest received).0 ≡ ok tt
unfolding run_workers
verifies = refl

verify_candidate_lem_example :
    Verified "p" "result-assignment-0" digest received
      (verify_candidate hashing reader "p" "result-assignment-0" digest received).1
unfolding run_workers
verify_candidate_lem_example =
    verify_candidate_lem hashing reader "p" "result-assignment-0" digest received verifies

verify_candidate_once_example :
    (verify_candidate hashing reader "p" "result-assignment-0" digest
      (verify_candidate hashing reader "p" "result-assignment-0" digest received).1).0
    ≢ ok tt
verify_candidate_once_example =
    verify_candidate_once hashing reader "p" "result-assignment-0" digest digest received verifies
