-- ===== src/Scheduler/Runs.antt =====
-- Sequences of the scheduler's calls: every interleaving of masters and Workers is one, since each call
-- is a transaction of its own or two one after the other.
use mathlib.Core.List.{List, [], ◌∷◌}
use model_lib.Prelude.{ℕ, ◌≤◌, String, Option, ◌≡◌, refl, arith, count_rows}
use model_lib.Json.{Json, Codec}
use model_lib.Schema.{Db}
use model_lib.WorkResult.{Reader}
use model_lib.Scheduler.{is_held, join_leases, recover_expired_leases}
use model_lib.Scheduler.Graph.{TaskRequest, enqueue_graph}
use model_lib.Scheduler.Queue.{enqueue_graph-Exclusive}
use model_lib.Scheduler.Claim.{Names, AssignmentClaim, claim_runnable}
use model_lib.Scheduler.Results.{record_work_result, verify_candidate}
use model_lib.Scheduler.Exclusive.{Exclusive, Exclusive-le_two}
use model_lib.Scheduler.Keep.{
  recover_expired_leases-Exclusive, record_work_result-Exclusive, verify_candidate-Exclusive,
}
use model_lib.Scheduler.Claims.{claim_runnable-Exclusive}

-- how the tasks of a graph are read
abbrev pub Authorize : Type 0
Authorize = Json → String → Option (List String)

-- a call of a project's scheduler with its arguments
pub data Call : Type 0 where
  enqueue : (project : String) (authorize : Authorize) (tasks : List TaskRequest) → Call
  claim :
      (project : String) (epoch now lease_seconds limit : ℕ) (names : ℕ → Names)
      (uuids : ℕ → String)
      → Call
  recover : (project : String) (uuids : ℕ → String) (now : ℕ) → Call
  record_result : (project : String) (held : AssignmentClaim) (payload : Json) (now : ℕ) → Call
  verify : (project result_id digest : String) → Call

module _ (loads : String → Option Json) (codec : Codec) (reader : Reader) where
  -- the database after a call, whether it returned or raised
  unfoldable pub perform : Call → Db → Db
  perform (enqueue project authorize tasks) db = (enqueue_graph project codec authorize tasks db).1
  perform (claim project epoch now lease_seconds limit names uuids) db =
      (claim_runnable loads project epoch now lease_seconds limit names codec uuids db).1
  perform (recover project uuids now) db = (recover_expired_leases codec project uuids now db).1
  perform (record_result project held payload now) db =
      (record_work_result codec project reader held payload now db).1
  perform (verify project result_id digest) db =
      (verify_candidate codec reader project result_id digest db).1

  unfoldable pub run : List Call → Db → Db
  run [] db = db
  run (c ∷ cs) db = run cs (perform c db)

  perform-Exclusive :
      (q : String) (c : Call) (db : Db) → Exclusive q db → Exclusive q (perform c db)
  unfolding perform
  perform-Exclusive q (enqueue project authorize tasks) db h =
      enqueue_graph-Exclusive q project codec authorize tasks db h
  perform-Exclusive q (claim project epoch now lease_seconds limit names uuids) db h =
      claim_runnable-Exclusive loads q project epoch now lease_seconds limit names codec uuids db h
  perform-Exclusive q (recover project uuids now) db h =
      recover_expired_leases-Exclusive q codec project uuids now db h
  perform-Exclusive q (record_result project held payload now) db h =
      record_work_result-Exclusive q codec reader project held payload now db h
  perform-Exclusive q (verify project result_id digest) db h =
      verify_candidate-Exclusive q codec reader project result_id digest db h

  run-Exclusive_later :
      (q : String) (cs : List Call) (db : Db) → Exclusive q db → Exclusive q (run cs db)
  unfolding run
  run-Exclusive_later q [] db h = h
  run-Exclusive_later q (c ∷ cs) db h =
      run-Exclusive_later q cs (perform c db) (perform-Exclusive q c db h)

no_leases-Exclusive : (q : String) (db : Db) → db.leases ≡ [] → Exclusive q db
unfolding join_leases count_rows
no_leases-Exclusive q db none = record {
  compatible = rw none refl;
  placed = rw none refl;
  single = λ slot. ground (arith, none);
}

-- From a database without leases, after any sequence of queued graphs, claims, recoveries, recorded and verified results,
-- whichever of them raise, the active leases of every project are apart: no two hold conflicting scopes,
-- each is on a worker slot of its own, and so there are two at most.
pub run-Exclusive :
    (loads : String → Option Json) (codec : Codec) (reader : Reader) (calls : List Call) (db : Db)
    (project : String)
    → db.leases ≡ []
    → let after = run loads codec reader calls db in
      Exclusive project after × (count_rows (is_held project) after.leases ≤ 2)
run-Exclusive loads codec reader calls db project none =
    let apart =
      run-Exclusive_later loads codec reader project calls db
        (no_leases-Exclusive project db none) in
    (apart, Exclusive-le_two project (run loads codec reader calls db) apart)
