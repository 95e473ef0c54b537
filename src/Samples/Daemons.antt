-- ===== src/Samples/Daemons.antt =====
-- A project is created, a daemon takes its lease and assigns work.
use model_lib.Prelude.{
  ◌≡◌, ◌≢◌, ◌≤◌, refl, some, true, false, find_row, exists_row, count_rows, update_rows,
}
use model_lib.Text.{strip, is_empty, decimal}
use model_lib.Tx.{ok, tx_steps}
use model_lib.Stamp.{text_lt, plus_seconds}
use model_lib.Json.{Json, obj, str, field, end, sha256_json}
use model_lib.Schema.{Db, empty}
use model_lib.Schema.Rows.{DaemonLease, Contract}
use model_lib.Tables.{find_project, insert_event}
use model_lib.Contract.{
  find_contract, insert_contract, insert_project, new_contract, create_existing, create_block,
  create_contract,
}
use model_lib.Contract.Immutable.{Settled, create_contract_lem, create_contract_immutable}
use model_lib.Daemon.{
  find_lease, renew_lease, upsert_lease, new_lease, take_lease, acquire_existing, acquire_block,
  acquire_daemon_lease, heartbeat_daemon_lease,
}
use model_lib.Daemon.Exclusive.{Acquired, acquire_daemon_lease_lem, acquisition_excludes_others}
use model_lib.Arbiter.{
  ArbiterSnapshot, ActivationDecision, assign_worker, decision_of, choose, is_terminal, is_stalled,
  decide,
}
use model_lib.Arbiter.Priority.{IsClear, decide-IsClear}
use model_lib.Samples.{project_db, seconds}
use model_lib.Samples.Printer.{codec}

unfoldable run_daemons : Unit {0}
unfolding tx_steps create_contract create_block create_existing insert_contract insert_project
    find_contract acquire_daemon_lease acquire_block acquire_existing take_lease renew_lease
    upsert_lease find_lease insert_event find_project sha256_json strip is_empty decimal text_lt
    decide choose is_terminal is_stalled find_row exists_row count_rows update_rows
run_daemons = tt

abbrev goal : Json
goal = obj (field "goal" (str "ship") end)

abbrev contract : Contract
contract = new_contract codec "q" goal goal

abbrev founded : Db
founded = (create_contract codec "q" goal goal empty).1

creates : (create_contract codec "q" goal goal empty).0 ≡ ok contract
unfolding run_daemons
creates = refl

create_contract_lem_example : Settled codec (strip "q") goal goal empty contract founded
create_contract_lem_example = create_contract_lem codec "q" goal goal empty creates

created : find_contract "q" founded ≡ some contract
unfolding run_daemons
created = refl

create_contract_immutable_example :
    find_contract "q"
      (create_contract codec "q" goal (obj (field "pass" (str "all") end)) founded).1
    ≡ some contract
create_contract_immutable_example =
    create_contract_immutable codec "q" "q" goal (obj (field "pass" (str "all") end)) founded
      contract created

abbrev lease : DaemonLease
lease = new_lease "p" "d1" 1 (seconds 0) 30

acquires : (acquire_daemon_lease codec "p" "d1" (seconds 0) 30 project_db).0 ≡ ok lease
unfolding run_daemons
acquires = refl

acquire_daemon_lease_lem_example :
    Acquired
      (strip "p")
      (strip "d1")
      (seconds 0)
      30
      project_db
      lease
      (acquire_daemon_lease codec "p" "d1" (seconds 0) 30 project_db).1
acquire_daemon_lease_lem_example =
    acquire_daemon_lease_lem codec "p" "d1" (seconds 0) 30 project_db acquires

another_owner : strip "d2" ≢ strip "d1"
unfolding run_daemons
another_owner = λ h. cc

alive : text_lt (seconds 10) (plus_seconds (seconds 0) 30) ≡ true
unfolding run_daemons
alive = refl

acquisition_excludes_others_example :
    let after = (acquire_daemon_lease codec "p" "d1" (seconds 0) 30 project_db).1 in
    ((acquire_daemon_lease codec "p" "d2" (seconds 10) 30 after).0 ≢ ok lease)
    × ((heartbeat_daemon_lease "p" "d2" 1 (seconds 10) 30 after).0 ≢ ok lease)
acquisition_excludes_others_example =
    acquisition_excludes_others codec "p" "d1" "d2" (seconds 0) 30 1 (seconds 10) 30 project_db
      acquires another_owner alive

abbrev snapshot : ArbiterSnapshot
snapshot = record {
  project_id = "p";
  project_status = "ACTIVE";
  master_epoch = 1;
  daemon_epoch = 1;
  master_active = true;
  active_workers = 1;
  free_slots = 1;
  ready_tasks = 3;
  ambiguous_intents = 0;
  progress_state = "IDLE";
  stale_results = 0;
  auth_blocked = false;
}

abbrev decision : ActivationDecision
decision = decision_of codec "scorp-daemon" snapshot assign_worker

decides : decide codec "scorp-daemon" snapshot ≡ ok decision
unfolding run_daemons
decides = refl

decide-IsClear_example : IsClear snapshot × (1 ≤ 1) × (1 ≤ 3) × (1 ≤ 1)
unfolding run_daemons
decide-IsClear_example = decide-IsClear codec "scorp-daemon" snapshot decision decides refl
