-- ===== src/Arbiter.antt =====
-- `ActivationArbiter.decide` of master_a_dynamic_v4/activation_arbiter.py: the one next action of the daemon
-- from a snapshot of the store. Counts and epochs are natural numbers, so that the checks for negative
-- ones are not there.
pub mod Priority
use Prim.Native.String.{◌++◌ as append, slice}
use model_lib.Prelude.{
  ℕ, ◌+◌, String, Bool, true, false, not, ◌&&◌, ◌||◌, ◌==◌, string_eq, nat_eq, ltb, if◌then◌else◌,
}
use model_lib.Text.{is_empty}
use model_lib.Tx.{Result, ok, err}
use model_lib.Json.{Json, flag, num, str, obj, Fields, end, field, Codec, sha256_json}

pub record ArbiterSnapshot : Type 0 where
  pub project_id : String
  pub project_status : String
  pub master_epoch : ℕ
  pub daemon_epoch : ℕ
  pub master_active : Bool
  pub active_workers : ℕ
  pub free_slots : ℕ
  pub ready_tasks : ℕ
  pub ambiguous_intents : ℕ
  pub progress_state : String
  pub stale_results : ℕ
  pub auth_blocked : Bool

-- the actions, each with its one reason
pub data ActivationAction : Type 0 where
  terminal blocked reconcile_ambiguous fence_stale_results resume_master : ActivationAction
  assign_worker recover_stalled heartbeat_idle : ActivationAction

abbrev pub action_text : ActivationAction → String
action_text terminal = "TERMINAL"
action_text blocked = "BLOCKED"
action_text reconcile_ambiguous = "RECONCILE_AMBIGUOUS"
action_text fence_stale_results = "FENCE_STALE_RESULTS"
action_text resume_master = "RESUME_MASTER"
action_text assign_worker = "ASSIGN_WORKER"
action_text recover_stalled = "RECOVER_STALLED"
action_text heartbeat_idle = "HEARTBEAT_IDLE"

abbrev pub reason_text : ActivationAction → String
reason_text terminal = "PROJECT_TERMINAL"
reason_text blocked = "AUTHENTICATION_REQUIRED"
reason_text reconcile_ambiguous = "AMBIGUOUS_BROWSER_SIDE_EFFECT"
reason_text fence_stale_results = "STALE_RESULT_REQUIRES_FENCING"
reason_text resume_master = "MASTER_LEASE_MISSING"
reason_text assign_worker = "READY_TASKS_AND_FREE_SLOT"
reason_text recover_stalled = "PROGRESS_STALLED"
reason_text heartbeat_idle = "NO_READY_WORK"

pub record ActivationDecision : Type 0 where
  pub decision_id : String
  pub project_id : String
  pub actor_id : String
  pub daemon_epoch : ℕ
  pub master_epoch : ℕ
  pub action : ActivationAction
  pub capacity : ℕ
  pub input_sha256 : String

-- `ValueError` with its message
pub data ArbiterError : Type 0 where
  project_id_empty : ArbiterError

-- `as_dict`
abbrev pub snapshot_json : ArbiterSnapshot → Json
snapshot_json s = obj (
    field "project_id" (str s.project_id) (
      field "project_status" (str s.project_status) (
        field "master_epoch" (num s.master_epoch) (
          field "daemon_epoch" (num s.daemon_epoch) (
            field "master_active" (flag s.master_active) (
              field "active_workers" (num s.active_workers) (
                field "free_slots" (num s.free_slots) (
                  field "ready_tasks" (num s.ready_tasks) (
                    field "ambiguous_intents" (num s.ambiguous_intents) (
                      field "progress_state" (str s.progress_state) (
                        field "stale_results" (num s.stale_results)
                          (field "auth_blocked" (flag s.auth_blocked) end))))))))))))

abbrev pub min : ℕ → ℕ → ℕ
min a b = if ltb b a then b else a

unfoldable pub is_terminal : String → Bool
is_terminal status = status == "COMPLETE" || status == "HARD_BLOCKED" || status == "TERMINAL"

-- `progress_state == "STALLED_CONFIRMED"`
unfoldable pub is_stalled : String → Bool
is_stalled progress = progress == "STALLED_CONFIRMED"

-- the chain of tests, first match wins
unfoldable pub choose : ArbiterSnapshot → ActivationAction
choose s =
    if is_terminal s.project_status
    then terminal
    else if s.auth_blocked
    then blocked
    else if not (s.ambiguous_intents == 0)
    then reconcile_ambiguous
    else if not (s.stale_results == 0)
    then fence_stale_results
    else if not s.master_active
    then resume_master
    else if not (s.ready_tasks == 0) && not (s.free_slots == 0)
    then assign_worker
    else if is_stalled s.progress_state
    then recover_stalled
    else heartbeat_idle

abbrev pub capacity_of : ArbiterSnapshot → ActivationAction → ℕ
capacity_of s assign_worker = min s.ready_tasks s.free_slots
capacity_of s _ = 0

module _ (codec : Codec) (actor_id : String) where
  abbrev decision_material : ArbiterSnapshot → ActivationAction → Json
  decision_material s a = obj (
      field "project_id" (str s.project_id) (
        field "daemon_epoch" (num s.daemon_epoch) (
          field "master_epoch" (num s.master_epoch) (
            field "action" (str (action_text a)) (
              field "reason" (str (reason_text a))
                (field "input_sha256" (str (sha256_json codec (snapshot_json s))) end))))))

  abbrev pub decision_of : ArbiterSnapshot → ActivationAction → ActivationDecision
  decision_of s a = record {
    decision_id =
        append "decision-"
          (slice (codec.sha256_hex (codec.ascii_json (decision_material s a))) 0 32);
    project_id = s.project_id;
    actor_id = actor_id;
    daemon_epoch = s.daemon_epoch;
    master_epoch = s.master_epoch;
    action = a;
    capacity = capacity_of s a;
    input_sha256 = sha256_json codec (snapshot_json s);
  }

  unfoldable pub decide : ArbiterSnapshot → Result ArbiterError ActivationDecision
  decide s = if is_empty s.project_id then err project_id_empty else ok (decision_of s (choose s))
