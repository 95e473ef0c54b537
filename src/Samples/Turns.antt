-- ===== src/Samples/Turns.antt =====
-- The stores of the bridge at work: a window, a pool of two slots, and turns that wait.
use mathlib.Core.List.{[], ◌∷◌}
use model_lib.Prelude.{
  ℕ, ◌≡◌, ◌≢◌, refl, subst, arith, String, List, true, false, some, inl, inr, find_row, exists_row,
  count_rows, update_rows, sort_by,
}
use model_lib.Text.{strip, is_empty, decimal, starts_with}
use model_lib.Tx.{ok, tx_steps}
use model_lib.Bridge.{require_text}
use model_lib.Bridge.Window.{
  Status, Lease, Leases, find_window, set_window, is_active_window, has_live_window, new_window,
  save_window, acquire_current, acquire_window, heartbeat_window, finished_window, finish_window,
}
use model_lib.Bridge.Window.Fence.{finished_window_is_over}
use model_lib.Bridge.Window.Held.{
  Call, acquire, heartbeat, finish, perform, run, is_other, all_other, window_excludes_others,
}
use model_lib.Bridge.Chat.{ChatState, fresh_state, permission, reserve_new_chat, note_throttle}
use model_lib.Bridge.Chat.Apart.{chats_are_apart, throttle_holds}
use model_lib.Bridge.Pool.{
  Slot, fresh_slots, pool_identity, update_first, acquire_free, acquire_identity, acquire_slot,
  resolve_slot, is_conversation_url, validate_conversation_url, bind_conversation, release_slot,
}
use model_lib.Bridge.Pool.Lasting.{url_of, conversation_is_lasting}
use model_lib.Bridge.Pool.Served.{IsServed, pool-IsServed}
use model_lib.Bridge.Turns.{
  Candidate, TurnState, LedgerRow, Selection, active_session, place_current, place_master,
  place_worker, place_version, place, put, put_before, collect, routed_rows, last_routed_actor,
  pick, selection_of, select_turn,
}
use model_lib.Bridge.Turns.Eligible.{In, is_kept, is_eligible, select_turn_lem}
use model_lib.Bridge.Turns.Ready.{is_refused, ready_turn_is_selected}
use model_lib.Samples.{seconds}

unfoldable run_turns : Unit {0}
unfolding tx_steps strip is_empty decimal starts_with find_row exists_row count_rows update_rows
    sort_by require_text find_window set_window is_active_window has_live_window save_window
    acquire_current acquire_window heartbeat_window finish_window permission reserve_new_chat
    note_throttle fresh_slots pool_identity update_first acquire_free acquire_identity acquire_slot
    resolve_slot is_conversation_url validate_conversation_url bind_conversation release_slot url_of
    place_current place_master place_worker place_version place put put_before collect routed_rows
    last_routed_actor pick selection_of select_turn
run_turns = tt

abbrev windows : Leases
windows = (acquire_window "p" "s1" "t1" 3 (seconds 0) 60 []).1

acquires :
    (acquire_window "p" "s1" "t1" 3 (seconds 0) 60 []).0
    ≡ ok (new_window "p" "s1" "t1" 3 (seconds 0) 60)
unfolding run_turns
acquires = refl

-- "s2" tries everything on "p", and works on a project of its own
abbrev attempts : List Call
attempts =
    acquire "p" "s2" "t2" 3 60 (seconds 10)
    ∷ acquire "q" "s2" "t2" 3 60 (seconds 20)
    ∷ finish Status.released "p" "s2" "mine" (seconds 30)
    ∷ []

others_only : all_other (new_window "p" "s1" "t1" 3 (seconds 0) 60) attempts ≡ true
unfolding run_turns all_other
others_only = refl

a_stranger :
    is_other (new_window "p" "s1" "t1" 3 (seconds 0) 60) (heartbeat "p" "s2" 60 (seconds 59)) ≡ true
unfolding run_turns
a_stranger = refl

window_excludes_others_example :
    let a = new_window "p" "s1" "t1" 3 (seconds 0) 60 in
    let after = run attempts windows in
    (find_window (strip "p") after ≡ some a)
    × (a.session_id ≡ strip "s1")
    × ((perform (heartbeat "p" "s2" 60 (seconds 59)) after).0 ≡ false)
window_excludes_others_example =
    window_excludes_others "p" "s1" "t1" 3 (seconds 0) 60 [] attempts
      (heartbeat "p" "s2" 60 (seconds 59)) acquires others_only a_stranger refl

abbrev drained : Lease
drained =
    finished_window Status.drained "handover" (seconds 40)
      (new_window "p" "s1" "t1" 3 (seconds 0) 60)

drains : (finish_window "p" "s1" Status.drained "handover" (seconds 40) windows).0 ≡ ok drained
unfolding run_turns
drains = refl

finished_window_is_over_example :
    ((is_active_window "p"
        (seconds 41)
        (finish_window "p" "s1" Status.drained "handover" (seconds 40) windows).1).0
      ≡ ok false)
    × ((heartbeat_window "p" "s1"
          (seconds 41)
          60
          (finish_window "p" "s1" Status.drained "handover" (seconds 40) windows).1).0
        ≢ ok drained)
finished_window_is_over_example =
    finished_window_is_over "p" "s1" "s1" Status.drained "handover" (seconds 40) (seconds 41) 60
      windows drains refl

abbrev reserved : ChatState
reserved = (reserve_new_chat 60 "me" (seconds 0) fresh_state).1

reserves : (reserve_new_chat 60 "me" (seconds 0) fresh_state).0 ≡ ok reserved
unfolding run_turns
reserves = refl

chats_are_apart_example : (reserve_new_chat 60 "you" (seconds 59) reserved).0 ≢ ok reserved
chats_are_apart_example =
    chats_are_apart 60 "me" "you" (seconds 0) (seconds 59) fresh_state reserves refl

abbrev throttled : ChatState
throttled = (note_throttle 300 "slow down" (seconds 0) fresh_state).1

throttles : (note_throttle 300 "slow down" (seconds 0) fresh_state).0 ≡ ok throttled
unfolding run_turns
throttles = refl

throttle_holds_example : (reserve_new_chat 60 "you" (seconds 299) throttled).0 ≢ ok throttled
throttle_holds_example =
    throttle_holds 60 300 "slow down" "you" (seconds 0) (seconds 299) fresh_state throttles refl

abbrev url : String
url = "https://chatgpt.com/c/a-1"

abbrev slots : List Slot
slots =
    (bind_conversation "p" "worker-1" "s1" "t1" (some url) 2
      (acquire_slot "p" "worker-1" "s1" "t1" 1 (fresh_slots 2)).1).1

bound : url_of "worker-slot-1" slots ≡ some url
unfolding run_turns
bound = refl

not_empty : is_empty url ≡ false
unfolding run_turns
not_empty = refl

conversation_is_lasting_example :
    (url_of "worker-slot-1" (acquire_slot "p" "worker-1" "s1" "t1" 3 slots).1 ≡ some url)
    × (url_of "worker-slot-1"
          (bind_conversation "p" "worker-1" "s1" "t1" (some "https://chatgpt.com/c/b") 3 slots).1
        ≡ some url)
    × (url_of "worker-slot-1" (release_slot "p" "worker-1" "s1" "t1" 3 slots).1 ≡ some url)
conversation_is_lasting_example =
    conversation_is_lasting "worker-slot-1" url "p" "worker-1" "s1" "t1"
      (some "https://chatgpt.com/c/b") 3 slots not_empty bound

fresh-IsServed : IsServed (fresh_slots 2)
unfolding run_turns
fresh-IsServed i = omega arith

pool-IsServed_example :
    IsServed (acquire_slot "p" "worker-1" "s1" "t1" 1 (fresh_slots 2)).1
    × IsServed (bind_conversation "p" "worker-1" "s1" "t1" (some url) 1 (fresh_slots 2)).1
    × IsServed (release_slot "p" "worker-1" "s1" "t1" 1 (fresh_slots 2)).1
pool-IsServed_example =
    pool-IsServed "p" "worker-1" "s1" "t1" (some url) 1 (fresh_slots 2) fresh-IsServed

abbrev state : TurnState
state = record {
  project_id = "p";
  goal_contract_sha256 = "g";
  acceptance_sha256 = "a";
  state_version = 3;
  status = "ACTIVE";
  active_workers = "worker-1" ∷ [];
}

abbrev candidate : String → String → String → ℕ → Candidate
candidate id kind actor version = record {
  turn_id = id;
  turn = record {
    turn_id = id;
    project_id = "p";
    root_objective_sha256 = "g";
    acceptance_sha256 = "a";
    state_version = some version;
    actor_kind = kind;
    actor_id = actor;
    session_id = "s1";
    event = "";
  };
  replayable = false;
}

abbrev waiting : List Candidate
waiting =
    candidate "t1" "MASTER" "A" 2
    ∷ candidate "t2" "WORKER" "worker-1" 3
    ∷ candidate "t3" "MASTER" "A" 3
    ∷ []

abbrev ledger : List LedgerRow
ledger =
    (record { turn_id = "t0"; routed = true; actor_kind = "MASTER"; routed_at = "2026-01-01" }) ∷ []

abbrev selection : Selection
selection = record {
  selected = some (candidate "t2" "WORKER" "worker-1" 3);
  superseded_turns = (record { turn_id = "t1"; reason = "MASTER_STATE_VERSION_STALE" }) ∷ [];
}

selects : select_turn state windows waiting ledger (seconds 10) ≡ ok selection
unfolding run_turns
selects = refl

select_turn_lem_example :
    In (candidate "t2" "WORKER" "worker-1" 3) waiting
    × (is_eligible state
          (active_session windows "p" (seconds 10))
          (candidate "t2" "WORKER" "worker-1" 3)
        ≡ true)
select_turn_lem_example = select_turn_lem state windows waiting ledger (seconds 10) selects refl

no_refusal :
    (d : Candidate)
    → In d waiting
    → is_refused (place state (active_session windows "p" (seconds 10)) d) ≡ false
unfolding run_turns
no_refusal d (inl e) =
    subst (λ c. is_refused (place state (active_session windows "p" (seconds 10)) c) ≡ false) e refl
no_refusal d (inr (inl e)) =
    subst (λ c. is_refused (place state (active_session windows "p" (seconds 10)) c) ≡ false) e refl
no_refusal d (inr (inr (inl e))) =
    subst (λ c. is_refused (place state (active_session windows "p" (seconds 10)) c) ≡ false) e refl
no_refusal d (inr (inr (inr none_left))) = absurd none_left

placed :
    is_kept (place state (active_session windows "p" (seconds 10)) (candidate "t3" "MASTER" "A" 3))
    ≡ true
unfolding run_turns
placed = refl

ready_turn_is_selected_example :
    (s : Selection) × (turn : Candidate) × (select_turn state windows waiting ledger (seconds 10)
      ≡ ok s)
    × (s.selected ≡ some turn)
ready_turn_is_selected_example =
    ready_turn_is_selected state windows waiting ledger (seconds 10) (candidate "t3" "MASTER" "A" 3)
      refl no_refusal (inr (inr (inl refl))) placed
