-- ===== src/Intent.antt =====
-- Actions with a side effect outside the database: the life of an `action_intents` row and its outbox
-- row in master_a_dynamic_v4/state_store.py, from `prepare_intent` to `finalize_intent`.
pub mod Life
pub mod Machine
pub mod Steps
pub mod Created
pub mod Requests
pub mod Coherent
pub mod Submits
use Prim.Native.String.{◌++◌ as append}
use mathlib.Core.List.{◌∷◌}
use model_lib.Prelude.{
  ℕ, ◌+◌, String, Bool, true, false, not, ◌&&◌, ◌||◌, Option, none, some, ◌==◌, string_eq, nat_eq,
  find_row, exists_row, count_rows, update_rows, if◌then◌else◌,
}
use model_lib.Text.{strip, is_empty}
use model_lib.Tx.{
  Result, return, raise, raise_if, write, write_unless, select, require, branch, transaction, ◌>>=◌,
  ◌>>◌,
}
use model_lib.Json.{
  Json, str, obj, Fields, Codec, sha256_json, set_field, is_mapping, is_nonempty_mapping,
}
use model_lib.Schema.{
  Db, Error, integrity_error, project_not_found, intent_invalid, intent_identity_conflict,
  intent_not_found, intent_not_submittable, intent_block_evidence_invalid, submit_identity_missing,
  intent_confirm_state_invalid, positive_not_submitted_proof_required,
  intent_retry_proof_state_invalid, response_empty, response_identity_missing,
  intent_response_state_invalid, local_execution_receipt_empty, local_execution_observation_empty,
  intent_not_local_execution, local_execution_capture_state_invalid, intent_not_response_captured,
}
use model_lib.Schema.Rows.{
  ActionIntent, Outbox, IntentState, prepared, may_have_submitted, confirmed_submitted,
  response_captured, verified_not_submitted, blocked_ambiguous, OutboxState, pending, submitting,
  blocked, reconcile, retryable, pending_cleanup, completed,
}
use model_lib.Tables.{Action, find_project}

unfoldable pub find_intent : String → Db → Option ActionIntent
find_intent intent db = find_row (λ r. r.intent_id == intent) db.action_intents

unfoldable pub find_outbox : String → Db → Option Outbox
find_outbox intent db = find_row (λ r. r.intent_id == intent) db.outbox

-- UPDATE action_intents SET … WHERE intent_id=?
unfoldable pub update_intent : String → (ActionIntent → ActionIntent) → Db → Db
update_intent intent f db = record db {
  action_intents = update_rows (λ r. r.intent_id == intent) f db.action_intents;
}

-- UPDATE outbox SET state=? WHERE intent_id=?
unfoldable pub update_outbox : String → OutboxState → Db → Db
update_outbox intent s db = record db {
  outbox = update_rows (λ r. r.intent_id == intent) (λ r. record r { state = s }) db.outbox;
}

-- both rows of an intent
unfoldable pub move_intent : String → (ActionIntent → ActionIntent) → OutboxState → Db → Db
move_intent intent f s db = update_outbox intent s (update_intent intent f db)

-- the two inserts of `prepare_intent`: the keys of `action_intents` and of `outbox`
unfoldable pub insert_intent : ActionIntent → Action Unit
insert_intent r db =
    write_unless (exists_row (λ x. x.intent_id == r.intent_id) db.action_intents) integrity_error
      (λ d. record d { action_intents = r ∷ d.action_intents }) db

unfoldable pub insert_outbox : Outbox → Action Unit
insert_outbox r db =
    write_unless
      (exists_row (λ x. x.outbox_id == r.outbox_id || x.intent_id == r.intent_id) db.outbox)
      integrity_error (λ d. record d { outbox = r ∷ d.outbox }) db

-- the row as it is after the UPDATE
abbrev pub fetch_intent : String → Action ActionIntent
fetch_intent intent = do after ← select (find_intent intent); require after intent_not_found

module _ (codec : Codec) where
  -- `(…["project_id"], …["actor_id"], …["channel"], …["action_kind"], …["payload_sha256"])`
  abbrev pub same_identity : String → String → String → String → String → ActionIntent → Bool
  same_identity project actor channel action payload_hash r =
      r.project_id == project
      && r.actor_id == actor
      && r.channel == channel
      && r.action_kind == action
      && r.payload_sha256 == payload_hash

  abbrev pub new_intent : String → String → String → String → String → Json → ActionIntent
  new_intent project intent actor channel action payload = record {
    intent_id = intent;
    project_id = project;
    actor_id = actor;
    channel = channel;
    action_kind = action;
    payload_json = codec.canonical_json payload;
    payload_sha256 = sha256_json codec payload;
    state = prepared;
    attempt = 1;
    conversation_url = none;
    remote_identity = none;
    response_json = none;
    response_sha256 = none;
    ambiguity_reason = none;
    observation_json = none;
  }

  unfoldable pub prepare_existing :
      String → String → String → String → String → Json → Option ActionIntent → Action ActionIntent
  prepare_existing project intent actor channel action payload (some r) =
      branch (not (same_identity project actor channel action (sha256_json codec payload) r))
        (raise intent_identity_conflict) (return r)
  prepare_existing project intent actor channel action payload none = do
    insert_intent (new_intent project intent actor channel action payload)
    insert_outbox (record {
      outbox_id = append "outbox-" intent;
      project_id = project;
      intent_id = intent;
      kind = action;
      state = pending;
    })
    fetch_intent intent

  unfoldable pub prepare_block :
      String → String → String → String → String → Json → Action ActionIntent
  prepare_block project intent actor channel action payload = do
    raise_if
        (is_empty intent
          || is_empty actor
          || is_empty channel
          || is_empty action
          || not (is_mapping payload))
        intent_invalid
    found ← select (find_project project)
    state ← require found project_not_found
    existing ← select (find_intent intent)
    prepare_existing project intent actor channel action payload existing

  unfoldable pub prepare_intent :
      String → String → String → String → String → Json → Db → Result Error ActionIntent × Db
  prepare_intent project_id intent_id actor_id channel action_kind payload = transaction (
      prepare_block project_id (strip intent_id) (strip actor_id) (strip channel)
        (strip action_kind) payload)
