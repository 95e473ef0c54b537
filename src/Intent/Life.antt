-- ===== src/Intent/Life.antt =====
-- The operations that move a prepared intent on (master_a_dynamic_v4/state_store.py,
-- `begin_possible_submit` to `finalize_intent`). `observation` and `response` are mappings.
use Prim.Native.String.{◌++◌ as append}
use model_lib.Prelude.{
  ◌+◌, String, Bool, true, false, not, ◌||◌, none, some, ◌==◌, string_eq, nat_eq, count_rows,
  if◌then◌else◌,
}
use model_lib.Text.{strip, is_empty}
use model_lib.Tx.{Result, raise_if, write, select, require, transaction, ◌>>=◌, ◌>>◌}
use model_lib.Json.{
  Json, str, obj, Fields, Codec, sha256_json, set_field, is_mapping, is_nonempty_mapping,
}
use model_lib.Schema.{
  Db, Error, intent_not_found, intent_not_submittable, intent_block_evidence_invalid,
  submit_identity_missing, intent_confirm_state_invalid, positive_not_submitted_proof_required,
  intent_retry_proof_state_invalid, response_empty, response_identity_missing,
  intent_response_state_invalid, local_execution_receipt_empty, local_execution_observation_empty,
  intent_not_local_execution, local_execution_capture_state_invalid, intent_not_response_captured,
}
use model_lib.Schema.Rows.{
  ActionIntent, IntentState, prepared, may_have_submitted, confirmed_submitted, response_captured,
  verified_not_submitted, blocked_ambiguous, submitting, blocked, reconcile, retryable,
  pending_cleanup, completed,
}
use model_lib.Tables.{Action}
use model_lib.Intent.{find_intent, move_intent, update_outbox, fetch_intent}

abbrev pub is_submittable : IntentState → Bool
is_submittable prepared = true
is_submittable verified_not_submitted = true
is_submittable _ = false

abbrev pub is_retry : IntentState → Bool
is_retry verified_not_submitted = true
is_retry _ = false

abbrev pub is_confirmable : IntentState → Bool
is_confirmable may_have_submitted = true
is_confirmable blocked_ambiguous = true
is_confirmable confirmed_submitted = true
is_confirmable _ = false

abbrev pub is_ambiguous : IntentState → Bool
is_ambiguous may_have_submitted = true
is_ambiguous blocked_ambiguous = true
is_ambiguous _ = false

abbrev pub is_in_flight : IntentState → Bool
is_in_flight may_have_submitted = true
is_in_flight _ = false

abbrev pub is_captured : IntentState → Bool
is_captured response_captured = true
is_captured _ = false

unfoldable pub begin_block : String → Action ActionIntent
begin_block intent = do
  row ← select (find_intent intent)
  r ← require row intent_not_found
  raise_if (not (is_submittable r.state)) intent_not_submittable
  let attempt = if is_retry r.state then r.attempt + 1 else r.attempt
  write (
      move_intent intent
        (λ x. record x {
          state = may_have_submitted;
          attempt = attempt;
          ambiguity_reason = none;
          observation_json = none;
        })
        submitting)
  fetch_intent intent

unfoldable pub begin_possible_submit : String → Db → Result Error ActionIntent × Db
begin_possible_submit intent_id = transaction (begin_block intent_id)

-- the UPDATE of `finalize_intent`
unfoldable pub finalize_block : String → Action Unit
finalize_block intent = do
  row ← select (find_intent intent)
  r ← require row intent_not_response_captured
  raise_if (not (is_captured r.state)) intent_not_response_captured
  write (update_outbox intent completed)

unfoldable pub finalize_intent : String → Db → Result Error Unit × Db
finalize_intent intent_id = transaction (finalize_block intent_id)

module _ (codec : Codec) where
  -- any state: the UPDATE has no guard but the row's existence
  unfoldable pub block_block : String → String → Json → Action ActionIntent
  block_block intent why observation = do
    raise_if (is_empty why || not (is_mapping observation)) intent_block_evidence_invalid
    changed ← select (λ db. count_rows (λ r. r.intent_id == intent) db.action_intents)
    raise_if (not (changed == 1)) intent_not_found
    write (
        move_intent intent
          (λ x. record x {
            state = blocked_ambiguous;
            ambiguity_reason = some why;
            observation_json = some (codec.canonical_json observation);
          })
          blocked)
    fetch_intent intent

  unfoldable pub block_intent : String → String → Json → Db → Result Error ActionIntent × Db
  block_intent intent_id reason observation =
      transaction (block_block intent_id (strip reason) observation)

  unfoldable pub confirm_block : String → String → String → Fields → Action ActionIntent
  confirm_block intent url remote observation = do
    raise_if (is_empty url || is_empty remote) submit_identity_missing
    row ← select (find_intent intent)
    r ← require row intent_confirm_state_invalid
    raise_if (not (is_confirmable r.state)) intent_confirm_state_invalid
    write (
        move_intent intent
          (λ x. record x {
            state = confirmed_submitted;
            conversation_url = some url;
            remote_identity = some remote;
            ambiguity_reason = none;
            observation_json = some (codec.canonical_json (obj observation));
          })
          reconcile)
    fetch_intent intent

  unfoldable pub confirm_submitted :
      String → String → String → Fields → Db → Result Error ActionIntent × Db
  confirm_submitted intent_id conversation_url remote_identity observation =
      transaction
        (confirm_block intent_id (strip conversation_url) (strip remote_identity) observation)

  unfoldable pub not_submitted_block : String → String → Fields → Action ActionIntent
  not_submitted_block intent proof observation = do
    raise_if (is_empty proof) positive_not_submitted_proof_required
    row ← select (find_intent intent)
    r ← require row intent_retry_proof_state_invalid
    raise_if (not (is_ambiguous r.state)) intent_retry_proof_state_invalid
    write (
        move_intent intent
          (λ x. record x {
            state = verified_not_submitted;
            ambiguity_reason = none;
            observation_json =
                some (codec.canonical_json (obj (set_field "proof" (str proof) observation)));
          })
          retryable)
    fetch_intent intent

  unfoldable pub mark_verified_not_submitted :
      String → String → Fields → Db → Result Error ActionIntent × Db
  mark_verified_not_submitted intent_id proof observation =
      transaction (not_submitted_block intent_id (strip proof) observation)

  -- the UPDATE that both captures make
  abbrev pub captured : String → String → Json → Json → ActionIntent → ActionIntent
  captured url remote response observation x = record x {
    state = response_captured;
    conversation_url = some url;
    remote_identity = some remote;
    response_json = some (codec.canonical_json response);
    response_sha256 = some (sha256_json codec response);
    ambiguity_reason = none;
    observation_json = some (codec.canonical_json observation);
  }

  unfoldable pub capture_block : String → Json → String → String → Fields → Action ActionIntent
  capture_block intent response url remote observation = do
    raise_if (not (is_nonempty_mapping response)) response_empty
    raise_if (is_empty url || is_empty remote) response_identity_missing
    row ← select (find_intent intent)
    r ← require row intent_response_state_invalid
    raise_if (not (is_confirmable r.state)) intent_response_state_invalid
    write (move_intent intent (captured url remote response (obj observation)) pending_cleanup)
    fetch_intent intent

  unfoldable pub capture_response :
      String → Json → String → String → Fields → Db → Result Error ActionIntent × Db
  capture_response intent_id response conversation_url remote_identity observation = transaction (
      capture_block intent_id response (strip conversation_url) (strip remote_identity) observation)

  unfoldable pub local_block : String → Json → Json → Action ActionIntent
  local_block intent receipt observation = do
    raise_if (not (is_nonempty_mapping receipt)) local_execution_receipt_empty
    raise_if (not (is_nonempty_mapping observation)) local_execution_observation_empty
    row ← select (find_intent intent)
    r ← require row intent_not_found
    raise_if (not (r.action_kind == "LOCAL_EXECUTION")) intent_not_local_execution
    raise_if (not (is_in_flight r.state)) local_execution_capture_state_invalid
    write (
        move_intent intent (captured (append "local://" intent) "local-process" receipt observation)
          pending_cleanup)
    fetch_intent intent

  unfoldable pub capture_local_execution :
      String → Json → Json → Db → Result Error ActionIntent × Db
  capture_local_execution intent_id receipt observation =
      transaction (local_block intent_id receipt observation)
