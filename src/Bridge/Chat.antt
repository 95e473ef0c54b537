-- ===== src/Bridge/Chat.antt =====
-- When a new chat may be opened: `ChatResourceManagerV3` of chatgpt-gui-bridge/chat_resource_manager_v3.py.
-- `cooldown` and `backoff` are the seconds that the manager is built with.
pub mod Apart
use model_lib.Prelude.{ℕ, String, Bool, true, false, not, Option, none, some, ltb, if◌then◌else◌}
use model_lib.Text.{strip}
use model_lib.Tx.{Body, branch, return, raise_if, write, select, ◌>>=◌, ◌>>◌}
use model_lib.Stamp.{plus_seconds}
use model_lib.Bridge.{require_text}

pub record ChatState : Type 0 where
  pub creation_not_before : Option ℕ
  pub throttle_not_before : Option ℕ
  pub last_reservation_owner : Option String
  pub last_throttle_reason : Option String
  pub updated_at : Option ℕ

-- the state where there is no file
abbrev pub fresh_state : ChatState
fresh_state = record {
  creation_not_before = none;
  throttle_not_before = none;
  last_reservation_owner = none;
  last_throttle_reason = none;
  updated_at = none;
}

pub record Permission : Type 0 where
  pub allowed : Bool
  pub reason : String
  pub not_before : Option ℕ

-- `until is not None and current < until`
abbrev pub is_before : ℕ → Option ℕ → Bool
is_before now none = false
is_before now (some t) = ltb now t

unfoldable pub permission : ℕ → Bool → ChatState → Permission
permission now needs_new_chat state =
    if is_before now state.throttle_not_before
    then (record {
      allowed = false;
      reason = "THROTTLE_CIRCUIT_OPEN";
      not_before = state.throttle_not_before;
    })
    else if not needs_new_chat
    then (record { allowed = true; reason = "REUSE_ALLOWED"; not_before = none })
    else if is_before now state.creation_not_before
    then (record {
      allowed = false;
      reason = "CREATION_COOLDOWN";
      not_before = state.creation_not_before;
    })
    else (record { allowed = true; reason = "ALLOWED"; not_before = none })

abbrev pub ChatAction : Type 0 → Type 0
ChatAction A = Body ChatState String A

unfoldable pub reserve_new_chat : ℕ → String → ℕ → ChatAction ChatState
reserve_new_chat cooldown owner now = do
  by ← require_text owner "CHAT_RESOURCE_OWNER_EMPTY"
  allowance ← select (permission now true)
  raise_if (not allowance.allowed) "CHAT_RESOURCE_NEW_CHAT_BLOCKED"
  write (λ state. record state {
    creation_not_before = some (plus_seconds now cooldown);
    last_reservation_owner = some by;
    updated_at = some now;
  })
  select (λ state. state)

-- `max(requested, existing) if existing is not None else requested`
abbrev pub later_of : ℕ → Option ℕ → ℕ
later_of requested none = requested
later_of requested (some existing) = if ltb requested existing then existing else requested

unfoldable pub note_throttle : ℕ → String → ℕ → ChatAction ChatState
note_throttle backoff reason now = do
  why ← require_text reason "CHAT_RESOURCE_THROTTLE_REASON_EMPTY"
  write (λ state. record state {
    throttle_not_before = some (later_of (plus_seconds now backoff) state.throttle_not_before);
    last_throttle_reason = some why;
    updated_at = some now;
  })
  select (λ state. state)
