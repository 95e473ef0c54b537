-- ===== src/Bridge/Pool.antt =====
-- The pool of conversations that Workers take turns on: `WorkerConversationPoolV3` of
-- chatgpt-gui-bridge/worker_conversation_pool_v3.py, and `validate_conversation_url` of gui_transport.py. The
-- slots stand in the order of their ids, which are those of a pool of at most eight.
pub mod Lasting
pub mod Served
use Prim.Native.Char.{code}
use Prim.Native.String.{◌++◌ as append}
use mathlib.Core.List.{[], ◌∷◌}
use model_lib.Prelude.{
  ℕ, zero, suc, ◌+◌, String, Bool, true, false, not, ◌&&◌, ◌||◌, Option, none, some, List, ◌++◌,
  ◌==◌, string_eq, nat_eq, leb, if◌then◌else◌, find_row, exists_row,
}
use model_lib.Text.{strip, is_empty, starts_with, decimal}
use model_lib.Tx.{Body, branch, return, raise, raise_if, write, select, require, ◌>>=◌, ◌>>◌}
use model_lib.Bridge.{require_text}

pub record Identity : Type 0 where
  pub project_id : String
  pub actor_id : String
  pub session_id : String
  pub turn_id : String

-- a lease is an identity and the time it was acquired
pub record SlotLease : Type 0 where
  pub identity : Identity
  pub acquired_at : ℕ

pub record Slot : Type 0 where
  pub slot_id : String
  pub conversation_url : Option String
  pub lease : Option SlotLease
  pub last_released_at : Option ℕ
  pub updated_at : Option ℕ

-- `_public`
pub record PublicSlot : Type 0 where
  pub slot_id : String
  pub conversation_url : Option String
  pub lease : Option SlotLease

abbrev pub PoolAction : Type 0 → Type 0
PoolAction A = Body (List Slot) String A

-- `_fresh`: the slots from the first to the `pool_size`th
unfoldable pub fresh_slots : ℕ → List Slot
fresh_slots zero = []
fresh_slots (suc n) =
    fresh_slots n
    ++ ((record {
      slot_id = append "worker-slot-" (decimal (suc n));
      conversation_url = none;
      lease = none;
      last_released_at = none;
      updated_at = none;
    })
        ∷ [])

unfoldable pub pool_identity : String → String → String → String → PoolAction Identity
pool_identity project_id actor_id session_id turn_id = do
  project ← require_text project_id "PROJECT_ID_EMPTY"
  actor ← require_text actor_id "ACTOR_ID_EMPTY"
  session ← require_text session_id "SESSION_ID_EMPTY"
  turn ← require_text turn_id "TURN_ID_EMPTY"
  raise_if (actor == "A" || not (starts_with "worker-" actor)) "WORKER_ID_INVALID"
  return (record { project_id = project; actor_id = actor; session_id = session; turn_id = turn })

abbrev pub public_slot : Slot → PublicSlot
public_slot s = record {
  slot_id = s.slot_id;
  conversation_url = s.conversation_url;
  lease = s.lease;
}

-- the lease is of this project, actor and session
abbrev pub is_session_of : Identity → Identity → Bool
is_session_of i j =
    i.project_id == j.project_id && i.actor_id == j.actor_id && i.session_id == j.session_id

abbrev pub leases_session : Identity → Option SlotLease → Bool
leases_session i none = false
leases_session i (some l) = is_session_of l.identity i

-- `_lease_matches`
abbrev pub lease_matches : Identity → Option SlotLease → Bool
lease_matches i none = false
lease_matches i (some l) = is_session_of l.identity i && l.identity.turn_id == i.turn_id

abbrev pub is_free : Option SlotLease → Bool
is_free none = true
is_free (some l) = false

-- the slot that a scan stops at is changed in place
unfoldable pub update_first : (Slot → Bool) → (Slot → Slot) → List Slot → List Slot
update_first p f [] = []
update_first p f (s ∷ slots) =
    let rest = update_first p f slots in if p s then f s ∷ slots else s ∷ rest

abbrev pub take_slot : Identity → ℕ → Slot → Slot
take_slot i now s = record s {
  lease = some (record { identity = i; acquired_at = now });
  updated_at = some now;
}

unfoldable pub acquire_free : Identity → ℕ → Option Slot → PoolAction (Option PublicSlot)
acquire_free i now none = return none
acquire_free i now (some s) = do
  write (update_first (λ x. is_free x.lease) (take_slot i now))
  return (some (public_slot (take_slot i now s)))

unfoldable pub acquire_identity : Identity → ℕ → Option Slot → PoolAction (Option PublicSlot)
acquire_identity i now (some s) = return (some (public_slot s))
acquire_identity i now none = do
  conflict ← select (exists_row λ s. leases_session i s.lease)
  raise_if conflict "WORKER_SLOT_LEASE_CONFLICT"
  free ← select (find_row λ s. is_free s.lease)
  acquire_free i now free

unfoldable pub acquire_slot : String → String → String → String → ℕ → PoolAction (Option PublicSlot)
acquire_slot project_id actor_id session_id turn_id now = do
  i ← pool_identity project_id actor_id session_id turn_id
  held ← select (find_row λ s. lease_matches i s.lease)
  acquire_identity i now held

unfoldable pub resolve_slot : String → String → String → String → PoolAction (Option PublicSlot)
resolve_slot project_id actor_id session_id turn_id = do
  i ← pool_identity project_id actor_id session_id turn_id
  held ← select (find_row λ s. lease_matches i s.lease)
  return (elim held [ none ↦ none | some s ↦ some (public_slot s) ])

-- `[A-Za-z0-9-]`
is_url_character : ℕ → Bool
is_url_character c =
    (leb 65 c && leb c 90) || (leb 97 c && leb c 122) || (leb 48 c && leb c 57) || c == 45

all_url_characters : String → Bool
unfolding is_url_character
all_url_characters String.[] = true
all_url_characters (String.◌∷◌ c text) = is_url_character (code c) && all_url_characters text

-- `re.fullmatch(start + "[A-Za-z0-9-]+", text)`
matches_after : String → String → Bool
unfolding all_url_characters
matches_after String.[] text = not (is_empty text) && all_url_characters text
matches_after (String.◌∷◌ c start) String.[] = false
matches_after (String.◌∷◌ c start) (String.◌∷◌ d text) =
    code c == code d && matches_after start text

unfoldable pub is_conversation_url : String → Bool
unfolding matches_after
is_conversation_url url = matches_after "https://chatgpt.com/c/" url

unfoldable pub validate_conversation_url : Option String → PoolAction String
validate_conversation_url none = return "https://chatgpt.com/"
validate_conversation_url (some url) = do
  raise_if (not (is_conversation_url url)) "CONVERSATION_URL_INVALID"
  return url

-- `old_url and old_url != canonical`
abbrev pub is_other_url : String → Option String → Bool
is_other_url url none = false
is_other_url url (some old) = not (is_empty old) && not (old == url)

abbrev pub bind_slot : String → ℕ → Slot → Slot
bind_slot url now s = record s { conversation_url = some url; updated_at = some now }

abbrev pub free_slot : ℕ → Slot → Slot
free_slot now s = record s { lease = none; last_released_at = some now; updated_at = some now }

unfoldable pub bind_conversation :
    String → String → String → String → Option String → ℕ → PoolAction PublicSlot
bind_conversation project_id actor_id session_id turn_id conversation_url now = do
  i ← pool_identity project_id actor_id session_id turn_id
  canonical ← validate_conversation_url conversation_url
  raise_if (canonical == "https://chatgpt.com/") "WORKER_SLOT_CONVERSATION_URL_MISSING"
  held ← select (find_row λ s. lease_matches i s.lease)
  s ← require held "WORKER_SLOT_LEASE_MISMATCH"
  raise_if (is_other_url canonical s.conversation_url) "WORKER_SLOT_CONVERSATION_CHANGED"
  write (update_first (λ x. lease_matches i x.lease) (bind_slot canonical now))
  return (public_slot (bind_slot canonical now s))

unfoldable pub release_slot : String → String → String → String → ℕ → PoolAction PublicSlot
release_slot project_id actor_id session_id turn_id now = do
  i ← pool_identity project_id actor_id session_id turn_id
  held ← select (find_row λ s. lease_matches i s.lease)
  s ← require held "WORKER_SLOT_LEASE_MISMATCH"
  write (update_first (λ x. lease_matches i x.lease) (free_slot now))
  return (public_slot (free_slot now s))

-- `project is not None and lease.get("project_id") != project`
abbrev pub is_elsewhere : Option String → SlotLease → Bool
is_elsewhere none l = false
is_elsewhere (some project) l = not (l.identity.project_id == project)

unfoldable pub leased_slots : Option String → List Slot → List PublicSlot
leased_slots project [] = []
leased_slots project (s ∷ slots) =
    let rest = leased_slots project slots in
    elim s.lease [
      | none ↦ rest
      | some l ↦ if is_elsewhere project l then rest else public_slot s ∷ rest
    ]

unfoldable pub active_leases : Option String → PoolAction (List PublicSlot)
active_leases none = select (leased_slots none)
active_leases (some project_id) = do
  project ← require_text project_id "PROJECT_ID_EMPTY"
  select (leased_slots (some project))
