-- ===== src/Bridge/Turns.antt =====
-- Which turn goes to an actor next: `TurnSchedulerV3.select` of chatgpt-gui-bridge/turn_scheduler_v3.py, over
-- the project's state and the master windows.
pub mod Eligible
pub mod Ready
use mathlib.Core.List.{[], ◌∷◌}
use model_lib.Prelude.{
  ℕ, ◌+◌, String, Bool, true, false, not, ◌&&◌, ◌||◌, Option, none, some, List, ◌==◌, string_eq,
  nat_eq, ltb, if◌then◌else◌, sort_by, member,
}
use model_lib.Text.{strip, is_empty}
use model_lib.Tx.{Result, ok, err}
use model_lib.Bridge.Window.{Leases, find_window, has_live_window}

-- what a turn says; `state_version` is `none` where `int` raises, and the kind of its actor and its event are
-- in upper case
pub record Turn : Type 0 where
  pub turn_id : String
  pub project_id : String
  pub root_objective_sha256 : String
  pub acceptance_sha256 : String
  pub state_version : Option ℕ
  pub actor_kind : String
  pub actor_id : String
  pub session_id : String
  pub event : String

pub record Candidate : Type 0 where
  pub turn_id : String
  pub turn : Turn
  pub replayable : Bool

-- what the scheduler reads of the project's state; `active_workers` are the ids
pub record TurnState : Type 0 where
  pub project_id : String
  pub goal_contract_sha256 : String
  pub acceptance_sha256 : String
  pub state_version : ℕ
  pub status : String
  pub active_workers : List String

-- a row of the ledger
pub record LedgerRow : Type 0 where
  pub turn_id : String
  pub routed : Bool
  pub actor_kind : String
  pub routed_at : String

-- where the loop puts a candidate, or the error that it raises
pub data Place : Type 0 where
  recovery resume worker_event master worker : Place
  superseded refused : String → Place

abbrev pub is_terminal_status : String → Bool
is_terminal_status s = s == "COMPLETE" || s == "HARD_BLOCKED"

-- `lease.get("session_id") if live_master …`
abbrev pub active_session : Leases → String → ℕ → Option String
active_session windows project now =
    if has_live_window (strip project) now windows
    then (elim (find_window (strip project) windows) [ none ↦ none | some l ↦ some l.session_id ])
    else none

abbrev pub is_session : String → Option String → Bool
is_session session none = false
is_session session (some s) = session == s

module _ (state : TurnState) (session : Option String) where
  -- a turn of the master whose version is the project's
  unfoldable pub place_current : Turn → Place
  place_current t =
      if is_terminal_status state.status
      then superseded "PROJECT_TERMINAL"
      else if not (is_session t.session_id session)
      then superseded "MASTER_SESSION_STALE"
      else if not (t.actor_id == "A")
      then refused "MASTER_IDENTITY_INVALID"
      else if t.event == "RESUME_MASTER"
      then resume
      else if t.event == "WORKER_HANDOFF" || t.event == "WORKER_BLOCKER"
      then worker_event
      else master

  unfoldable pub place_master : Candidate → ℕ → Place
  place_master c version =
      if ltb version state.state_version
      then (if c.replayable && version + 1 == state.state_version
          then recovery
          else superseded "MASTER_STATE_VERSION_STALE")
      else if ltb state.state_version version
      then refused "MASTER_STATE_VERSION_FUTURE"
      else place_current c.turn

  unfoldable pub place_worker : Candidate → ℕ → Place
  place_worker c version =
      if is_terminal_status state.status
      then superseded "PROJECT_TERMINAL"
      else if ltb state.state_version version
      then refused "WORKER_STATE_VERSION_FUTURE"
      else if is_empty (strip c.turn.actor_id) || not (member c.turn.actor_id state.active_workers)
      then superseded "WORKER_NOT_ACTIVE"
      else worker

  unfoldable pub place_version : Candidate → Option ℕ → Place
  place_version c none = refused "TURN_SCHEDULER_STATE_VERSION_INVALID"
  place_version c (some version) =
      if c.turn.actor_kind == "MASTER"
      then place_master c version
      else if c.turn.actor_kind == "WORKER"
      then place_worker c version
      else refused "ACTOR_KIND_INVALID"

  -- the body of the loop
  unfoldable pub place : Candidate → Place
  place c =
      if is_empty (strip c.turn_id) || not (c.turn.turn_id == strip c.turn_id)
      then refused "TURN_SCHEDULER_IDENTITY_INVALID"
      else if not (c.turn.project_id == state.project_id)
      then refused "TURN_SCHEDULER_PROJECT_MISMATCH"
      else if not (c.turn.root_objective_sha256 == state.goal_contract_sha256)
      then refused "TURN_SCHEDULER_GOAL_MISMATCH"
      else if not (c.turn.acceptance_sha256 == state.acceptance_sha256)
      then refused "TURN_SCHEDULER_ACCEPTANCE_MISMATCH"
      else place_version c c.turn.state_version

pub record Superseded : Type 0 where
  pub turn_id : String
  pub reason : String

-- the lists of the loop, each in the order of the candidates
pub record Buckets : Type 0 where
  pub recoveries : List Candidate
  pub resumes : List Candidate
  pub worker_events : List Candidate
  pub masters : List Candidate
  pub workers : List Candidate
  pub superseded_turns : List Superseded

abbrev pub no_buckets : Buckets
no_buckets = record {
  recoveries = [];
  resumes = [];
  worker_events = [];
  masters = [];
  workers = [];
  superseded_turns = [];
}

unfoldable pub put : Candidate → Place → Buckets → Result String Buckets
put c recovery b = ok (record b { recoveries = c ∷ b.recoveries })
put c resume b = ok (record b { resumes = c ∷ b.resumes })
put c worker_event b = ok (record b { worker_events = c ∷ b.worker_events })
put c master b = ok (record b { masters = c ∷ b.masters })
put c worker b = ok (record b { workers = c ∷ b.workers })
put c (superseded reason) b = ok (record b {
  superseded_turns = (record { turn_id = c.turn_id; reason = reason }) ∷ b.superseded_turns;
})
put c (refused e) b = err e

-- a candidate that is refused ends the loop before those after it are read
unfoldable pub put_before : Candidate → Place → Result String Buckets → Result String Buckets
put_before c (refused e) rest = err e
put_before c p (err e) = err e
put_before c p (ok b) = put c p b

unfoldable pub collect : (Candidate → Place) → List Candidate → Result String Buckets
collect at [] = ok no_buckets
collect at (c ∷ candidates) = put_before c (at c) (collect at candidates)

abbrev pub head_of : {A : Type 0} → List A → Option A
head_of [] = none
head_of (x ∷ xs) = some x

abbrev pub last_of : {A : Type 0} → List A → Option A
last_of [] = none
last_of (x ∷ xs) = elim (last_of xs) [ none ↦ some x | some y ↦ some y ]

unfoldable pub routed_rows : List LedgerRow → List LedgerRow
routed_rows [] = []
routed_rows (r ∷ rows) =
    let rest = routed_rows rows in
    if r.routed && (r.actor_kind == "MASTER" || r.actor_kind == "WORKER") then r ∷ rest else rest

-- `_last_routed_actor`
unfoldable pub last_routed_actor : List LedgerRow → Option String
last_routed_actor ledger =
    elim (last_of (sort_by (λ r. r.routed_at) (sort_by (λ r. r.turn_id) (routed_rows ledger)))) [
      | none ↦ none
      | some r ↦ some r.actor_kind
    ]

-- `sorted(turns, key=turn_id)[0]`
abbrev pub first_turn : List Candidate → Option Candidate
first_turn turns = head_of (sort_by (λ c. c.turn_id) turns)

abbrev pub or_else : Option Candidate → Option Candidate → Option Candidate
or_else none next = next
or_else (some c) next = some c

-- a master's turn and a Worker's alternate
abbrev pub alternate : Bool → Option Candidate → Option Candidate → Option Candidate
alternate master_last none w = w
alternate master_last (some m) none = some m
alternate master_last (some m) (some w) = if master_last then some w else some m

unfoldable pub pick : Bool → Buckets → Option Candidate
pick master_last b = or_else (first_turn b.recoveries) (
    or_else (first_turn b.resumes) (
      or_else (first_turn b.worker_events)
        (alternate master_last (first_turn b.masters) (first_turn b.workers))))

pub record Selection : Type 0 where
  pub selected : Option Candidate
  pub superseded_turns : List Superseded

abbrev pub is_master : Option String → Bool
is_master none = false
is_master (some kind) = kind == "MASTER"

unfoldable pub selection_of : List LedgerRow → Result String Buckets → Result String Selection
selection_of ledger (err e) = err e
selection_of ledger (ok b) = ok (record {
  selected = pick (is_master (last_routed_actor ledger)) b;
  superseded_turns = sort_by (λ s. s.turn_id) b.superseded_turns;
})

unfoldable pub select_turn :
    TurnState → Leases → List Candidate → List LedgerRow → ℕ → Result String Selection
select_turn state windows candidates ledger now =
    if state.status == "ACTIVE" || is_terminal_status state.status
    then selection_of ledger
        (collect (place state (active_session windows state.project_id now)) candidates)
    else err "PROJECT_STATE_STATUS_INVALID"
