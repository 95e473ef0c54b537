-- ===== src/Bridge/Turns/Eligible.antt =====
-- What the scheduler of turns selects may run.
use mathlib.Core.List.{[], ◌∷◌}
use model_lib.Prelude.{
  ℕ, ◌+◌, String, Bool, true, false, not, ◌&&◌, ◌||◌, Option, none, some, List, ◌≡◌, ◌⊎◌, inl, inr,
  refl, subst, ap, ◌∙◌, ◌==◌, string_eq, nat_eq, arith, ltb, All, sort_by, All-sort_by, member,
  Bool-cases,
}
use model_lib.Tx.{Result, ok, err}
use model_lib.Tx.Rules.{ok-injective}
use model_lib.Bridge.Window.{Leases}
use model_lib.Bridge.Turns.{
  Candidate, TurnState, LedgerRow, Place, recovery, resume, worker_event, master, worker,
  superseded, refused, is_terminal_status, active_session, is_session, place_current, place_master,
  place_worker, place_version, place, Buckets, put, put_before, collect, head_of, first_turn,
  or_else, alternate, pick, Selection, is_master, last_routed_actor, selection_of, select_turn,
}

-- the candidate is on the list
abbrev pub In : Candidate → List Candidate → Type 0
In c [] = ⊥
In c (x ∷ xs) = (x ≡ c) ⊎ In c xs

-- a Worker's turn of the project's version or an earlier one, from an active Worker
abbrev pub may_work : TurnState → Candidate → ℕ → Bool
may_work state c version =
    c.turn.actor_kind == "WORKER"
    && not (is_terminal_status state.status)
    && not (ltb state.state_version version)
    && member c.turn.actor_id state.active_workers

-- a turn of the master that can be replayed onto the next version, or one of the session that is active, at
-- the project's version
abbrev pub may_lead : TurnState → Option String → Candidate → ℕ → Bool
may_lead state session c version =
    c.turn.actor_kind == "MASTER"
    && ((c.replayable && version + 1 == state.state_version)
        || (version == state.state_version
            && not (is_terminal_status state.status)
            && is_session c.turn.session_id session
            && c.turn.actor_id == "A"))

abbrev pub may_run : TurnState → Option String → Candidate → Option ℕ → Bool
may_run state session c none = false
may_run state session c (some version) =
    may_work state c version || may_lead state session c version

-- a turn for this project and its contracts that may run
abbrev pub is_eligible : TurnState → Option String → Candidate → Bool
is_eligible state session c =
    c.turn.project_id == state.project_id
    && c.turn.root_objective_sha256 == state.goal_contract_sha256
    && c.turn.acceptance_sha256 == state.acceptance_sha256
    && may_run state session c c.turn.state_version

abbrev pub is_kept : Place → Bool
is_kept (superseded reason) = false
is_kept (refused e) = false
is_kept _ = true

module _ (state : TurnState) (session : Option String) (c : Candidate) where
  master_may_lead :
      (version : ℕ)
      → c.turn.actor_kind == "MASTER" ≡ true
      → is_kept (place_master state session c version) ≡ true
      → may_lead state session c version ≡ true
  unfolding place_master place_current
  master_may_lead version kind h = ground (arith, kind, h)

  worker_may_work :
      (version : ℕ)
      → c.turn.actor_kind == "WORKER" ≡ true
      → is_kept (place_worker state session c version) ≡ true
      → may_work state c version ≡ true
  unfolding place_worker
  worker_may_work version kind h = ground (arith, kind, h)

  version_may_run :
      (o : Option ℕ)
      → is_kept (place_version state session c o) ≡ true
      → may_run state session c o ≡ true
  unfolding place_version
  version_may_run none h = h
  version_may_run (some version) h =
      ground (arith, h, master_may_lead version, worker_may_work version)

  place-is_eligible : is_kept (place state session c) ≡ true → is_eligible state session c ≡ true
  unfolding place
  place-is_eligible h = ground (arith, h, version_may_run c.turn.state_version)

-- what holds of every candidate in the lists
abbrev Holds : (Candidate → Type 0) → Buckets → Type 0
Holds P b =
    All P b.recoveries × All P b.resumes × All P b.worker_events × All P b.masters × All P b.workers

unfoldable pub OnOutcome : (Buckets → Type 0) → Result String Buckets → Type 0
OnOutcome Q (ok b) = Q b
OnOutcome Q (err e) = Unit

module _ (P : Candidate → Type 0) where
  put_before-Holds :
      (c : Candidate) (p : Place) (rest : Result String Buckets)
      → (is_kept p ≡ true → P c)
      → OnOutcome (Holds P) rest
      → OnOutcome (Holds P) (put_before c p rest)
  unfolding OnOutcome put_before put
  put_before-Holds c (refused e) rest h k = tt
  put_before-Holds c (superseded r) (err e) h k = tt
  put_before-Holds c recovery (err e) h k = tt
  put_before-Holds c resume (err e) h k = tt
  put_before-Holds c worker_event (err e) h k = tt
  put_before-Holds c master (err e) h k = tt
  put_before-Holds c worker (err e) h k = tt
  put_before-Holds c (superseded r) (ok b) h k = k
  put_before-Holds c recovery (ok b) h k = ((h refl, k.0), k.1, k.2, k.3, k.4)
  put_before-Holds c resume (ok b) h k = (k.0, (h refl, k.1), k.2, k.3, k.4)
  put_before-Holds c worker_event (ok b) h k = (k.0, k.1, (h refl, k.2), k.3, k.4)
  put_before-Holds c master (ok b) h k = (k.0, k.1, k.2, (h refl, k.3), k.4)
  put_before-Holds c worker (ok b) h k = (k.0, k.1, k.2, k.3, (h refl, k.4))

  collect-Holds :
      (at : Candidate → Place) (candidates : List Candidate)
      → ((c : Candidate) → In c candidates → is_kept (at c) ≡ true → P c)
      → OnOutcome (Holds P) (collect at candidates)
  unfolding collect OnOutcome
  collect-Holds at [] h = (tt, tt, tt, tt, tt)
  collect-Holds at (c ∷ candidates) h =
      put_before-Holds c (at c) (collect at candidates) (h c (inl refl))
        (collect-Holds at candidates λ d m. h d (inr m))

  abbrev OnSome : Option Candidate → Type 0
  OnSome none = Unit
  OnSome (some c) = P c

  OnSome-first_turn : (turns : List Candidate) → All P turns → OnSome (first_turn turns)
  OnSome-first_turn turns h =
      headed (sort_by (λ c. c.turn_id) turns) (All-sort_by P (λ c. c.turn_id) turns h)
    where
      headed : (xs : List Candidate) → All P xs → OnSome (head_of xs)
      headed [] k = tt
      headed (x ∷ xs) k = k.0

  OnSome-or_else : (o next : Option Candidate) → OnSome o → OnSome next → OnSome (or_else o next)
  OnSome-or_else none next h k = k
  OnSome-or_else (some c) next h k = h

  OnSome-alternate :
      (b : Bool) (m w : Option Candidate) → OnSome m → OnSome w → OnSome (alternate b m w)
  OnSome-alternate b none w h k = k
  OnSome-alternate b (some m) none h k = h
  OnSome-alternate true (some m) (some w) h k = k
  OnSome-alternate false (some m) (some w) h k = h

  OnSome-pick : (b : Bool) (buckets : Buckets) → Holds P buckets → OnSome (pick b buckets)
  unfolding pick
  OnSome-pick b buckets h =
      OnSome-or_else (first_turn buckets.recoveries) _ (OnSome-first_turn buckets.recoveries h.0) (
        OnSome-or_else (first_turn buckets.resumes) _ (OnSome-first_turn buckets.resumes h.1) (
          OnSome-or_else (first_turn buckets.worker_events) _
            (OnSome-first_turn buckets.worker_events h.2)
            (OnSome-alternate b (first_turn buckets.masters) (first_turn buckets.workers)
              (OnSome-first_turn buckets.masters h.3) (OnSome-first_turn buckets.workers h.4))))

  OnSelection : Result String Selection → Type 0
  OnSelection (ok s) = OnSome s.selected
  OnSelection (err e) = Unit

  selection_of-Holds :
      (ledger : List LedgerRow) (r : Result String Buckets)
      → OnOutcome (Holds P) r
      → OnSelection (selection_of ledger r)
  unfolding selection_of OnSelection OnOutcome
  selection_of-Holds ledger (err e) h = tt
  selection_of-Holds ledger (ok b) h = OnSome-pick (is_master (last_routed_actor ledger)) b h

  OnSelection-selected :
      (r : Result String Selection) {selection : Selection} {c : Candidate}
      → OnSelection r
      → r ≡ ok selection
      → selection.selected ≡ some c
      → P c
  unfolding OnSelection
  OnSelection-selected (ok s) h same found =
      subst OnSome (ap (λ t. t.selected) (ok-injective same) ∙ found) h
  OnSelection-selected (err e) h same found = cc

-- A turn that is selected is one of the candidates, for this project and its contracts, and may run: a
-- Worker's turn comes from an active Worker of a project that is not terminal, and is not ahead of the
-- project; a turn of the master is replayed onto the next version, or is of the session whose window is
-- active, at the project's version.
pub select_turn_lem :
    (state : TurnState) (windows : Leases) (candidates : List Candidate) (ledger : List LedgerRow)
    (now : ℕ) {selection : Selection} {c : Candidate}
    → select_turn state windows candidates ledger now ≡ ok selection
    → selection.selected ≡ some c
    → In c candidates × (is_eligible state (active_session windows state.project_id now) c ≡ true)
unfolding select_turn
select_turn_lem state windows candidates ledger now h found =
    let session = active_session windows state.project_id now in
    elim (Bool-cases (state.status == "ACTIVE" || is_terminal_status state.status)) [
      | inl e ↦
          OnSelection-selected (λ c. In c candidates × (is_eligible state session c ≡ true)) _
            (selection_of-Holds _ ledger _ (
              collect-Holds _ (place state session) candidates
                λ c m kept. (m, place-is_eligible state session c kept)))
            (rw e at h) found
      | inr e ↦ cc
    ]
