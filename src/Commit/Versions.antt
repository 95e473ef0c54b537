-- ===== src/Commit/Versions.antt =====
-- A project's version is the number of its recorded transitions.
use mathlib.Core.Option
use mathlib.Core.List.{◌∷◌}
use model_lib.Prelude.{
  ℕ, ◌+◌, String, Bool, true, false, ◌&&◌, Option, none, some, List, map, ◌≡◌, refl, ◌==◌,
  string_eq, nat_eq, eq_iff, if◌then◌else◌, arith, count_rows, find_row-holds, Option-cases, inl,
  inr, find_row-update_rows, count_rows-update_rows,
}
use model_lib.Text.{strip, is_empty}
use model_lib.Tx.{ok, err, Result, branch, return}
use model_lib.Tx.Rules.{Commits, Commits-return, Commits-branch, keeps_of_Commits}
use model_lib.Json.{Codec, Json}
use model_lib.Schema.{Db}
use model_lib.Schema.Rows.{ProjectState, Transition, Event, CommitResult, committed, rejected}
use model_lib.Tables.{find_project}
use model_lib.Tables.Insert.{Commits-insert_event}
use model_lib.Commit.{
  Proposal, ProposalError, validate_proposal, is_expected, advance_version, next_phase,
  new_transition, commit_transition, commit_on_state, commit_on_transition, commit_block,
  commit_checked, commit,
}
use model_lib.Commit.Outcome.{HasOneRow, one_expected, Commits-insert_transition}

-- `project_state.state_version`, 0 where there is no such project
unfoldable pub version_of : String → Db → ℕ
unfolding find_project
version_of project db = elim (find_project project db) [ none ↦ 0 | some s ↦ s.state_version ]

abbrev pub is_committed : CommitResult → Bool
is_committed committed = true
is_committed _ = false

-- `count_committed_transitions`
unfoldable pub transitions_of : String → Db → ℕ
transitions_of project db =
    count_rows (λ t. t.project_id == project && is_committed t.result) db.transitions

pub record IsCounted (q : String) (db : Db) : Type 0 where
  pub one_row : HasOneRow q db
  pub counted : version_of q db ≡ transitions_of q db

module _ (q project phase : String) (expected epoch : ℕ) (db : Db) where
  find_project-advance_version :
      find_project q (advance_version project expected epoch phase db)
      ≡ Option.map
          (λ r.
            if is_expected project expected epoch r
            then record r { state_version = expected + 1; phase = phase }
            else r)
          (find_project q db)
  unfolding find_project advance_version
  find_project-advance_version =
      find_row-update_rows (λ r. r.project_id == q) (is_expected project expected epoch)
        (λ r. record r { state_version = expected + 1; phase = phase }) db.project_states
        (λ x. refl)

  key_of_found : (r : ProjectState) → find_project q db ≡ some r → r.project_id ≡ q
  unfolding find_project
  key_of_found r found =
      (eq_iff r.project_id q).0 (find_row-holds (λ x. x.project_id == q) db.project_states found)

  version_of-advance_version :
      (state : ProjectState)
      → find_project project db ≡ some state
      → state.project_id ≡ project
      → state.master_epoch ≡ epoch
      → state.state_version ≡ expected
      → version_of q (advance_version project expected epoch phase db)
        ≡ (if project == q then expected + 1 else version_of q db)
  unfolding version_of
  version_of-advance_version state found key e v = elim (Option-cases (find_project q db)) [
    | inl missing ↦ ground (arith, find_project-advance_version, eq_iff project q)
    | inr (r, there) ↦ ground (
      arith,
      find_project-advance_version,
      eq_iff project q,
      eq_iff r.project_id project,
      key_of_found r there,
    )
  ]

version_of_found :
    (p : String) (state : ProjectState) (db : Db)
    → find_project p db ≡ some state
    → version_of p db ≡ state.state_version
unfolding version_of
version_of_found p state db found = ground arith

module _ (q : String) (t : Transition) (log : Event) (db : Db) where
  abbrev added : Db
  added = record db { transitions = t ∷ db.transitions; events = log ∷ db.events }

  version_of-added : version_of q added ≡ version_of q db
  unfolding version_of
  version_of-added = refl

  transitions_of-added :
      t.result ≡ committed
      → transitions_of q added ≡ (if t.project_id == q then 1 else 0) + transitions_of q db
  unfolding transitions_of count_rows
  transitions_of-added h = ground (arith, h)

transitions-advance_version :
    (q project phase : String) (expected epoch : ℕ) (db : Db)
    → transitions_of q (advance_version project expected epoch phase db) ≡ transitions_of q db
unfolding transitions_of advance_version
transitions-advance_version q project phase expected epoch db = refl

one_row-advance_version :
    (q project phase : String) (expected epoch : ℕ) (db : Db)
    → HasOneRow q db
    → HasOneRow q (advance_version project expected epoch phase db)
unfolding advance_version
one_row-advance_version q project phase expected epoch db h = omega (
  arith,
  h,
  count_rows-update_rows (λ r. r.project_id == q) (is_expected project expected epoch)
      (λ r. record r { state_version = expected + 1; phase = phase }) db.project_states (λ x. refl),
)

module _ (q project phase : String) (expected epoch : ℕ) (t : Transition) (log : Event) (db : Db)
    (state : ProjectState) where
  abbrev advanced : Db
  advanced = advance_version project expected epoch phase db

  advanced-IsCounted :
      t.project_id ≡ project
      → t.result ≡ committed
      → find_project project db ≡ some state
      → state.master_epoch ≡ epoch
      → state.state_version ≡ expected
      → ((p : String) → IsCounted p db)
      → IsCounted q (record advanced {
        transitions = t ∷ advanced.transitions;
        events = log ∷ advanced.events;
      })
  advanced-IsCounted same kept found e v h = record {
    one_row = one_row-advance_version q project phase expected epoch db (h q).one_row;
    counted = ground (
      arith,
      version_of-added q t log advanced,
      transitions_of-added q t log advanced kept,
      transitions-advance_version q project phase expected epoch db,
      version_of-advance_version q project phase expected epoch db state found
          (key_of_found project project phase expected epoch db state found) e v,
      version_of_found project state db found,
      (h q).counted,
      (h project).counted,
      eq_iff project q,
    );
  }

module _ (codec : Codec) (expected epoch : ℕ) (transition : String) (proposal : Proposal)
    (refs : List String) (uuid : String) (db : Db) (h : (p : String) → IsCounted p db) where
  abbrev AllCounted : Db → Type 0
  AllCounted after = (p : String) → IsCounted p after

  commit_transition-IsCounted :
      (state : ProjectState)
      → find_project proposal.project_id db ≡ some state
      → state.master_epoch ≡ epoch
      → state.state_version ≡ expected
      → Commits
          (λ _. AllCounted)
          (commit_transition codec expected epoch transition proposal refs uuid state db)
  unfolding commit_transition
  commit_transition-IsCounted state found e v =
      Commits-branch _ _ _ _ _
        (λ many. absurd (
          ground (
            arith,
            many,
            one_expected codec expected epoch transition proposal refs uuid db
                (h proposal.project_id).one_row state found e v,
          )))
        (λ one. Commits-insert_transition _ _ _ _ λ _. Commits-insert_event _ _ _ _ λ _.
          Commits-return _ _ _ (λ q.
            advanced-IsCounted q proposal.project_id (next_phase proposal state) expected epoch
              (new_transition codec expected epoch transition proposal refs) _ db state refl refl
              found e v h))

  commit_on_state-IsCounted :
      (o : Option ProjectState)
      → find_project proposal.project_id db ≡ o
      → Commits
          (λ _. AllCounted)
          (commit_on_state codec expected epoch transition proposal refs uuid o db)
  unfolding commit_on_state
  commit_on_state-IsCounted none found = Commits-return _ _ _ h
  commit_on_state-IsCounted (some state) found =
      Commits-branch _ _ _ _ _ (λ _. Commits-return _ _ _ h)
        λ e.
          Commits-branch _ _ _ _ _ (λ _. Commits-return _ _ _ h)
            λ v.
              Commits-branch _ _ _ _ _ (λ _. Commits-return _ _ _ h)
                λ b. commit_transition-IsCounted state found (ground (arith, e)) (ground (arith, v))

  commit_block-IsCounted :
      (o : Option Transition)
      → Commits
          (λ _. AllCounted)
          (commit_on_transition codec expected epoch transition proposal refs uuid o db)
  unfolding commit_on_transition
  commit_block-IsCounted none = commit_on_state-IsCounted _ refl
  commit_block-IsCounted (some t) = Commits-return _ _ _ h

module _ (codec : Codec) (expected epoch : ℕ) (refs : List String) (uuid : String) (db : Db)
    (h : (p : String) → IsCounted p db) where
  commit_checked-IsCounted :
      (transition : String) (checked : Result ProposalError Proposal)
      → Commits
          (λ _ after. (p : String) → IsCounted p after)
          (commit_checked codec expected epoch transition checked refs uuid db)
  unfolding commit_checked commit_block
  commit_checked-IsCounted transition (err e) = Commits-return _ _ _ h
  commit_checked-IsCounted transition (ok proposal) =
      Commits-branch _ _ _ _ _ (λ _. Commits-return _ _ _ h)
        λ _. commit_block-IsCounted codec expected epoch transition proposal refs uuid db h _

-- A commit keeps, for every project, one row at most and a version that counts the project's recorded
-- transitions; whatever its arguments and its result, and also if it raises.
pub commit-IsCounted :
    (codec : Codec) (expected epoch : ℕ) (transition_id : String) (proposal : Json)
    (refs : List String) (uuid : String) (db : Db)
    → ((p : String) → IsCounted p db)
    → (p : String) → IsCounted p (commit codec expected epoch transition_id proposal refs uuid db).1
unfolding commit
commit-IsCounted codec expected epoch transition_id proposal refs uuid db h =
    keeps_of_Commits (λ after. (p : String) → IsCounted p after)
      (branch (is_empty (strip transition_id)) (return rejected) (
        commit_checked codec expected epoch (strip transition_id) (validate_proposal codec proposal)
          (map strip refs) uuid))
      db h
      (Commits-branch _ _ _ _ _ (λ _. Commits-return _ _ _ h)
        λ _.
          commit_checked-IsCounted codec expected epoch (map strip refs) uuid db h
            (strip transition_id) _)
