-- ===== src/Commit/Outcome.antt =====
-- What a commit has done, by its result.
use mathlib.Core.List.{[], ◌∷◌}
use model_lib.Prelude.{
  ℕ, ◌+◌, ◌≤◌, String, true, false, Option, none, some, List, ◌≡◌, ◌≢◌, ◌⊎◌, inl, inr, refl, ◌==◌,
  string_eq, nat_eq, eq_iff, arith, find_row, exists_row, count_rows, find_row-holds,
  find_row-count, count_rows-le, find_row-update_rows, All, Option-cases,
}
use model_lib.Tx.{◌>>◌}
use model_lib.Tx.Rules.{Commits, Commits-return, Commits-branch, Commits-write_unless}
use model_lib.Json.{Codec}
use model_lib.Schema.{Db}
use model_lib.Schema.Rows.{
  ProjectState, Transition, CommitResult, committed, Event, EvidenceReceipt,
}
use model_lib.Tables.{find_project, Action}
use model_lib.Tables.Insert.{Commits-insert_event}
use model_lib.Commit.{
  Proposal, find_transition, evidence_belongs_to_project, is_expected, advance_version,
  insert_transition, new_transition, next_phase, commit_transition, commit_on_state,
  commit_on_transition, commit_block,
}

-- the primary key of `project_state`
abbrev pub HasOneRow : String → Db → Type 0
HasOneRow project db = count_rows (λ r. r.project_id == project) db.project_states ≤ 1

-- a receipt with this reference belongs to the project
abbrev pub Attested : String → Db → String → Type 0
Attested project db ref =
    (e : EvidenceReceipt) × (find_row (λ x. x.evidence_ref == ref) db.evidence_receipts ≡ some e)
    × (e.project_id ≡ project)

evidence_belongs_to_project-Attested :
    (db : Db) (project : String) (refs : List String)
    → evidence_belongs_to_project db project refs ≡ true
    → All (Attested project db) refs
unfolding evidence_belongs_to_project
evidence_belongs_to_project-Attested db project [] h = tt
evidence_belongs_to_project-Attested db project (ref ∷ refs) h =
    elim (Option-cases (find_row (λ x. x.evidence_ref == ref) db.evidence_receipts)) [
      | inl missing ↦ absurd (ground (arith, missing))
      | inr (e, there) ↦ (
        (e, there, ground (arith, there, eq_iff e.project_id project)),
        evidence_belongs_to_project-Attested db project refs (ground (arith, there)),
      )
    ]

-- a committed transition: all its guards held, the version is one more, and the transition is recorded
pub record Advanced (codec : Codec) (expected epoch : ℕ) (transition : String) (proposal : Proposal)
    (refs : List String) (db after : Db) : Type 0 where
  pub state : ProjectState
  pub at_project : find_project proposal.project_id db ≡ some state
  pub same_epoch : state.master_epoch ≡ epoch
  pub same_version : state.state_version ≡ expected
  pub unused : find_transition transition db ≡ none
  pub evidence : All (Attested proposal.project_id db) refs
  pub next :
      find_project proposal.project_id after
      ≡ some (record state { state_version = expected + 1; phase = next_phase proposal state })
  pub recorded :
      find_transition transition after
      ≡ some (new_transition codec expected epoch transition proposal refs)

pub Commits-insert_transition :
    {A : Type 0} (P : A → Db → Type 0) (t : Transition) (k : Action A) (db : Db)
    → (exists_row (λ r. r.transition_id == t.transition_id) db.transitions ≡ false
        → Commits P (k (record db { transitions = t ∷ db.transitions })))
    → Commits P ((insert_transition t >> k) db)
unfolding insert_transition
Commits-insert_transition P t k db h = Commits-write_unless P _ _ _ k db h

module _ (codec : Codec) (expected epoch : ℕ) (transition : String) (proposal : Proposal)
    (refs : List String) (uuid : String) (db : Db) (keyed : HasOneRow proposal.project_id db) where
  -- either COMMITTED, or nothing is written
  abbrev pub Outcome : CommitResult → Db → Type 0
  Outcome result after =
      ((result ≡ committed) × Advanced codec expected epoch transition proposal refs db after)
      ⊎ ((result ≢ committed) × (after ≡ db))

  abbrev project : String
  project = proposal.project_id

  pub one_expected :
      (state : ProjectState)
      → find_project project db ≡ some state
      → state.master_epoch ≡ epoch
      → state.state_version ≡ expected
      → count_rows (is_expected project expected epoch) db.project_states ≡ 1
  unfolding find_project
  one_expected state found e v =
      let holds = find_row-holds (λ r. r.project_id == project) db.project_states found in
      omega (
        arith,
        keyed,
        find_row-count (λ r. r.project_id == project) (is_expected project expected epoch)
            db.project_states found (ground (arith, holds)),
        count_rows-le (is_expected project expected epoch) (λ r. r.project_id == project)
            db.project_states (λ x h. ground (arith, h)),
      )

  next_row :
      (state : ProjectState) (phase : String)
      → find_project project db ≡ some state
      → state.master_epoch ≡ epoch
      → state.state_version ≡ expected
      → find_project project (advance_version project expected epoch phase db)
        ≡ some (record state { state_version = expected + 1; phase = phase })
  unfolding find_project advance_version
  next_row state phase found e v = ground (
    arith,
    find_row-holds (λ r. r.project_id == project) db.project_states found,
    find_row-update_rows (λ r. r.project_id == project) (is_expected project expected epoch)
        (λ r. record r { state_version = expected + 1; phase = phase }) db.project_states
        (λ x. refl),
  )

  module _ (state : ProjectState) (found : find_project project db ≡ some state)
      (e : state.master_epoch ≡ epoch) (v : state.state_version ≡ expected)
      (unused : find_transition transition db ≡ none)
      (evidence : evidence_belongs_to_project db project refs ≡ true) where
    abbrev advanced : Db
    advanced = advance_version project expected epoch (next_phase proposal state) db

    recorded-Advanced :
        (log : Event)
        → Advanced codec expected epoch transition proposal refs db (record advanced {
          transitions =
              new_transition codec expected epoch transition proposal refs ∷ advanced.transitions;
          events = log ∷ advanced.events;
        })
    unfolding find_project find_transition find_row
    recorded-Advanced log = record {
      state = state;
      at_project = found;
      same_epoch = e;
      same_version = v;
      unused = unused;
      evidence = evidence_belongs_to_project-Attested db project refs evidence;
      next = next_row state (next_phase proposal state) found e v;
      recorded = ground (arith, eq_iff transition transition);
    }

    commit_transition-Outcome :
        Commits Outcome
          (commit_transition codec expected epoch transition proposal refs uuid state db)
    unfolding commit_transition
    commit_transition-Outcome =
        Commits-branch _ _ _ _ _
          (λ many. absurd (ground (arith, many, one_expected state found e v)))
          (λ one. Commits-insert_transition _ _ _ _ λ _.
            Commits-insert_event _ _ _ _
              λ _. Commits-return _ _ _ (inl (refl, recorded-Advanced _)))

  commit_on_state-Outcome :
      (o : Option ProjectState)
      → find_project project db ≡ o
      → find_transition transition db ≡ none
      → Commits Outcome (commit_on_state codec expected epoch transition proposal refs uuid o db)
  unfolding commit_on_state
  commit_on_state-Outcome none found unused = Commits-return _ _ _ (inr (λ h. cc, refl))
  commit_on_state-Outcome (some state) found unused =
      Commits-branch _ _ _ _ _ (λ _. Commits-return _ _ _ (inr (λ h. cc, refl)))
        λ e.
          Commits-branch _ _ _ _ _ (λ _. Commits-return _ _ _ (inr (λ h. cc, refl)))
            λ v.
              Commits-branch _ _ _ _ _ (λ _. Commits-return _ _ _ (inr (λ h. cc, refl)))
                λ b.
                  commit_transition-Outcome state found (ground (arith, e)) (ground (arith, v))
                    unused (ground (arith, b))

  commit_on_transition-Outcome :
      (o : Option Transition)
      → find_transition transition db ≡ o
      → Commits Outcome
          (commit_on_transition codec expected epoch transition proposal refs uuid o db)
  unfolding commit_on_transition
  commit_on_transition-Outcome none unused = commit_on_state-Outcome _ refl unused
  commit_on_transition-Outcome (some t) used =
      Commits-return _ _ _ (inr (λ h. ground (arith, h), refl))

  pub commit_block-Outcome :
      Commits Outcome (commit_block codec expected epoch transition proposal refs uuid db)
  unfolding commit_block
  commit_block-Outcome = commit_on_transition-Outcome _ refl
