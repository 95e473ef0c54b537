-- ===== src/Commit.antt =====
-- The only way to change a project's state: `validate_proposal` of master_a_dynamic_v4/contracts.py and
-- `StateStore.commit` of master_a_dynamic_v4/state_store.py. Versions and epochs are natural numbers;
-- `uuid4().hex` is an argument.
pub mod Outcome
pub mod Accepted
pub mod Once
pub mod Versions
use Prim.Native.String.{◌++◌ as append}
use mathlib.Core.List.{[], ◌∷◌}
use model_lib.Prelude.{
  ℕ, ◌+◌, String, Bool, true, false, not, ◌&&◌, ◌||◌, Option, none, some, List, map, ◌==◌,
  string_eq, nat_eq, find_row, exists_row, count_rows, update_rows, if◌then◌else◌,
}
use model_lib.Text.{strip, is_empty}
use model_lib.Tx.{
  Result, ok, err, return, write, write_unless, select, branch, transaction, ◌>>=◌, ◌>>◌,
}
use model_lib.Json.{
  Json, num, str, arr, obj, Items, nil, cons, Fields, end, field, Codec, sha256_json, get_field,
  set_field, text_or,
}
use model_lib.Schema.{Db, Error, integrity_error}
use model_lib.Schema.Rows.{
  ProjectState, Transition, CommitResult, committed, already_committed, version_conflict, fenced,
  rejected,
}
use model_lib.Tables.{Action, find_project, insert_event}

-- `ProposalRejected` with its message
pub data ProposalError : Type 0 where
  proposal_not_mapping proposal_project_id_missing master_identity_invalid : ProposalError
  proposal_kind_invalid proposal_phase_missing : ProposalError

abbrev allowed_proposal_kinds : List String
allowed_proposal_kinds =
    "SET_PHASE" ∷ "TASK_GRAPH" ∷ "ASSIGNMENTS" ∷ "INTEGRATION" ∷ "RETRY" ∷ "REPLAN"
    ∷ "COMPLETION_REQUEST" ∷ []

-- a proposal that passed, with the fields that `commit` reads
pub record Proposal : Type 0 where
  pub fields : Fields
  pub project_id : String
  pub kind : String
  pub phase : String

-- a list of texts as JSON
abbrev pub texts : List String → Items
texts [] = nil
texts (t ∷ ts) = cons (str t) (texts ts)

module _ (codec : Codec) where
  validate_fields : Fields → Result ProposalError Proposal
  validate_fields fields =
      let project = strip (text_or codec "" (get_field "project_id" fields)) in
      let kind = codec.upper (strip (text_or codec "" (get_field "kind" fields))) in
      let phase = strip (text_or codec "" (get_field "phase" fields)) in
      let normal =
        set_field "master_identity" (str "A")
          (set_field "kind" (str kind) (set_field "project_id" (str project) fields)) in
      if is_empty project
      then err proposal_project_id_missing
      else if not (text_or codec "A" (get_field "master_identity" fields) == "A")
      then err master_identity_invalid
      else if not (exists_row (λ k. k == kind) allowed_proposal_kinds)
      then err proposal_kind_invalid
      else if kind == "SET_PHASE"
      then (if is_empty phase
          then err proposal_phase_missing
          else ok (record {
            fields = set_field "phase" (str phase) normal;
            project_id = project;
            kind = kind;
            phase = phase;
          }))
      else ok (record { fields = normal; project_id = project; kind = kind; phase = phase })

  unfoldable pub validate_proposal : Json → Result ProposalError Proposal
  unfolding validate_fields
  validate_proposal (obj fields) = validate_fields fields
  validate_proposal _ = err proposal_not_mapping

  unfoldable pub content_sha256 : String → ℕ → ℕ → Fields → List String → String
  content_sha256 project expected epoch fields refs = sha256_json codec (
      obj (
        field "project_id" (str project) (
          field "expected_version" (num expected) (
            field "master_epoch" (num epoch) (
              field "proposal_sha256" (str (sha256_json codec (obj fields)))
                (field "evidence_refs_sha256" (str (sha256_json codec (arr (texts refs)))) end))))))

-- `len(refs) != len(set(refs))`
unfoldable pub has_duplicate : List String → Bool
has_duplicate [] = false
has_duplicate (r ∷ rs) = exists_row (λ t. t == r) rs || has_duplicate rs

unfoldable pub find_transition : String → Db → Option Transition
find_transition transition db = find_row (λ t. t.transition_id == transition) db.transitions

-- `_evidence_belongs_to_project`: a missing receipt, or one of another project, is refused
unfoldable pub evidence_belongs_to_project : Db → String → List String → Bool
evidence_belongs_to_project db project [] = true
evidence_belongs_to_project db project (ref ∷ refs) =
    (elim (find_row (λ e. e.evidence_ref == ref) db.evidence_receipts) [
      | none ↦ false
      | some e ↦ e.project_id == project
    ])
    && evidence_belongs_to_project db project refs

-- the row that the guarded UPDATE names
abbrev pub is_expected : String → ℕ → ℕ → ProjectState → Bool
is_expected project expected epoch r =
    r.project_id == project && r.state_version == expected && r.master_epoch == epoch

-- UPDATE project_state SET state_version=?,phase=? WHERE project_id=? AND state_version=? AND …
unfoldable pub advance_version : String → ℕ → ℕ → String → Db → Db
advance_version project expected epoch phase db = record db {
  project_states =
      update_rows (is_expected project expected epoch)
        (λ r. record r { state_version = expected + 1; phase = phase }) db.project_states;
}

unfoldable pub insert_transition : Transition → Action Unit
insert_transition t db =
    write_unless (exists_row (λ r. r.transition_id == t.transition_id) db.transitions)
      integrity_error (λ d. record d { transitions = t ∷ d.transitions }) db

abbrev pub next_phase : Proposal → ProjectState → String
next_phase proposal state = if proposal.kind == "SET_PHASE" then proposal.phase else state.phase

module _ (codec : Codec) (expected epoch : ℕ) (transition : String) (proposal : Proposal)
    (refs : List String) where
  abbrev pub content : String
  content = content_sha256 codec proposal.project_id expected epoch proposal.fields refs

  abbrev pub new_transition : Transition
  new_transition = record {
    transition_id = transition;
    project_id = proposal.project_id;
    expected_version = expected;
    master_epoch = epoch;
    proposal_sha256 = sha256_json codec (obj proposal.fields);
    evidence_refs_sha256 = sha256_json codec (arr (texts refs));
    content_sha256 = content;
    result = committed;
    committed_version = expected + 1;
  }

  abbrev pub committed_payload : String
  committed_payload = codec.canonical_json (
      obj (
        field "transition_id" (str transition)
          (field "kind" (str proposal.kind) (field "committed_version" (num (expected + 1)) end))))

module _ (codec : Codec) (expected epoch : ℕ) (transition : String) (proposal : Proposal)
    (refs : List String) (uuid : String) where
  -- from `next_version = …` to the end of the block
  unfoldable pub commit_transition : ProjectState → Action CommitResult
  commit_transition state = do
    changed ←
        select (λ db. count_rows (is_expected proposal.project_id expected epoch) db.project_states)
    write (advance_version proposal.project_id expected epoch (next_phase proposal state))
    branch (not (changed == 1)) (return version_conflict) (do
      insert_transition (new_transition codec expected epoch transition proposal refs)
      insert_event (record {
        event_id = append "event-" uuid;
        project_id = proposal.project_id;
        kind = "STATE_TRANSITION_COMMITTED";
        payload_json = committed_payload codec expected epoch transition proposal refs;
      })
      return committed)

  -- the checks on the project's row
  unfoldable pub commit_on_state : Option ProjectState → Action CommitResult
  commit_on_state none = return rejected
  commit_on_state (some state) = branch (not (state.master_epoch == epoch)) (return fenced) (
      branch (not (state.state_version == expected)) (return version_conflict) (do
        belongs ← select (λ db. evidence_belongs_to_project db proposal.project_id refs)
        branch (not belongs) (return rejected) (commit_transition state)))

  -- the checks on a transition of the same id
  unfoldable pub commit_on_transition : Option Transition → Action CommitResult
  commit_on_transition none = do
    state ← select (find_project proposal.project_id)
    commit_on_state state
  commit_on_transition (some t) = return (
      if t.content_sha256 == content codec expected epoch transition proposal refs
      then already_committed
      else rejected)

  -- the `with` block of `commit`
  unfoldable pub commit_block : Action CommitResult
  commit_block = do existing ← select (find_transition transition); commit_on_transition existing

-- the checks before the block; what they refuse is REJECTED and writes nothing
unfoldable pub commit_checked :
    Codec
    → ℕ
    → ℕ
    → String
    → Result ProposalError Proposal
    → List String
    → String
    → Action CommitResult
commit_checked codec expected epoch transition (err e) refs uuid = return rejected
commit_checked codec expected epoch transition (ok proposal) refs uuid =
    branch (exists_row is_empty refs || has_duplicate refs) (return rejected)
      (commit_block codec expected epoch transition proposal refs uuid)

unfoldable pub commit :
    Codec → ℕ → ℕ → String → Json → List String → String → Db → Result Error CommitResult × Db
commit codec expected_version master_epoch transition_id proposal evidence_refs uuid = transaction (
    branch (is_empty (strip transition_id)) (return rejected) (
      commit_checked codec expected_version master_epoch (strip transition_id)
        (validate_proposal codec proposal) (map strip evidence_refs) uuid))
