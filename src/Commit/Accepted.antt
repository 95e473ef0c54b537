-- ===== src/Commit/Accepted.antt =====
-- What a call of `commit` has done, by its result.
use model_lib.Prelude.{
  ℕ, String, false, ◌||◌, List, map, ◌≡◌, ◌≢◌, ◌⊎◌, inl, inr, refl, string_eq, nat_eq, exists_row,
}
use model_lib.Text.{strip, is_empty}
use model_lib.Tx.{branch, return, ok, err, Result, transaction}
use model_lib.Tx.Rules.{
  Commits, Commits-return, Commits-branch, Commits-transaction, Commits-weaken, Commits-ok,
}
use model_lib.Json.{Codec, Json}
use model_lib.Schema.{Db}
use model_lib.Schema.Rows.{CommitResult, committed, rejected}
use model_lib.Tables.{Action}
use model_lib.Commit.{
  Proposal, ProposalError, validate_proposal, has_duplicate, commit_checked, commit,
}
use model_lib.Commit.Outcome.{HasOneRow, Advanced, commit_block-Outcome}

-- what `commit` has done when it returns COMMITTED
pub record Accepted (codec : Codec) (expected epoch : ℕ) (transition_id : String) (proposal : Json)
    (refs : List String) (db after : Db) : Type 0 where
  pub named : is_empty (strip transition_id) ≡ false
  pub distinct : exists_row is_empty (map strip refs) || has_duplicate (map strip refs) ≡ false
  pub checked : Proposal
  pub valid : validate_proposal codec proposal ≡ ok checked
  pub advanced :
      Advanced codec expected epoch (strip transition_id) checked (map strip refs) db after

module _ (codec : Codec) (expected epoch : ℕ) (transition_id : String) (proposal : Json)
    (refs : List String) (uuid : String) (db : Db) (keyed : (q : String) → HasOneRow q db) where
  abbrev Applied : CommitResult → Db → Type 0
  Applied result after =
      ((result ≡ committed) × Accepted codec expected epoch transition_id proposal refs db after)
      ⊎ ((result ≢ committed) × (after ≡ db))

  checked-Applied :
      (checked : Result ProposalError Proposal)
      → validate_proposal codec proposal ≡ checked
      → is_empty (strip transition_id) ≡ false
      → Commits Applied (
          commit_checked codec expected epoch
            (strip transition_id)
            checked
            (map strip refs)
            uuid
            db)
  unfolding commit_checked
  checked-Applied (err e) valid named = Commits-return _ _ _ (inr (λ h. cc, refl))
  checked-Applied (ok p) valid named =
      Commits-branch _ _ _ _ _ (λ _. Commits-return _ _ _ (inr (λ h. cc, refl)))
        λ distinct.
          Commits-weaken _ _ _
            (λ result after h. elim h [
              | inl (a, b) ↦ inl (
                a,
                record {
                  named = named;
                  distinct = distinct;
                  checked = p;
                  valid = valid;
                  advanced = b;
                },
              )
              | inr k ↦ inr k
            ])
            (commit_block-Outcome codec expected epoch (strip transition_id) p (map strip refs) uuid
              db (keyed p.project_id))

  -- Where every project has one row at most, a commit that returns either returns COMMITTED, and then every
  -- guard held and the project's row and the transition are written; or it returns another result, and
  -- then nothing at all is written.
  pub commit_lem :
      {result : CommitResult}
      → (commit codec expected epoch transition_id proposal refs uuid db).0 ≡ ok result
      → Applied result (commit codec expected epoch transition_id proposal refs uuid db).1
  unfolding commit
  commit_lem h =
      let body : Action CommitResult = branch (is_empty (strip transition_id)) (return rejected) (
        commit_checked codec expected epoch (strip transition_id) (validate_proposal codec proposal)
          (map strip refs) uuid) in
      Commits-ok Applied (transaction body db)
        (Commits-transaction Applied body db (
          Commits-branch _ _ _ _ _ (λ _. Commits-return _ _ _ (inr (λ h. cc, refl)))
            λ named. checked-Applied _ refl named))
        h

  -- a commit that returned COMMITTED, taken apart
  pub commit-Accepted :
      (commit codec expected epoch transition_id proposal refs uuid db).0 ≡ ok committed
      → Accepted codec expected epoch transition_id proposal refs db
          (commit codec expected epoch transition_id proposal refs uuid db).1
  commit-Accepted h = elim (commit_lem h) [
    | inl (same, a) ↦ a
    | inr (other, unchanged) ↦ absurd (other refl)
  ]
