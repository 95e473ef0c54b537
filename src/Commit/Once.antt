-- ===== src/Commit/Once.antt =====
-- Retries and races of commits.
use model_lib.Prelude.{ℕ, String, List, map, ◌≡◌, ◌≢◌, string_eq, nat_eq, eq_iff, arith}
use model_lib.Text.{strip}
use model_lib.Tx.{ok, tx_steps}
use model_lib.Json.{Codec, Json}
use model_lib.Schema.{Db}
use model_lib.Schema.Rows.{committed, already_committed}
use model_lib.Commit.{
  Proposal, validate_proposal, commit, commit_checked, commit_block, commit_on_transition, content,
}
use model_lib.Commit.Outcome.{HasOneRow}
use model_lib.Commit.Accepted.{Accepted, commit-Accepted}
use model_lib.Commit.Versions.{IsCounted, commit-IsCounted}

recorded_again :
    (codec : Codec) (expected epoch : ℕ) (transition_id : String) (proposal : Json)
    (refs : List String) (again : String) (db after : Db)
    → Accepted codec expected epoch transition_id proposal refs db after
    → commit codec expected epoch transition_id proposal refs again after
      ≡ (ok already_committed, after)
unfolding commit commit_checked commit_block commit_on_transition tx_steps
recorded_again codec expected epoch transition_id proposal refs again db after a = ground (
  arith,
  eq_iff (content codec expected epoch (strip transition_id) a.checked (map strip refs))
      (content codec expected epoch (strip transition_id) a.checked (map strip refs)),
)

-- Where every project has one row at most, a commit that returned COMMITTED can be sent again, and returns
-- ALREADY_COMMITTED and writes nothing.
pub commit-commit :
    (codec : Codec) (expected epoch : ℕ) (transition_id : String) (proposal : Json)
    (refs : List String) (uuid again : String) (db : Db)
    → ((q : String) → HasOneRow q db)
    → let after = (commit codec expected epoch transition_id proposal refs uuid db).1 in
      (commit codec expected epoch transition_id proposal refs uuid db).0 ≡ ok committed
      → commit codec expected epoch transition_id proposal refs again after
        ≡ (ok already_committed, after)
commit-commit codec expected epoch transition_id proposal refs uuid again db keyed done =
    recorded_again codec expected epoch transition_id proposal refs again db
      (commit codec expected epoch transition_id proposal refs uuid db).1
      (commit-Accepted codec expected epoch transition_id proposal refs uuid db keyed done)

-- Of two commits to one project from the same version, the second does not return COMMITTED, whatever
-- its transition id, epoch, proposal and evidence: it has lost the race. Both proposals are valid, and
-- every project has one row at most and a version that counts its recorded transitions.
pub second_commit_loses :
    (codec : Codec) (expected epoch epoch' : ℕ) (transition_id transition_id' : String)
    (proposal proposal' : Json) (refs refs' : List String) (uuid uuid' : String) (db : Db)
    (p p' : Proposal)
    → ((q : String) → IsCounted q db)
    → validate_proposal codec proposal ≡ ok p
    → validate_proposal codec proposal' ≡ ok p'
    → p'.project_id ≡ p.project_id
    → let after = (commit codec expected epoch transition_id proposal refs uuid db).1 in
      (commit codec expected epoch transition_id proposal refs uuid db).0 ≡ ok committed
      → (commit codec expected epoch' transition_id' proposal' refs' uuid' after).0 ≢ ok committed
second_commit_loses codec expected epoch epoch' transition_id transition_id' proposal proposal' refs
      refs' uuid uuid' db p p' keyed valid valid' same done again =
    let after = (commit codec expected epoch transition_id proposal refs uuid db).1 in
    lost db after (commit codec expected epoch' transition_id' proposal' refs' uuid' after).1
      (commit-Accepted codec expected epoch transition_id proposal refs uuid db
        (λ q. (keyed q).one_row) done)
      (commit-Accepted codec expected epoch' transition_id' proposal' refs' uuid' after
        (λ q.
          (commit-IsCounted codec expected epoch transition_id proposal refs uuid db keyed
            q).one_row)
        again)
  where
    lost :
        (db after last : Db)
        → Accepted codec expected epoch transition_id proposal refs db after
        → Accepted codec expected epoch' transition_id' proposal' refs' after last
        → ⊥
    lost db after last a b =
        ground
          (arith, a.advanced.next, b.advanced.at_project, b.advanced.same_version, a.valid, b.valid)
