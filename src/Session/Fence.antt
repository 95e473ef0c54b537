-- ===== src/Session/Fence.antt =====
-- Fencing: what a session can still do after another one has started, or after its lease has run out.
use model_lib.Prelude.{
  ℕ, ◌+◌, ◌≤◌, String, true, false, none, some, ◌≡◌, ◌≢◌, inl, inr, nat_eq, arith,
}
use model_lib.Text.{strip}
use model_lib.Tx.{ok, transaction}
use model_lib.Tx.Rules.{
  Commits, Commits-ok, Commits-return, Commits-raise, Commits-raise_if, Commits-branch,
  Commits-require, Commits-fetch, Commits-transaction,
}
use model_lib.Json.{Codec}
use model_lib.Schema.{Db}
use model_lib.Schema.Rows.{ProjectState, MasterSession}
use model_lib.Tables.{find_project}
use model_lib.Tables.Insert.{Commits-insert_event}
use model_lib.Session.{is_live, find_session, has_history, start_master_session}
use model_lib.Session.Epoch.{epoch_of, epoch_of_found}
use model_lib.Session.Outcome.{start_master_session_lem}
use model_lib.Session.Upkeep.{
  heartbeat_block, heartbeat_master_session, end_block, end_master_session,
}

abbrev HoldsEpoch : String → ℕ → Db → Type 0
HoldsEpoch p epoch db = epoch ≡ epoch_of p db

heartbeat_block-epoch :
    (p s : String) (epoch now ttl : ℕ) (db : Db)
    → Commits (λ _ _. HoldsEpoch p epoch db) (heartbeat_block p s epoch now ttl db)
unfolding heartbeat_block
heartbeat_block-epoch p s epoch now ttl db = Commits-raise_if _ _ _ _ _ λ _.
    Commits-require _ _ _ _ _ λ state found. Commits-require _ _ _ _ _ λ r _.
      Commits-raise_if _ _ _ _ _ λ same. Commits-raise_if _ _ _ _ _ λ _.
        Commits-branch _ _ _ _ _ (λ _. Commits-raise _ _ _)
          (λ _. Commits-fetch _ _ _ _ λ a _. ground (arith, same, epoch_of_found p state db found))

end_block-epoch :
    (codec : Codec) (p s : String) (epoch : ℕ) (why : String) (now : ℕ) (db : Db)
    → Commits (λ _ _. HoldsEpoch p epoch db) (end_block codec p s epoch why now db)
unfolding end_block
end_block-epoch codec p s epoch why now db = Commits-raise_if _ _ _ _ _ λ _.
    Commits-require _ _ _ _ _ λ state found. Commits-require _ _ _ _ _ λ r _.
      Commits-raise_if _ _ _ _ _ λ same.
        Commits-branch _ _ _ _ _
          (λ _. Commits-return _ _ _ (ground (arith, same, epoch_of_found p state db found)))
          (λ _.
            Commits-insert_event _ _ _ _ λ _.
              Commits-fetch _ _ _ _ λ a _. ground (arith, same, epoch_of_found p state db found))

-- a heartbeat that returns was sent under the project's epoch
pub heartbeat_master_session-epoch :
    (project_id session_id : String) (epoch now ttl : ℕ) (db : Db) {r : MasterSession}
    → (heartbeat_master_session project_id session_id epoch now ttl db).0 ≡ ok r
    → epoch ≡ epoch_of (strip project_id) db
unfolding heartbeat_master_session
heartbeat_master_session-epoch project_id session_id epoch now ttl db h =
    let p = strip project_id in
    let s = strip session_id in
    Commits-ok (λ _ _. HoldsEpoch p epoch db) (transaction (heartbeat_block p s epoch now ttl) db)
      (Commits-transaction _ (heartbeat_block p s epoch now ttl) db
        (heartbeat_block-epoch p s epoch now ttl db))
      h

pub end_master_session-epoch :
    (codec : Codec) (project_id session_id : String) (epoch : ℕ) (reason : String) (now : ℕ)
    (db : Db) {r : MasterSession}
    → (end_master_session codec project_id session_id epoch reason now db).0 ≡ ok r
    → epoch ≡ epoch_of (strip project_id) db
unfolding end_master_session
end_master_session-epoch codec project_id session_id epoch reason now db h =
    let p = strip project_id in
    let s = strip session_id in
    let w = strip reason in
    Commits-ok (λ _ _. HoldsEpoch p epoch db) (transaction (end_block codec p s epoch w now) db)
      (Commits-transaction _ (end_block codec p s epoch w now) db
        (end_block-epoch codec p s epoch w now db))
      h

start_raises_epoch :
    (codec : Codec) (project_id session_id : String) (now ttl_seconds : ℕ) (db : Db)
    {r : MasterSession}
    → (start_master_session codec project_id session_id now ttl_seconds db).0 ≡ ok r
    → find_session (strip project_id) (strip session_id) db ≡ none
    → has_history (strip project_id) db ≡ true
    → epoch_of
        (strip project_id)
        (start_master_session codec project_id session_id now ttl_seconds db).1
      ≡ epoch_of (strip project_id) db + 1
start_raises_epoch codec project_id session_id now ttl_seconds db started unused history =
    elim (start_master_session_lem codec project_id session_id now ttl_seconds db started) [
      | inl same ↦ cc (same.found, unused)
      | inr opened ↦ ground (arith, opened.epoch, history)
    ]

-- Once a session with a new id has started in a project that had sessions, no heartbeat and no end under
-- an epoch that the project had until then succeeds, whichever session, time and duration it names.
pub start_fences_earlier_epochs :
    (codec : Codec) (project_id session_id : String) (now ttl_seconds : ℕ) (db : Db)
    (old reason : String) (epoch later ttl : ℕ) {r a : MasterSession}
    → let after = (start_master_session codec project_id session_id now ttl_seconds db).1 in
      (start_master_session codec project_id session_id now ttl_seconds db).0 ≡ ok r
      → find_session (strip project_id) (strip session_id) db ≡ none
      → has_history (strip project_id) db ≡ true
      → epoch ≤ epoch_of (strip project_id) db
      → ((heartbeat_master_session project_id old epoch later ttl after).0 ≢ ok a)
        × ((end_master_session codec project_id old epoch reason later after).0 ≢ ok a)
start_fences_earlier_epochs codec project_id session_id now ttl_seconds db old reason epoch later
      ttl started unused history le =
    let after = (start_master_session codec project_id session_id now ttl_seconds db).1 in
    let raised =
      start_raises_epoch codec project_id session_id now ttl_seconds db started unused history in
    (
      λ h. absurd (
          omega
            (arith, raised, heartbeat_master_session-epoch project_id old epoch later ttl after h)),
      λ h. absurd (
          omega (
            arith,
            raised,
            end_master_session-epoch codec project_id old epoch reason later after h,
          )),
    )

-- In a project that is there, a session id that was used before, and whose session's lease or epoch is no
-- longer valid, is never started again: the branch that marks the expired session STALE and goes on cannot succeed.
pub expired_session_never_restarts :
    (codec : Codec) (project_id session_id : String) (now ttl_seconds : ℕ) (db : Db)
    (state : ProjectState) (old r : MasterSession)
    → find_project (strip project_id) db ≡ some state
    → find_session (strip project_id) (strip session_id) db ≡ some old
    → is_live state now old ≡ false
    → (start_master_session codec project_id session_id now ttl_seconds db).0 ≢ ok r
expired_session_never_restarts codec project_id session_id now ttl_seconds db state old r at_project
      at_session dead started =
    elim (start_master_session_lem codec project_id session_id now ttl_seconds db started) [
      | inl same ↦ ground (arith, dead)
      | inr opened ↦ cc (opened.unused, at_session)
    ]
