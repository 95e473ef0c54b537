-- ===== src/Session/Keep.antt =====
-- Heartbeats, inspections, ends and epoch changes keep the sessions of every project consistent.
use mathlib.Core.List.{◌∷◌}
use model_lib.Prelude.{
  ℕ, String, true, Option, none, some, refl, arith, count_rows-update_rows,
  count_rows-update_rows_le,
}
use model_lib.Text.{strip}
use model_lib.Tx.Rules.{
  Commits, Commits-return, Commits-raise, Commits-raise_if, Commits-branch, Commits-fetch,
  Commits-require, keeps_of_Commits,
}
use model_lib.Json.{Codec}
use model_lib.Schema.{Db}
use model_lib.Schema.Rows.{ProjectState, MasterSession, Event, ended}
use model_lib.Tables.Insert.{Commits-insert_event}
use model_lib.Stamp.{plus_seconds}
use model_lib.Session.{update_session, has_key, is_active_of, stale_reason}
use model_lib.Session.Epoch.{epoch_of}
use model_lib.Session.Single.{
  IsConsistent, is_ahead, mark_stale-IsConsistent, raise_epoch-IsConsistent,
}
use model_lib.Session.Upkeep.{
  renew, heartbeat_block, heartbeat_master_session, mark_ended, answer_resume, signal_resume,
  inspect_active, inspect_block, inspect_master_session, end_block, end_master_session,
  advance_block, advance_master_epoch,
}

module _ (q : String) where
  renew-IsConsistent :
      (p s : String) (now ttl : ℕ) (db : Db)
      → IsConsistent q db
      → IsConsistent q (renew p s now ttl db)
  unfolding renew update_session epoch_of
  renew-IsConsistent p s now ttl db h =
      let next : MasterSession → MasterSession =
        λ r. record r { heartbeat_at = now; lease_until = plus_seconds now ttl } in
      record {
        one_active = omega (
          arith,
          h.one_active,
          count_rows-update_rows (is_active_of q) (has_key p s) next db.master_sessions (λ x. refl),
        );
        none_ahead = omega (
          arith,
          h.none_ahead,
          count_rows-update_rows (is_ahead q (epoch_of q db)) (has_key p s) next db.master_sessions
              (λ x. refl),
        );
      }

  mark_ended-IsConsistent :
      (p s why : String) (now : ℕ) (db : Db)
      → IsConsistent q db
      → IsConsistent q (mark_ended p s why now db)
  unfolding mark_ended update_session epoch_of
  mark_ended-IsConsistent p s why now db h =
      let stop : MasterSession → MasterSession = λ r. record r {
        state = ended;
        ended_at = some now;
        end_reason = some why;
        lease_until = now;
      } in
      record {
        one_active = omega (
          arith,
          h.one_active,
          count_rows-update_rows_le (is_active_of q) (has_key p s) stop db.master_sessions
              (λ x k a. ground (arith, a)),
        );
        none_ahead = omega (
          arith,
          h.none_ahead,
          count_rows-update_rows (is_ahead q (epoch_of q db)) (has_key p s) stop db.master_sessions
              (λ x. refl),
        );
      }

  logged-IsConsistent :
      (e : Event) (db : Db)
      → IsConsistent q db
      → IsConsistent q (record db { events = e ∷ db.events })
  unfolding epoch_of
  logged-IsConsistent e db h = record { one_active = h.one_active; none_ahead = h.none_ahead }

  heartbeat_block-IsConsistent :
      (p s : String) (epoch now ttl : ℕ) (db : Db)
      → IsConsistent q db
      → Commits (λ _. IsConsistent q) (heartbeat_block p s epoch now ttl db)
  unfolding heartbeat_block
  heartbeat_block-IsConsistent p s epoch now ttl db h = Commits-raise_if _ _ _ _ _ λ _.
      Commits-require _ _ _ _ _ λ state _. Commits-require _ _ _ _ _ λ r _.
        Commits-raise_if _ _ _ _ _ λ _. Commits-raise_if _ _ _ _ _ λ _.
          Commits-branch _ _ _ _ _ (λ _. Commits-raise _ _ _)
            (λ _. Commits-fetch _ _ _ _ λ a _. renew-IsConsistent p s now ttl db h)

  answer_resume-IsConsistent :
      (codec : Codec) (p : String) (state : ProjectState) (old : Option String)
      (existing : Option Event) (db : Db)
      → IsConsistent q db
      → Commits (λ _. IsConsistent q) (answer_resume codec p state old existing db)
  unfolding answer_resume
  answer_resume-IsConsistent codec p state old (some e) db h = Commits-return _ _ _ h
  answer_resume-IsConsistent codec p state old none db h =
      Commits-insert_event _ _ _ _ λ _. Commits-return _ _ _ (logged-IsConsistent _ db h)

  inspect_active-IsConsistent :
      (codec : Codec) (p : String) (now : ℕ) (state : ProjectState) (row : Option MasterSession)
      (db : Db)
      → IsConsistent q db
      → Commits (λ _. IsConsistent q) (inspect_active codec p now state row db)
  unfolding inspect_active signal_resume
  inspect_active-IsConsistent codec p now state none db h =
      answer_resume-IsConsistent codec p state none _ db h
  inspect_active-IsConsistent codec p now state (some r) db h =
      Commits-branch _ _ _ _ _ (λ _. Commits-return _ _ _ h)
        (λ _.
          answer_resume-IsConsistent codec p state (some r.session_id) _ _
            (mark_stale-IsConsistent q p r.session_id now (stale_reason state r) db h))

  inspect_block-IsConsistent :
      (codec : Codec) (p : String) (now : ℕ) (db : Db)
      → IsConsistent q db
      → Commits (λ _. IsConsistent q) (inspect_block codec p now db)
  unfolding inspect_block
  inspect_block-IsConsistent codec p now db h = Commits-raise_if _ _ _ _ _ λ _.
      Commits-require _ _ _ _ _ λ state _.
        Commits-branch _ _ _ _ _ (λ _. Commits-return _ _ _ h)
          (λ _. inspect_active-IsConsistent codec p now state _ db h)

  end_block-IsConsistent :
      (codec : Codec) (p s : String) (epoch : ℕ) (why : String) (now : ℕ) (db : Db)
      → IsConsistent q db
      → Commits (λ _. IsConsistent q) (end_block codec p s epoch why now db)
  unfolding end_block
  end_block-IsConsistent codec p s epoch why now db h = Commits-raise_if _ _ _ _ _ λ _.
      Commits-require _ _ _ _ _ λ state _. Commits-require _ _ _ _ _ λ r _.
        Commits-raise_if _ _ _ _ _ λ _.
          Commits-branch _ _ _ _ _ (λ _. Commits-return _ _ _ h)
            (λ _. Commits-insert_event _ _ _ _ λ _.
              Commits-fetch _ _ _ _
                λ a _. logged-IsConsistent _ _ (mark_ended-IsConsistent p s why now db h))

  advance_block-IsConsistent :
      (codec : Codec) (p : String) (epoch : ℕ) (uuid : String) (db : Db)
      → IsConsistent q db
      → Commits (λ _. IsConsistent q) (advance_block codec p epoch uuid db)
  unfolding advance_block
  advance_block-IsConsistent codec p epoch uuid db h = Commits-require _ _ _ _ _ λ state found.
      Commits-raise_if _ _ _ _ _ λ _. Commits-insert_event _ _ _ _ λ _.
        Commits-return _ _ _
          (logged-IsConsistent _ _ (raise_epoch-IsConsistent q true p state db found h))

  -- Heartbeat, inspection, end and epoch change keep a project's sessions consistent, whether they
  -- succeed or raise.
  pub upkeep-IsConsistent :
      (codec : Codec) (project_id session_id reason uuid : String) (epoch now ttl_seconds : ℕ)
      (db : Db)
      → IsConsistent q db
      → IsConsistent q (heartbeat_master_session project_id session_id epoch now ttl_seconds db).1
        × IsConsistent q (inspect_master_session codec project_id now db).1
        × IsConsistent q (end_master_session codec project_id session_id epoch reason now db).1
        × IsConsistent q (advance_master_epoch codec project_id epoch uuid db).1
  unfolding heartbeat_master_session inspect_master_session end_master_session advance_master_epoch
  upkeep-IsConsistent codec project_id session_id reason uuid epoch now ttl_seconds db h = (
    keeps_of_Commits (IsConsistent q)
        (heartbeat_block (strip project_id) (strip session_id) epoch now ttl_seconds) db h
        (heartbeat_block-IsConsistent (strip project_id) (strip session_id) epoch now ttl_seconds db
          h),
    keeps_of_Commits (IsConsistent q) (inspect_block codec (strip project_id) now) db h
        (inspect_block-IsConsistent codec (strip project_id) now db h),
    keeps_of_Commits (IsConsistent q)
        (end_block codec (strip project_id) (strip session_id) epoch (strip reason) now) db h
        (end_block-IsConsistent codec (strip project_id) (strip session_id) epoch (strip reason) now
          db h),
    keeps_of_Commits (IsConsistent q) (advance_block codec project_id epoch uuid) db h
        (advance_block-IsConsistent codec project_id epoch uuid db h),
  )
