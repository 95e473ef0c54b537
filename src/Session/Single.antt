-- ===== src/Session/Single.antt =====
-- At most one master session of a project is ACTIVE, and no session is ahead of its project's epoch.
use mathlib.Core.List.{◌∷◌}
use model_lib.Prelude.{
  ℕ, ◌+◌, ◌≤◌, String, Bool, true, false, ◌&&◌, ◌||◌, Option, none, some, ◌≡◌, refl, ◌==◌,
  string_eq, nat_eq, eq_iff, ltb, arith, exists_row, count_rows, count_rows-le,
  count_rows-update_rows, count_rows-update_rows_le, exists_row-iff_count,
}
use model_lib.Text.{strip}
use model_lib.Tx.{◌>>◌}
use model_lib.Tx.Rules.{
  Commits, keeps_of_Commits, Commits-return, Commits-raise, Commits-raise_if, Commits-write_unless,
  Commits-branch, Commits-require,
}
use model_lib.Json.{Codec}
use model_lib.Schema.{Db}
use model_lib.Schema.Rows.{ProjectState, MasterSession, Event, stale}
use model_lib.Tables.{find_project, update_project, Action}
use model_lib.Tables.Insert.{Commits-insert_event}
use model_lib.Session.Epoch.{epoch_of, epoch_of-le_update_project, epoch_of-raise_epoch}
use model_lib.Session.{
  is_active, is_active_of, has_key, find_active, mark_stale, insert_session, raise_epoch,
  current_epoch, stale_reason, has_history, open_session, displace_active, resume_existing,
  start_block, start_master_session,
}

abbrev pub is_ahead : String → ℕ → MasterSession → Bool
is_ahead project epoch r = r.project_id == project && ltb epoch r.master_epoch

pub record IsConsistent (project : String) (db : Db) : Type 0 where
  pub one_active : count_rows (is_active_of project) db.master_sessions ≤ 1
  pub none_ahead : count_rows (is_ahead project (epoch_of project db)) db.master_sessions ≡ 0

pub Commits-insert_session :
    {A : Type 0} (P : A → Db → Type 0) (r : MasterSession) (k : Action A) (db : Db)
    → (exists_row (has_key r.project_id r.session_id) db.master_sessions
            || (is_active r.state && exists_row (is_active_of r.project_id) db.master_sessions)
          ≡ false
        → Commits P (k (record db { master_sessions = r ∷ db.master_sessions })))
    → Commits P ((insert_session r >> k) db)
unfolding insert_session
Commits-insert_session P r k db h = Commits-write_unless P _ _ _ k db h

pub find_project-mark_stale :
    (q p s : String) (now : ℕ) (reason : String) (db : Db)
    → find_project q (mark_stale p s now reason db) ≡ find_project q db
unfolding mark_stale find_project
find_project-mark_stale q p s now reason db = refl

module _ (q : String) where
  pub mark_stale-IsConsistent :
      (p s : String) (now : ℕ) (reason : String) (db : Db)
      → IsConsistent q db
      → IsConsistent q (mark_stale p s now reason db)
  unfolding mark_stale epoch_of
  mark_stale-IsConsistent p s now reason db h =
      let stop : MasterSession → MasterSession =
        λ r. record r { state = stale; ended_at = some now; end_reason = some reason } in
      record {
        one_active = omega (
          arith,
          h.one_active,
          count_rows-update_rows_le (is_active_of q) (has_key p s) stop db.master_sessions
              (λ x k a. ground (arith, a)),
        );
        none_ahead = omega (
          arith,
          h.none_ahead,
          count_rows-update_rows (is_ahead q (epoch_of q db)) (has_key p s) stop db.master_sessions
              (λ x. refl),
        );
      }

  pub raise_epoch-IsConsistent :
      (history : Bool) (p : String) (state : ProjectState) (db : Db)
      → find_project p db ≡ some state
      → IsConsistent q db
      → IsConsistent q (raise_epoch history p (current_epoch history state) db)
  unfolding raise_epoch update_project
  raise_epoch-IsConsistent false p state db found h = h
  raise_epoch-IsConsistent true p state db found h =
      let epoch : ℕ = state.master_epoch + 1 in
      let after : Db = update_project p (λ r. record r { master_epoch = epoch }) db in
      record {
        one_active = h.one_active;
        none_ahead = omega (
          arith,
          h.none_ahead,
          count_rows-le (is_ahead q (epoch_of q after)) (is_ahead q (epoch_of q db))
              db.master_sessions
              (λ x a.
                ground
                  (arith, a, epoch_of-le_update_project p q epoch state db found (omega arith))),
        );
      }

  -- a new row, where no other of its project is ACTIVE, and an event
  added-IsConsistent :
      (r : MasterSession) (e : Event) (db : Db)
      → (is_active r.state && exists_row (is_active_of r.project_id) db.master_sessions) ≡ false
      → r.master_epoch ≤ epoch_of r.project_id db
      → IsConsistent q db
      → IsConsistent q
          (record db { events = e ∷ db.events; master_sessions = r ∷ db.master_sessions })
  unfolding epoch_of count_rows
  added-IsConsistent r e db free le h = record {
    one_active = ground (
      arith,
      h.one_active,
      exists_row-iff_count (is_active_of r.project_id) db.master_sessions,
      eq_iff r.project_id q,
    );
    none_ahead = ground (arith, h.none_ahead, eq_iff r.project_id q);
  }

  open_session-IsConsistent :
      (codec : Codec) (p s : String) (now lease_until : ℕ) (state : ProjectState) (db : Db)
      → find_project p db ≡ some state
      → IsConsistent q db
      → Commits (λ _. IsConsistent q) (open_session codec p s now lease_until state db)
  unfolding open_session
  open_session-IsConsistent codec p s now lease_until state db found h =
      Commits-insert_session _ _ _ _ λ free. Commits-insert_event _ _ _ _ λ new.
        Commits-return _ _ _ (
          added-IsConsistent _ _ _ (ground (arith, free))
            (omega (arith, epoch_of-raise_epoch (has_history p db) p state db found))
            (raise_epoch-IsConsistent (has_history p db) p state db found h))

  displace_active-IsConsistent :
      (codec : Codec) (p s : String) (now lease_until : ℕ) (state : ProjectState)
      (active : Option MasterSession) (db : Db)
      → find_project p db ≡ some state
      → IsConsistent q db
      → Commits (λ _. IsConsistent q) (displace_active codec p s now lease_until state active db)
  unfolding displace_active
  displace_active-IsConsistent codec p s now lease_until state none db found h =
      open_session-IsConsistent codec p s now lease_until state db found h
  displace_active-IsConsistent codec p s now lease_until state (some a) db found h =
      Commits-branch _ _ _ _ _ (λ live. Commits-raise _ _ _)
        λ dead.
          let after : Db = mark_stale p a.session_id now (stale_reason state a) db in
          open_session-IsConsistent codec p s now lease_until state after
            (rw find_project-mark_stale found)
            (mark_stale-IsConsistent p a.session_id now (stale_reason state a) db h)

  resume_existing-IsConsistent :
      (codec : Codec) (p s : String) (now lease_until : ℕ) (state : ProjectState)
      (existing : Option MasterSession) (db : Db)
      → find_project p db ≡ some state
      → IsConsistent q db
      → Commits (λ _. IsConsistent q) (resume_existing codec p s now lease_until state existing db)
  unfolding resume_existing
  resume_existing-IsConsistent codec p s now lease_until state none db found h =
      displace_active-IsConsistent codec p s now lease_until state _ db found h
  resume_existing-IsConsistent codec p s now lease_until state (some e) db found h =
      Commits-branch _ _ _ _ _
        (λ on.
          Commits-branch _ _ _ _ _ (λ live. Commits-return _ _ _ h)
            λ dead.
              let after : Db = mark_stale p s now (stale_reason state e) db in
              displace_active-IsConsistent codec p s now lease_until state (find_active p after)
                after (rw find_project-mark_stale found)
                (mark_stale-IsConsistent p s now (stale_reason state e) db h))
        (λ off. Commits-raise _ _ _)

  start_block-IsConsistent :
      (codec : Codec) (p s : String) (now ttl_seconds : ℕ) (db : Db)
      → IsConsistent q db
      → Commits (λ _. IsConsistent q) (start_block codec p s now ttl_seconds db)
  unfolding start_block
  start_block-IsConsistent codec p s now ttl_seconds db h = Commits-raise_if _ _ _ _ _ λ _.
      Commits-raise_if _ _ _ _ _ λ _. Commits-require _ _ _ _ _ λ state found.
        Commits-raise_if _ _ _ _ _
          λ _. resume_existing-IsConsistent codec p s now _ state _ db found h

  -- Starting a session, whether it succeeds or raises, keeps every project's sessions consistent.
  pub start_master_session-IsConsistent :
      (codec : Codec) (project_id session_id : String) (now ttl_seconds : ℕ) (db : Db)
      → IsConsistent q db
      → IsConsistent q (start_master_session codec project_id session_id now ttl_seconds db).1
  unfolding start_master_session
  start_master_session-IsConsistent codec project_id session_id now ttl_seconds db h =
      keeps_of_Commits (IsConsistent q)
        (start_block codec (strip project_id) (strip session_id) now ttl_seconds) db h
        (start_block-IsConsistent codec (strip project_id) (strip session_id) now ttl_seconds db h)
