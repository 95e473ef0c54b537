-- ===== src/Session/Outcome.antt =====
-- What a successful start of a master session has done.
use mathlib.Core.List.{◌∷◌}
use model_lib.Prelude.{
  ℕ, ◌+◌, String, Bool, true, false, Option, none, some, ◌≡◌, ◌⊎◌, inl, inr, refl, sym, ap,
  string_eq, nat_eq, eq_iff, if◌then◌else◌, arith, find_row, exists_row, find_row-update_rows,
  exists_row-update_rows, find_row-none_of_exists,
}
use model_lib.Text.{strip}
use model_lib.Tx.{ok, transaction}
use model_lib.Tx.Rules.{
  Commits, Commits-ok, Commits-return, Commits-raise, Commits-raise_if, Commits-branch,
  Commits-require, Commits-weaken, Commits-transaction,
}
use model_lib.Stamp.{plus_seconds}
use model_lib.Json.{Codec}
use model_lib.Schema.{Db}
use model_lib.Schema.Rows.{ProjectState, MasterSession, Event, stale}
use model_lib.Tables.{find_project, update_project}
use model_lib.Tables.Insert.{Commits-insert_event}
use model_lib.Session.{
  is_active, has_key, is_live, stale_reason, find_session, find_active, has_history, current_epoch,
  raise_epoch, fresh_session, mark_stale, open_session, displace_active, resume_existing,
  start_block, start_master_session,
}
use model_lib.Session.Epoch.{epoch_of, epoch_of_found, epoch_of-raise_epoch}
use model_lib.Session.Single.{Commits-insert_session, find_project-mark_stale}

-- a new session: its id was not in use, it is the project's active session, and it has an epoch that
-- no session had before, unless it is the project's first
pub record Opened (p s : String) (now lease_until : ℕ) (db : Db) (r : MasterSession) (after : Db)
    : Type 0 where
  pub unused : find_session p s db ≡ none
  pub row : r ≡ fresh_session p s (epoch_of p after) now lease_until
  pub epoch : epoch_of p after ≡ (if has_history p db then epoch_of p db + 1 else epoch_of p db)
  pub current : find_session p s after ≡ some r
  pub sole : find_active p after ≡ some r

-- the same session, found alive: nothing is written
pub record Resumed (p s : String) (now : ℕ) (db : Db) (r : MasterSession) (after : Db)
    : Type 0 where
  pub found : find_session p s db ≡ some r
  pub state : ProjectState
  pub at_project : find_project p db ≡ some state
  pub active : is_active r.state ≡ true
  pub live : is_live state now r ≡ true
  pub unchanged : after ≡ db

module _ (p s : String) (now : ℕ) (reason : String) (db : Db) (t : String) where
  find_session-mark_stale-none :
      find_session p s (mark_stale p t now reason db) ≡ none → find_session p s db ≡ none
  unfolding find_session mark_stale
  find_session-mark_stale-none h = ground (
    arith,
    find_row-update_rows (has_key p s) (has_key p t)
        (λ r. record r { state = stale; ended_at = some now; end_reason = some reason })
        db.master_sessions (λ x. refl),
  )

  has_history-mark_stale : has_history p (mark_stale p t now reason db) ≡ has_history p db
  unfolding has_history mark_stale
  has_history-mark_stale = exists_row-update_rows _ _ _ db.master_sessions (λ x. refl)

  epoch_of-mark_stale : epoch_of p (mark_stale p t now reason db) ≡ epoch_of p db
  unfolding epoch_of mark_stale
  epoch_of-mark_stale = refl

  before_mark_stale :
      (lease_until : ℕ) (r : MasterSession) (after : Db)
      → Opened p s now lease_until (mark_stale p t now reason db) r after
      → Opened p s now lease_until db r after
  before_mark_stale lease_until r after h = record {
    unused = find_session-mark_stale-none h.unused;
    row = h.row;
    epoch = rw (has_history-mark_stale, epoch_of-mark_stale) at (h.epoch);
    current = h.current;
    sole = h.sole;
  }

sessions-raise_epoch :
    (history : Bool) (p : String) (epoch : ℕ) (db : Db)
    → (raise_epoch history p epoch db).master_sessions ≡ db.master_sessions
unfolding raise_epoch update_project
sessions-raise_epoch true p epoch db = refl
sessions-raise_epoch false p epoch db = refl

module _ (p s : String) (now lease_until : ℕ) (state : ProjectState) (db : Db)
    (found : find_project p db ≡ some state) where
  abbrev epoch : ℕ
  epoch = current_epoch (has_history p db) state

  abbrev raised : Db
  raised = raise_epoch (has_history p db) p epoch db

  inserted :
      (e : Event)
      → exists_row (has_key p s) raised.master_sessions ≡ false
      → Opened p s now lease_until db (fresh_session p s epoch now lease_until) (record raised {
        master_sessions = fresh_session p s epoch now lease_until ∷ raised.master_sessions;
        events = e ∷ raised.events;
      })
  unfolding epoch_of find_session find_active find_row
  inserted e free = record {
    unused =
        find_row-none_of_exists (has_key p s) db.master_sessions
          (rw (sessions-raise_epoch (has_history p db) p epoch db) at free);
    row =
        ap (λ (k : ℕ). fresh_session p s k now lease_until)
          (sym (epoch_of-raise_epoch (has_history p db) p state db found));
    epoch = ground (
      arith,
      epoch_of-raise_epoch (has_history p db) p state db found,
      epoch_of_found p state db found,
    );
    current = ground (arith, eq_iff p p, eq_iff s s);
    sole = ground (arith, eq_iff p p);
  }

  open_session-Opened :
      (codec : Codec)
      → Commits (Opened p s now lease_until db) (open_session codec p s now lease_until state db)
  unfolding open_session
  open_session-Opened codec = Commits-insert_session _ _ _ _ λ free.
      Commits-insert_event _ _ _ _ λ _. Commits-return _ _ _ (inserted _ (ground (arith, free)))

module _ (codec : Codec) (p s : String) (now lease_until : ℕ) (state : ProjectState) where
  displace_active-Opened :
      (active : Option MasterSession) (db : Db)
      → find_project p db ≡ some state
      → Commits
          (Opened p s now lease_until db)
          (displace_active codec p s now lease_until state active db)
  unfolding displace_active
  displace_active-Opened none db found =
      open_session-Opened p s now lease_until state db found codec
  displace_active-Opened (some a) db found =
      Commits-branch _ _ _ _ _ (λ _. Commits-raise _ _ _)
        λ _.
          Commits-weaken _ _ _
            (before_mark_stale p s now (stale_reason state a) db a.session_id lease_until)
            (open_session-Opened p s now lease_until state
              (mark_stale p a.session_id now (stale_reason state a) db)
              (rw find_project-mark_stale found) codec)

  abbrev Started : Db → MasterSession → Db → Type 0
  Started db r after = Resumed p s now db r after ⊎ Opened p s now lease_until db r after

  resume_existing-Started :
      (db : Db)
      → find_project p db ≡ some state
      → (existing : Option MasterSession) → find_session p s db ≡ existing
      → Commits (Started db) (resume_existing codec p s now lease_until state existing db)
  unfolding resume_existing
  resume_existing-Started db found none e =
      Commits-weaken _ _ _ (λ r after. inr) (displace_active-Opened _ db found)
  resume_existing-Started db found (some x) e =
      Commits-branch _ _ _ _ _
        (λ on.
          Commits-branch _ _ _ _ _
            (λ alive. Commits-return _ _ _ (
              inl (record {
                found = e;
                state = state;
                at_project = found;
                active = on;
                live = alive;
                unchanged = refl;
              })))
            (λ _.
              Commits-weaken _ _ _
                (λ r after h.
                  inr (before_mark_stale p s now (stale_reason state x) db s lease_until r after h))
                (displace_active-Opened _ (mark_stale p s now (stale_reason state x) db)
                  (rw find_project-mark_stale found))))
        (λ _. Commits-raise _ _ _)

start_block-Started :
    (codec : Codec) (p s : String) (now ttl_seconds : ℕ) (db : Db)
    → Commits
        (λ r after.
          Resumed p s now db r after ⊎ Opened p s now (plus_seconds now ttl_seconds) db r after)
        (start_block codec p s now ttl_seconds db)
unfolding start_block
start_block-Started codec p s now ttl_seconds db = Commits-raise_if _ _ _ _ _ λ _.
    Commits-raise_if _ _ _ _ _ λ _. Commits-require _ _ _ _ _ λ state found.
      Commits-raise_if _ _ _ _ _ λ _.
        resume_existing-Started codec p s now (plus_seconds now ttl_seconds) state db found
          (find_session p s db) refl

-- What a start that returns has done, at the trimmed arguments: it found the session active and wrote
-- nothing; or the session id was not in use, the session is now the project's active one, and its epoch,
-- the project's own, is one more than the project's epoch was, unless it is the project's first session.
pub start_master_session_lem :
    (codec : Codec) (project_id session_id : String) (now ttl_seconds : ℕ) (db : Db)
    {r : MasterSession}
    → (start_master_session codec project_id session_id now ttl_seconds db).0 ≡ ok r
    → let after = (start_master_session codec project_id session_id now ttl_seconds db).1 in
      Resumed (strip project_id) (strip session_id) now db r after
      ⊎ Opened (strip project_id) (strip session_id) now (plus_seconds now ttl_seconds) db r after
unfolding start_master_session
start_master_session_lem codec project_id session_id now ttl_seconds db h =
    let p = strip project_id in
    let s = strip session_id in
    let P : MasterSession → Db → Type 0 = λ r after.
      Resumed p s now db r after ⊎ Opened p s now (plus_seconds now ttl_seconds) db r after in
    Commits-ok P (transaction (start_block codec p s now ttl_seconds) db)
      (Commits-transaction P (start_block codec p s now ttl_seconds) db
        (start_block-Started codec p s now ttl_seconds db))
      h
