-- ===== src/Session/Heartbeat.antt =====
-- The two outcomes of `heartbeat_master_session`: which heartbeats are accepted, and what each leaves.
use mathlib.Core.Option
use model_lib.Prelude.{
  ℕ, ◌+◌, ◌*◌, ◌<◌, ltb, sym, String, Bool, true, false, not, ◌&&◌, Option, none, some, ◌≡◌, ◌⊎◌,
  inl, inr, refl, ◌∙◌, ◌==◌, string_eq, nat_eq, eq_iff, arith, if◌then◌else◌, find_row,
  find_row-holds, find_row-update_rows, Bool-cases,
}
use model_lib.Text.{strip, is_empty}
use model_lib.Tx.{Result, ok, err, settle, tx_steps}
use model_lib.Tx.Rules.{
  ok-injective, OnOk, Commits, Commits-raise, Commits-raise_if, Commits-branch, Commits-require,
  Commits-fetch,
}
use model_lib.Stamp.{text_lt, plus_seconds, microseconds}
use model_lib.Stamp.Order.{text_lt_a_second_apart}
use model_lib.Schema.{Db, Error}
use model_lib.Schema.Rows.{ProjectState, MasterSession}
use model_lib.Tables.{find_project}
use model_lib.Session.{is_active, has_key, find_session, update_session}
use model_lib.Session.Upkeep.{renew, heartbeat_block, heartbeat_master_session}

-- who may send a heartbeat: an active session whose lease runs, under its epoch and the project's
abbrev pub may_beat : ℕ → ℕ → Option ProjectState → Option MasterSession → Bool
may_beat epoch now (some state) (some r) =
    is_active r.state
    && state.master_epoch == epoch
    && r.master_epoch == epoch
    && text_lt now r.lease_until
may_beat epoch now _ _ = false

-- the names and the duration are given, and the session may send
abbrev pub is_accepted : String → String → ℕ → ℕ → ℕ → Db → Bool
is_accepted p s epoch now ttl db =
    not (is_empty p)
    && not (is_empty s)
    && not (ttl == 0)
    && may_beat epoch now (find_project p db) (find_session p s db)

abbrev pub renewed : ℕ → ℕ → MasterSession → MasterSession
renewed now ttl r = record r { heartbeat_at = now; lease_until = plus_seconds now ttl }

-- the session's row is renewed, and every other row is as it was
pub record Renewed (p s : String) (now ttl : ℕ) (db : Db) (a : MasterSession) (after : Db)
    : Type 0 where
  pub old : MasterSession
  pub found : find_session p s db ≡ some old
  pub current : find_session p s after ≡ some a
  pub row : a ≡ renewed now ttl old
  pub others :
      (q t : String) → (q == p && t == s) ≡ false → find_session q t after ≡ find_session q t db

find_session-renew :
    (q t p s : String) (now ttl : ℕ) (db : Db)
    → find_session q t (renew p s now ttl db) ≡ (
        if q == p && t == s
        then Option.map (renewed now ttl) (find_session q t db)
        else find_session q t db)
unfolding find_session renew update_session
find_session-renew q t p s now ttl db =
    find_row-update_rows (has_key q t) (has_key p s) (renewed now ttl) db.master_sessions
      (λ x. refl)
    ∙ chosen (find_row (has_key q t) db.master_sessions)
        (λ r found. find_row-holds (has_key q t) db.master_sessions found)
  where
    chosen :
        (o : Option MasterSession)
        → ((r : MasterSession) → o ≡ some r → has_key q t r ≡ true)
        → Option.map (λ r. if has_key p s r then renewed now ttl r else r) o
          ≡ (if q == p && t == s then Option.map (renewed now ttl) o else o)
    chosen none h = ground arith
    chosen (some r) h = ground (
      arith,
      h r refl,
      eq_iff r.project_id q,
      eq_iff r.session_id t,
      eq_iff r.project_id p,
      eq_iff r.session_id s,
      eq_iff q p,
      eq_iff t s,
    )

module _ (p s : String) (epoch now ttl : ℕ) (db : Db) where
  -- a heartbeat that was accepted, and what it did
  abbrev Beat : MasterSession → Db → Type 0
  Beat a after = (is_accepted p s epoch now ttl db ≡ true) × Renewed p s now ttl db a after

  heartbeat_block-Beat : Commits Beat (heartbeat_block p s epoch now ttl db)
  unfolding heartbeat_block
  heartbeat_block-Beat = Commits-raise_if _ _ _ _ _ λ named.
      Commits-require _ _ _ _ _ λ state at_project. Commits-require _ _ _ _ _ λ r found.
        Commits-raise_if _ _ _ _ _ λ same. Commits-raise_if _ _ _ _ _ λ on.
          Commits-branch _ _ _ _ _ (λ _. Commits-raise _ _ _)
            λ alive. Commits-fetch _ _ _ _ λ a after. (
              ground (arith, named, at_project, found, same, on, alive),
              record {
                old = r;
                found = found;
                current = after;
                row = ground (
                  arith,
                  after,
                  find_session-renew p s p s now ttl db,
                  found,
                  eq_iff p p,
                  eq_iff s s,
                );
                others = λ q t apart. ground (arith, find_session-renew q t p s now ttl db, apart);
              },
            )

  abbrev is_ok : Result Error MasterSession → Bool
  is_ok (ok a) = true
  is_ok (err e) = false

  heartbeat_block-returns :
      (o : Option ProjectState) (m : Option MasterSession)
      → find_project p db ≡ o
      → find_session p s db ≡ m
      → is_accepted p s epoch now ttl db ≡ true
      → is_ok (heartbeat_block p s epoch now ttl db).0 ≡ true
  unfolding heartbeat_block tx_steps
  heartbeat_block-returns none m at_project found can = ground (arith, at_project, can)
  heartbeat_block-returns (some state) none at_project found can =
      ground (arith, at_project, found, can)
  heartbeat_block-returns (some state) (some r) at_project found can =
      ground (
        arith,
        at_project,
        found,
        can,
        find_session-renew p s p s now ttl db,
        eq_iff p p,
        eq_iff s s,
      )

  -- accepted, and the session renewed; or refused, and nothing written
  abbrev pub Answered : Result Error MasterSession × Db → Type 0
  Answered out =
      ((is_accepted p s epoch now ttl db ≡ true)
        × ((a : MasterSession) × (out.0 ≡ ok a) × Renewed p s now ttl db a out.1))
      ⊎ ((is_accepted p s epoch now ttl db ≡ false) × ((e : Error) × (out ≡ (err e, db))))

  settled :
      (r : Result Error MasterSession) (after : Db)
      → OnOk Beat r after
      → (is_accepted p s epoch now ttl db ≡ true → is_ok r ≡ true)
      → Answered (settle r db after)
  settled (ok a) after h returns = inl (h.0, (a, refl, h.1))
  settled (err e) after h returns = elim (Bool-cases (is_accepted p s epoch now ttl db)) [
    | inl can ↦ cc (returns can)
    | inr cannot ↦ inr (cannot, (e, refl))
  ]

-- A heartbeat is accepted exactly if its names are not empty, its duration is positive, and the session is
-- ACTIVE under the epoch it names, which is also the project's, with a lease that still runs. Then it
-- returns the session's row with the time of the heartbeat and the lease extended from it, the row is so in
-- the database, and every other session's row is as it was. Otherwise it raises and the database is as it
-- was: also a lease that has run out leaves its session's row ACTIVE.
pub heartbeat_master_session_lem :
    (project_id session_id : String) (epoch now ttl_seconds : ℕ) (db : Db)
    → Answered
        (strip project_id)
        (strip session_id)
        epoch
        now
        ttl_seconds
        db
        (heartbeat_master_session project_id session_id epoch now ttl_seconds db)
unfolding heartbeat_master_session
heartbeat_master_session_lem project_id session_id epoch now ttl_seconds db =
    let p = strip project_id in
    let s = strip session_id in
    let body = heartbeat_block p s epoch now ttl_seconds db in
    settled p s epoch now ttl_seconds db body.0 body.1
      (heartbeat_block-Beat p s epoch now ttl_seconds db).committed
      (heartbeat_block-returns p s epoch now ttl_seconds db _ _ refl refl)

timely : (now until : ℕ) → text_lt now until ≡ true → now < until + microseconds
timely now until h = elim (Bool-cases (ltb now (until + microseconds))) [
  | inl before ↦ ground (arith, before)
  | inr late ↦ cc (h, (text_lt_a_second_apart until now (ground (arith, late))).1)
]

-- A heartbeat that returns was sent less than a second after the end of the lease that its session had,
-- though leases are compared as texts, and the lease it leaves ends the duration it names after it.
pub heartbeat_is_timely :
    (project_id session_id : String) (epoch now ttl_seconds : ℕ) (db : Db) {a : MasterSession}
    → (heartbeat_master_session project_id session_id epoch now ttl_seconds db).0 ≡ ok a
    → ((old : MasterSession) × (find_session (strip project_id) (strip session_id) db ≡ some old)
        × (now < old.lease_until + microseconds))
      × (a.lease_until ≡ now + ttl_seconds * microseconds)
heartbeat_is_timely project_id session_id epoch now ttl_seconds db {a} done =
    elim (heartbeat_master_session_lem project_id session_id epoch now ttl_seconds db) [
      | inl (can, (b, returned, r)) ↦
          let same : b ≡ a = ok-injective (sym returned ∙ done) in
          (
            (r.old, r.found, ground (arith, can, r.found, timely now r.old.lease_until)),
            ground (arith, same, r.row),
          )
      | inr (_, (e, refused)) ↦ cc (refused, done)
    ]
