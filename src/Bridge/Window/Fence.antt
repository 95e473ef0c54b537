-- ===== src/Bridge/Window/Fence.antt =====
-- What an acquisition, a heartbeat and the end of the master window's lease need and leave, and that a
-- finished lease does not come back.
use model_lib.Prelude.{
  Bool-cases, inl, inr, ℕ, String, true, false, Option, none, some, ◌≡◌, ◌≢◌, refl, subst, ◌∙◌,
  ◌==◌, string_eq, nat_eq, eq_iff, arith, find_row, find_row-holds, find_row-update_rows_same,
  exists_row-find_row,
}
use model_lib.Text.{strip, is_empty}
use model_lib.Bridge.{require_text}
use model_lib.Tx.{ok, raise_if}
use model_lib.Tx.Rules.{
  Commits, Commits-return, Commits-ok, Commits-raise_if, Commits-branch, Commits-require,
}
use model_lib.Bridge.Rules.{Commits-require_text}
use model_lib.Bridge.Window.{
  Status, Lease, Leases, is_active_status, find_window, set_window, is_live, is_active_window,
  has_live_window, new_window, save_window, acquire_current, acquire_window, heartbeat_window,
  finished_window, finish_window,
}

find_window-set_window :
    (l : Lease) (db : Leases) → find_window l.project_id (set_window l db) ≡ some l
unfolding find_window set_window find_row
find_window-set_window l db = ground (
  arith,
  eq_iff l.project_id l.project_id,
  exists_row-find_row (λ r. r.project_id == l.project_id) db,
  find_row-update_rows_same (λ r. r.project_id == l.project_id) (λ r. l) db
      (λ r h. (eq_iff l.project_id l.project_id).1 refl),
)

pub find_window-keyed :
    (p : String) (l : Lease) (db : Leases) → find_window p db ≡ some l → l.project_id ≡ p
unfolding find_window
find_window-keyed p l db found =
    (eq_iff l.project_id p).0 (find_row-holds (λ r. r.project_id == p) db found)

-- the project's window is `a`, of this session, and no other session had a live one
pub record Taken (p session : String) (now : ℕ) (db : Leases) (a : Lease) (after : Leases)
    : Type 0 where
  pub current : find_window p after ≡ some a
  pub owner : a.session_id ≡ session
  pub status : a.status ≡ Status.active
  pub free : (l : Lease) → find_window p db ≡ some l → is_live now l ≡ true → l.session_id ≡ session

module _ (p session turn : String) (version now ttl : ℕ) (db : Leases) where
  acquire_current-Taken :
      (o : Option Lease)
      → find_window p db ≡ o
      → Commits
          (Taken p session now db)
          (acquire_current (new_window p session turn version now ttl) now o db)
  unfolding acquire_current save_window
  acquire_current-Taken none found = Commits-return _ _ _ (record {
    current = find_window-set_window (new_window p session turn version now ttl) db;
    owner = refl;
    status = refl;
    free = λ l here live. cc;
  })
  acquire_current-Taken (some c) found =
      Commits-branch _ _ _ _ _
        (λ live. Commits-raise_if _ _ _ _ _ λ same. Commits-return _ c db (record {
          current = found;
          owner = ground (arith, same, eq_iff c.session_id session);
          status = ground (arith, live);
          free = λ l here _. ground (arith, found, here, same, eq_iff c.session_id session);
        }))
        (λ dead. Commits-return _ _ _ (record {
          current = find_window-set_window (new_window p session turn version now ttl) db;
          owner = refl;
          status = refl;
          free = λ l here live. ground (arith, found, here, dead, live);
        }))

pub acquire_window-Taken :
    (project_id session_id turn_id : String) (version now ttl : ℕ) (db : Leases) {a : Lease}
    → (acquire_window project_id session_id turn_id version now ttl db).0 ≡ ok a
    → Taken
        (strip project_id)
        (strip session_id)
        now
        db
        a
        (acquire_window project_id session_id turn_id version now ttl db).1
unfolding acquire_window
acquire_window-Taken project_id session_id turn_id version now ttl db h =
    Commits-ok (Taken (strip project_id) (strip session_id) now db)
      (acquire_window project_id session_id turn_id version now ttl db)
      (Commits-require_text _ _ _ _ _ (
        Commits-require_text _ _ _ _ _ (
          Commits-require_text _ _ _ _ _ (
            Commits-raise_if _ _ _ _ _ λ _.
              acquire_current-Taken (strip project_id) (strip session_id) (strip turn_id) version
                now ttl db _ refl))))
      h

-- the project's window is active and this session's
abbrev pub Beats : String → String → Leases → Type 0
Beats p session db =
    (l : Lease) × (find_window p db ≡ some l)
    × (is_active_status l.status ≡ true)
    × (l.session_id ≡ session)

pub heartbeat_window-Beats :
    (project_id session_id : String) (now ttl : ℕ) (db : Leases) {a : Lease}
    → (heartbeat_window project_id session_id now ttl db).0 ≡ ok a
    → Beats (strip project_id) (strip session_id) db
unfolding heartbeat_window save_window
heartbeat_window-Beats project_id session_id now ttl db h =
    Commits-ok (λ _ _. Beats (strip project_id) (strip session_id) db)
      (heartbeat_window project_id session_id now ttl db)
      (Commits-require_text _ _ _ _ _ (
        Commits-require_text _ _ _ _ _ (
          Commits-raise_if _ _ _ _ _ λ _. Commits-require _ _ _ _ _ λ l found.
            Commits-raise_if _ _ _ _ _ λ live. Commits-raise_if _ _ _ _ _ λ same.
              Commits-raise_if _ _ _ _ _ λ _. Commits-return _ _ _ (
                l,
                found,
                ground (arith, live),
                ground (arith, same, eq_iff l.session_id (strip session_id)),
              ))))
      h

module _ (project_id session_id : String) (status : Status) (reason : String) (now : ℕ)
    (db : Leases) where
  -- the window is finished
  abbrev Finished : Leases → Type 0
  Finished after =
      (l : Lease) × (find_window (strip project_id) after ≡ some l) × (l.status ≡ status)

  pub finished_window-keyed :
      (s : Status) (l : Lease) → (finished_window s (strip reason) now l).project_id ≡ l.project_id
  finished_window-keyed Status.active l = refl
  finished_window-keyed Status.drained l = refl
  finished_window-keyed Status.released l = refl

  finished_window-status :
      (s : Status) (l : Lease) → (finished_window s (strip reason) now l).status ≡ s
  finished_window-status Status.active l = refl
  finished_window-status Status.drained l = refl
  finished_window-status Status.released l = refl

  finish_window-Finished :
      Commits (λ _. Finished) (finish_window project_id session_id status reason now db)
  unfolding finish_window save_window
  finish_window-Finished = Commits-require_text _ _ _ _ _ (
      Commits-require_text _ _ _ _ _ (
        Commits-require_text _ _ _ _ _ (
          Commits-require _ _ _ _ _ λ l found. Commits-raise_if _ _ _ _ _ λ same.
            Commits-return _ _ _ (
              finished_window status (strip reason) now l,
              subst
                  (λ t.
                    find_window t (set_window (finished_window status (strip reason) now l) db)
                    ≡ some (finished_window status (strip reason) now l))
                  (finished_window-keyed status l ∙ find_window-keyed (strip project_id) l db found)
                  (find_window-set_window (finished_window status (strip reason) now l) db),
              finished_window-status status l,
            ))))

finish_window-named :
    (project_id session_id : String) (status : Status) (reason : String) (now : ℕ) (db : Leases)
    {a : Lease}
    → (finish_window project_id session_id status reason now db).0 ≡ ok a
    → is_empty (strip project_id) ≡ false
unfolding finish_window require_text raise_if
finish_window-named project_id session_id status reason now db h =
    elim (Bool-cases (is_empty (strip project_id))) [ inl e ↦ ground (arith, e, h) | inr e ↦ e ]

-- A window that is drained or released is over: whatever the time, the test for an active window returns
-- that there is none, and no session's heartbeat succeeds.
pub finished_window_is_over :
    (project_id session_id other : String) (status : Status) (reason : String) (now later ttl : ℕ)
    (db : Leases) {a b : Lease}
    → let after = (finish_window project_id session_id status reason now db).1 in
      (finish_window project_id session_id status reason now db).0 ≡ ok a
      → is_active_status status ≡ false
      → ((is_active_window project_id later after).0 ≡ ok false)
        × ((heartbeat_window project_id other later ttl after).0 ≢ ok b)
unfolding is_active_window has_live_window require_text raise_if
finished_window_is_over project_id session_id other status reason now later ttl db done over =
    let after = (finish_window project_id session_id status reason now db).1 in
    let (l, found, ends) =
      Commits-ok (λ _. Finished project_id session_id status reason now db)
        (finish_window project_id session_id status reason now db)
        (finish_window-Finished project_id session_id status reason now db) done in
    let named = finish_window-named project_id session_id status reason now db done in
    (
      ground (arith, named, found, ends, over),
      λ h.
          let (r, seen, beats, _) = heartbeat_window-Beats project_id other later ttl after h in
          absurd (ground (arith, found, seen, beats, ends, over)),
    )
