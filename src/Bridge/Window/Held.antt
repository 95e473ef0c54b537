-- ===== src/Bridge/Window/Held.antt =====
-- Sequences of calls of `MasterWindowLeaseStore`, and what the sessions that do not hold a project's window
-- can do while its lease runs.
use mathlib.Core.List.{List, [], ◌∷◌}
use model_lib.Prelude.{
  ℕ, String, Bool, true, false, not, ◌&&◌, Option, none, some, ◌≡◌, ◌≢◌, refl, ◌∙◌, ◌==◌, string_eq,
  nat_eq, eq_iff, arith, ltb, inl, inr, Bool-cases, find_row, exists_row, update_rows,
}
use model_lib.Text.{strip}
use model_lib.Tx.{Result, ok, err}
use model_lib.Tx.Keeps.{keeps_raise_if, keeps_unless, keeps_cases, keeps_found}
use model_lib.Tx.Rules.{Commits-ok, Commits-return, Commits-raise_if, Commits-require}
use model_lib.Bridge.Rules.{keeps_text, Commits-require_text}
use model_lib.Bridge.Window.{
  Status, Lease, Leases, is_active_status, find_window, set_window, new_window, save_window,
  acquire_current, acquire_window, heartbeat_window, finish_window,
}
use model_lib.Bridge.Window.Fence.{
  acquire_window-Taken, heartbeat_window-Beats, find_window-keyed, finished_window-keyed,
}

-- a call with its arguments, the last of them the time
pub data Call : Type 0 where
  acquire : (project session turn : String) (version ttl now : ℕ) → Call
  heartbeat : (project session : String) (ttl now : ℕ) → Call
  finish : (status : Status) (project session reason : String) (now : ℕ) → Call

abbrev is_ok : Result String Lease → Bool
is_ok (ok a) = true
is_ok (err e) = false

-- whether the call returned, and the leases after it
unfoldable pub perform : Call → Leases → Bool × Leases
perform (acquire project session turn version ttl now) db =
    let (answer, after) = acquire_window project session turn version now ttl db in
    (is_ok answer, after)
perform (heartbeat project session ttl now) db =
    let (answer, after) = heartbeat_window project session now ttl db in (is_ok answer, after)
perform (finish status project session reason now) db =
    let (answer, after) = finish_window project session status reason now db in
    (is_ok answer, after)

unfoldable pub run : List Call → Leases → Leases
run [] db = db
run (c ∷ cs) db = run cs (perform c db).1

abbrev pub project_of : Call → String
project_of (acquire project session turn version ttl now) = strip project
project_of (heartbeat project session ttl now) = strip project
project_of (finish status project session reason now) = strip project

-- the call is of another session than the holder, before the lease runs out
abbrev pub is_other : Lease → Call → Bool
is_other a (acquire project session turn version ttl now) =
    not (strip session == a.session_id) && ltb now a.lease_until
is_other a (heartbeat project session ttl now) =
    not (strip session == a.session_id) && ltb now a.lease_until
is_other a (finish status project session reason now) =
    not (strip session == a.session_id) && ltb now a.lease_until

unfoldable pub all_other : Lease → List Call → Bool
all_other a [] = true
all_other a (c ∷ cs) = is_other a c && all_other a cs

find_window-set_window_other :
    (l : Lease) (p : String) (db : Leases)
    → (l.project_id == p) ≡ false
    → find_window p (set_window l db) ≡ find_window p db
unfolding find_window set_window find_row update_rows
find_window-set_window_other l p db apart =
    elim (Bool-cases (exists_row (λ r. r.project_id == l.project_id) db)) [
      | inl there ↦ ground (arith, there, replaced db)
      | inr new ↦ ground (arith, new, apart)
    ]
  where
    replaced :
        (ls : Leases)
        → find_row
            (λ r. r.project_id == p)
            (update_rows (λ r. r.project_id == l.project_id) (λ r. l) ls)
          ≡ find_row (λ r. r.project_id == p) ls
    replaced [] = refl
    replaced (x ∷ xs) =
        ground (arith, apart, replaced xs, eq_iff x.project_id l.project_id, eq_iff x.project_id p)

-- session `a.session_id` holds the window of `p`
module _ (p : String) (a : Lease) (active : is_active_status a.status ≡ true) where
  abbrev Held : Leases → Type 0
  Held db = find_window p db ≡ some a

  set_window-Held :
      (l : Lease) (q : String) (db : Leases)
      → l.project_id ≡ q
      → q ≢ p
      → Held db
      → Held (set_window l db)
  set_window-Held l q db keyed apart held =
      find_window-set_window_other l p db (ground (arith, keyed, apart, eq_iff l.project_id p))
      ∙ held

  module _ (q session : String) (stranger : (session == a.session_id) ≡ false) where
    acquire_current-Held :
        (turn : String) (version now ttl : ℕ) (o : Option Lease) (db : Leases)
        → ltb now a.lease_until ≡ true
        → find_window q db ≡ o
        → Held db
        → Held (acquire_current (new_window q session turn version now ttl) now o db).1
    unfolding acquire_current save_window
    acquire_current-Held turn version now ttl none db early found held =
        set_window-Held (new_window q session turn version now ttl) q db refl
          (λ e. cc (e, found, held)) held
    acquire_current-Held turn version now ttl (some c) db early found held =
        keeps_cases Held _ _ _ db (λ _. keeps_raise_if Held _ _ _ db held held)
          (λ dead.
            set_window-Held (new_window q session turn version now ttl) q db refl
              (λ e.
                let same : some c ≡ some a = cc (e, found, held) in
                ground (arith, same, dead, early, active))
              held)

    heartbeat_found :
        (c : Lease) (db : Leases)
        → find_window q db ≡ some c
        → c.session_id ≡ session
        → Held db
        → q ≢ p
    heartbeat_found c db found mine held e =
        let same : some c ≡ some a = cc (e, found, held) in
        ground (arith, same, mine, stranger, eq_iff session a.session_id)

acquire_window-Held :
    (p : String) (a : Lease) (project session turn : String) (version ttl now : ℕ) (db : Leases)
    → is_active_status a.status ≡ true
    → is_other a (acquire project session turn version ttl now) ≡ true
    → find_window p db ≡ some a
    → find_window p (acquire_window project session turn version now ttl db).1 ≡ some a
unfolding acquire_window
acquire_window-Held p a project session turn version ttl now db active other held =
    let Held : Leases → Type 0 = λ s. find_window p s ≡ some a in
    keeps_text Held _ _ _ db held (
      keeps_text Held _ _ _ db held (
        keeps_text Held _ _ _ db held (
          keeps_raise_if Held _ _ _ db held (
            acquire_current-Held p a active (strip project) (strip session) (ground (arith, other))
              (strip turn) version now ttl _ db (ground (arith, other)) refl held))))

heartbeat_window-Held :
    (p : String) (a : Lease) (project session : String) (ttl now : ℕ) (db : Leases)
    → is_active_status a.status ≡ true
    → is_other a (heartbeat project session ttl now) ≡ true
    → find_window p db ≡ some a
    → find_window p (heartbeat_window project session now ttl db).1 ≡ some a
unfolding heartbeat_window save_window
heartbeat_window-Held p a project session ttl now db active other held =
    let Held : Leases → Type 0 = λ s. find_window p s ≡ some a in
    keeps_text Held _ _ _ db held (
      keeps_text Held _ _ _ db held (
        keeps_raise_if Held _ _ _ db held (
          keeps_found Held _ _ _ db held λ c found. keeps_raise_if Held _ _ _ db held (
            keeps_unless Held _ _ _ db held λ mine. keeps_raise_if Held _ _ _ db held (
              set_window-Held p a active _ (strip project) db
                (find_window-keyed (strip project) c db found)
                (heartbeat_found p a active (strip project) (strip session) (ground (arith, other))
                  c db found (ground (arith, mine, eq_iff c.session_id (strip session))) held)
                held)))))

finish_window-Held :
    (p : String) (a : Lease) (status : Status) (project session reason : String) (now : ℕ)
    (db : Leases)
    → is_active_status a.status ≡ true
    → is_other a (finish status project session reason now) ≡ true
    → find_window p db ≡ some a
    → find_window p (finish_window project session status reason now db).1 ≡ some a
unfolding finish_window save_window
finish_window-Held p a status project session reason now db active other held =
    let Held : Leases → Type 0 = λ s. find_window p s ≡ some a in
    keeps_text Held _ _ _ db held (
      keeps_text Held _ _ _ db held (
        keeps_text Held _ _ _ db held (
          keeps_found Held _ _ _ db held λ c found. keeps_unless Held _ _ _ db held λ mine.
            set_window-Held p a active _ (strip project) db
              (finished_window-keyed (strip project) (strip session) status reason now db status c
                ∙ find_window-keyed (strip project) c db found)
              (heartbeat_found p a active (strip project) (strip session) (ground (arith, other)) c
                db found (ground (arith, mine, eq_iff c.session_id (strip session))) held)
              held)))

-- the project's window is this session's
abbrev Owns : String → String → Leases → Type 0
Owns p session db = (l : Lease) × (find_window p db ≡ some l) × (l.session_id ≡ session)

finish_window-Owns :
    (status : Status) (project session reason : String) (now : ℕ) (db : Leases) {b : Lease}
    → (finish_window project session status reason now db).0 ≡ ok b
    → Owns (strip project) (strip session) db
unfolding finish_window save_window
finish_window-Owns status project session reason now db h =
    Commits-ok (λ _ _. Owns (strip project) (strip session) db)
      (finish_window project session status reason now db)
      (Commits-require_text _ _ _ _ _ (
        Commits-require_text _ _ _ _ _ (
          Commits-require_text _ _ _ _ _ (
            Commits-require _ _ _ _ _ λ l found. Commits-raise_if _ _ _ _ _ λ same.
              Commits-return _ _ _
                (l, found, ground (arith, same, eq_iff l.session_id (strip session)))))))
      h

refused : (r : Result String Lease) → ((b : Lease) → r ≢ ok b) → is_ok r ≡ false
refused (ok b) never = absurd (never b refl)
refused (err e) never = refl

module _ (a : Lease) (active : is_active_status a.status ≡ true) where
  perform-Held :
      (p : String) (c : Call) (db : Leases)
      → is_other a c ≡ true
      → find_window p db ≡ some a
      → find_window p (perform c db).1 ≡ some a
  unfolding perform
  perform-Held p (acquire project session turn version ttl now) db other held =
      acquire_window-Held p a project session turn version ttl now db active other held
  perform-Held p (heartbeat project session ttl now) db other held =
      heartbeat_window-Held p a project session ttl now db active other held
  perform-Held p (finish status project session reason now) db other held =
      finish_window-Held p a status project session reason now db active other held

  run-Held :
      (p : String) (calls : List Call) (db : Leases)
      → all_other a calls ≡ true
      → find_window p db ≡ some a
      → find_window p (run calls db) ≡ some a
  unfolding run all_other
  run-Held p [] db others held = held
  run-Held p (c ∷ cs) db others held =
      run-Held p cs (perform c db).1 (ground (arith, others))
        (perform-Held p c db (ground (arith, others)) held)

  perform-refused :
      (c : Call) (db : Leases)
      → is_other a c ≡ true
      → find_window (project_of c) db ≡ some a
      → (perform c db).0 ≡ false
  unfolding perform
  perform-refused (acquire project session turn version ttl now) db other held = refused _ λ b h.
      let taken = acquire_window-Taken project session turn version now ttl db h in
      let same = taken.free a held (ground (arith, active, other)) in
      ground (arith, same, other, eq_iff (strip session) a.session_id)
  perform-refused (heartbeat project session ttl now) db other held = refused _ λ b h.
      let (l, found, _, same) = heartbeat_window-Beats project session now ttl db h in
      let it : some l ≡ some a = cc (found, held) in
      ground (arith, it, same, other, eq_iff (strip session) a.session_id)
  perform-refused (finish status project session reason now) db other held = refused _ λ b h.
      let (l, found, same) = finish_window-Owns status project session reason now db h in
      let it : some l ≡ some a = cc (found, held) in
      ground (arith, it, same, other, eq_iff (strip session) a.session_id)

-- A session has acquired a project's window. Whatever calls other sessions then make before the lease it
-- was given runs out, about this project or any other, the project's window stays the holder's lease as it
-- was given, and a further call of another session about the project, an acquisition, a heartbeat, a drain
-- or a release, is refused.
pub window_excludes_others :
    (project session turn : String) (version now ttl : ℕ) (db : Leases) {a : Lease}
    (calls : List Call) (next : Call)
    → (acquire_window project session turn version now ttl db).0 ≡ ok a
    → all_other a calls ≡ true
    → is_other a next ≡ true
    → project_of next ≡ strip project
    → let after = run calls (acquire_window project session turn version now ttl db).1 in
      (find_window (strip project) after ≡ some a)
      × (a.session_id ≡ strip session)
      × ((perform next after).0 ≡ false)
window_excludes_others project session turn version now ttl db {a} calls next done others other
      here =
    let mine = acquire_window-Taken project session turn version now ttl db done in
    let active : is_active_status a.status ≡ true = ground (arith, mine.status) in
    let held = run-Held a active (strip project) calls _ others mine.current in
    (held, mine.owner, perform-refused a active next _ other (rw here held))
