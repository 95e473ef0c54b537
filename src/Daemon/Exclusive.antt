-- ===== src/Daemon/Exclusive.antt =====
-- The daemon lease is exclusive: what a successful acquisition has done, and what it keeps others from.
use model_lib.Prelude.{
  ℕ, ◌+◌, String, Bool, true, ◌&&◌, Option, none, some, ◌≡◌, ◌≢◌, refl, ◌==◌, string_eq, nat_eq,
  eq_iff, if◌then◌else◌, arith, find_row, find_row-holds, find_row-update_rows, exists_row-find_row,
  find_row-update_rows_same,
}
use model_lib.Text.{strip}
use model_lib.Tx.{ok, transaction}
use model_lib.Tx.Rules.{
  Commits, Commits-ok, Commits-raise_if, Commits-branch, Commits-require, Commits-fetch,
  Commits-transaction,
}
use model_lib.Stamp.{text_lt, plus_seconds}
use model_lib.Json.{Codec}
use model_lib.Schema.{Db}
use mathlib.Core.List.{◌∷◌}
use model_lib.Schema.Rows.{DaemonLease, Event}
use model_lib.Tables.Insert.{Commits-insert_event}
use model_lib.Daemon.{
  find_lease, renew_lease, upsert_lease, new_lease, take_lease, acquire_existing, acquire_block,
  acquire_daemon_lease, heartbeat_lease_block, heartbeat_daemon_lease,
}

-- the epoch that an acquisition ends with: a lease that is alive keeps its own
abbrev pub next_epoch : ℕ → Option DaemonLease → ℕ
next_epoch now none = 1
next_epoch now (some r) = if text_lt now r.lease_until then r.daemon_epoch else r.daemon_epoch + 1

-- no lease, a lease that has run out, or one of this owner
abbrev pub is_free : String → ℕ → Option DaemonLease → Bool
is_free owner now none = true
is_free owner now (some r) = if text_lt now r.lease_until then r.owner_id == owner else true

pub record Acquired (p owner : String) (now ttl : ℕ) (db : Db) (a : DaemonLease) (after : Db)
    : Type 0 where
  pub free : is_free owner now (find_lease p db) ≡ true
  pub row : a ≡ new_lease p owner (next_epoch now (find_lease p db)) now ttl
  pub current : find_lease p after ≡ some a

module _ (p owner : String) (now ttl : ℕ) (db : Db) where
  find_lease-upsert_lease :
      (epoch : ℕ)
      → find_lease p (upsert_lease (new_lease p owner epoch now ttl) db)
        ≡ some (new_lease p owner epoch now ttl)
  unfolding find_lease upsert_lease find_row
  find_lease-upsert_lease epoch = ground (
    arith,
    eq_iff p p,
    exists_row-find_row (λ r. r.project_id == p) db.daemon_leases,
    find_row-update_rows_same (λ r. r.project_id == p) (λ r. new_lease p owner epoch now ttl)
        db.daemon_leases (λ r h. (eq_iff p p).1 refl),
  )

  find_lease-renew_lease :
      (r : DaemonLease)
      → find_lease p db ≡ some r
      → r.owner_id ≡ owner
      → find_lease p (renew_lease p owner r.daemon_epoch now ttl db)
        ≡ some (new_lease p owner r.daemon_epoch now ttl)
  unfolding find_lease renew_lease
  find_lease-renew_lease r found same = ground (
    arith,
    eq_iff r.project_id p,
    eq_iff r.owner_id owner,
    same,
    found,
    find_row-holds (λ x. x.project_id == p) db.daemon_leases found,
    find_row-update_rows (λ x. x.project_id == p)
        (λ x. x.project_id == p && x.owner_id == owner && x.daemon_epoch == r.daemon_epoch)
        (λ x. record x { heartbeat_at = now; lease_until = plus_seconds now ttl }) db.daemon_leases
        (λ x. refl),
  )

find_lease-logged :
    (p : String) (e : Event) (db : Db)
    → find_lease p (record db { events = e ∷ db.events }) ≡ find_lease p db
unfolding find_lease
find_lease-logged p e db = refl

module _ (codec : Codec) (p owner : String) (now ttl : ℕ) (db : Db) where
  take_lease-Acquired :
      (epoch : ℕ)
      → is_free owner now (find_lease p db) ≡ true
      → epoch ≡ next_epoch now (find_lease p db)
      → Commits (Acquired p owner now ttl db) (take_lease codec p owner now ttl epoch db)
  unfolding take_lease
  take_lease-Acquired epoch free same = Commits-insert_event _ _ _ _ λ _.
      Commits-fetch _ _ _ _ λ a seen. record {
        free = free;
        row = cc (
          seen,
          same,
          find_lease-logged p _ (upsert_lease (new_lease p owner epoch now ttl) db),
          find_lease-upsert_lease p owner now ttl db epoch,
        );
        current = seen;
      }

  acquire_existing-Acquired :
      (o : Option DaemonLease)
      → find_lease p db ≡ o
      → Commits (Acquired p owner now ttl db) (acquire_existing codec p owner now ttl o db)
  unfolding acquire_existing
  acquire_existing-Acquired none found =
      take_lease-Acquired 1 (ground (arith, found)) (ground (arith, found))
  acquire_existing-Acquired (some r) found =
      Commits-branch _ _ _ _ _
        (λ live. Commits-raise_if _ _ _ _ _ λ same. Commits-fetch _ _ _ _ λ a seen. record {
          free = ground (arith, found, live, same);
          row = renewed r a found live (ground (arith, same, eq_iff r.owner_id owner)) seen;
          current = seen;
        })
        (λ dead.
          take_lease-Acquired (r.daemon_epoch + 1) (ground (arith, found, dead))
            (ground (arith, found, dead)))
    where
      renewed :
          (r a : DaemonLease)
          → find_lease p db ≡ some r
          → text_lt now r.lease_until ≡ true
          → r.owner_id ≡ owner
          → find_lease p (renew_lease p owner r.daemon_epoch now ttl db) ≡ some a
          → a ≡ new_lease p owner (next_epoch now (find_lease p db)) now ttl
      renewed r a found live same seen =
          ground (arith, found, live, seen, find_lease-renew_lease p owner now ttl db r found same)

  acquire_block-Acquired :
      Commits (Acquired p owner now ttl db) (acquire_block codec p owner now ttl db)
  unfolding acquire_block
  acquire_block-Acquired =
      Commits-raise_if _ _ _ _ _
        λ _. Commits-require _ _ _ _ _ λ state _. acquire_existing-Acquired _ refl

-- An acquisition that returns was made while the project had no lease, one that had run out, or one of
-- the same owner; the lease is now the owner's, until the end of its time, under the epoch of a lease
-- that was alive, or under the next one.
pub acquire_daemon_lease_lem :
    (codec : Codec) (project_id owner_id : String) (now ttl_seconds : ℕ) (db : Db) {a : DaemonLease}
    → (acquire_daemon_lease codec project_id owner_id now ttl_seconds db).0 ≡ ok a
    → Acquired
        (strip project_id)
        (strip owner_id)
        now
        ttl_seconds
        db
        a
        (acquire_daemon_lease codec project_id owner_id now ttl_seconds db).1
unfolding acquire_daemon_lease
acquire_daemon_lease_lem codec project_id owner_id now ttl_seconds db h =
    let p = strip project_id in
    let o = strip owner_id in
    Commits-ok (Acquired p o now ttl_seconds db)
      (transaction (acquire_block codec p o now ttl_seconds) db)
      (Commits-transaction (Acquired p o now ttl_seconds db)
        (acquire_block codec p o now ttl_seconds) db
        (acquire_block-Acquired codec p o now ttl_seconds db))
      h

-- the project's lease is this owner's, under this epoch
abbrev Holds : String → String → ℕ → Db → Type 0
Holds p owner epoch db =
    (r : DaemonLease) × (find_lease p db ≡ some r) × (r.owner_id ≡ owner) × (r.daemon_epoch ≡ epoch)

heartbeat_lease_block-Holds :
    (p owner : String) (epoch now ttl : ℕ) (db : Db)
    → Commits (λ _ _. Holds p owner epoch db) (heartbeat_lease_block p owner epoch now ttl db)
unfolding heartbeat_lease_block
heartbeat_lease_block-Holds p owner epoch now ttl db = Commits-raise_if _ _ _ _ _ λ _.
    Commits-require _ _ _ _ _ λ r found. Commits-raise_if _ _ _ _ _ λ same.
      Commits-raise_if _ _ _ _ _ λ _.
        Commits-fetch _ _ _ _
          λ a _. (r, found, ground (arith, same, eq_iff r.owner_id owner), ground (arith, same))

heartbeat_daemon_lease-Holds :
    (project_id owner_id : String) (epoch now ttl : ℕ) (db : Db) {a : DaemonLease}
    → (heartbeat_daemon_lease project_id owner_id epoch now ttl db).0 ≡ ok a
    → Holds (strip project_id) (strip owner_id) epoch db
unfolding heartbeat_daemon_lease
heartbeat_daemon_lease-Holds project_id owner_id epoch now ttl db h =
    let p = strip project_id in
    let o = strip owner_id in
    Commits-ok (λ _ _. Holds p o epoch db)
      (transaction (heartbeat_lease_block p o epoch now ttl) db)
      (Commits-transaction (λ _ _. Holds p o epoch db) (heartbeat_lease_block p o epoch now ttl) db
        (heartbeat_lease_block-Holds p o epoch now ttl db))
      h

-- Once an owner has acquired the lease, until it runs out no other owner acquires it, and no other owner's
-- heartbeat succeeds, at whatever time and under whatever epoch.
pub acquisition_excludes_others :
    (codec : Codec) (project_id owner_id other : String) (now ttl_seconds epoch later ttl : ℕ)
    (db : Db) {a b : DaemonLease}
    → let after = (acquire_daemon_lease codec project_id owner_id now ttl_seconds db).1 in
      (acquire_daemon_lease codec project_id owner_id now ttl_seconds db).0 ≡ ok a
      → strip other ≢ strip owner_id
      → text_lt later (plus_seconds now ttl_seconds) ≡ true
      → ((acquire_daemon_lease codec project_id other later ttl after).0 ≢ ok b)
        × ((heartbeat_daemon_lease project_id other epoch later ttl after).0 ≢ ok b)
acquisition_excludes_others codec project_id owner_id other now ttl_seconds epoch later ttl db done
      differ live =
    let after = (acquire_daemon_lease codec project_id owner_id now ttl_seconds db).1 in
    let mine = acquire_daemon_lease_lem codec project_id owner_id now ttl_seconds db done in
    (
      λ h.
          let theirs = acquire_daemon_lease_lem codec project_id other later ttl after h in
          absurd (
            ground (
              arith,
              differ,
              live,
              mine.current,
              mine.row,
              theirs.free,
              eq_iff (strip owner_id) (strip other),
            )),
      λ h.
          let (r, found, owner, same) =
            heartbeat_daemon_lease-Holds project_id other epoch later ttl after h in
          absurd (ground (arith, differ, mine.current, mine.row, found, owner)),
    )
