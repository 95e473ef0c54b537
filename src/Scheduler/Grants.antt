-- ===== src/Scheduler/Grants.antt =====
-- The grants of leases, `(scope, mode)` of their assignments, as `any_conflict` of scheduler.py reads them: what
-- an UPDATE does to them.
use mathlib.Core.Option
use mathlib.Core.List.{[], ◌∷◌}
use model_lib.Prelude.{
  String, Bool, true, false, not, ◌&&◌, ◌||◌, Option, none, some, List, map, ◌≡◌, refl, sym, ◌∙◌,
  ap, string_eq, arith, if◌then◌else◌, exists_row, update_rows,
}
use model_lib.Schema.{Db}
use model_lib.Schema.Tasks.{Assignment, WorkerLease}
use model_lib.Scheduler.{find_assignment, join_leases, is_held, scopes_conflict}
use model_lib.Scheduler.Claim.{Grant, grant_of, any_conflict}

-- no grant conflicts with one after it
abbrev pub no_conflict : List Grant → Bool
no_conflict [] = true
no_conflict (g ∷ gs) = not (any_conflict g gs) && no_conflict gs

abbrev pub grant : Assignment → Grant
grant a = (a.resource_scope, a.access_mode)

-- the grants of the leases that `p` chooses
abbrev pub grants_of : (WorkerLease → Bool) → List WorkerLease → Db → List Grant
grants_of p ls db = map grant_of (join_leases p ls db)

abbrev pub grants : String → Db → List Grant
grants project db = grants_of (is_held project) db.leases db

abbrev pub add_grant : Option Grant → List Grant → List Grant
add_grant none gs = gs
add_grant (some g) gs = g ∷ gs

pub grants_of-cons :
    (p : WorkerLease → Bool) (l : WorkerLease) (ls : List WorkerLease) (db : Db)
    → grants_of p (l ∷ ls) db ≡ (
        if p l
        then add_grant (Option.map grant (find_assignment l.assignment_id db)) (grants_of p ls db)
        else grants_of p ls db)
unfolding join_leases
grants_of-cons p l ls db = ground arith

pub grants_of-same :
    (p : WorkerLease → Bool) (ls : List WorkerLease) (before after : Db)
    → ((id : String)
        → Option.map grant (find_assignment id after)
          ≡ Option.map grant (find_assignment id before))
    → grants_of p ls after ≡ grants_of p ls before
unfolding join_leases
grants_of-same p [] before after h = refl
grants_of-same p (l ∷ ls) before after h =
    grants_of-cons p l ls after
    ∙ (rw (h l.assignment_id, grants_of-same p ls before after h)
        (sym (grants_of-cons p l ls before)))

abbrev conflict_of : Grant → Option Grant → Bool
conflict_of x none = false
conflict_of x (some g) = scopes_conflict x.0 x.1 g.0 g.1

abbrev clash : Option Grant → List Grant → Bool
clash none gs = false
clash (some g) gs = any_conflict g gs

any_conflict-head :
    (x g : Grant) (gs : List Grant)
    → any_conflict x (g ∷ gs) ≡ (scopes_conflict x.0 x.1 g.0 g.1 || any_conflict x gs)
unfolding any_conflict exists_row
any_conflict-head x g gs = refl

any_conflict-cons :
    (x : Grant) (p : WorkerLease → Bool) (l : WorkerLease) (ls : List WorkerLease) (db : Db)
    → any_conflict x (grants_of p (l ∷ ls) db) ≡ (
        (p l && conflict_of x (Option.map grant (find_assignment l.assignment_id db)))
        || any_conflict x (grants_of p ls db))
any_conflict-cons x p l ls db =
    ap (any_conflict x) (grants_of-cons p l ls db)
    ∙ step (p l) (Option.map grant (find_assignment l.assignment_id db)) (grants_of p ls db)
  where
    step :
        (b : Bool) (o : Option Grant) (gs : List Grant)
        → any_conflict x (if b then add_grant o gs else gs)
          ≡ ((b && conflict_of x o) || any_conflict x gs)
    step b none gs = ground arith
    step false (some g) gs = refl
    step true (some g) gs = any_conflict-head x g gs

no_conflict-cons :
    (p : WorkerLease → Bool) (l : WorkerLease) (ls : List WorkerLease) (db : Db)
    → no_conflict (grants_of p (l ∷ ls) db) ≡ (
        not
          (p l && clash (Option.map grant (find_assignment l.assignment_id db)) (grants_of p ls db))
        && no_conflict (grants_of p ls db))
no_conflict-cons p l ls db =
    ap no_conflict (grants_of-cons p l ls db)
    ∙ step (p l) (Option.map grant (find_assignment l.assignment_id db)) (grants_of p ls db)
  where
    step :
        (b : Bool) (o : Option Grant) (gs : List Grant)
        → no_conflict (if b then add_grant o gs else gs) ≡ (not (b && clash o gs) && no_conflict gs)
    step b none gs = ground arith
    step false (some g) gs = refl
    step true (some g) gs = refl

-- an update of leases that makes no further one active
module _ (p q : WorkerLease → Bool) (f : WorkerLease → WorkerLease) (db : Db)
    (keyed : (l : WorkerLease) → (f l).assignment_id ≡ l.assignment_id)
    (fewer : (l : WorkerLease) → q l ≡ true → p (f l) ≡ true → p l ≡ true) where
  abbrev updated : WorkerLease → WorkerLease
  updated l = if q l then f l else l

  updated-keyed : (l : WorkerLease) → (updated l).assignment_id ≡ l.assignment_id
  updated-keyed l = ground (arith, keyed l)

  updated-fewer : (l : WorkerLease) → p (updated l) ≡ true → p l ≡ true
  updated-fewer l h = ground (arith, fewer l)

  update_rows-cons :
      (l : WorkerLease) (ls : List WorkerLease)
      → update_rows q f (l ∷ ls) ≡ updated l ∷ update_rows q f ls
  unfolding update_rows
  update_rows-cons l ls = refl

  any_conflict-fewer :
      (x : Grant) (ls : List WorkerLease)
      → any_conflict x (grants_of p (update_rows q f ls) db) ≡ true
      → any_conflict x (grants_of p ls db) ≡ true
  unfolding update_rows
  any_conflict-fewer x [] h = h
  any_conflict-fewer x (l ∷ ls) h = ground (
    arith,
    any_conflict-cons x p l ls db,
    any_conflict-cons x p (updated l) (update_rows q f ls) db,
    updated-keyed l,
    updated-fewer l,
    any_conflict-fewer x ls,
  )

  clash-fewer :
      (o : Option Grant) (ls : List WorkerLease)
      → clash o (grants_of p (update_rows q f ls) db) ≡ true
      → clash o (grants_of p ls db) ≡ true
  clash-fewer none ls h = h
  clash-fewer (some g) ls h = any_conflict-fewer g ls h

  pub no_conflict-fewer :
      (ls : List WorkerLease)
      → no_conflict (grants_of p ls db) ≡ true
      → no_conflict (grants_of p (update_rows q f ls) db) ≡ true
  unfolding update_rows
  no_conflict-fewer [] h = h
  no_conflict-fewer (l ∷ ls) h = ground (
    arith,
    no_conflict-cons p l ls db,
    no_conflict-cons p (updated l) (update_rows q f ls) db,
    updated-keyed l,
    updated-fewer l,
    clash-fewer (Option.map grant (find_assignment l.assignment_id db)) ls,
    no_conflict-fewer ls,
  )
