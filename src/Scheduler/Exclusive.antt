-- ===== src/Scheduler/Exclusive.antt =====
-- What the active leases of a project exclude: no two of them hold conflicting scopes, and each is on a
-- worker slot of its own. The operations of scheduler.py that end leases and assignments keep it so.
use mathlib.Core.Option
use mathlib.Core.List.{[], ◌∷◌}
use model_lib.Prelude.{
  ◌+◌, ◌≤◌, String, Bool, true, false, not, ◌&&◌, Option, none, some, List, ◌≡◌, refl, ◌∙◌, ap,
  ◌==◌, string_eq, eq_iff, arith, if◌then◌else◌, find_row, find_row-update_rows, exists_row,
  count_rows, member, count_rows-update_rows_le, update_rows,
}
use model_lib.Schema.{Db}
use model_lib.Schema.Tasks.{Assignment, AssignmentState, TaskState, WorkerLease, LeaseState}
use model_lib.Scheduler.{
  is_active, find_assignment, set_assignment_state, set_task_state, is_held, expire_lease,
}
use model_lib.Scheduler.Claim.{worker_slots}
use model_lib.Scheduler.Grants.{
  no_conflict, grant, grants, grants_of, grants_of-same, no_conflict-fewer,
}

-- an active lease of the project on this slot
abbrev pub is_on : String → String → WorkerLease → Bool
is_on project slot l = is_held project l && l.slot_id == slot

-- an active lease of the project on a slot that is none
abbrev pub is_misplaced : String → WorkerLease → Bool
is_misplaced project l = is_held project l && not (member l.slot_id worker_slots)

pub record Exclusive (project : String) (db : Db) : Type 0 where
  pub compatible : no_conflict (grants project db) ≡ true
  pub placed : count_rows (is_misplaced project) db.leases ≡ 0
  pub single : (slot : String) → count_rows (is_on project slot) db.leases ≤ 1

count_rows-is_held :
    (project : String) (ls : List WorkerLease)
    → count_rows (is_held project) ls
      ≤ count_rows (is_misplaced project) ls
        + (count_rows (is_on project "worker-slot-1") ls
            + count_rows (is_on project "worker-slot-2") ls)
unfolding count_rows exists_row
count_rows-is_held project [] = omega arith
count_rows-is_held project (l ∷ ls) = ground (
  arith,
  eq_iff "worker-slot-1" l.slot_id,
  eq_iff l.slot_id "worker-slot-1",
  eq_iff "worker-slot-2" l.slot_id,
  eq_iff l.slot_id "worker-slot-2",
  count_rows-is_held project ls,
)

-- two workers at most
pub Exclusive-le_two :
    (project : String) (db : Db) → Exclusive project db → count_rows (is_held project) db.leases ≤ 2
Exclusive-le_two project db h = omega (
  arith,
  count_rows-is_held project db.leases,
  h.placed,
  h.single "worker-slot-1",
  h.single "worker-slot-2",
)

-- nothing changes for the leases
pub Exclusive-same :
    (project : String) (before after : Db)
    → after.leases ≡ before.leases
    → ((id : String)
        → Option.map grant (find_assignment id after)
          ≡ Option.map grant (find_assignment id before))
    → Exclusive project before
    → Exclusive project after
Exclusive-same project before after same scopes h = record {
  compatible =
      ap no_conflict (
        grants_of-same (is_held project) after.leases before after scopes
        ∙ ap (λ ls. grants_of (is_held project) ls before) same)
      ∙ h.compatible;
  placed = rw same h.placed;
  single = λ slot. rw same (h.single slot);
}

pub Exclusive-fewer :
    (project : String) (q : WorkerLease → Bool) (f : WorkerLease → WorkerLease) (db : Db)
    → ((l : WorkerLease) → (f l).assignment_id ≡ l.assignment_id)
    → ((l : WorkerLease) → is_active (f l).state ≡ false)
    → Exclusive project db
    → Exclusive project (record db { leases = update_rows q f db.leases })
unfolding find_assignment
Exclusive-fewer project q f db keyed idle h = record {
  compatible =
      ap no_conflict (
        grants_of-same (is_held project) (update_rows q f db.leases) db
          (record db { leases = update_rows q f db.leases }) (λ id. refl))
      ∙ no_conflict-fewer (is_held project) q f db keyed (λ l _ k. ground (arith, idle l)) db.leases
          h.compatible;
  placed = omega (
    arith,
    count_rows-update_rows_le (is_misplaced project) q f db.leases
        (λ l _ k. ground (arith, idle l)),
    h.placed,
  );
  single = λ slot. omega (
    arith,
    count_rows-update_rows_le (is_on project slot) q f db.leases (λ l _ k. ground (arith, idle l)),
    h.single slot,
  );
}

-- an assignment's state is not part of its grant
grant-set_assignment_state :
    (id other : String) (s : AssignmentState) (db : Db)
    → Option.map grant (find_assignment other (set_assignment_state id s db))
      ≡ Option.map grant (find_assignment other db)
unfolding find_assignment set_assignment_state
grant-set_assignment_state id other s db =
    ap (Option.map grant) (
      find_row-update_rows (λ a. a.assignment_id == other) (λ a. a.assignment_id == id)
        (λ a. record a { state = s }) db.assignments (λ a. refl))
    ∙ kept (find_row (λ a. a.assignment_id == other) db.assignments)
  where
    kept :
        (o : Option Assignment)
        → Option.map grant
            (Option.map (λ a. if a.assignment_id == id then (record a { state = s }) else a) o)
          ≡ Option.map grant o
    kept none = refl
    kept (some a) = ground arith

pub Exclusive-set_assignment_state :
    (project id : String) (s : AssignmentState) (db : Db)
    → Exclusive project db
    → Exclusive project (set_assignment_state id s db)
unfolding set_assignment_state
Exclusive-set_assignment_state project id s db h =
    Exclusive-same project db (set_assignment_state id s db) refl
      (λ other. grant-set_assignment_state id other s db) h

pub Exclusive-set_task_state :
    (project p task : String) (s : TaskState) (db : Db)
    → Exclusive project db
    → Exclusive project (set_task_state p task s db)
unfolding set_task_state find_assignment
Exclusive-set_task_state project p task s db h =
    Exclusive-same project db (set_task_state p task s db) refl (λ id. refl) h

pub Exclusive-expire_lease :
    (project token : String) (db : Db)
    → Exclusive project db
    → Exclusive project (expire_lease token db)
unfolding expire_lease
Exclusive-expire_lease project token db h =
    Exclusive-fewer project (λ l. l.lease_token == token)
      (λ l. record l { state = LeaseState.expired }) db (λ l. refl) (λ l. refl) h
