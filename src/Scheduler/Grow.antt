-- ===== src/Scheduler/Grow.antt =====
-- `claim_runnable` of scheduler.py keeps the active leases of every project apart.
use mathlib.Core.List.{[], ◌∷◌}
use model_lib.Prelude.{
  ◌+◌, ◌≤◌, String, Bool, true, false, ◌&&◌, some, List, ◌≡◌, refl, subst, inl, inr, ◌==◌,
  string_eq, nat_eq, eq_iff, arith, if◌then◌else◌, find_row, exists_row, exists_row-iff_count,
  count_rows, member, Bool-cases,
}
use model_lib.Schema.{Db}
use model_lib.Schema.Tasks.{TaskState, Assignment, WorkerLease, LeaseState}
use model_lib.Scheduler.{find_assignment, set_task_state, join_leases, is_held}
use model_lib.Scheduler.Claim.{any_conflict, worker_slots}
use model_lib.Scheduler.Grants.{grant, grants, grants_of, grants_of-cons}
use model_lib.Scheduler.Exclusive.{Exclusive, is_on, is_misplaced}

-- the database once a task is claimed
abbrev pub claimed : Assignment → WorkerLease → Db → Db
claimed a l db =
    set_task_state a.project_id a.task_id TaskState.running
      (record db { assignments = a ∷ db.assignments; leases = l ∷ db.leases })

module _ (a : Assignment) (l : WorkerLease) (db : Db) where
  find_assignment-claimed :
      (id : String)
      → find_assignment id (claimed a l db)
        ≡ (if a.assignment_id == id then some a else find_assignment id db)
  unfolding find_assignment set_task_state find_row
  find_assignment-claimed id = refl

  -- the leases there are belong to other assignments
  grants_of-fresh :
      (p : WorkerLease → Bool) (ls : List WorkerLease)
      → exists_row (λ r. r.assignment_id == a.assignment_id) ls ≡ false
      → grants_of p ls (claimed a l db) ≡ grants_of p ls db
  unfolding exists_row join_leases
  grants_of-fresh p [] h = refl
  grants_of-fresh p (r ∷ ls) h = ground (
    arith,
    grants_of-cons p r ls (claimed a l db),
    grants_of-cons p r ls db,
    find_assignment-claimed r.assignment_id,
    eq_iff a.assignment_id r.assignment_id,
    eq_iff r.assignment_id a.assignment_id,
    grants_of-fresh p ls,
  )

count_rows-cons :
    (p : WorkerLease → Bool) (l : WorkerLease) (ls : List WorkerLease)
    → count_rows p (l ∷ ls) ≡ (if p l then 1 else 0) + count_rows p ls
unfolding count_rows
count_rows-cons p l ls = refl

module _ (q : String) (a : Assignment) (l : WorkerLease) (db : Db)
    (of_it : l.assignment_id ≡ a.assignment_id) (active : l.state ≡ LeaseState.active)
    (fresh : exists_row (λ r. r.assignment_id == a.assignment_id) db.leases ≡ false) where
  pub grants-claimed :
      grants q (claimed a l db) ≡ (if l.project_id == q then grant a ∷ grants q db else grants q db)
  unfolding set_task_state
  grants-claimed = ground (
    arith,
    grants_of-cons (is_held q) l db.leases (claimed a l db),
    find_assignment-claimed a l db l.assignment_id,
    eq_iff a.assignment_id l.assignment_id,
    grants_of-fresh a l db (is_held q) db.leases fresh,
    of_it,
    active,
  )

  pub Exclusive-claimed :
      member l.slot_id worker_slots ≡ true
      → exists_row (is_on l.project_id l.slot_id) db.leases ≡ false
      → (l.project_id ≡ q → any_conflict (grant a) (grants q db) ≡ false)
      → Exclusive q db
      → Exclusive q (claimed a l db)
  unfolding set_task_state
  Exclusive-claimed placed free apart h = record {
    compatible = ground (arith, grants-claimed, eq_iff l.project_id q, apart, h.compatible);
    placed = misplaced;
    single = λ slot. alone slot;
  }
    where
      none_on : count_rows (is_on l.project_id l.slot_id) db.leases ≡ 0
      none_on = ground (arith, free, exists_row-iff_count (is_on l.project_id l.slot_id) db.leases)

      misplaced : count_rows (is_misplaced q) (l ∷ db.leases) ≡ 0
      misplaced = ground (arith, count_rows-cons (is_misplaced q) l db.leases, placed, h.placed)

      alone : (slot : String) → count_rows (is_on q slot) (l ∷ db.leases) ≤ 1
      alone slot = elim (Bool-cases (l.project_id == q && l.slot_id == slot)) [
        | inl e ↦ ground (
          arith,
          count_rows-cons (is_on q slot) l db.leases,
          subst (λ t. count_rows (is_on t slot) db.leases ≡ 0)
              ((eq_iff l.project_id q).0 (ground (arith, e)))
              (subst (λ t. count_rows (is_on l.project_id t) db.leases ≡ 0)
                ((eq_iff l.slot_id slot).0 (ground (arith, e))) none_on),
        )
        | inr e ↦ ground (arith, count_rows-cons (is_on q slot) l db.leases, e, h.single slot)
      ]
