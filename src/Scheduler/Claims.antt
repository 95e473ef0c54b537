-- ===== src/Scheduler/Claims.antt =====
-- `claim_runnable` of scheduler.py: it claims only what the active leases allow.
use mathlib.Core.List.{[], ◌∷◌}
use model_lib.Prelude.{
  ℕ, suc, zero, ◌+◌, String, true, false, Option, List, ◌≡◌, refl, sym, ◌∙◌, ap, subst, inl, inr,
  string_eq, nat_eq, eq_iff, arith, member, member-cons, member-head, member-nil, member-split,
  Bool-cases,
}
use model_lib.Tx.{◌>>=◌}
use model_lib.Tx.Rules.{
  Commits, Commits-return, Commits-raise_if, Commits-branch, Commits-require, Commits-bind,
  Commits-write_unless, keeps_of_Commits,
}
use model_lib.Tx.Keeps.{keeps_raise_if, keeps_branch, keeps_bind}
use model_lib.Stamp.{plus_seconds}
use model_lib.Json.{Json, Codec}
use model_lib.Schema.{Db}
use model_lib.Schema.Rows.{ProjectState}
use model_lib.Schema.Tasks.{TaskNode}
use model_lib.Tables.{Action}
use model_lib.Scheduler.{recover_expired_leases, is_held, join_leases}
use model_lib.Scheduler.Claim.{
  Names, Grant, any_conflict, insert_assignment, insert_lease, worker_slots, free_slots, take,
  decode_task_context, new_assignment, new_worker_lease, claim_task, claim_loop, claim_free,
  claim_block, claim_runnable,
}
use model_lib.Scheduler.Grants.{grant, grants}
use model_lib.Scheduler.Exclusive.{Exclusive}
use model_lib.Scheduler.Grow.{grants-claimed, Exclusive-claimed}
use model_lib.Scheduler.Keep.{recover_expired_leases-Exclusive}

-- what a claim leaves: the leases of `q` apart, and the grants of `p` as they are given
record Kept (q p : String) (granted : List Grant) (db : Db) : Type 0 where
  apart : Exclusive q db
  known : grants p db ≡ granted

module _ (loads : String → Option Json) where
  Commits-decode_task_context :
      {A : Type 0} (P : A → Db → Type 0) (raw : String) (k : Json → Action A) (db : Db)
      → ((context : Json) → Commits P (k context db))
      → Commits P ((decode_task_context loads raw >>= k) db)
  unfolding decode_task_context
  Commits-decode_task_context P raw k db h =
      Commits-bind (λ _ s. s ≡ db) P (decode_task_context loads raw) k db
        (Commits-require _ _ _ _ _
          λ value _. Commits-raise_if _ _ _ _ _ λ _. Commits-return _ value db refl)
        λ context after same. subst (λ s. Commits P (k context s)) (sym same) (h context)

  module _ (q p : String) (epoch version expires : ℕ) (names : ℕ → Names) where
    claim_task-Kept :
        (task : TaskNode) (slot : String) (i : ℕ) (active : List Grant) (db : Db)
        → member slot worker_slots ≡ true
        → any_conflict (task.resource_scope, task.access_mode) active ≡ false
        → Kept q p active db
        → Commits
            (λ _. Kept q p ((task.resource_scope, task.access_mode) ∷ active))
            (claim_task loads p epoch version expires names task slot i db)
    unfolding claim_task insert_assignment insert_lease
    claim_task-Kept task slot i active db placed clear kept =
        let a = new_assignment loads p epoch version expires names task slot i in
        let l = new_worker_lease loads p epoch version expires names slot i in
        Commits-write_unless _ _ _ _ _ _ λ _. Commits-write_unless _ _ _ _ _ _ λ free.
          Commits-decode_task_context _ _ _ _ λ context. Commits-return _ _ _ (record {
            apart =
                Exclusive-claimed q a l db refl refl (ground (arith, free)) placed
                  (ground (arith, free))
                  (λ same.
                    subst (λ t. any_conflict (grant a) (grants t db) ≡ false) same
                      (ap (any_conflict (grant a)) kept.known ∙ clear))
                  kept.apart;
            known =
                grants-claimed p a l db refl refl (ground (arith, free))
                ∙ ground (arith, eq_iff p p, kept.known);
          })

    claim_loop-Exclusive :
        (tasks : List TaskNode) (slots : List String) (active : List Grant) (i : ℕ) (db : Db)
        → ((s : String) → member s slots ≡ true → member s worker_slots ≡ true)
        → Kept q p active db
        → Commits
            (λ _. Exclusive q)
            (claim_loop loads p epoch version expires names tasks slots active i db)
    unfolding claim_loop
    claim_loop-Exclusive [] slots active i db placed kept = Commits-return _ _ db kept.apart
    claim_loop-Exclusive (task ∷ tasks) [] active i db placed kept =
        Commits-return _ _ db kept.apart
    claim_loop-Exclusive (task ∷ tasks) (slot ∷ slots) active i db placed kept =
        Commits-branch _ _ _ _ _
          (λ _. claim_loop-Exclusive tasks (slot ∷ slots) active i db placed kept)
          (λ clear.
            Commits-bind (λ _. Kept q p ((task.resource_scope, task.access_mode) ∷ active))
              (λ _. Exclusive q) (claim_task loads p epoch version expires names task slot i) _ db
              (claim_task-Kept task slot i active db (placed slot (member-head slot slots))
                (ground (arith, clear)) kept)
              λ claim after held.
                Commits-bind (λ _. Exclusive q) (λ _. Exclusive q)
                  (claim_loop loads p epoch version expires names tasks slots
                    ((task.resource_scope, task.access_mode) ∷ active) (i + 1))
                  _ after
                  (claim_loop-Exclusive tasks slots _ (i + 1) after
                    (λ s m. placed s (member-cons s slot slots m)) held)
                  λ claims last done. Commits-return _ _ last done)

member-take :
    (n : ℕ) (xs : List String) (s : String) → member s (take n xs) ≡ true → member s xs ≡ true
unfolding take
member-take zero xs s h = absurd (member-nil s h)
member-take (suc n) [] s h = h
member-take (suc n) (x ∷ xs) s h = elim (member-split x s (take n xs) h) [
  | inl e ↦ subst (λ t. member t (x ∷ xs) ≡ true) e (member-head x xs)
  | inr m ↦ member-cons s x xs (member-take n xs s m)
]

member-free_slots :
    (occupied xs : List String) (s : String)
    → member s (free_slots occupied xs) ≡ true
    → member s xs ≡ true
unfolding free_slots
member-free_slots occupied [] s h = h
member-free_slots occupied (x ∷ xs) s h = elim (Bool-cases (member x occupied)) [
  | inl e ↦ member-cons s x xs (member-free_slots occupied xs s (rw e at h))
  | inr e ↦ elim (member-split x s (free_slots occupied xs) (rw e at h)) [
    | inl same ↦ subst (λ t. member t (x ∷ xs) ≡ true) same (member-head x xs)
    | inr m ↦ member-cons s x xs (member-free_slots occupied xs s m)
  ]
]

module _ (loads : String → Option Json) (q p : String) (epoch now lease_seconds limit : ℕ)
    (names : ℕ → Names) where
  claim_free-Exclusive :
      (state : ProjectState) (tasks : List TaskNode) (db : Db)
      → Exclusive q db
      → Commits
          (λ _. Exclusive q)
          (claim_free loads p epoch now lease_seconds limit names state
            (join_leases (is_held p) db.leases db)
            tasks
            db)
  unfolding claim_free
  claim_free-Exclusive state tasks db h =
      claim_loop-Exclusive loads q p epoch state.state_version (plus_seconds now lease_seconds)
        names tasks _ _ 0 db (λ s m. member-free_slots _ worker_slots s (member-take limit _ s m))
        (record { apart = h; known = refl })

  claim_block-Exclusive :
      (db : Db)
      → Exclusive q db
      → Commits (λ _. Exclusive q) (claim_block loads p epoch now lease_seconds limit names db)
  unfolding claim_block
  claim_block-Exclusive db h = Commits-require _ _ _ _ _ λ state _. Commits-raise_if _ _ _ _ _ λ _.
      Commits-branch _ _ _ _ _ (λ _. claim_free-Exclusive state _ db h)
        (λ _. Commits-return _ _ db h)

  -- Claiming tasks leaves the active leases of every project apart, if they were: no two hold conflicting
  -- scopes, and each is on a worker slot of its own, whichever way the call ends.
  pub claim_runnable-Exclusive :
      (codec : Codec) (uuids : ℕ → String) (db : Db)
      → Exclusive q db
      → Exclusive q (claim_runnable loads p epoch now lease_seconds limit names codec uuids db).1
  unfolding claim_runnable
  claim_runnable-Exclusive codec uuids db h = keeps_raise_if (Exclusive q) _ _ _ db h (
      keeps_raise_if (Exclusive q) _ _ _ db h (
        keeps_branch (Exclusive q) _ _ _ db h (
          keeps_bind (Exclusive q) (recover_expired_leases codec p uuids now) _ db
            (recover_expired_leases-Exclusive q codec p uuids now db h)
            λ _ after held.
              keeps_of_Commits (Exclusive q)
                (claim_block loads p epoch now lease_seconds limit names) after held
                (claim_block-Exclusive after held))))
