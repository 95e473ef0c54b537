-- ===== src/Scheduler/Queue.antt =====
-- `enqueue_graph` of scheduler.py leaves the leases alone.
use mathlib.Core.List.{List, [], ◌∷◌}
use model_lib.Prelude.{
  if◌then◌else◌, ◌==◌, string_eq, ◌&&◌, String, Bool, true, false, Option, none, some, refl,
  exists_row,
}
use model_lib.Tx.Rules.{
  Commits, Commits-return, Commits-require, Commits-bind, Commits-check, Commits-insert,
  keeps_of_Commits,
}
use model_lib.Tx.Keeps.{keeps_raise_if, keeps_require, keeps_bind}
use model_lib.Json.{Json, Codec}
use model_lib.Schema.{Db}
use model_lib.Schema.Tasks.{TaskNode}
use model_lib.Scheduler.{find_assignment, find_task}
use model_lib.Scheduler.Graph.{
  TaskRequest, Task, normalize_task, normalize_tasks, insert_task, enqueue_existing, enqueue_tasks,
  insert_dependency, insert_dependencies, link_tasks, enqueue_block, enqueue_graph,
}
use model_lib.Scheduler.Exclusive.{Exclusive, Exclusive-same}

module _ (q p : String) where
  insert_dependency-Exclusive :
      (task dependency : String) (db : Db)
      → Exclusive q db
      → Exclusive q (insert_dependency p task dependency db)
  unfolding insert_dependency find_assignment
  insert_dependency-Exclusive task dependency db h = chosen (
      exists_row (λ d. d.project_id == p && d.task_id == task && d.depends_on_task_id == dependency)
        db.task_dependencies)
    where
      chosen :
          (b : Bool)
          → Exclusive q (
              if b then db else (record db {
                task_dependencies =
                    (record { project_id = p; task_id = task; depends_on_task_id = dependency })
                    ∷ db.task_dependencies;
              }))
      chosen true = h
      chosen false = Exclusive-same q db _ refl (λ id. refl) h

  insert_dependencies-Exclusive :
      (task : String) (ds : List String) (db : Db)
      → Exclusive q db
      → Exclusive q (insert_dependencies p task ds db)
  unfolding insert_dependencies
  insert_dependencies-Exclusive task [] db h = h
  insert_dependencies-Exclusive task (d ∷ ds) db h =
      insert_dependencies-Exclusive task ds _ (insert_dependency-Exclusive task d db h)

  link_tasks-Exclusive :
      (tasks : List Task) (db : Db) → Exclusive q db → Exclusive q (link_tasks p tasks db)
  unfolding link_tasks
  link_tasks-Exclusive [] db h = h
  link_tasks-Exclusive (t ∷ tasks) db h =
      link_tasks-Exclusive tasks _ (insert_dependencies-Exclusive t.task_id t.dependencies db h)

  enqueue_existing-Exclusive :
      (t : Task) (o : Option TaskNode) (db : Db)
      → Exclusive q db
      → Commits (λ _. Exclusive q) (enqueue_existing p t o db)
  unfolding enqueue_existing insert_task find_assignment
  enqueue_existing-Exclusive t (some node) db h = Commits-check (λ _. Exclusive q) _ _ db h
  enqueue_existing-Exclusive t none db h =
      Commits-insert (λ _. Exclusive q) _ _ _ db (Exclusive-same q db _ refl (λ id. refl) h)

  enqueue_tasks-Exclusive :
      (tasks : List Task) (db : Db)
      → Exclusive q db
      → Commits (λ _. Exclusive q) (enqueue_tasks p tasks db)
  unfolding enqueue_tasks
  enqueue_tasks-Exclusive [] db h = Commits-return _ tt db h
  enqueue_tasks-Exclusive (t ∷ tasks) db h =
      Commits-bind (λ _. Exclusive q) (λ _. Exclusive q)
        (enqueue_existing p t (find_task p t.task_id db)) (λ _. enqueue_tasks p tasks) db
        (enqueue_existing-Exclusive t _ db h) λ _ after k. enqueue_tasks-Exclusive tasks after k

  enqueue_block-Exclusive :
      (tasks : List Task) (db : Db)
      → Exclusive q db
      → Commits (λ _. Exclusive q) (enqueue_block p tasks db)
  unfolding enqueue_block
  enqueue_block-Exclusive tasks db h = Commits-require _ _ _ _ _ λ state _.
      Commits-bind (λ _. Exclusive q) (λ _. Exclusive q) (enqueue_tasks p tasks) _ db
        (enqueue_tasks-Exclusive tasks db h)
        λ _ after k. Commits-return _ tt _ (link_tasks-Exclusive tasks after k)

  module _ (codec : Codec) (authorize : Json → String → Option (List String)) where
    normalize_task-Exclusive :
        (raw : TaskRequest) (ids : List String) (db : Db)
        → Exclusive q db
        → Exclusive q (normalize_task codec authorize raw ids db).1
    unfolding normalize_task
    normalize_task-Exclusive raw ids db h = keeps_raise_if (Exclusive q) _ _ _ db h (
        keeps_raise_if (Exclusive q) _ _ _ db h (
          keeps_raise_if (Exclusive q) _ _ _ db h (
            keeps_raise_if (Exclusive q) _ _ _ db h (
              keeps_raise_if (Exclusive q) _ _ _ db h
                (keeps_require (Exclusive q) _ _ _ db h λ scope. h)))))

    normalize_tasks-Exclusive :
        (raws : List TaskRequest) (ids : List String) (db : Db)
        → Exclusive q db
        → Exclusive q (normalize_tasks codec authorize raws ids db).1
    unfolding normalize_tasks
    normalize_tasks-Exclusive [] ids db h = h
    normalize_tasks-Exclusive (raw ∷ rest) ids db h =
        keeps_bind (Exclusive q) (normalize_task codec authorize raw ids) _ db
          (normalize_task-Exclusive raw ids db h)
          λ t after k.
            keeps_bind (Exclusive q) (normalize_tasks codec authorize rest (t.task_id ∷ ids)) _
              after (normalize_tasks-Exclusive rest (t.task_id ∷ ids) after k) λ ts last held. held

    pub enqueue_graph-Exclusive :
        (raws : List TaskRequest) (db : Db)
        → Exclusive q db
        → Exclusive q (enqueue_graph p codec authorize raws db).1
    unfolding enqueue_graph
    enqueue_graph-Exclusive [] db h = h
    enqueue_graph-Exclusive (raw ∷ rest) db h =
        keeps_bind (Exclusive q) (normalize_tasks codec authorize (raw ∷ rest) []) _ db
          (normalize_tasks-Exclusive (raw ∷ rest) [] db h)
          λ tasks after k. keeps_raise_if (Exclusive q) _ _ _ after k (
            keeps_raise_if (Exclusive q) _ _ _ after k (
              keeps_of_Commits (Exclusive q) (enqueue_block p tasks) after k
                (enqueue_block-Exclusive tasks after k)))
