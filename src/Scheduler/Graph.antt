-- ===== src/Scheduler/Graph.antt =====
-- `enqueue_graph` of master_a_dynamic_v4/scheduler.py. `authorize` is `PathPolicy.authorize`, `none` where
-- it raises. The search visits the dependencies of a task in the order of its list, where the program
-- takes the order of a set.
pub mod Order
pub mod Search
pub mod Acyclic
use Prim.Native.Char.{code}
use mathlib.Core.List.{[], ◌∷◌}
use model_lib.Prelude.{
  ℕ, zero, suc, ◌+◌, String, Bool, true, false, not, ◌&&◌, ◌||◌, Option, none, some, List, map,
  ◌==◌, string_eq, nat_eq, ltb, if◌then◌else◌, length, find_row, exists_row, member, no_repeats,
}
use model_lib.Text.{strip, is_empty}
use model_lib.Tx.{
  branch, Result, return, raise, raise_if, write, write_unless, select, require, transaction, ◌>>=◌,
  ◌>>◌,
}
use model_lib.Json.{Json, null, flag, num, str, arr, nil, obj, end, Codec, is_mapping, text_or}
use model_lib.Schema.{
  Db, Error, integrity_error, project_not_found, task_graph_empty, task_context_invalid,
  task_context_too_large, task_id_invalid_or_duplicate, task_objective_sha256_invalid,
  task_dependencies_invalid, task_dependency_not_in_graph, task_dependency_cycle, path_refused,
  task_identity_conflict,
}
use model_lib.Schema.Tasks.{TaskNode, TaskDependency, TaskState}
use model_lib.Tables.{Action, find_project}
use model_lib.Evidence.{is_hex}
use model_lib.Scheduler.{find_task}

-- `len(text.encode("utf-8"))`
unfoldable pub utf8_length : String → ℕ
utf8_length String.[] = 0
utf8_length (String.◌∷◌ c text) =
    (if ltb (code c) 128
      then 1
      else if ltb (code c) 2048
      then 2
      else if ltb (code c) 65536
      then 3
      else 4)
    + utf8_length text

-- one mapping of the graph: `null` for a key that is missing, or the default that the code names; the
-- dependencies as `str` gives them
pub record TaskRequest : Type 0 where
  pub task_id : Json
  pub objective_sha256 : Json
  pub access_mode : Json
  pub dependencies : List String
  pub task_context : Json
  pub resource_scope : Json
  pub required : Json

-- an entry of `normalized`
pub record Task : Type 0 where
  pub task_id : String
  pub objective_sha256 : String
  pub resource_scope : List String
  pub task_context_json : String
  pub access_mode : String
  pub dependencies : List String
  pub required : Bool

-- the truth value of a JSON value
abbrev pub is_truthy : Json → Bool
is_truthy null = false
is_truthy (flag b) = b
is_truthy (num n) = ltb 0 n
is_truthy (str s) = not (is_empty s)
is_truthy (arr nil) = false
is_truthy (obj end) = false
is_truthy _ = true

module _ (codec : Codec) (authorize : Json → String → Option (List String)) where
  -- one iteration of the first `for`; `ids` are those of the tasks before
  unfoldable pub normalize_task : TaskRequest → List String → Action Task
  normalize_task raw ids = do
    let task_id = strip (text_or codec "" raw.task_id)
    let objective = codec.lower (strip (text_or codec "" raw.objective_sha256))
    let access_mode = codec.lower (strip (text_or codec "write" raw.access_mode))
    let dependencies = map strip raw.dependencies
    raise_if (not (is_mapping raw.task_context)) task_context_invalid
    let context = codec.canonical_json raw.task_context
    raise_if (ltb 65536 (utf8_length context)) task_context_too_large
    raise_if (is_empty task_id || member task_id ids) task_id_invalid_or_duplicate
    raise_if (not (is_hex 64 objective)) task_objective_sha256_invalid
    raise_if (member task_id dependencies || not (no_repeats dependencies))
        task_dependencies_invalid
    scope ← require (authorize raw.resource_scope access_mode) path_refused
    return (record {
      task_id = task_id;
      objective_sha256 = objective;
      resource_scope = scope;
      task_context_json = context;
      access_mode = access_mode;
      dependencies = dependencies;
      required = is_truthy raw.required;
    })

  unfoldable pub normalize_tasks : List TaskRequest → List String → Action (List Task)
  normalize_tasks [] ids = return []
  normalize_tasks (raw ∷ rest) ids = do
    task ← normalize_task raw ids
    tasks ← normalize_tasks rest (task.task_id ∷ ids)
    return (task ∷ tasks)

abbrev pub ids_of : List Task → List String
ids_of tasks = map (λ t. t.task_id) tasks

-- `any(dependency not in ids for dependency in dependencies)`
abbrev pub has_stranger : List String → List String → Bool
has_stranger ids dependencies = exists_row (λ d. not (member d ids)) dependencies

-- `graph[task_id]`
unfoldable pub dependencies_of : List Task → String → List String
dependencies_of [] id = []
dependencies_of (t ∷ tasks) id =
    if t.task_id == id then t.dependencies else dependencies_of tasks id

-- how `visit` ends: with `visited`, or by raising
pub data Visit : Type 0 where
  done : List String → Visit
  cycle : Visit
  out_of_fuel : Visit

-- the statements after a call, which an exception skips
abbrev pub and_then : Visit → (List String → Visit) → Visit
and_then (done v) f = f v
and_then cycle f = cycle
and_then out_of_fuel f = out_of_fuel

-- `for dependency in …: visit(dependency)`
unfoldable pub visit_each : (String → List String → Visit) → List String → List String → Visit
visit_each go [] visited = done visited
visit_each go (d ∷ ds) visited = and_then (go d visited) λ v. visit_each go ds v

-- `visit`; `visiting` are the calls that have not returned
unfoldable pub visit : (String → List String) → ℕ → List String → String → List String → Visit
visit deps zero visiting id visited = out_of_fuel
visit deps (suc fuel) visiting id visited = elim (member id visiting) [
  | true ↦ cycle
  | false ↦ elim (member id visited) [
    | true ↦ done visited
    | false ↦
        and_then (visit_each (visit deps fuel (id ∷ visiting)) (deps id) visited) λ v. done (id ∷ v)
  ]
]

-- the search from every task; one call for each task can be open at once
unfoldable pub search_cycle : List Task → Visit
search_cycle tasks =
    visit_each (visit (dependencies_of tasks) (suc (length tasks)) []) (ids_of tasks) []

abbrev pub is_done_visit : Visit → Bool
is_done_visit (done v) = true
is_done_visit _ = false

abbrev pub same_list : List String → List String → Bool
same_list [] [] = true
same_list [] (y ∷ ys) = false
same_list (x ∷ xs) [] = false
same_list (x ∷ xs) (y ∷ ys) = x == y && same_list xs ys

abbrev pub same_bool : Bool → Bool → Bool
same_bool true b = b
same_bool false b = not b

-- `actual == identity`
abbrev pub same_task : TaskNode → Task → Bool
same_task node t =
    node.objective_sha256 == t.objective_sha256
    && same_list node.resource_scope t.resource_scope
    && node.task_context_json == t.task_context_json
    && node.access_mode == t.access_mode
    && same_bool node.required t.required

module _ (project : String) where
  abbrev pub new_node : Task → TaskNode
  new_node t = record {
    project_id = project;
    task_id = t.task_id;
    objective_sha256 = t.objective_sha256;
    resource_scope = t.resource_scope;
    task_context_json = t.task_context_json;
    access_mode = t.access_mode;
    required = t.required;
    state = TaskState.queued;
    result_sha256 = none;
  }

  -- INSERT INTO task_nodes: the key is the project and the task
  unfoldable pub insert_task : TaskNode → Action Unit
  insert_task node db =
      write_unless
        (exists_row (λ n. n.project_id == node.project_id && n.task_id == node.task_id)
          db.task_nodes)
        integrity_error (λ d. record d { task_nodes = node ∷ d.task_nodes }) db

  unfoldable pub enqueue_existing : Task → Option TaskNode → Action Unit
  enqueue_existing t (some node) = raise_if (not (same_task node t)) task_identity_conflict
  enqueue_existing t none = insert_task (new_node t)

  unfoldable pub enqueue_tasks : List Task → Action Unit
  enqueue_tasks [] = return tt
  enqueue_tasks (t ∷ tasks) = do
    existing ← select (find_task project t.task_id)
    enqueue_existing t existing
    enqueue_tasks tasks

  -- INSERT OR IGNORE INTO task_dependencies
  unfoldable pub insert_dependency : String → String → Db → Db
  insert_dependency task dependency db =
      if exists_row
        (λ d. d.project_id == project && d.task_id == task && d.depends_on_task_id == dependency)
        db.task_dependencies
      then db
      else (record db {
        task_dependencies =
            (record { project_id = project; task_id = task; depends_on_task_id = dependency })
            ∷ db.task_dependencies;
      })

  unfoldable pub insert_dependencies : String → List String → Db → Db
  insert_dependencies task [] db = db
  insert_dependencies task (d ∷ ds) db = insert_dependencies task ds (insert_dependency task d db)

  unfoldable pub link_tasks : List Task → Db → Db
  link_tasks [] db = db
  link_tasks (t ∷ tasks) db = link_tasks tasks (insert_dependencies t.task_id t.dependencies db)

  unfoldable pub enqueue_block : List Task → Action Unit
  enqueue_block tasks = do
    found ← select (find_project project)
    state ← require found project_not_found
    enqueue_tasks tasks
    write (link_tasks tasks)

  unfoldable pub enqueue_graph :
      Codec
      → (Json → String → Option (List String))
      → List TaskRequest
      → Db
      → Result Error Unit × Db
  enqueue_graph codec authorize [] = raise task_graph_empty
  enqueue_graph codec authorize (raw ∷ rest) = do
    tasks ← normalize_tasks codec authorize (raw ∷ rest) []
    raise_if (exists_row (λ t. has_stranger (ids_of tasks) t.dependencies) tasks)
        task_dependency_not_in_graph
    raise_if (not (is_done_visit (search_cycle tasks))) task_dependency_cycle
    transaction (enqueue_block tasks)
