-- ===== src/Samples.antt =====
-- A small database and the theorems at work on it: a project "p" under epoch 1, its sessions "s1" and
-- "s2", and a transition "t1". The printing of JSON is a simple one, the hash is the text itself.
pub mod Printer
mod Sessions
mod Commits
mod Intents
mod Receipts
mod Reviews
mod Bindings
mod Daemons
mod Stamps
mod Workers
mod Turns
mod Completion
use mathlib.Core.List.{[], ◌∷◌}
use model_lib.Prelude.{none, ℕ, ◌*◌}
use model_lib.Json.{Json, str, obj, end, field}
use model_lib.Schema.{Db, empty}
use model_lib.Schema.Rows.{ProjectState, ProjectStatus}

abbrev pub project : ProjectState
project = record {
  project_id = "p";
  state_version = 0;
  master_epoch = 1;
  status = ProjectStatus.active;
  phase = "plan";
  completion_candidate_commit = none;
}

abbrev pub project_db : Db
project_db = record empty { project_states = project ∷ [] }

abbrev pub seconds : ℕ → ℕ
seconds n = n * 1000000

abbrev pub set_phase : Json
set_phase = obj (
    field "project_id" (str "p") (field "kind" (str "SET_PHASE") (field "phase" (str "build") end)))
