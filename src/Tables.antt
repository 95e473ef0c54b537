-- ===== src/Tables.antt =====
-- The queries and inserts that several operations of master_a_dynamic_v4/state_store.py share.
pub mod Lookup
pub mod Insert
use mathlib.Core.List.{◌∷◌}
use model_lib.Prelude.{
  ℕ, none, some, String, Bool, true, false, Option, ◌==◌, string_eq, find_row, exists_row,
  update_rows,
}
use model_lib.Text.{strip}
use model_lib.Tx.{Result, ok, err, write_unless, Body, raise_if, write, select, ◌>>=◌, ◌>>◌}
use model_lib.Schema.{
  Db, Error, integrity_error, timestamp_invalid, timestamp_must_be_timezone_aware,
}
use model_lib.Schema.Rows.{ProjectState, ProjectStatus, complete, hard_blocked, Event}

abbrev pub Action : Type 0 → Type 0
Action A = Body Db Error A

-- SELECT * FROM project_state WHERE project_id=?
unfoldable pub find_project : String → Db → Option ProjectState
find_project project db = find_row (λ r. r.project_id == project) db.project_states

-- UPDATE project_state SET … WHERE project_id=?
unfoldable pub update_project : String → (ProjectState → ProjectState) → Db → Db
update_project project f db = record db {
  project_states = update_rows (λ r. r.project_id == project) f db.project_states;
}

-- `status in {"COMPLETE", "HARD_BLOCKED"}`
abbrev pub is_closed : ProjectStatus → Bool
is_closed complete = true
is_closed hard_blocked = true
is_closed _ = false

-- INSERT INTO events: the key is `event_id`
unfoldable pub insert_event : Event → Action Unit
insert_event e db =
    write_unless (exists_row (λ r. r.event_id == e.event_id) db.events) integrity_error
      (λ d. record d { events = e ∷ d.events }) db

abbrev zoned : Option (Option ℕ) → Result Error ℕ
zoned none = err timestamp_invalid
zoned (some none) = err timestamp_must_be_timezone_aware
zoned (some (some t)) = ok t

-- `_parse_timestamp`. `parse` is `datetime.fromisoformat` where "Z" stands for "+00:00": nothing where that
-- raises, and an instant only where the text has a timezone
unfoldable pub parse_timestamp : (String → Option (Option ℕ)) → String → Result Error ℕ
parse_timestamp parse value = zoned (parse (strip value))
