-- ===== src/Binding.antt =====
-- Which browser conversation a channel of a project stands for: `rebind_browser` of
-- master_a_dynamic_v4/state_store.py.
pub mod Provenance
use mathlib.Core.List.{◌∷◌}
use model_lib.Prelude.{
  ℕ, ◌+◌, String, Bool, true, false, not, ◌&&◌, ◌||◌, Option, none, some, ◌==◌, string_eq, find_row,
  exists_row, update_rows,
}
use model_lib.Text.{strip, is_empty, starts_with}
use model_lib.Tx.{
  branch, Result, return, raise_if, write, write_unless, select, require, transaction, ◌>>=◌, ◌>>◌,
}
use model_lib.Json.{Json, Codec, is_nonempty_mapping}
use model_lib.Schema.{
  Db, Error, integrity_error, browser_binding_invalid, initial_binding_provenance_invalid,
  browser_binding_actor_changed, rebind_provenance_required,
}
use model_lib.Schema.Rows.{BrowserBinding}
use model_lib.Tables.{Action}

abbrev pub is_binding_of : String → String → BrowserBinding → Bool
is_binding_of project channel r = r.project_id == project && r.channel == channel

unfoldable pub find_binding : String → String → Db → Option BrowserBinding
find_binding project channel db = find_row (is_binding_of project channel) db.browser_bindings

-- INSERT INTO browser_bindings: the key, and the reference to the project's contract
unfoldable pub insert_binding : BrowserBinding → Action Unit
insert_binding r db =
    write_unless
      (exists_row (is_binding_of r.project_id r.channel) db.browser_bindings
        || not (exists_row (λ c. c.project_id == r.project_id) db.contracts))
      integrity_error (λ d. record d { browser_bindings = r ∷ d.browser_bindings }) db

-- `predecessor_url != url`, where the predecessor may be None
abbrev pub is_predecessor : String → Option String → Bool
is_predecessor url none = false
is_predecessor url (some p) = p == url

abbrev pub is_given : Option String → Bool
is_given none = false
is_given (some p) = true

module _ (codec : Codec) (project channel actor url : String) (predecessor_url : Option String)
    (why : String) (evidence : Json) where
  abbrev pub first_binding : BrowserBinding
  first_binding = record {
    project_id = project;
    channel = channel;
    actor_id = actor;
    conversation_url = url;
    generation = 0;
    predecessor_url = none;
    rebind_reason = why;
    evidence_json = codec.canonical_json evidence;
  }

  abbrev pub rebound : BrowserBinding → BrowserBinding
  rebound r = record r {
    conversation_url = url;
    generation = r.generation + 1;
    predecessor_url = predecessor_url;
    rebind_reason = why;
    evidence_json = codec.canonical_json evidence;
  }

  -- UPDATE browser_bindings SET … WHERE project_id=? AND channel=?
  unfoldable pub update_binding : Db → Db
  update_binding db = record db {
    browser_bindings = update_rows (is_binding_of project channel) rebound db.browser_bindings;
  }

  -- the last SELECT finds the row, so that its error never arises
  unfoldable pub rebind_existing : Option BrowserBinding → Action BrowserBinding
  rebind_existing none = do
    raise_if (is_given predecessor_url || is_empty why) initial_binding_provenance_invalid
    insert_binding first_binding
    after ← select (find_binding project channel)
    require after browser_binding_invalid
  rebind_existing (some e) = do
    raise_if (not (e.actor_id == actor)) browser_binding_actor_changed
    branch (e.conversation_url == url) (return e) (do
      raise_if (not (is_predecessor e.conversation_url predecessor_url) || is_empty why)
          rebind_provenance_required
      write update_binding
      after ← select (find_binding project channel)
      require after browser_binding_invalid)

  unfoldable pub rebind_block : Action BrowserBinding
  rebind_block = do
    raise_if
        (is_empty actor
          || not (starts_with "https://chatgpt.com/c/" url)
          || not (is_nonempty_mapping evidence))
        browser_binding_invalid
    existing ← select (find_binding project channel)
    rebind_existing existing

unfoldable pub rebind_browser :
    Codec
    → String
    → String
    → String
    → String
    → Option String
    → String
    → Json
    → Db
    → Result Error BrowserBinding × Db
rebind_browser codec project_id channel actor_id conversation_url predecessor_url reason evidence =
    transaction (
      rebind_block codec project_id channel (strip actor_id) (strip conversation_url)
        predecessor_url (strip reason) evidence)
