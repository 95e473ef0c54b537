-- ===== src/Tables/Insert.antt =====
-- The proof rule of the insertion of an event.
use mathlib.Core.List.{◌∷◌}
use model_lib.Prelude.{◌≡◌, false, ◌==◌, string_eq, exists_row}
use model_lib.Tx.{◌>>◌}
use model_lib.Tx.Rules.{Commits, Commits-write_unless}
use model_lib.Schema.{Db}
use model_lib.Schema.Rows.{Event}
use model_lib.Tables.{Action, insert_event}

pub Commits-insert_event :
    {A : Type 0} (P : A → Db → Type 0) (e : Event) (k : Action A) (db : Db)
    → (exists_row (λ r. r.event_id == e.event_id) db.events ≡ false
        → Commits P (k (record db { events = e ∷ db.events })))
    → Commits P ((insert_event e >> k) db)
unfolding insert_event
Commits-insert_event P e k db h = Commits-write_unless P _ _ _ k db h
