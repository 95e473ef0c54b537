-- ===== src/Tables/Lookup.antt =====
-- What an UPDATE of one project's row does to the lookups of `project_state`.
use mathlib.Core.Option
use model_lib.Prelude.{
  String, Option, none, some, ◌≡◌, refl, ◌∙◌, ap, ◌==◌, string_eq, eq_iff, if◌then◌else◌, arith,
  find_row, find_row-holds, find_row-update_rows,
}
use model_lib.Schema.{Db}
use model_lib.Schema.Rows.{ProjectState}
use model_lib.Tables.{find_project, update_project}

module _ (p q : String) (f : ProjectState → ProjectState)
    (keyed : (r : ProjectState) → (f r).project_id ≡ r.project_id) where
  chosen :
      (o : Option ProjectState)
      → ((r : ProjectState) → o ≡ some r → r.project_id ≡ q)
      → Option.map (λ r. if r.project_id == p then f r else r) o
        ≡ (if p == q then Option.map f o else o)
  chosen none h = ground arith
  chosen (some r) h = ground (arith, h r refl, eq_iff r.project_id p, eq_iff p q)

  pub find_project-update_project :
      (db : Db)
      → find_project q (update_project p f db)
        ≡ (if p == q then Option.map f (find_project q db) else find_project q db)
  unfolding find_project update_project
  find_project-update_project db =
      find_row-update_rows (λ r. r.project_id == q) (λ r. r.project_id == p) f db.project_states
        (λ r. ap (λ (t : String). t == q) (keyed r))
      ∙ chosen (find_row (λ r. r.project_id == q) db.project_states) (λ r found.
        (eq_iff r.project_id q).0 (find_row-holds (λ r. r.project_id == q) db.project_states found))
