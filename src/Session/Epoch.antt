-- ===== src/Session/Epoch.antt =====
-- A project's epoch, and what the UPDATEs of one project's row do to the epochs of all.
use model_lib.Prelude.{
  ℕ, ◌+◌, ◌≤◌, String, Bool, true, false, none, some, ◌≡◌, refl, ◌==◌, string_eq, nat_eq, eq_iff,
  if◌then◌else◌, arith,
}
use model_lib.Schema.{Db}
use model_lib.Schema.Rows.{ProjectState}
use model_lib.Tables.{find_project, update_project}
use model_lib.Tables.Lookup.{find_project-update_project}
use model_lib.Session.{raise_epoch, current_epoch}

-- `project_state.master_epoch`, 0 where there is no such project
unfoldable pub epoch_of : String → Db → ℕ
unfolding find_project
epoch_of project db = elim (find_project project db) [ none ↦ 0 | some s ↦ s.master_epoch ]

pub epoch_of_found :
    (p : String) (state : ProjectState) (db : Db)
    → find_project p db ≡ some state
    → epoch_of p db ≡ state.master_epoch
unfolding epoch_of
epoch_of_found p state db found = ground arith

pub epoch_of-update_project :
    (p q : String) (epoch : ℕ) (state : ProjectState) (db : Db)
    → find_project p db ≡ some state
    → epoch_of q (update_project p (λ r. record r { master_epoch = epoch }) db)
      ≡ (if p == q then epoch else epoch_of q db)
unfolding epoch_of
epoch_of-update_project p q epoch state db found = ground (
  arith,
  find_project-update_project p q (λ r. record r { master_epoch = epoch }) (λ r. refl) db,
  eq_iff p q,
)

pub epoch_of-le_update_project :
    (p q : String) (epoch : ℕ) (state : ProjectState) (db : Db)
    → find_project p db ≡ some state
    → state.master_epoch ≤ epoch
    → epoch_of q db ≤ epoch_of q (update_project p (λ r. record r { master_epoch = epoch }) db)
epoch_of-le_update_project p q epoch state db found le = ground (
  arith,
  epoch_of-update_project p q epoch state db found,
  epoch_of_found p state db found,
  eq_iff p q,
)

pub epoch_of-raise_epoch :
    (history : Bool) (p : String) (state : ProjectState) (db : Db)
    → find_project p db ≡ some state
    → epoch_of p (raise_epoch history p (current_epoch history state) db)
      ≡ current_epoch history state
unfolding raise_epoch
epoch_of-raise_epoch false p state db found = epoch_of_found p state db found
epoch_of-raise_epoch true p state db found =
    ground (arith, epoch_of-update_project p p (state.master_epoch + 1) state db found, eq_iff p p)
