-- ===== src/Contract/Immutable.antt =====
-- A contract is created once and never changes.
use mathlib.Core.List.{◌∷◌}
use model_lib.Prelude.{
  String, false, Option, none, some, inl, inr, ◌≡◌, ◌⊎◌, refl, ◌==◌, string_eq, eq_iff, arith,
  if◌then◌else◌, find_row, exists_row,
}
use model_lib.Text.{strip}
use model_lib.Tx.{ok, transaction, ◌>>◌}
use model_lib.Tx.Rules.{
  Commits, Commits-ok, Commits-weaken, Commits-return, Commits-raise, Commits-raise_if,
  Commits-branch, Commits-fetch, Commits-transaction, Commits-write_unless, keeps_of_Commits,
}
use model_lib.Json.{Json, Codec}
use model_lib.Schema.{Db}
use model_lib.Schema.Rows.{Contract, ProjectState}
use model_lib.Tables.{Action, find_project}
use model_lib.Contract.{
  find_contract, insert_contract, insert_project, new_project, contract_sha256_of, new_contract,
  create_existing, create_block, create_contract,
}

Commits-insert_contract :
    {A : Type 0} (P : A → Db → Type 0) (r : Contract) (k : Action A) (db : Db)
    → (exists_row (λ x. x.project_id == r.project_id) db.contracts ≡ false
        → Commits P (k (record db { contracts = r ∷ db.contracts })))
    → Commits P ((insert_contract r >> k) db)
unfolding insert_contract
Commits-insert_contract P r k db h = Commits-write_unless P _ _ _ k db h

Commits-insert_project :
    {A : Type 0} (P : A → Db → Type 0) (r : ProjectState) (k : Action A) (db : Db)
    → (exists_row (λ x. x.project_id == r.project_id) db.project_states ≡ false
        → Commits P (k (record db { project_states = r ∷ db.project_states })))
    → Commits P ((insert_project r >> k) db)
unfolding insert_project
Commits-insert_project P r k db h = Commits-write_unless P _ _ _ k db h

-- the project has this contract and state now, and had none
pub record Founded (p : String) (db : Db) (c : Contract) (after : Db) : Type 0 where
  pub absent : find_contract p db ≡ none
  pub current : find_contract p after ≡ some c
  pub project : find_project p after ≡ some (new_project p)
  pub others :
      (q : String) → find_contract q after ≡ (if p == q then some c else find_contract q db)

-- the contract that was there, with nothing written
abbrev Kept : String → Db → Contract → Db → Type 0
Kept p db c after = (find_contract p db ≡ some c) × (after ≡ db)

module _ (codec : Codec) (p : String) (root acceptance : Json) (db : Db) where
  abbrev pub Settled : Contract → Db → Type 0
  Settled c after =
      (c.contract_sha256 ≡ contract_sha256_of codec p root acceptance)
      × (Kept p db c after ⊎ Founded p db c after)

  abbrev founded_db : Db
  founded_db = record db {
    project_states = new_project p ∷ db.project_states;
    contracts = new_contract codec p root acceptance ∷ db.contracts;
  }

  find_contract-founded :
      (q : String)
      → find_contract q founded_db
        ≡ (if p == q then some (new_contract codec p root acceptance) else find_contract q db)
  unfolding find_contract find_row
  find_contract-founded q = refl

  find_project-founded : find_project p founded_db ≡ some (new_project p)
  unfolding find_project find_row
  find_project-founded = ground (arith, eq_iff p p)

  create_existing-Settled :
      (o : Option Contract)
      → find_contract p db ≡ o
      → Commits Settled (create_existing codec p root acceptance o db)
  unfolding create_existing
  create_existing-Settled (some c) found =
      Commits-branch _ _ _ _ _ (λ _. Commits-raise _ _ _)
        (λ same. Commits-return _ _ _ (
          ground
              (arith, same, eq_iff c.contract_sha256 (contract_sha256_of codec p root acceptance)),
          inl (found, refl),
        ))
  create_existing-Settled none found = Commits-insert_contract _ _ _ _ λ _.
      Commits-insert_project _ _ _ _ λ _. Commits-fetch _ _ _ _ λ c seen. (
        ground (arith, seen, find_contract-founded p, eq_iff p p),
        inr (record {
          absent = found;
          current = seen;
          project = find_project-founded;
          others = λ q. ground (
            arith,
            seen,
            find_contract-founded q,
            find_contract-founded p,
            eq_iff p q,
            eq_iff p p,
          );
        }),
      )

  create_block-Settled : Commits Settled (create_block codec p root acceptance db)
  unfolding create_block
  create_block-Settled =
      Commits-raise_if _ _ _ _ _ λ _. Commits-raise_if _ _ _ _ _ λ _. create_existing-Settled _ refl

-- A creation that returns gives a contract with the hash of the two contracts it was called with: the one
-- the project had, and then nothing is written; or a new one, where the project had none, and then the
-- project is at version 0 and epoch 0.
pub create_contract_lem :
    (codec : Codec) (project_id : String) (root_contract acceptance_contract : Json) (db : Db)
    {c : Contract}
    → (create_contract codec project_id root_contract acceptance_contract db).0 ≡ ok c
    → Settled codec
        (strip project_id)
        root_contract
        acceptance_contract
        db
        c
        (create_contract codec project_id root_contract acceptance_contract db).1
unfolding create_contract
create_contract_lem codec project_id root acceptance db h =
    let p = strip project_id in
    let P : Contract → Db → Type 0 = Settled codec p root acceptance db in
    Commits-ok P (transaction (create_block codec p root acceptance) db)
      (Commits-transaction P (create_block codec p root acceptance) db
        (create_block-Settled codec p root acceptance db))
      h

-- A contract, once there, is never changed by a creation for whatever project and with whatever contracts,
-- which succeeds or raises.
pub create_contract_immutable :
    (codec : Codec) (project project_id : String) (root_contract acceptance_contract : Json)
    (db : Db) (c : Contract)
    → find_contract project db ≡ some c
    → find_contract project
        (create_contract codec project_id root_contract acceptance_contract db).1
      ≡ some c
unfolding create_contract
create_contract_immutable codec project project_id root acceptance db c there =
    keeps_of_Commits (λ after. find_contract project after ≡ some c)
      (create_block codec (strip project_id) root acceptance) db there
      (Commits-weaken _ _ _ (λ d after h. kept d after h.1)
        (create_block-Settled codec (strip project_id) root acceptance db))
  where
    kept :
        (d : Contract) (after : Db)
        → (Kept (strip project_id) db d after ⊎ Founded (strip project_id) db d after)
        → find_contract project after ≡ some c
    kept d after (inl (found, same)) = cc (same, there)
    kept d after (inr h) =
        ground (arith, there, h.absent, h.others project, eq_iff (strip project_id) project)
