-- ===== src/Intent/Created.antt =====
-- What `prepare_intent` and `finalize_intent` do to the rows of an intent.
use mathlib.Core.List.{List, [], ◌∷◌}
use mathlib.Core.Option
use model_lib.Prelude.{
  String, Bool, true, false, ◌||◌, Option, none, some, ◌≡◌, ◌⊎◌, inl, inr, refl, ◌==◌, string_eq,
  eq_iff, arith, find_row, exists_row, find_row-none_of_exists,
}
use model_lib.Tx.{◌>>◌}
use model_lib.Tx.Rules.{
  Commits, Commits-return, Commits-raise, Commits-raise_if, Commits-require, Commits-branch,
  Commits-fetch, Commits-write_unless,
}
use model_lib.Json.{Json, Codec, sha256_json}
use model_lib.Schema.{Db}
use model_lib.Schema.Rows.{ActionIntent, Outbox, prepared, pending, completed}
use model_lib.Tables.{Action}
use model_lib.Intent.{
  find_intent, find_outbox, insert_intent, insert_outbox, new_intent, same_identity,
  prepare_existing, prepare_block,
}
use model_lib.Intent.Life.{is_captured, finalize_block}
use model_lib.Intent.Machine.{
  KeepsOthers, set_outbox, find_intent-update_outbox, find_outbox-update_outbox,
}

-- intent `j` and its outbox row are new, and every other intent is as it was
pub record Created (j : String) (db after : Db) : Type 0 where
  pub absent : find_intent j db ≡ none
  pub no_outbox : find_outbox j db ≡ none
  pub new : ActionIntent
  pub now : find_intent j after ≡ some new
  pub state : new.state ≡ prepared
  pub row : Outbox
  pub outbox : find_outbox j after ≡ some row
  pub outbox_state : row.state ≡ pending
  pub others : KeepsOthers j db after

Commits-insert_intent :
    {A : Type 0} (P : A → Db → Type 0) (r : ActionIntent) (k : Action A) (db : Db)
    → (exists_row (λ x. x.intent_id == r.intent_id) db.action_intents ≡ false
        → Commits P (k (record db { action_intents = r ∷ db.action_intents })))
    → Commits P ((insert_intent r >> k) db)
unfolding insert_intent
Commits-insert_intent P r k db h = Commits-write_unless P _ _ _ k db h

Commits-insert_outbox :
    {A : Type 0} (P : A → Db → Type 0) (r : Outbox) (k : Action A) (db : Db)
    → (exists_row (λ x. x.outbox_id == r.outbox_id || x.intent_id == r.intent_id) db.outbox ≡ false
        → Commits P (k (record db { outbox = r ∷ db.outbox })))
    → Commits P ((insert_outbox r >> k) db)
unfolding insert_outbox
Commits-insert_outbox P r k db h = Commits-write_unless P _ _ _ k db h

no_outbox_row :
    (j : String) (k : Outbox → Bool) (xs : List Outbox)
    → exists_row (λ x. k x || x.intent_id == j) xs ≡ false
    → find_row (λ x. x.intent_id == j) xs ≡ none
unfolding exists_row find_row
no_outbox_row j k [] h = refl
no_outbox_row j k (x ∷ xs) h = ground (arith, no_outbox_row j k xs)

find_intent-inserted :
    (r : ActionIntent) (rows : List Outbox) (db : Db)
    → find_intent r.intent_id (record db { outbox = rows; action_intents = r ∷ db.action_intents })
      ≡ some r
unfolding find_intent find_row
find_intent-inserted r rows db = ground (arith, eq_iff r.intent_id r.intent_id)

inserted :
    (r : ActionIntent) (o : Outbox) (db : Db)
    → exists_row (λ x. x.intent_id == r.intent_id) db.action_intents ≡ false
    → exists_row (λ x. x.outbox_id == o.outbox_id || x.intent_id == o.intent_id) db.outbox ≡ false
    → o.intent_id ≡ r.intent_id
    → r.state ≡ prepared
    → o.state ≡ pending
    → Created r.intent_id db
        (record db { outbox = o ∷ db.outbox; action_intents = r ∷ db.action_intents })
unfolding find_intent find_outbox find_row
inserted r o db free free_outbox same is_prepared is_pending = record {
  absent = find_row-none_of_exists (λ x. x.intent_id == r.intent_id) db.action_intents free;
  no_outbox =
      no_outbox_row r.intent_id (λ x. x.outbox_id == o.outbox_id) db.outbox
        (rw same at free_outbox);
  new = r;
  now = find_intent-inserted r (o ∷ db.outbox) db;
  state = is_prepared;
  row = o;
  outbox = ground (arith, same, eq_iff o.intent_id r.intent_id);
  outbox_state = is_pending;
  others = λ i. (
    ground (arith, eq_iff r.intent_id i, eq_iff i r.intent_id),
    ground (arith, same, eq_iff o.intent_id i, eq_iff i r.intent_id),
  );
}

-- intent `j` is there, and it is what was asked for
pub record Asked (codec : Codec) (project j actor channel action : String) (payload : Json)
    (db : Db) : Type 0 where
  pub row : ActionIntent
  pub found : find_intent j db ≡ some row
  pub project_id : row.project_id ≡ project
  pub actor_id : row.actor_id ≡ actor
  pub channel_of : row.channel ≡ channel
  pub action_kind : row.action_kind ≡ action
  pub payload_sha256 : row.payload_sha256 ≡ sha256_json codec payload

module _ (codec : Codec) (project j actor channel action : String) (payload : Json) (db : Db) where
  -- what a preparation that returns has done
  abbrev pub Prepares : Db → Type 0
  Prepares after =
      ((after ≡ db) ⊎ Created j db after) × Asked codec project j actor channel action payload after

  same_identity-Asked :
      (r : ActionIntent)
      → find_intent j db ≡ some r
      → same_identity codec project actor channel action (sha256_json codec payload) r ≡ true
      → Asked codec project j actor channel action payload db
  same_identity-Asked r found same = record {
    row = r;
    found = found;
    project_id = ground (arith, same, eq_iff r.project_id project);
    actor_id = ground (arith, same, eq_iff r.actor_id actor);
    channel_of = ground (arith, same, eq_iff r.channel channel);
    action_kind = ground (arith, same, eq_iff r.action_kind action);
    payload_sha256 = ground (arith, same, eq_iff r.payload_sha256 (sha256_json codec payload));
  }

  prepare_existing-Prepares :
      (o : Option ActionIntent)
      → find_intent j db ≡ o
      → Commits (λ _. Prepares) (prepare_existing codec project j actor channel action payload o db)
  unfolding prepare_existing
  prepare_existing-Prepares (some r) found =
      Commits-branch _ _ _ _ _ (λ _. Commits-raise _ _ _)
        (λ same.
          Commits-return _ _ _ (inl refl, same_identity-Asked r found (ground (arith, same))))
  prepare_existing-Prepares none found = Commits-insert_intent _ _ _ _ λ free.
      Commits-insert_outbox _ _ _ _ λ free_outbox. Commits-fetch _ _ _ _ λ a _. (
        inr (inserted _ _ db free free_outbox refl refl refl),
        record {
          row = new_intent codec project j actor channel action payload;
          found =
              find_intent-inserted (new_intent codec project j actor channel action payload) _ db;
          project_id = refl;
          actor_id = refl;
          channel_of = refl;
          action_kind = refl;
          payload_sha256 = refl;
        },
      )

  pub prepare_block-Prepares :
      Commits (λ _. Prepares) (prepare_block codec project j actor channel action payload db)
  unfolding prepare_block
  prepare_block-Prepares =
      Commits-raise_if _ _ _ _ _
        λ _. Commits-require _ _ _ _ _ λ state _. prepare_existing-Prepares _ refl

-- the outbox row of intent `j`, whose response is captured, is completed
pub record Finalized (j : String) (db after : Db) : Type 0 where
  pub old : ActionIntent
  pub found : find_intent j db ≡ some old
  pub source : is_captured old.state ≡ true
  pub intents : (i : String) → find_intent i after ≡ find_intent i db
  pub outbox : find_outbox j after ≡ Option.map (set_outbox completed) (find_outbox j db)
  pub others : KeepsOthers j db after

pub finalize_block-Finalized :
    (j : String) (db : Db) → Commits (λ _. Finalized j db) (finalize_block j db)
unfolding finalize_block
finalize_block-Finalized j db = Commits-require _ _ _ _ _ λ r found.
    Commits-raise_if _ _ _ _ _ λ able. Commits-return _ _ _ (record {
      old = r;
      found = found;
      source = ground (arith, able);
      intents = λ i. find_intent-update_outbox i j completed db;
      outbox = ground (arith, find_outbox-update_outbox j j completed db, eq_iff j j);
      others = λ i. (
        ground (
          arith,
          find_intent-update_outbox i j completed db,
          find_intent-update_outbox j j completed db,
          eq_iff i j,
        ),
        ground (arith, find_outbox-update_outbox i j completed db, eq_iff i j),
      );
    })
