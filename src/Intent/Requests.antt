-- ===== src/Intent/Requests.antt =====
-- Sequences of requests to the store about intents: every interleaving of callers is one, since each
-- request is a transaction of its own.
use mathlib.Core.List.{List, [], ◌∷◌}
use model_lib.Text.{strip}
use model_lib.Prelude.{String, Bool, true, false, ◌≡◌, ◌⊎◌, inl, inr, refl}
use model_lib.Tx.{Result, ok, err, settle, transaction}
use model_lib.Tx.Rules.{Commits, OnOk}
use model_lib.Json.{Json, Fields, Codec}
use model_lib.Schema.{Db, Error}
use model_lib.Tables.{Action}
use model_lib.Intent.{prepare_block, prepare_intent}
use model_lib.Intent.Machine.{submit, block, confirm, disprove, capture, capture_local, Moves}
use model_lib.Intent.Created.{prepare_block-Prepares, Prepares, Finalized, finalize_block-Finalized}
use model_lib.Intent.Steps.{
  begin_block-Moves, block_block-Moves, confirm_block-Moves, not_submitted_block-Moves,
  capture_block-Moves, local_block-Moves,
}
use model_lib.Intent.Life.{
  begin_block, block_block, confirm_block, not_submitted_block, capture_block, local_block,
  finalize_block, begin_possible_submit, block_intent, confirm_submitted,
  mark_verified_not_submitted, capture_response, capture_local_execution, finalize_intent,
}

-- a call with its arguments
pub data Request : Type 0 where
  prepare : (project intent actor channel action : String) (payload : Json) → Request
  begin_submit : String → Request
  block_it : (intent reason : String) (observation : Json) → Request
  confirm_it : (intent url remote : String) (observation : Fields) → Request
  disprove_it : (intent proof : String) (observation : Fields) → Request
  capture_it :
      (intent : String) (response : Json) (url remote : String) (observation : Fields) → Request
  capture_local_it : (intent : String) (receipt observation : Json) → Request
  finalize : String → Request

-- whether the call returned, and the database after it
abbrev pub answer {ℓ} : {A : Type ℓ} {E : Type ℓ} → Result E A × Db → Bool × Db
answer (ok a, db) = (true, db)
answer (err e, db) = (false, db)

unfoldable pub perform : Codec → Request → Db → Bool × Db
perform codec (prepare project intent actor channel action payload) db =
    answer (prepare_intent codec project intent actor channel action payload db)
perform codec (begin_submit intent) db = answer (begin_possible_submit intent db)
perform codec (block_it intent reason observation) db =
    answer (block_intent codec intent reason observation db)
perform codec (confirm_it intent url remote observation) db =
    answer (confirm_submitted codec intent url remote observation db)
perform codec (disprove_it intent proof observation) db =
    answer (mark_verified_not_submitted codec intent proof observation db)
perform codec (capture_it intent response url remote observation) db =
    answer (capture_response codec intent response url remote observation db)
perform codec (capture_local_it intent receipt observation) db =
    answer (capture_local_execution codec intent receipt observation db)
perform codec (finalize intent) db = answer (finalize_intent intent db)

unfoldable pub run : Codec → List Request → Db → Db
run codec [] db = db
run codec (r ∷ rs) db = run codec rs (perform codec r db).1

-- what a call that returned has done
abbrev pub Effect : Codec → Request → Db → Db → Type 0
Effect codec (prepare project intent actor channel action payload) db after =
    Prepares codec project (strip intent) (strip actor) (strip channel) (strip action) payload db
      after
Effect codec (begin_submit intent) db after = Moves submit intent db after
Effect codec (block_it intent reason observation) db after = Moves block intent db after
Effect codec (confirm_it intent url remote observation) db after = Moves confirm intent db after
Effect codec (disprove_it intent proof observation) db after = Moves disprove intent db after
Effect codec (capture_it intent response url remote observation) db after =
    Moves capture intent db after
Effect codec (capture_local_it intent receipt observation) db after =
    Moves capture_local intent db after
Effect codec (finalize intent) db after = Finalized intent db after

-- a call is refused and changes nothing, or it returns and has its effect
abbrev pub Performed : (Db → Type 0) → Db → Bool × Db → Type 0
Performed P db (returned, after) =
    ((returned ≡ false) × (after ≡ db)) ⊎ ((returned ≡ true) × P after)

settled :
    {A : Type 0} (P : Db → Type 0) (r : Result Error A) (db after : Db)
    → OnOk (λ _. P) r after
    → Performed P db (answer (settle r db after))
settled P (ok a) db after h = inr (refl, h)
settled P (err e) db after h = inl (refl, refl)

answered :
    {A : Type 0} (P : Db → Type 0) (body : Action A) (db : Db)
    → Commits (λ _. P) (body db)
    → Performed P db (answer (transaction body db))
answered P body db h = settled P (body db).0 db (body db).1 h.committed

-- A call about an intent is refused and then changes nothing at all, or it returns. After a preparation
-- that returns the intent is there with the project, actor, channel, action and payload hash asked for, and
-- either nothing changed or the intent and its outbox row were added; another call that returns makes its
-- move along an arrow of the life cycle, or completes the outbox row of a captured intent; and every other
-- intent and its outbox row are as they were.
pub perform-Performed :
    (codec : Codec) (r : Request) (db : Db) → Performed (Effect codec r db) db (perform codec r db)
unfolding perform prepare_intent begin_possible_submit block_intent confirm_submitted
    mark_verified_not_submitted capture_response capture_local_execution finalize_intent
perform-Performed codec (prepare project intent actor channel action payload) db =
    answered _
      (prepare_block codec project (strip intent) (strip actor) (strip channel) (strip action)
        payload)
      db
      (prepare_block-Prepares codec project (strip intent) (strip actor) (strip channel)
        (strip action) payload db)
perform-Performed codec (begin_submit intent) db =
    answered _ (begin_block intent) db (begin_block-Moves intent db)
perform-Performed codec (block_it intent reason observation) db =
    answered _ (block_block codec intent (strip reason) observation) db
      (block_block-Moves codec intent db (strip reason) observation)
perform-Performed codec (confirm_it intent url remote observation) db =
    answered _ (confirm_block codec intent (strip url) (strip remote) observation) db
      (confirm_block-Moves codec intent db (strip url) (strip remote) observation)
perform-Performed codec (disprove_it intent proof observation) db =
    answered _ (not_submitted_block codec intent (strip proof) observation) db
      (not_submitted_block-Moves codec intent db (strip proof) observation)
perform-Performed codec (capture_it intent response url remote observation) db =
    answered _ (capture_block codec intent response (strip url) (strip remote) observation) db
      (capture_block-Moves codec intent db response (strip url) (strip remote) observation)
perform-Performed codec (capture_local_it intent receipt observation) db =
    answered _ (local_block codec intent receipt observation) db
      (local_block-Moves codec intent db receipt observation)
perform-Performed codec (finalize intent) db =
    answered _ (finalize_block intent) db (finalize_block-Finalized intent db)
