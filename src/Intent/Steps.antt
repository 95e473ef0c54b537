-- ===== src/Intent/Steps.antt =====
-- The operations on a prepared intent make the moves of the life cycle.
use model_lib.Prelude.{String, refl, arith, ◌≡◌}
use model_lib.Tx.Rules.{Commits, Commits-raise_if, Commits-require, Commits-fetch}
use model_lib.Json.{Json, Fields, Codec}
use model_lib.Schema.{Db}
use model_lib.Schema.Rows.{
  ActionIntent, IntentState, prepared, may_have_submitted, confirmed_submitted, response_captured,
  verified_not_submitted, blocked_ambiguous,
}
use model_lib.Intent.Machine.{
  Move, submit, block, confirm, disprove, capture, capture_local, is_source, Moves,
  move_intent-Moves, move_intent-Moves_after,
}
use model_lib.Intent.Life.{
  is_submittable, is_confirmable, is_ambiguous, is_in_flight, begin_block, block_block,
  confirm_block, not_submitted_block, capture_block, local_block,
}

-- the guards of the operations are the arrows of the life cycle
source_of_submittable : (s : IntentState) → is_submittable s ≡ is_source submit s
source_of_submittable prepared = refl
source_of_submittable may_have_submitted = refl
source_of_submittable confirmed_submitted = refl
source_of_submittable response_captured = refl
source_of_submittable verified_not_submitted = refl
source_of_submittable blocked_ambiguous = refl

source_of_confirmable :
    (s : IntentState)
    → (is_confirmable s ≡ is_source confirm s) × (is_confirmable s ≡ is_source capture s)
source_of_confirmable prepared = (refl, refl)
source_of_confirmable may_have_submitted = (refl, refl)
source_of_confirmable confirmed_submitted = (refl, refl)
source_of_confirmable response_captured = (refl, refl)
source_of_confirmable verified_not_submitted = (refl, refl)
source_of_confirmable blocked_ambiguous = (refl, refl)

source_of_ambiguous : (s : IntentState) → is_ambiguous s ≡ is_source disprove s
source_of_ambiguous prepared = refl
source_of_ambiguous may_have_submitted = refl
source_of_ambiguous confirmed_submitted = refl
source_of_ambiguous response_captured = refl
source_of_ambiguous verified_not_submitted = refl
source_of_ambiguous blocked_ambiguous = refl

source_of_in_flight : (s : IntentState) → is_in_flight s ≡ is_source capture_local s
source_of_in_flight prepared = refl
source_of_in_flight may_have_submitted = refl
source_of_in_flight confirmed_submitted = refl
source_of_in_flight response_captured = refl
source_of_in_flight verified_not_submitted = refl
source_of_in_flight blocked_ambiguous = refl

abbrev pub Made : Move → String → Db → ActionIntent → Db → Type 0
Made m j db a after = Moves m j db after

pub begin_block-Moves : (j : String) (db : Db) → Commits (Made submit j db) (begin_block j db)
unfolding begin_block
begin_block-Moves j db = Commits-require _ _ _ _ _ λ r found. Commits-raise_if _ _ _ _ _ λ able.
    Commits-fetch _ _ _ _ λ a _.
      move_intent-Moves submit j _ (λ r. refl) (λ r. refl) db r found
        (ground (arith, able, source_of_submittable r.state))

module _ (codec : Codec) (j : String) (db : Db) where
  pub block_block-Moves :
      (why : String) (observation : Json)
      → Commits (Made block j db) (block_block codec j why observation db)
  unfolding block_block
  block_block-Moves why observation = Commits-raise_if _ _ _ _ _ λ _.
      Commits-raise_if _ _ _ _ _ λ _.
        Commits-fetch _ _ _ _
          λ a seen. move_intent-Moves_after block j _ (λ r. refl) (λ r. refl) db a (λ r. refl) seen

  pub confirm_block-Moves :
      (url remote : String) (observation : Fields)
      → Commits (Made confirm j db) (confirm_block codec j url remote observation db)
  unfolding confirm_block
  confirm_block-Moves url remote observation = Commits-raise_if _ _ _ _ _ λ _.
      Commits-require _ _ _ _ _ λ r found. Commits-raise_if _ _ _ _ _ λ able.
        Commits-fetch _ _ _ _ λ a _.
          move_intent-Moves confirm j _ (λ r. refl) (λ r. refl) db r found
            (ground (arith, able, source_of_confirmable r.state))

  pub not_submitted_block-Moves :
      (proof : String) (observation : Fields)
      → Commits (Made disprove j db) (not_submitted_block codec j proof observation db)
  unfolding not_submitted_block
  not_submitted_block-Moves proof observation = Commits-raise_if _ _ _ _ _ λ _.
      Commits-require _ _ _ _ _ λ r found. Commits-raise_if _ _ _ _ _ λ able.
        Commits-fetch _ _ _ _ λ a _.
          move_intent-Moves disprove j _ (λ r. refl) (λ r. refl) db r found
            (ground (arith, able, source_of_ambiguous r.state))

  pub capture_block-Moves :
      (response : Json) (url remote : String) (observation : Fields)
      → Commits (Made capture j db) (capture_block codec j response url remote observation db)
  unfolding capture_block
  capture_block-Moves response url remote observation = Commits-raise_if _ _ _ _ _ λ _.
      Commits-raise_if _ _ _ _ _ λ _. Commits-require _ _ _ _ _ λ r found.
        Commits-raise_if _ _ _ _ _ λ able. Commits-fetch _ _ _ _ λ a _.
          move_intent-Moves capture j _ (λ r. refl) (λ r. refl) db r found
            (ground (arith, able, source_of_confirmable r.state))

  pub local_block-Moves :
      (receipt observation : Json)
      → Commits (Made capture_local j db) (local_block codec j receipt observation db)
  unfolding local_block
  local_block-Moves receipt observation = Commits-raise_if _ _ _ _ _ λ _.
      Commits-raise_if _ _ _ _ _ λ _. Commits-require _ _ _ _ _ λ r found.
        Commits-raise_if _ _ _ _ _ λ _. Commits-raise_if _ _ _ _ _ λ able.
          Commits-fetch _ _ _ _ λ a _.
            move_intent-Moves capture_local j _ (λ r. refl) (λ r. refl) db r found
              (ground (arith, able, source_of_in_flight r.state))
