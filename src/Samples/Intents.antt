-- ===== src/Samples/Intents.antt =====
-- Intent "i1" is prepared, submitted, proved not to have been submitted, and submitted again.
use mathlib.Core.List.{List, [], ◌∷◌}
use model_lib.Prelude.{◌≡◌, ◌≤◌, ◌+◌, refl, find_row, exists_row, count_rows, update_rows}
use model_lib.Text.{strip, is_empty}
use model_lib.Tx.{tx_steps}
use model_lib.Json.{Json, obj, str, field, end, set_field, sha256_json}
use model_lib.Schema.{Db}
use model_lib.Tables.{find_project}
use model_lib.Intent.{
  find_intent, find_outbox, update_intent, update_outbox, move_intent, insert_intent, insert_outbox,
  prepare_existing, prepare_block, prepare_intent,
}
use model_lib.Intent.Life.{
  begin_block, begin_possible_submit, not_submitted_block, mark_verified_not_submitted,
}
use model_lib.Intent.Machine.{submit, Moves}
use model_lib.Intent.Requests.{
  Request, prepare, begin_submit, disprove_it, perform, run, Performed, perform-Performed,
}
use model_lib.Intent.Coherent.{IsCoherent, run-IsCoherent}
use model_lib.Intent.Submits.{returned, is_begin, is_disproof, submits_at_most_once_a_proof}
use model_lib.Samples.{project_db}
use model_lib.Samples.Printer.{codec}

abbrev message : Json
message = obj (field "text" (str "hello") end)

abbrev requests : List Request
requests =
    prepare "p" "i1" "A" "browser" "SUBMIT" message
    ∷ begin_submit "i1"
    ∷ begin_submit "i1"
    ∷ disprove_it "i1" "no such turn" end
    ∷ begin_submit "i1"
    ∷ []

unfoldable run_intents : Unit {0}
unfolding tx_steps perform run returned prepare_intent prepare_block prepare_existing insert_intent
    insert_outbox begin_possible_submit begin_block mark_verified_not_submitted not_submitted_block
    move_intent update_intent update_outbox find_intent find_outbox find_project set_field
    sha256_json strip is_empty find_row exists_row count_rows update_rows
run_intents = tt

-- of the three calls the first and the third submit
submits_twice : returned codec (is_begin "i1") requests project_db ≡ 2
unfolding run_intents
submits_twice = refl

submits_at_most_once_a_proof_example :
    returned codec (is_begin "i1") requests project_db
    ≤ 1 + returned codec (is_disproof "i1") requests project_db
submits_at_most_once_a_proof_example = submits_at_most_once_a_proof codec "i1" requests project_db

no_intent : IsCoherent "i1" project_db
unfolding run_intents
no_intent = refl

run-IsCoherent_example : IsCoherent "i1" (run codec requests project_db)
run-IsCoherent_example = run-IsCoherent codec "i1" requests project_db no_intent

abbrev prepared_db : Db
prepared_db = run codec (prepare "p" "i1" "A" "browser" "SUBMIT" message ∷ []) project_db

perform-Performed_example :
    Performed
      (Moves submit "i1" prepared_db)
      prepared_db
      (perform codec (begin_submit "i1") prepared_db)
perform-Performed_example = perform-Performed codec (begin_submit "i1") prepared_db
