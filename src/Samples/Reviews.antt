-- ===== src/Samples/Reviews.antt =====
-- Review "r1" is open until the first day's end; a finding of the second day is late, and the verdict
-- stands.
use mathlib.Core.List.{[], ◌∷◌}
use model_lib.Prelude.{
  ℕ, ◌≡◌, refl, some, none, true, String, Option, ◌==◌, string_eq, if◌then◌else◌, find_row,
  exists_row, update_rows,
}
use model_lib.Text.{strip, is_empty}
use model_lib.Tx.{ok, tx_steps}
use model_lib.Json.{Json, obj, str, field, end}
use model_lib.Schema.{Db, empty}
use model_lib.Schema.Rows.{ReviewDeadline, ReviewFinding}
use model_lib.Tables.{insert_event, parse_timestamp}
use model_lib.Review.{
  find_review, find_finding, insert_finding, closing_time, log_late, record_existing, record_block,
  record_review_finding, new_finding, open_review, close_review,
}
use model_lib.Review.Final.{verdict_is_final}
use model_lib.Review.Findings.{finding_is_append_only}
use model_lib.Samples.{seconds}
use model_lib.Samples.Printer.{codec}

unfoldable run_reviews : Unit {0}
unfolding tx_steps record_review_finding record_block record_existing log_late closing_time
    parse_timestamp insert_finding insert_event find_review find_finding strip is_empty find_row
    exists_row update_rows
run_reviews = tt

abbrev day_one : String
day_one = "2026-01-01T00:00:00Z"

abbrev day_two : String
day_two = "2026-01-02T00:00:00Z"

abbrev parse : String → Option (Option ℕ)
parse text =
    if text == day_one
    then some (some (seconds 0))
    else if text == day_two
    then some (some (seconds 86400))
    else none

abbrev closed : ReviewDeadline
closed = record {
  project_id = "p";
  review_id = "r1";
  deadline = day_one;
  verdict = some "PASS";
  closed_at = some day_one;
}

abbrev report : Json
report = obj (field "what" (str "a bug") end)

abbrev late_finding : ReviewFinding
late_finding = new_finding codec parse "p" "r1" "f1" "high" true report day_two "u1" true

abbrev review_db : Db
review_db = record empty { review_deadlines = closed ∷ []; review_findings = late_finding ∷ [] }

-- a finding after the deadline is late
is_late :
    (record_review_finding codec parse "p" "r1" "f1" "high" true report day_two "u1"
      (record review_db { review_findings = [] })).0
    ≡ ok late_finding
unfolding run_reviews
is_late = refl

there : find_review "p" "r1" review_db ≡ some closed
unfolding run_reviews
there = refl

recorded : find_finding "p" "r1" "f1" review_db ≡ some late_finding
unfolding run_reviews
recorded = refl

verdict_is_final_example :
    (find_review "p" "r1" (open_review parse "p" "r1" day_one review_db).1 ≡ some closed)
    × (find_review "p" "r1" (close_review parse codec "p" "r1" "FAIL" day_one review_db).1
        ≡ some closed)
verdict_is_final_example =
    verdict_is_final "p" "r1" closed "PASS" refl codec parse "p" "r1" "FAIL" day_one review_db there

finding_is_append_only_example :
    find_finding "p" "r1" "f1"
      (record_review_finding codec parse "p" "r1" "f1" "low" true report day_two "u2" review_db).1
    ≡ some late_finding
finding_is_append_only_example =
    finding_is_append_only "p" "r1" "f1" late_finding codec parse "p" "r1" "f1" "low" day_two "u2"
      true report review_db recorded
