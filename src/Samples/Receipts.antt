-- ===== src/Samples/Receipts.antt =====
-- Receipt "e1" is recorded, and a receipt of the same name with another outcome is refused.
use mathlib.Core.List.{[], ◌∷◌}
use model_lib.Prelude.{
  ℕ, ◌≡◌, refl, some, none, String, Option, ◌==◌, string_eq, if◌then◌else◌, find_row, exists_row,
}
use model_lib.Text.{strip, is_empty}
use model_lib.Tables.{parse_timestamp}
use model_lib.Tx.{ok, err, tx_steps}
use model_lib.Json.{obj, str, field, end}
use model_lib.Schema.{Db, empty, evidence_identity_conflict}
use model_lib.Schema.Rows.{EvidenceReceipt}
use model_lib.Contract.{find_contract, new_contract}
use model_lib.Evidence.{
  is_hex, find_receipt, insert_receipt, receipt_existing, receipt_block, ReceiptRequest, normalized,
  record_evidence_receipt,
}
use model_lib.Evidence.Lasting.{receipt_is_lasting}
use model_lib.Samples.Printer.{codec}

unfoldable run_receipts : Unit {0}
unfolding tx_steps record_evidence_receipt receipt_block receipt_existing insert_receipt
    parse_timestamp find_receipt find_contract is_hex strip is_empty find_row exists_row
run_receipts = tt

abbrev digest : String
digest = "0123456789abcdef0123456789abcdef0123456789abcdef0123456789abcdef"

abbrev request : String → ReceiptRequest
request result = record {
  project_id = "q";
  evidence_ref = "e1";
  acceptance_id = "A1";
  result = result;
  candidate_commit = "0123456789abcdef0123456789abcdef01234567";
  contract_sha256 = digest;
  artifact_sha256 = digest;
  command_or_action = "make test";
  observed_state = obj (field "passed" (str "12") end);
  raw_output_reference = "log-1";
  started_at = "10:00";
  finished_at = "10:05";
}

abbrev parse : String → Option (Option ℕ)
parse text =
    if text == "10:00" then some (some 0) else if text == "10:05" then some (some 300) else none

abbrev founded : Db
founded = record empty { contracts = new_contract codec "q" (str "goal") (str "goal") ∷ [] }

abbrev receipt : EvidenceReceipt
receipt = normalized codec (request "PASS")

abbrev receipt_db : Db
receipt_db = record founded { evidence_receipts = receipt ∷ [] }

records : record_evidence_receipt codec parse (request "PASS") founded ≡ (ok receipt, receipt_db)
unfolding run_receipts
records = refl

refuses :
    record_evidence_receipt codec parse (request "FAIL") receipt_db
    ≡ (err evidence_identity_conflict, receipt_db)
unfolding run_receipts
refuses = refl

there : find_receipt "e1" receipt_db ≡ some receipt
unfolding run_receipts
there = refl

receipt_is_lasting_example :
    find_receipt "e1" (record_evidence_receipt codec parse (request "FAIL") receipt_db).1
    ≡ some receipt
receipt_is_lasting_example =
    receipt_is_lasting "e1" receipt codec parse (request "FAIL") receipt_db there
