-- ===== src/Evidence.antt =====
-- Evidence receipts: `record_evidence_receipt` of master_a_dynamic_v4/state_store.py. `parse` is
-- `datetime.fromisoformat`.
pub mod Lasting
use Prim.Native.Char.{code}
use mathlib.Core.List.{◌∷◌}
use model_lib.Prelude.{
  ℕ, zero, suc, String, Bool, true, false, not, ◌&&◌, ◌||◌, Option, none, some, ◌==◌, string_eq,
  nat_eq, leb, ltb, find_row, exists_row,
}
use model_lib.Text.{strip, is_empty}
use model_lib.Tx.{
  lift, branch, Result, return, raise, raise_if, write_unless, select, require, transaction, ◌>>=◌,
  ◌>>◌,
}
use model_lib.Json.{Json, Codec, is_nonempty_mapping}
use model_lib.Schema.{
  Db, Error, integrity_error, project_not_found, evidence_identity_invalid,
  evidence_candidate_invalid, evidence_digest_invalid, evidence_observation_invalid,
  evidence_time_reversed, evidence_identity_conflict,
}
use model_lib.Schema.Rows.{EvidenceReceipt, Contract}
use model_lib.Contract.{find_contract}
use model_lib.Tables.{parse_timestamp, Action}

-- `len(text) == n` and every character one of 0-9, a-f
unfoldable pub is_hex : ℕ → String → Bool
is_hex zero String.[] = true
is_hex zero (String.◌∷◌ c text) = false
is_hex (suc n) String.[] = false
is_hex (suc n) (String.◌∷◌ c text) =
    ((leb 48 (code c) && leb (code c) 57) || (leb 97 (code c) && leb (code c) 102)) && is_hex n text

unfoldable pub find_receipt : String → Db → Option EvidenceReceipt
find_receipt ref db = find_row (λ e. e.evidence_ref == ref) db.evidence_receipts

unfoldable pub insert_receipt : EvidenceReceipt → Action Unit
insert_receipt r db =
    write_unless (exists_row (λ e. e.evidence_ref == r.evidence_ref) db.evidence_receipts)
      integrity_error (λ d. record d { evidence_receipts = r ∷ d.evidence_receipts }) db

-- `actual == identity`
abbrev pub same_receipt : EvidenceReceipt → EvidenceReceipt → Bool
same_receipt r s =
    r.project_id == s.project_id
    && r.acceptance_id == s.acceptance_id
    && r.result == s.result
    && r.candidate_commit == s.candidate_commit
    && r.contract_sha256 == s.contract_sha256
    && r.artifact_sha256 == s.artifact_sha256
    && r.command_or_action == s.command_or_action
    && r.observed_state_json == s.observed_state_json
    && r.raw_output_reference == s.raw_output_reference
    && r.started_at == s.started_at
    && r.finished_at == s.finished_at

abbrev pub is_outcome : String → Bool
is_outcome r = r == "PASS" || r == "FAIL" || r == "BLOCKED" || r == "NOT_RUN"

unfoldable pub receipt_existing : EvidenceReceipt → Option EvidenceReceipt → Action EvidenceReceipt
receipt_existing receipt (some r) =
    branch (not (same_receipt r receipt)) (raise evidence_identity_conflict) (return r)
receipt_existing receipt none = do
  contract ← select (find_contract receipt.project_id)
  c ← require contract project_not_found
  insert_receipt receipt
  after ← select (find_receipt receipt.evidence_ref)
  require after project_not_found

-- `receipt` has the arguments as they are normalised
unfoldable pub receipt_block :
    (String → Option (Option ℕ)) → EvidenceReceipt → Json → Action EvidenceReceipt
receipt_block parse receipt observed_state = do
  raise_if
      (is_empty receipt.evidence_ref
        || is_empty receipt.acceptance_id
        || not (is_outcome receipt.result))
      evidence_identity_invalid
  raise_if (not (is_hex 40 receipt.candidate_commit)) evidence_candidate_invalid
  raise_if (not (is_hex 64 receipt.contract_sha256) || not (is_hex 64 receipt.artifact_sha256))
      evidence_digest_invalid
  raise_if
      (is_empty receipt.command_or_action
        || is_empty receipt.raw_output_reference
        || not (is_nonempty_mapping observed_state))
      evidence_observation_invalid
  started ← lift (parse_timestamp parse receipt.started_at)
  finished ← lift (parse_timestamp parse receipt.finished_at)
  raise_if (ltb finished started) evidence_time_reversed
  existing ← select (find_receipt receipt.evidence_ref)
  receipt_existing receipt existing

-- the arguments of the call
pub record ReceiptRequest : Type 0 where
  pub project_id : String
  pub evidence_ref : String
  pub acceptance_id : String
  pub result : String
  pub candidate_commit : String
  pub contract_sha256 : String
  pub artifact_sha256 : String
  pub command_or_action : String
  pub observed_state : Json
  pub raw_output_reference : String
  pub started_at : String
  pub finished_at : String

abbrev pub normalized : Codec → ReceiptRequest → EvidenceReceipt
normalized codec a = record {
  evidence_ref = strip a.evidence_ref;
  project_id = a.project_id;
  acceptance_id = strip a.acceptance_id;
  result = codec.upper (strip a.result);
  candidate_commit = codec.lower (strip a.candidate_commit);
  contract_sha256 = codec.lower (strip a.contract_sha256);
  artifact_sha256 = codec.lower (strip a.artifact_sha256);
  command_or_action = strip a.command_or_action;
  observed_state_json = codec.canonical_json a.observed_state;
  raw_output_reference = strip a.raw_output_reference;
  started_at = a.started_at;
  finished_at = a.finished_at;
}

unfoldable pub record_evidence_receipt :
    Codec → (String → Option (Option ℕ)) → ReceiptRequest → Db → Result Error EvidenceReceipt × Db
record_evidence_receipt codec parse a =
    transaction (receipt_block parse (normalized codec a) a.observed_state)
