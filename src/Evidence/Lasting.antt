-- ===== src/Evidence/Lasting.antt =====
-- A receipt, once there, stays: what a commit has relied on is not changed after it.
use mathlib.Core.List.{◌∷◌}
use model_lib.Prelude.{
  ℕ, String, Option, none, some, false, ◌≡◌, ◌==◌, string_eq, eq_iff, if◌then◌else◌, arith, refl,
  find_row, exists_row, find_row-none_of_exists,
}
use model_lib.Tx.{◌>>◌}
use model_lib.Tx.Rules.{
  Commits, Commits-return, Commits-raise, Commits-raise_if, Commits-branch, Commits-fetch,
  Commits-lift, Commits-require, Commits-write_unless, keeps_of_Commits,
}
use model_lib.Json.{Json, Codec}
use model_lib.Schema.{Db}
use model_lib.Schema.Rows.{EvidenceReceipt}
use model_lib.Tables.{Action}
use model_lib.Evidence.{
  find_receipt, insert_receipt, receipt_existing, receipt_block, ReceiptRequest, normalized,
  record_evidence_receipt,
}

find_receipt-inserted :
    (ref : String) (x : EvidenceReceipt) (db : Db)
    → find_receipt ref (record db { evidence_receipts = x ∷ db.evidence_receipts })
      ≡ (if x.evidence_ref == ref then some x else find_receipt ref db)
unfolding find_receipt find_row
find_receipt-inserted ref x db = refl

find_receipt_absent :
    (ref : String) (db : Db)
    → exists_row (λ e. e.evidence_ref == ref) db.evidence_receipts ≡ false
    → find_receipt ref db ≡ none
unfolding find_receipt
find_receipt_absent ref db h =
    find_row-none_of_exists (λ e. e.evidence_ref == ref) db.evidence_receipts h

module _ (ref : String) (e : EvidenceReceipt) where
  abbrev HasReceipt : Db → Type 0
  HasReceipt db = find_receipt ref db ≡ some e

  Commits-insert_receipt :
      {A : Type 0} (x : EvidenceReceipt) (k : Action A) (db : Db)
      → HasReceipt db
      → ((after : Db) → HasReceipt after → Commits (λ _. HasReceipt) (k after))
      → Commits (λ _. HasReceipt) ((insert_receipt x >> k) db)
  unfolding insert_receipt
  Commits-insert_receipt x k db h next = Commits-write_unless _ _ _ _ k db λ free. next _ (
      ground (
        arith,
        h,
        find_receipt-inserted ref x db,
        find_receipt_absent x.evidence_ref db free,
        eq_iff x.evidence_ref ref,
      ))

  receipt_existing-HasReceipt :
      (receipt : EvidenceReceipt) (o : Option EvidenceReceipt) (db : Db)
      → HasReceipt db
      → Commits (λ _. HasReceipt) (receipt_existing receipt o db)
  unfolding receipt_existing
  receipt_existing-HasReceipt receipt (some r) db h =
      Commits-branch _ _ _ _ _ (λ _. Commits-raise _ _ _) (λ _. Commits-return _ _ _ h)
  receipt_existing-HasReceipt receipt none db h =
      Commits-require _ _ _ _ _
        λ c _. Commits-insert_receipt _ _ db h λ after k. Commits-fetch _ _ _ _ λ a _. k

  receipt_block-HasReceipt :
      (parse : String → Option (Option ℕ)) (receipt : EvidenceReceipt) (observed : Json) (db : Db)
      → HasReceipt db
      → Commits (λ _. HasReceipt) (receipt_block parse receipt observed db)
  unfolding receipt_block
  receipt_block-HasReceipt parse receipt observed db h = Commits-raise_if _ _ _ _ _ λ _.
      Commits-raise_if _ _ _ _ _ λ _. Commits-raise_if _ _ _ _ _ λ _.
        Commits-raise_if _ _ _ _ _ λ _. Commits-lift _ _ _ _ λ started _.
          Commits-lift _ _ _ _
            λ finished _. Commits-raise_if _ _ _ _ _ λ _. receipt_existing-HasReceipt receipt _ db h

  -- An evidence receipt, once there, stays as it is, whichever receipt is then recorded, and whether that
  -- succeeds or raises.
  pub receipt_is_lasting :
      (codec : Codec) (parse : String → Option (Option ℕ)) (request : ReceiptRequest) (db : Db)
      → find_receipt ref db ≡ some e
      → find_receipt ref (record_evidence_receipt codec parse request db).1 ≡ some e
  unfolding record_evidence_receipt
  receipt_is_lasting codec parse request db h =
      keeps_of_Commits HasReceipt
        (receipt_block parse (normalized codec request) request.observed_state) db h
        (receipt_block-HasReceipt parse (normalized codec request) request.observed_state db h)
