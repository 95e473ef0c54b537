-- ===== src/Acceptance/Blockers.antt =====
-- What it means that a test of acceptance.py finds no blocker.
use mathlib.Core.List.{[], ◌∷◌}
use model_lib.Prelude.{
  String, Bool, true, false, not, ◌&&◌, ◌||◌, Option, List, ◌++◌, ◌≡◌, refl, sym, ◌∙◌, ap, inl, inr,
  arith, ◌==◌, string_eq, eq_iff, if◌then◌else◌, All, length, exists_row, member, distinct,
  length-sort_by, sorted_set, Bool-cases,
}
use model_lib.Json.{Json, Codec}
use model_lib.Schema.{Db}
use model_lib.Schema.Rows.{EvidenceReceipt}
use model_lib.Schema.Tasks.{TaskNode}
use model_lib.Scheduler.{is_done}
use model_lib.Acceptance.{
  block_if, block_all, block_each, evidence_blockers, result_blockers, is_receipt_for,
  requirement_blockers,
}
use model_lib.Acceptance.Evaluate.{
  is_required, has_structured_result, task_blockers, is_working, is_unverified, is_unresolved,
  is_ambiguous, is_blocking, table_blockers,
}

pub append-nil : {A : Type 0} (xs ys : List A) → xs ++ ys ≡ [] → (xs ≡ []) × (ys ≡ [])
append-nil [] ys h = (refl, h)
append-nil (x ∷ xs) ys h = cc

pub append3-nil : {A : Type 0} (a b c : List A) → a ++ b ++ c ≡ [] → (a ≡ []) × (b ≡ []) × (c ≡ [])
append3-nil a b c h =
    let last = append-nil (a ++ b) c h in
    let first = append-nil a b last.0 in (first.0, first.1, last.1)

pub block_if-nil : (b : Bool) (text : String) → block_if b text ≡ [] → b ≡ false
block_if-nil true text h = cc
block_if-nil false text h = refl

pub block_all-nil :
    (tests : List (Bool × String)) → block_all tests ≡ [] → All (λ t. t.0 ≡ false) tests
unfolding block_all
block_all-nil [] h = tt
block_all-nil (t ∷ tests) h =
    let parts = append-nil (block_if t.0 t.1) (block_all tests) h in
    (block_if-nil t.0 t.1 parts.0, block_all-nil tests parts.1)

pub block_each-nil :
    {A : Type 0} (f : A → List String) (xs : List A) → block_each f xs ≡ [] → All (λ x. f x ≡ []) xs
unfolding block_each
block_each-nil f [] h = tt
block_each-nil f (x ∷ xs) h =
    let parts = append-nil (f x) (block_each f xs) h in (parts.0, block_each-nil f xs parts.1)

pub All-weaken :
    {A : Type 0} (P Q : A → Type 0) (xs : List A) → ((x : A) → P x → Q x) → All P xs → All Q xs
All-weaken P Q [] f h = tt
All-weaken P Q (x ∷ xs) f h = (f x h.0, All-weaken P Q xs f h.1)

pub distinct-nil : (xs : List String) → distinct xs ≡ [] → xs ≡ []
unfolding distinct exists_row
distinct-nil [] h = refl
distinct-nil (x ∷ xs) h = elim (Bool-cases (member x xs)) [
  | inl e ↦ absurd (ground (arith, ap (λ ys. member x ys) (distinct-nil xs (rw e at h)), e))
  | inr e ↦ absurd (ground (arith, e, h))
]

pub length-nil : {A : Type 0} (xs : List A) → length xs ≡ 0 → xs ≡ []
length-nil [] h = refl
length-nil (x ∷ xs) h = absurd (omega (arith, h))

pub sorted_set-nil : (xs : List String) → sorted_set xs ≡ [] → xs ≡ []
sorted_set-nil xs h =
    distinct-nil xs
      (length-nil (distinct xs) (sym (length-sort_by (λ x. x) (distinct xs)) ∙ ap length h))

-- the receipt says PASS, and is for this candidate, this contract and an artifact of its manifest
abbrev pub attests : String → String → List String → EvidenceReceipt → Bool
attests candidate contract_sha256 artifacts r =
    r.result == "PASS"
    && r.candidate_commit == candidate
    && r.contract_sha256 == contract_sha256
    && member r.artifact_sha256 artifacts

-- there is a receipt of the project for the acceptance, and each one attests it
pub record Met (project candidate contract_sha256 : String) (artifacts : List String)
    (receipts : List EvidenceReceipt) (name : String) : Type 0 where
  pub there : exists_row (is_receipt_for project name) receipts ≡ true
  pub each :
      All
        (λ r.
          (not (is_receipt_for project name r) || attests candidate contract_sha256 artifacts r)
          ≡ true)
        receipts

pub result-attests : (name result : String) → result_blockers name result ≡ [] → result ≡ "PASS"
result-attests name result h = elim (Bool-cases (result == "FAIL")) [
  | inl e ↦ absurd (ground (arith, e, h))
  | inr e ↦ ground (arith, e, h, eq_iff result "PASS")
]

module _ (codec : Codec) (loads : String → Option Json) where
  pub receipt-attests :
      (r : EvidenceReceipt) (candidate contract_sha256 name : String) (artifacts : List String)
      → result_blockers name r.result
          ++ evidence_blockers codec loads r candidate contract_sha256 artifacts
        ≡ []
      → attests candidate contract_sha256 artifacts r ≡ true
  unfolding evidence_blockers
  receipt-attests r candidate contract_sha256 name artifacts h =
      let parts = append-nil (result_blockers name r.result) _ h in
      let tests = block_all-nil _ parts.1 in
      ground (
        arith,
        eq_iff r.result "PASS",
        result-attests name r.result parts.0,
        tests.0,
        tests.1.0,
        tests.1.1.0,
      )

  pub requirement-Met :
      (project candidate contract_sha256 : String) (artifacts : List String)
      (receipts : List EvidenceReceipt) (name : String)
      → requirement_blockers codec loads project candidate contract_sha256 artifacts receipts name
        ≡ []
      → Met project candidate contract_sha256 artifacts receipts name
  unfolding requirement_blockers
  requirement-Met project candidate contract_sha256 artifacts receipts name h =
      elim (Bool-cases (exists_row (is_receipt_for project name) receipts)) [
        | inl e ↦ record {
          there = e;
          each = All-weaken _ _ receipts each_one (block_each-nil _ receipts (rw e at h));
        }
        | inr e ↦ absurd (ground (arith, e, h))
      ]
    where
      each_one :
          (r : EvidenceReceipt)
          → (if is_receipt_for project name r
              then result_blockers name r.result
                ++ evidence_blockers codec loads r candidate contract_sha256 artifacts
              else [])
            ≡ []
          → (not (is_receipt_for project name r) || attests candidate contract_sha256 artifacts r)
            ≡ true
      each_one r k = elim (Bool-cases (is_receipt_for project name r)) [
        | inl e ↦
            ground
              (arith, e, receipt-attests r candidate contract_sha256 name artifacts (rw e at k))
        | inr e ↦ ground (arith, e)
      ]

-- a required task is done, with a structured result that is verified
abbrev pub is_settled : String → Db → TaskNode → Bool
is_settled project db t =
    not (is_required project t) || (is_done t.state && has_structured_result project t.task_id db)

pub task-settled :
    (project : String) (db : Db) (t : TaskNode)
    → task_blockers project db t ≡ []
    → is_settled project db t ≡ true
unfolding task_blockers
task-settled project db t h = let tests = block_all-nil _ h in ground (arith, tests.0, tests.1.0)

-- no Worker is at work, and no result, outbox row, submission or blocking finding is left
abbrev pub is_quiet : String → Db → Bool
is_quiet project db =
    not (exists_row (is_working project) db.assignments)
    && not (exists_row (is_unverified project) db.candidate_results)
    && not (exists_row (is_unresolved project) db.outbox)
    && not (exists_row (is_ambiguous project) db.action_intents)
    && not (exists_row (is_blocking project) db.review_findings)

pub table-quiet :
    (project : String) (db : Db) → table_blockers project db ≡ [] → is_quiet project db ≡ true
unfolding table_blockers
table-quiet project db h =
    let tests = block_all-nil _ h in
    ground (arith, tests.0, tests.1.0, tests.1.1.0, tests.1.1.1.0, tests.1.1.1.1.0)
