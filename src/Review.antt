-- ===== src/Review.antt =====
-- Reviews of master_a_dynamic_v4/state_store.py: `open_review`, `record_review_finding` and `close_review`.
-- `parse` is `datetime.fromisoformat`; `uuid4().hex` is an
-- argument.
pub mod Final
pub mod Findings
use Prim.Native.String.{◌++◌ as append}
use mathlib.Core.List.{◌∷◌}
use model_lib.Prelude.{
  ℕ, String, Bool, true, false, not, ◌&&◌, ◌||◌, Option, none, some, ◌==◌, string_eq, ltb, find_row,
  exists_row, update_rows, if◌then◌else◌,
}
use model_lib.Text.{strip, is_empty}
use model_lib.Tx.{
  lift, branch, Result, return, raise, raise_if, write, write_unless, select, require, transaction,
  ◌>>=◌, ◌>>◌,
}
use model_lib.Json.{Json, str, obj, field, end, Codec, is_nonempty_mapping}
use model_lib.Schema.{
  Db, Error, integrity_error, review_id_empty, review_identity_conflict, review_finding_invalid,
  review_not_found, review_finding_append_only_conflict, review_verdict_invalid,
  review_verdict_immutable,
}
use model_lib.Schema.Rows.{ReviewDeadline, ReviewFinding, Event}
use model_lib.Tables.{parse_timestamp, Action, insert_event}

abbrev pub is_review : String → String → ReviewDeadline → Bool
is_review project review r = r.project_id == project && r.review_id == review

abbrev pub is_finding : String → String → String → ReviewFinding → Bool
is_finding project review finding r =
    r.project_id == project && r.review_id == review && r.finding_id == finding

unfoldable pub find_review : String → String → Db → Option ReviewDeadline
find_review project review db = find_row (is_review project review) db.review_deadlines

unfoldable pub find_finding : String → String → String → Db → Option ReviewFinding
find_finding project review finding db =
    find_row (is_finding project review finding) db.review_findings

-- the key, and the reference to the project's contract
unfoldable pub insert_review : ReviewDeadline → Action Unit
insert_review r db =
    write_unless
      (exists_row (is_review r.project_id r.review_id) db.review_deadlines
        || not (exists_row (λ c. c.project_id == r.project_id) db.contracts))
      integrity_error (λ d. record d { review_deadlines = r ∷ d.review_deadlines }) db

unfoldable pub insert_finding : ReviewFinding → Action Unit
insert_finding r db =
    write_unless (exists_row (is_finding r.project_id r.review_id r.finding_id) db.review_findings)
      integrity_error (λ d. record d { review_findings = r ∷ d.review_findings }) db

-- UPDATE review_deadlines SET verdict=?,closed_at=? WHERE …
unfoldable pub set_verdict : String → String → String → String → Db → Db
set_verdict project review verdict closed_at db = record db {
  review_deadlines =
      update_rows (is_review project review)
        (λ r. record r { verdict = some verdict; closed_at = some closed_at }) db.review_deadlines;
}

module _ (parse : String → Option (Option ℕ)) where
  unfoldable pub open_existing :
      String → String → String → Option ReviewDeadline → Action ReviewDeadline
  open_existing project review deadline (some r) =
      branch (not (r.deadline == deadline)) (raise review_identity_conflict) (return r)
  open_existing project review deadline none = do
    insert_review (record {
      project_id = project;
      review_id = review;
      deadline = deadline;
      verdict = none;
      closed_at = none;
    })
    after ← select (find_review project review)
    require after review_not_found

  unfoldable pub open_block : String → String → String → Action ReviewDeadline
  open_block project review deadline = do
    instant ← lift (parse_timestamp parse deadline)
    raise_if (is_empty review) review_id_empty
    existing ← select (find_review project review)
    open_existing project review deadline existing

  unfoldable pub open_review : String → String → String → Db → Result Error ReviewDeadline × Db
  open_review project_id review_id deadline =
      transaction (open_block project_id (strip review_id) deadline)

  -- `closed_at is not None and observed > closed_at`
  abbrev pub is_after : ℕ → Option ℕ → Bool
  is_after observed none = false
  is_after observed (some closed) = ltb closed observed

  -- the closing time as an instant, where there is one
  unfoldable pub closing_time : Option String → Action (Option ℕ)
  closing_time none = return none
  closing_time (some text) = do t ← lift (parse_timestamp parse text); return (some t)

  abbrev pub same_text : String → Option String → Bool
  same_text t none = false
  same_text t (some u) = u == t

  -- a verdict that is there is compared, one that is not is set
  unfoldable pub close_existing :
      String → String → String → String → ReviewDeadline → Option String → Action ReviewDeadline
  close_existing project review result closed_at r (some v) =
      branch (not (v == result && same_text closed_at r.closed_at)) (raise review_verdict_immutable)
        (return r)
  close_existing project review result closed_at r none = do
    write (set_verdict project review result closed_at)
    after ← select (find_review project review)
    require after review_not_found

  unfoldable pub close_block : String → String → String → String → Action ReviewDeadline
  close_block project review result closed_at = do
    raise_if (not (result == "PASS" || result == "FAIL" || result == "BLOCKED"))
        review_verdict_invalid
    instant ← lift (parse_timestamp parse closed_at)
    row ← select (find_review project review)
    r ← require row review_not_found
    close_existing project review result closed_at r r.verdict

  unfoldable pub close_review :
      Codec → String → String → String → String → Db → Result Error ReviewDeadline × Db
  close_review codec project_id review_id verdict closed_at =
      transaction (close_block project_id review_id (codec.upper (strip verdict)) closed_at)

module _ (codec : Codec) (parse : String → Option (Option ℕ))
    (project review finding level : String) (blocking : Bool) (payload : Json)
    (observed_at uuid : String) where
  abbrev pub new_finding : Bool → ReviewFinding
  new_finding late = record {
    project_id = project;
    review_id = review;
    finding_id = finding;
    severity = level;
    blocking = blocking;
    payload_json = codec.canonical_json payload;
    observed_at = observed_at;
    late = late;
  }

  abbrev same_bool : Bool → Bool → Bool
  same_bool true b = b
  same_bool false b = not b

  -- `actual == identity`
  abbrev pub same_finding : ReviewFinding → Bool → Bool
  same_finding r late =
      r.severity == level
      && same_bool r.blocking blocking
      && r.payload_json == codec.canonical_json payload
      && r.observed_at == observed_at
      && same_bool r.late late

  abbrev late_payload : String
  late_payload =
      codec.canonical_json
        (obj (field "review_id" (str review) (field "finding_id" (str finding) end)))

  unfoldable pub log_late : Bool → Action Unit
  log_late true = insert_event (record {
    event_id = append "event-" uuid;
    project_id = project;
    kind = "LATE_BLOCKING_REVIEW_FINDING";
    payload_json = late_payload;
  })
  log_late false = return tt

  unfoldable pub record_existing : Bool → Option ReviewFinding → Action ReviewFinding
  record_existing late (some r) =
      branch (not (same_finding r late)) (raise review_finding_append_only_conflict) (return r)
  record_existing late none = do
    insert_finding (new_finding late)
    log_late (late && blocking)
    after ← select (find_finding project review finding)
    require after review_not_found

  unfoldable pub record_block : Action ReviewFinding
  record_block = do
    raise_if (is_empty finding || is_empty level || not (is_nonempty_mapping payload))
        review_finding_invalid
    observed ← lift (parse_timestamp parse observed_at)
    row ← select (find_review project review)
    r ← require row review_not_found
    existing ← select (find_finding project review finding)
    deadline ← lift (parse_timestamp parse r.deadline)
    closed ← closing_time parse r.closed_at
    record_existing (ltb deadline observed || is_after parse observed closed) existing

unfoldable pub record_review_finding :
    Codec
    → (String → Option (Option ℕ))
    → String
    → String
    → String
    → String
    → Bool
    → Json
    → String
    → String
    → Db
    → Result Error ReviewFinding × Db
record_review_finding codec parse project_id review_id finding_id severity blocking payload
      observed_at uuid =
    transaction (
      record_block codec parse project_id review_id (strip finding_id)
        (codec.lower (strip severity)) blocking payload observed_at uuid)
