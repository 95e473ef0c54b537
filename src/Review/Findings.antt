-- ===== src/Review/Findings.antt =====
-- What a recorded finding says, and that it stays.
use mathlib.Core.List.{◌∷◌}
use model_lib.Prelude.{
  ℕ, String, Bool, true, false, Option, none, some, ◌≡◌, string_eq, eq_iff, arith, exists_row,
}
use model_lib.Text.{strip}
use model_lib.Tx.{Result, ok, err, lift, return, ◌>>◌, ◌>>=◌}
use model_lib.Tx.Rules.{
  Commits, Commits-return, Commits-raise, Commits-raise_if, Commits-branch, Commits-fetch,
  Commits-lift, Commits-require, Commits-write_unless, keeps_of_Commits,
}
use model_lib.Json.{Json, Codec}
use model_lib.Schema.{Db, Error}
use model_lib.Schema.Rows.{ReviewFinding, Event}
use model_lib.Tables.{parse_timestamp, Action}
use model_lib.Tables.Insert.{Commits-insert_event}
use model_lib.Review.{
  is_finding, find_finding, insert_finding, closing_time, new_finding, log_late, record_existing,
  record_block, record_review_finding,
}
use model_lib.Review.Final.{find_finding-inserted, find_finding_absent}

Commits-insert_finding :
    {A : Type 0} (P : A → Db → Type 0) (x : ReviewFinding) (k : Action A) (db : Db)
    → (exists_row (is_finding x.project_id x.review_id x.finding_id) db.review_findings ≡ false
        → Commits P (k (record db { review_findings = x ∷ db.review_findings })))
    → Commits P ((insert_finding x >> k) db)
unfolding insert_finding
Commits-insert_finding P x k db h = Commits-write_unless P _ _ _ k db h

Commits-closing_time :
    {A : Type 0} (P : A → Db → Type 0) (parse : String → Option (Option ℕ)) (o : Option String)
    (k : Option ℕ → Action A) (db : Db)
    → ((c : Option ℕ) → Commits P (k c db))
    → Commits P ((closing_time parse o >>= k) db)
unfolding closing_time lift
Commits-closing_time P parse none k db h = h none
Commits-closing_time P parse (some text) k db h = timed (parse_timestamp parse text)
  where
    timed : (r : Result Error ℕ) → Commits P (((lift r >>= λ t. return (some t)) >>= k) db)
    timed (err e) = Commits-raise P e db
    timed (ok t) = h (some t)

-- a finding that is there
module _ (q rv fd : String) (f : ReviewFinding) where
  abbrev HasFinding : Db → Type 0
  HasFinding db = find_finding q rv fd db ≡ some f

  logged-HasFinding :
      (e : Event) (db : Db) → HasFinding db → HasFinding (record db { events = e ∷ db.events })
  unfolding find_finding
  logged-HasFinding e db h = h

  module _ (codec : Codec) (parse : String → Option (Option ℕ)) (p rw gd level : String)
      (blocking : Bool) (payload : Json) (observed_at uuid : String) where
    log_late-HasFinding :
        {A : Type 0} (b : Bool) (k : Action A) (db : Db)
        → HasFinding db
        → ((after : Db) → HasFinding after → Commits (λ _. HasFinding) (k after))
        → Commits
            (λ _. HasFinding)
            ((log_late codec parse p rw gd level blocking payload observed_at uuid b >> k) db)
    unfolding log_late
    log_late-HasFinding true k db h next =
        Commits-insert_event _ _ _ _ λ _. next _ (logged-HasFinding _ db h)
    log_late-HasFinding false k db h next = next db h

    record_existing-HasFinding :
        (late : Bool) (o : Option ReviewFinding) (db : Db)
        → HasFinding db
        → Commits
            (λ _. HasFinding)
            (record_existing codec parse p rw gd level blocking payload observed_at uuid late o db)
    unfolding record_existing
    record_existing-HasFinding late (some x) db h =
        Commits-branch _ _ _ _ _ (λ _. Commits-raise _ _ _) (λ _. Commits-return _ _ _ h)
    record_existing-HasFinding late none db h = Commits-insert_finding _ _ _ _ λ free.
        log_late-HasFinding _ _ _
          (ground (
            arith,
            h,
            find_finding_absent p rw gd db free,
            find_finding-inserted q rv fd
                (new_finding codec parse p rw gd level blocking payload observed_at uuid late) db,
            eq_iff p q,
            eq_iff rw rv,
            eq_iff gd fd,
          ))
          λ after k. Commits-fetch _ _ _ _ λ a _. k

    record_block-HasFinding :
        (db : Db)
        → HasFinding db
        → Commits
            (λ _. HasFinding)
            (record_block codec parse p rw gd level blocking payload observed_at uuid db)
    unfolding record_block
    record_block-HasFinding db h = Commits-raise_if _ _ _ _ _ λ _.
        Commits-lift _ _ _ _ λ observed _. Commits-require _ _ _ _ _ λ r _.
          Commits-lift _ _ _ _ λ deadline _.
            Commits-closing_time _ parse r.closed_at _ db
              λ closed. record_existing-HasFinding _ _ db h

  -- A finding, once recorded, stays as it is, whichever finding is then recorded, and whether that succeeds
  -- or raises.
  pub finding_is_append_only :
      (codec : Codec) (parse : String → Option (Option ℕ))
      (project_id review_id finding_id severity observed_at uuid : String) (blocking : Bool)
      (payload : Json) (db : Db)
      → find_finding q rv fd db ≡ some f
      → find_finding q rv fd
          (record_review_finding codec parse project_id review_id finding_id severity blocking
            payload observed_at uuid db).1
        ≡ some f
  unfolding record_review_finding
  finding_is_append_only codec parse project_id review_id finding_id severity observed_at uuid
        blocking payload db h =
      keeps_of_Commits HasFinding
        (record_block codec parse project_id review_id (strip finding_id)
          (codec.lower (strip severity)) blocking payload observed_at uuid)
        db h
        (record_block-HasFinding codec parse project_id review_id (strip finding_id)
          (codec.lower (strip severity)) blocking payload observed_at uuid db h)
