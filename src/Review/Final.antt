-- ===== src/Review/Final.antt =====
-- A verdict is final, and a finding is never changed.
use mathlib.Core.List.{◌∷◌}
use mathlib.Core.Option
use model_lib.Prelude.{
  ℕ, String, true, false, ◌&&◌, Option, none, some, ◌≡◌, refl, ◌==◌, string_eq, eq_iff,
  if◌then◌else◌, arith, find_row, exists_row, find_row-holds, find_row-update_rows,
  find_row-none_of_exists,
}
use model_lib.Text.{strip}
use model_lib.Tx.{◌>>◌}
use model_lib.Tx.Rules.{
  Commits, Commits-return, Commits-raise, Commits-raise_if, Commits-branch, Commits-fetch,
  Commits-lift, Commits-require, Commits-write_unless, keeps_of_Commits,
}
use model_lib.Json.{Codec}
use model_lib.Schema.{Db}
use model_lib.Schema.Rows.{ReviewDeadline, ReviewFinding}
use model_lib.Tables.{Action}
use model_lib.Review.{
  is_review, is_finding, find_review, find_finding, insert_review, set_verdict, open_existing,
  open_block, open_review, close_existing, close_block, close_review,
}

abbrev concluded : String → String → ReviewDeadline → ReviewDeadline
concluded result closed_at r = record r { verdict = some result; closed_at = some closed_at }

find_review-inserted :
    (q rv : String) (x : ReviewDeadline) (db : Db)
    → find_review q rv (record db { review_deadlines = x ∷ db.review_deadlines })
      ≡ (if x.project_id == q && x.review_id == rv then some x else find_review q rv db)
unfolding find_review find_row
find_review-inserted q rv x db = refl

find_review_absent :
    (p rw : String) (db : Db)
    → exists_row (is_review p rw) db.review_deadlines ≡ false
    → find_review p rw db ≡ none
unfolding find_review
find_review_absent p rw db h = find_row-none_of_exists (is_review p rw) db.review_deadlines h

find_review_key :
    (q rv : String) (r : ReviewDeadline) (db : Db)
    → find_review q rv db ≡ some r
    → is_review q rv r ≡ true
unfolding find_review
find_review_key q rv r db h = find_row-holds (is_review q rv) db.review_deadlines h

find_review-set_verdict :
    (q rv p rw result closed_at : String) (db : Db)
    → find_review q rv (set_verdict p rw result closed_at db)
      ≡ Option.map
          (λ x. if is_review p rw x then concluded result closed_at x else x)
          (find_review q rv db)
unfolding find_review set_verdict
find_review-set_verdict q rv p rw result closed_at db =
    find_row-update_rows (is_review q rv) (is_review p rw) (concluded result closed_at)
      db.review_deadlines (λ x. refl)

pub find_finding-inserted :
    (q rv fd : String) (x : ReviewFinding) (db : Db)
    → find_finding q rv fd (record db { review_findings = x ∷ db.review_findings }) ≡ (
        if x.project_id == q && x.review_id == rv && x.finding_id == fd
        then some x
        else find_finding q rv fd db)
unfolding find_finding find_row
find_finding-inserted q rv fd x db = refl

pub find_finding_absent :
    (p rw fd : String) (db : Db)
    → exists_row (is_finding p rw fd) db.review_findings ≡ false
    → find_finding p rw fd db ≡ none
unfolding find_finding
find_finding_absent p rw fd db h = find_row-none_of_exists (is_finding p rw fd) db.review_findings h

module _ (q rv : String) (r : ReviewDeadline) (v : String) (final : r.verdict ≡ some v) where
  abbrev HasReview : Db → Type 0
  HasReview db = find_review q rv db ≡ some r

  Commits-insert_review :
      {A : Type 0} (x : ReviewDeadline) (k : Action A) (db : Db)
      → HasReview db
      → (HasReview (record db { review_deadlines = x ∷ db.review_deadlines })
          → Commits (λ _. HasReview) (k (record db { review_deadlines = x ∷ db.review_deadlines })))
      → Commits (λ _. HasReview) ((insert_review x >> k) db)
  unfolding insert_review
  Commits-insert_review x k db h next = Commits-write_unless _ _ _ _ k db λ free. next (
      ground (
        arith,
        h,
        find_review-inserted q rv x db,
        find_review_absent x.project_id x.review_id db (ground (arith, free)),
        eq_iff x.project_id q,
        eq_iff x.review_id rv,
      ))

  set_verdict-HasReview :
      (p rw result closed_at : String) (old : ReviewDeadline) (db : Db)
      → find_review p rw db ≡ some old
      → old.verdict ≡ none
      → HasReview db
      → HasReview (set_verdict p rw result closed_at db)
  set_verdict-HasReview p rw result closed_at old db found fresh h = ground (
    arith,
    found,
    fresh,
    h,
    final,
    find_review-set_verdict q rv p rw result closed_at db,
    find_review_key q rv r db h,
    eq_iff r.project_id q,
    eq_iff r.review_id rv,
    eq_iff r.project_id p,
    eq_iff r.review_id rw,
  )

  open_existing-HasReview :
      (parse : String → Option (Option ℕ)) (p rw deadline : String) (db : Db)
      (o : Option ReviewDeadline)
      → HasReview db
      → Commits (λ _. HasReview) (open_existing parse p rw deadline o db)
  unfolding open_existing
  open_existing-HasReview parse p rw deadline db (some x) h =
      Commits-branch _ _ _ _ _ (λ _. Commits-raise _ _ _) (λ _. Commits-return _ _ _ h)
  open_existing-HasReview parse p rw deadline db none h =
      Commits-insert_review _ _ _ h λ k. Commits-fetch _ _ _ _ λ a _. k

  open_block-HasReview :
      (parse : String → Option (Option ℕ)) (p rw deadline : String) (db : Db)
      → HasReview db
      → Commits (λ _. HasReview) (open_block parse p rw deadline db)
  unfolding open_block
  open_block-HasReview parse p rw deadline db h = Commits-lift _ _ _ _ λ instant _.
      Commits-raise_if _ _ _ _ _ λ _. open_existing-HasReview parse p rw deadline db _ h

  close_existing-HasReview :
      (parse : String → Option (Option ℕ)) (p rw result closed_at : String) (old : ReviewDeadline)
      (db : Db) (o : Option String)
      → find_review p rw db ≡ some old
      → old.verdict ≡ o
      → HasReview db
      → Commits (λ _. HasReview) (close_existing parse p rw result closed_at old o db)
  unfolding close_existing
  close_existing-HasReview parse p rw result closed_at old db (some w) found e h =
      Commits-branch _ _ _ _ _ (λ _. Commits-raise _ _ _) (λ _. Commits-return _ _ _ h)
  close_existing-HasReview parse p rw result closed_at old db none found e h =
      Commits-fetch _ _ _ _ λ a _. set_verdict-HasReview p rw result closed_at old db found e h

  close_block-HasReview :
      (parse : String → Option (Option ℕ)) (p rw result closed_at : String) (db : Db)
      → HasReview db
      → Commits (λ _. HasReview) (close_block parse p rw result closed_at db)
  unfolding close_block
  close_block-HasReview parse p rw result closed_at db h = Commits-raise_if _ _ _ _ _ λ _.
      Commits-lift _ _ _ _ λ instant _.
        Commits-require _ _ _ _ _
          λ old found. close_existing-HasReview parse p rw result closed_at old db _ found refl h

  -- A review that has a verdict stays as it is, its closing time included, whichever review is then opened
  -- or closed, and whether that succeeds or raises.
  pub verdict_is_final :
      (codec : Codec) (parse : String → Option (Option ℕ)) (project_id review_id text time : String)
      (db : Db)
      → find_review q rv db ≡ some r
      → (find_review q rv (open_review parse project_id review_id time db).1 ≡ some r)
        × (find_review q rv (close_review parse codec project_id review_id text time db).1 ≡ some r)
  unfolding open_review close_review
  verdict_is_final codec parse project_id review_id text time db h = (
    keeps_of_Commits HasReview (open_block parse project_id (strip review_id) time) db h
        (open_block-HasReview parse project_id (strip review_id) time db h),
    keeps_of_Commits HasReview
        (close_block parse project_id review_id (codec.upper (strip text)) time) db h
        (close_block-HasReview parse project_id review_id (codec.upper (strip text)) time db h),
  )
