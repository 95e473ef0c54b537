-- ===== src/Intent/Submits.antt =====
-- How often an intent is submitted.
use mathlib.Core.List.{List, [], ◌∷◌}
use model_lib.Prelude.{
  ℕ, ◌+◌, ◌≤◌, String, Bool, true, false, ◌&&◌, Option, none, some, inl, inr, ◌≡◌, ◌==◌, string_eq,
  eq_iff, if◌then◌else◌, arith, Bool-cases,
}
use model_lib.Text.{strip}
use model_lib.Json.{Codec}
use model_lib.Schema.{Db}
use model_lib.Schema.Rows.{ActionIntent}
use model_lib.Intent.{find_intent}
use model_lib.Intent.Life.{is_submittable}
use model_lib.Intent.Machine.{
  Move, submit, block, confirm, disprove, capture, capture_local, target, Moves,
}
use model_lib.Intent.Created.{Created, Finalized}
use model_lib.Intent.Requests.{
  Request, prepare, begin_submit, block_it, confirm_it, disprove_it, capture_it, capture_local_it,
  finalize, perform, run, Effect, Performed, perform-Performed,
}

abbrev pub is_begin : String → Request → Bool
is_begin i (begin_submit j) = j == i
is_begin i _ = false

abbrev pub is_disproof : String → Request → Bool
is_disproof i (disprove_it j proof observation) = j == i
is_disproof i _ = false

-- how many of the calls that the test names returned
unfoldable pub returned : Codec → (Request → Bool) → List Request → Db → ℕ
returned codec p [] db = 0
returned codec p (r ∷ rs) db =
    (if p r && (perform codec r db).0 then 1 else 0) + returned codec p rs (perform codec r db).1

abbrev allowance_of : Option ActionIntent → ℕ
allowance_of none = 1
allowance_of (some r) = if is_submittable r.state then 1 else 0

-- how often an intent may still be submitted, without another proof
unfoldable allowance : String → Db → ℕ
allowance i db = allowance_of (find_intent i db)

module _ (i : String) where
  allowance-Moves :
      (m : Move) (j : String) (db after : Db)
      → Moves m j db after
      → allowance i after
        ≡ (if j == i then (if is_submittable (target m) then 1 else 0) else allowance i db)
  unfolding allowance
  allowance-Moves m j db after h = elim (Bool-cases (j == i)) [
    | inl same ↦ ground (arith, same, eq_iff j i, h.now, h.state)
    | inr other ↦ ground (arith, other, eq_iff i j, eq_iff j i, (h.others i))
  ]

  -- what is submitted was allowed to be
  allowance-Moves_submit :
      (j : String) (db after : Db) → j ≡ i → Moves submit j db after → allowance i db ≡ 1
  unfolding allowance
  allowance-Moves_submit j db after same h = ground (arith, same, h.found, h.source)

  allowance-Created :
      (j : String) (db after : Db) → Created j db after → allowance i after ≡ allowance i db
  unfolding allowance
  allowance-Created j db after h = elim (Bool-cases (j == i)) [
    | inl same ↦ ground (arith, same, eq_iff j i, h.now, h.state, h.absent)
    | inr other ↦ ground (arith, other, eq_iff i j, eq_iff j i, (h.others i))
  ]

  allowance-Finalized :
      (j : String) (db after : Db) → Finalized j db after → allowance i after ≡ allowance i db
  unfolding allowance
  allowance-Finalized j db after h = ground (arith, h.intents i)

  abbrev Spends : Request → Db → Bool × Db → Type 0
  Spends r db (done, after) =
      (if is_begin i r && done then 1 else 0) + allowance i after
      ≤ allowance i db + (if is_disproof i r && done then 1 else 0)

  -- a submission uses the allowance up, and only a proof restores it
  Effect-Spends :
      (codec : Codec) (r : Request) (db after : Db)
      → Effect codec r db after
      → Spends r db (true, after)
  Effect-Spends codec (prepare project intent actor channel action payload) db after (inl same, _) =
      ground (arith, same)
  Effect-Spends codec (prepare project intent actor channel action payload) db after (inr h, _) =
      omega (arith, allowance-Created (strip intent) db after h)
  Effect-Spends codec (begin_submit j) db after h = elim (Bool-cases (j == i)) [
    | inl same ↦ ground (
      arith,
      same,
      allowance-Moves submit j db after h,
      allowance-Moves_submit j db after ((eq_iff j i).0 same) h,
    )
    | inr other ↦ ground (arith, other, allowance-Moves submit j db after h)
  ]
  Effect-Spends codec (block_it j reason observation) db after h =
      ground (arith, allowance-Moves block j db after h)
  Effect-Spends codec (confirm_it j url remote observation) db after h =
      ground (arith, allowance-Moves confirm j db after h)
  Effect-Spends codec (disprove_it j proof observation) db after h =
      ground (arith, allowance-Moves disprove j db after h)
  Effect-Spends codec (capture_it j response url remote observation) db after h =
      ground (arith, allowance-Moves capture j db after h)
  Effect-Spends codec (capture_local_it j receipt observation) db after h =
      ground (arith, allowance-Moves capture_local j db after h)
  Effect-Spends codec (finalize j) db after h = omega (arith, allowance-Finalized j db after h)

  perform-Spends : (codec : Codec) (r : Request) (db : Db) → Spends r db (perform codec r db)
  perform-Spends codec r db = spent (perform codec r db) (perform-Performed codec r db)
    where
      spent : (o : Bool × Db) → Performed (Effect codec r db) db o → Spends r db o
      spent (done, after) (inl (refused, same)) = ground (arith, refused, same)
      spent (done, after) (inr (kept, effect)) =
          ground (arith, kept, Effect-Spends codec r db after effect)

  allowance_bound :
      (codec : Codec) (rs : List Request) (db : Db)
      → returned codec (is_begin i) rs db + allowance i (run codec rs db)
        ≤ allowance i db + returned codec (is_disproof i) rs db
  unfolding returned run
  allowance_bound codec [] db = omega arith
  allowance_bound codec (r ∷ rs) db =
      omega (arith, perform-Spends codec r db, allowance_bound codec rs (perform codec r db).1)

  allowance_at_most_one : (db : Db) → allowance i db ≤ 1
  unfolding allowance
  allowance_at_most_one db = ground arith

-- In any sequence of requests about intents, in whatever order and with whatever arguments, an intent is
-- submitted at most once more than it is proved not to have been submitted.
pub submits_at_most_once_a_proof :
    (codec : Codec) (intent : String) (requests : List Request) (db : Db)
    → returned codec (is_begin intent) requests db
      ≤ 1 + returned codec (is_disproof intent) requests db
submits_at_most_once_a_proof codec intent requests db =
    omega (arith, allowance_bound intent codec requests db, allowance_at_most_one intent db)
