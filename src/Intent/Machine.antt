-- ===== src/Intent/Machine.antt =====
-- The life cycle of an intent as a state machine, and what a move of it means for the rows of an intent.
use mathlib.Core.Option
use model_lib.Prelude.{
  String, Bool, true, false, Option, none, some, inl, inr, Option-cases, ◌≡◌, refl, ap, ◌∙◌, ◌==◌,
  string_eq, eq_iff, if◌then◌else◌, arith, find_row, find_row-holds, find_row-update_rows,
}
use model_lib.Schema.{Db}
use model_lib.Schema.Rows.{
  ActionIntent, Outbox, IntentState, prepared, may_have_submitted, confirmed_submitted,
  response_captured, verified_not_submitted, blocked_ambiguous, OutboxState, submitting, blocked,
  reconcile, retryable, pending_cleanup,
}
use model_lib.Intent.{find_intent, find_outbox, update_intent, update_outbox, move_intent}

pub data Move : Type 0 where
  submit block confirm disprove capture capture_local : Move

-- the arrows of the life cycle: the states that each move leaves
abbrev pub is_source : Move → IntentState → Bool
is_source submit prepared = true
is_source submit verified_not_submitted = true
is_source block _ = true
is_source confirm may_have_submitted = true
is_source confirm blocked_ambiguous = true
is_source confirm confirmed_submitted = true
is_source disprove may_have_submitted = true
is_source disprove blocked_ambiguous = true
is_source capture may_have_submitted = true
is_source capture blocked_ambiguous = true
is_source capture confirmed_submitted = true
is_source capture_local may_have_submitted = true
is_source _ _ = false

abbrev pub target : Move → IntentState
target submit = may_have_submitted
target block = blocked_ambiguous
target confirm = confirmed_submitted
target disprove = verified_not_submitted
target capture = response_captured
target capture_local = response_captured

abbrev pub outbox_target : Move → OutboxState
outbox_target submit = submitting
outbox_target block = blocked
outbox_target confirm = reconcile
outbox_target disprove = retryable
outbox_target capture = pending_cleanup
outbox_target capture_local = pending_cleanup

abbrev pub set_outbox : OutboxState → Outbox → Outbox
set_outbox s o = record o { state = s }

-- every intent but `j` and its outbox row are as they were
abbrev pub KeepsOthers : String → Db → Db → Type 0
KeepsOthers j db after =
    (i : String)
    → (find_intent i after ≡ (if i == j then find_intent j after else find_intent i db))
      × (find_outbox i after ≡ (if i == j then find_outbox j after else find_outbox i db))

-- intent `j` made the move `m`, and every other intent is as it was
pub record Moves (m : Move) (j : String) (db after : Db) : Type 0 where
  pub old : ActionIntent
  pub found : find_intent j db ≡ some old
  pub source : is_source m old.state ≡ true
  pub new : ActionIntent
  pub now : find_intent j after ≡ some new
  pub state : new.state ≡ target m
  pub outbox : find_outbox j after ≡ Option.map (set_outbox (outbox_target m)) (find_outbox j db)
  pub others : KeepsOthers j db after

module _ (i j : String) (f : ActionIntent → ActionIntent)
    (keyed : (r : ActionIntent) → (f r).intent_id ≡ r.intent_id) where
  chosen :
      (o : Option ActionIntent)
      → ((r : ActionIntent) → o ≡ some r → r.intent_id ≡ i)
      → Option.map (λ r. if r.intent_id == j then f r else r) o
        ≡ (if i == j then Option.map f o else o)
  chosen none h = ground arith
  chosen (some r) h = ground (arith, h r refl)

  pub find_intent-update_intent :
      (db : Db)
      → find_intent i (update_intent j f db)
        ≡ (if i == j then Option.map f (find_intent i db) else find_intent i db)
  unfolding find_intent update_intent
  find_intent-update_intent db =
      find_row-update_rows (λ r. r.intent_id == i) (λ r. r.intent_id == j) f db.action_intents
        (λ r. ap (λ (t : String). t == i) (keyed r))
      ∙ chosen (find_row (λ r. r.intent_id == i) db.action_intents) (λ r found.
        (eq_iff r.intent_id i).0 (find_row-holds (λ r. r.intent_id == i) db.action_intents found))

module _ (i j : String) (s : OutboxState) where
  chosen_outbox :
      (o : Option Outbox)
      → ((r : Outbox) → o ≡ some r → r.intent_id ≡ i)
      → Option.map (λ r. if r.intent_id == j then set_outbox s r else r) o
        ≡ (if i == j then Option.map (set_outbox s) o else o)
  chosen_outbox none h = ground arith
  chosen_outbox (some r) h = ground (arith, h r refl)

  pub find_outbox-update_outbox :
      (db : Db)
      → find_outbox i (update_outbox j s db)
        ≡ (if i == j then Option.map (set_outbox s) (find_outbox i db) else find_outbox i db)
  unfolding find_outbox update_outbox
  find_outbox-update_outbox db =
      find_row-update_rows (λ r. r.intent_id == i) (λ r. r.intent_id == j) (set_outbox s) db.outbox
        (λ r. refl)
      ∙ chosen_outbox (find_row (λ r. r.intent_id == i) db.outbox) (λ r found.
        (eq_iff r.intent_id i).0 (find_row-holds (λ r. r.intent_id == i) db.outbox found))

pub find_intent-update_outbox :
    (i j : String) (s : OutboxState) (db : Db)
    → find_intent i (update_outbox j s db) ≡ find_intent i db
unfolding find_intent update_outbox
find_intent-update_outbox i j s db = refl

find_outbox-update_intent :
    (i j : String) (f : ActionIntent → ActionIntent) (db : Db)
    → find_outbox i (update_intent j f db) ≡ find_outbox i db
unfolding find_outbox update_intent
find_outbox-update_intent i j f db = refl

module _ (m : Move) (j : String) (f : ActionIntent → ActionIntent)
    (keyed : (r : ActionIntent) → (f r).intent_id ≡ r.intent_id)
    (sets : (r : ActionIntent) → (f r).state ≡ target m) (db : Db) where
  -- the two UPDATEs of an operation make the move
  pub move_intent-Moves :
      (r : ActionIntent)
      → find_intent j db ≡ some r
      → is_source m r.state ≡ true
      → Moves m j db (move_intent j f (outbox_target m) db)
  unfolding move_intent
  move_intent-Moves r found source = record {
    old = r;
    found = found;
    source = source;
    new = f r;
    now = ground (
      arith,
      find_intent-update_outbox j j (outbox_target m) (update_intent j f db),
      find_intent-update_intent j j f keyed db,
      eq_iff j j,
    );
    state = sets r;
    outbox = ground (
      arith,
      find_outbox-update_outbox j j (outbox_target m) (update_intent j f db),
      find_outbox-update_intent j j f db,
      eq_iff j j,
    );
    others = λ i. (
      ground (
        arith,
        find_intent-update_outbox i j (outbox_target m) (update_intent j f db),
        find_intent-update_intent i j f keyed db,
        eq_iff i j,
      ),
      ground (
        arith,
        find_outbox-update_outbox i j (outbox_target m) (update_intent j f db),
        find_outbox-update_intent i j f db,
        eq_iff i j,
      ),
    );
  }

  -- as above, where the row is only seen after the UPDATEs
  pub move_intent-Moves_after :
      (a : ActionIntent)
      → ((r : ActionIntent) → is_source m r.state ≡ true)
      → find_intent j (move_intent j f (outbox_target m) db) ≡ some a
      → Moves m j db (move_intent j f (outbox_target m) db)
  unfolding move_intent
  move_intent-Moves_after a any seen = elim (Option-cases (find_intent j db)) [
    | inl missing ↦ absurd (
        ground (
          arith,
          seen,
          missing,
          find_intent-update_outbox j j (outbox_target m) (update_intent j f db),
          find_intent-update_intent j j f keyed db,
          eq_iff j j,
        ))
    | inr (r, there) ↦ move_intent-Moves r there (any r)
  ]
