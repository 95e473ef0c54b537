-- ===== src/Intent/Coherent.antt =====
-- The state of an intent and that of its outbox row say the same.
use mathlib.Core.List.{List, [], ◌∷◌}
use mathlib.Core.Option
use model_lib.Prelude.{
  String, Bool, true, false, Option, none, some, inl, inr, ◌≡◌, refl, sym, subst, ◌==◌, string_eq,
  eq_iff, arith, Bool-cases,
}
use model_lib.Text.{strip}
use model_lib.Json.{Codec}
use model_lib.Schema.{Db}
use model_lib.Schema.Rows.{
  ActionIntent, Outbox, IntentState, prepared, may_have_submitted, confirmed_submitted,
  response_captured, verified_not_submitted, blocked_ambiguous, OutboxState, pending, submitting,
  blocked, reconcile, retryable, pending_cleanup, completed,
}
use model_lib.Intent.{find_intent, find_outbox}
use model_lib.Intent.Life.{is_captured}
use model_lib.Intent.Machine.{
  Move, submit, block, confirm, disprove, capture, capture_local, target, outbox_target, set_outbox,
  KeepsOthers, Moves,
}
use model_lib.Intent.Created.{Finalized}
use model_lib.Intent.Requests.{
  Request, prepare, begin_submit, block_it, confirm_it, disprove_it, capture_it, capture_local_it,
  finalize, perform, run, Effect, Performed, perform-Performed,
}

abbrev pub is_match : IntentState → OutboxState → Bool
is_match prepared pending = true
is_match may_have_submitted submitting = true
is_match confirmed_submitted reconcile = true
is_match response_captured pending_cleanup = true
is_match response_captured completed = true
is_match verified_not_submitted retryable = true
is_match blocked_ambiguous blocked = true
is_match _ _ = false

-- both rows or none
abbrev pub is_pair : Option ActionIntent → Option Outbox → Bool
is_pair none none = true
is_pair (some r) (some o) = is_match r.state o.state
is_pair _ _ = false

abbrev pub IsCoherent : String → Db → Type 0
IsCoherent i db = is_pair (find_intent i db) (find_outbox i db) ≡ true

is_match-target : (m : Move) → is_match (target m) (outbox_target m) ≡ true
is_match-target submit = refl
is_match-target block = refl
is_match-target confirm = refl
is_match-target disprove = refl
is_match-target capture = refl
is_match-target capture_local = refl

is_pair-moved :
    (m : Move) (a b : ActionIntent) (o : Option Outbox)
    → b.state ≡ target m
    → is_pair (some a) o ≡ true
    → is_pair (some b) (Option.map (set_outbox (outbox_target m)) o) ≡ true
is_pair-moved m a b none same h = cc
is_pair-moved m a b (some o) same h = rw same (is_match-target m)

is_match-completed : (s : IntentState) → is_captured s ≡ true → is_match s completed ≡ true
is_match-completed response_captured h = refl
is_match-completed prepared h = cc
is_match-completed may_have_submitted h = cc
is_match-completed confirmed_submitted h = cc
is_match-completed verified_not_submitted h = cc
is_match-completed blocked_ambiguous h = cc

is_pair-completed :
    (a : ActionIntent) (o : Option Outbox)
    → is_captured a.state ≡ true
    → is_pair (some a) o ≡ true
    → is_pair (some a) (Option.map (set_outbox completed) o) ≡ true
is_pair-completed a none able h = cc
is_pair-completed a (some o) able h = is_match-completed a.state able

Moves-IsCoherent :
    (m : Move) (j : String) (db after : Db)
    → Moves m j db after
    → IsCoherent j db
    → IsCoherent j after
Moves-IsCoherent m j db after h c =
    rw (h.now, h.outbox)
      (is_pair-moved m h.old h.new (find_outbox j db) h.state (rw (h.found) at c))

Finalized-IsCoherent :
    (j : String) (db after : Db) → Finalized j db after → IsCoherent j db → IsCoherent j after
Finalized-IsCoherent j db after h c =
    rw (h.intents j, h.found, h.outbox)
      (is_pair-completed h.old (find_outbox j db) h.source (rw (h.found) at c))

module _ (i j : String) (db after : Db) where
  -- a change of one intent's rows keeps all coherent if it keeps that one
  one_of_all :
      (IsCoherent j db → IsCoherent j after)
      → KeepsOthers j db after
      → IsCoherent i db
      → IsCoherent i after
  one_of_all self others c = elim (Bool-cases (i == j)) [
    | inl same ↦
        let e = (eq_iff i j).0 same in
        subst (λ k. IsCoherent k after) (sym e) (self (subst (λ k. IsCoherent k db) e c))
    | inr other ↦ ground (arith, other, others i, c)
  ]

module _ (i : String) where
  Moves-IsCoherent_any :
      (m : Move) (j : String) (db after : Db)
      → Moves m j db after
      → IsCoherent i db
      → IsCoherent i after
  Moves-IsCoherent_any m j db after h =
      one_of_all i j db after (Moves-IsCoherent m j db after h) h.others

  Effect-IsCoherent :
      (codec : Codec) (r : Request) (db after : Db)
      → Effect codec r db after
      → IsCoherent i db
      → IsCoherent i after
  Effect-IsCoherent codec (prepare project intent actor channel action payload) db after
        (inl same, _) c =
      subst (IsCoherent i) (sym same) c
  Effect-IsCoherent codec (prepare project intent actor channel action payload) db after (inr h, _)
        c =
      one_of_all i (strip intent) db after
        (λ _. rw (h.now, h.outbox) (ground (arith, h.state, h.outbox_state))) h.others c
  Effect-IsCoherent codec (begin_submit j) db after h c = Moves-IsCoherent_any submit j db after h c
  Effect-IsCoherent codec (block_it j reason observation) db after h c =
      Moves-IsCoherent_any block j db after h c
  Effect-IsCoherent codec (confirm_it j url remote observation) db after h c =
      Moves-IsCoherent_any confirm j db after h c
  Effect-IsCoherent codec (disprove_it j proof observation) db after h c =
      Moves-IsCoherent_any disprove j db after h c
  Effect-IsCoherent codec (capture_it j response url remote observation) db after h c =
      Moves-IsCoherent_any capture j db after h c
  Effect-IsCoherent codec (capture_local_it j receipt observation) db after h c =
      Moves-IsCoherent_any capture_local j db after h c
  Effect-IsCoherent codec (finalize j) db after h c =
      one_of_all i j db after (Finalized-IsCoherent j db after h) h.others c

  perform-IsCoherent :
      (codec : Codec) (r : Request) (db : Db)
      → IsCoherent i db
      → IsCoherent i (perform codec r db).1
  perform-IsCoherent codec r db c = kept (perform codec r db) (perform-Performed codec r db)
    where
      kept : (o : Bool × Db) → Performed (Effect codec r db) db o → IsCoherent i o.1
      kept (done, after) (inl (refused, same)) = subst (IsCoherent i) (sym same) c
      kept (done, after) (inr (ended, effect)) = Effect-IsCoherent codec r db after effect c

-- Every sequence of requests about intents keeps the state of each intent and that of its outbox row
-- in step, both rows there or none.
pub run-IsCoherent :
    (codec : Codec) (intent : String) (requests : List Request) (db : Db)
    → IsCoherent intent db
    → IsCoherent intent (run codec requests db)
unfolding run
run-IsCoherent codec intent [] db c = c
run-IsCoherent codec intent (r ∷ rs) db c =
    run-IsCoherent codec intent rs (perform codec r db).1 (perform-IsCoherent intent codec r db c)
