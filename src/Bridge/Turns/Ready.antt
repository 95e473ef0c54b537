-- ===== src/Bridge/Turns/Ready.antt =====
-- The scheduler of turns passes over no work that is ready.
use mathlib.Core.List.{[], ◌∷◌}
use model_lib.Prelude.{
  ℕ, ◌+◌, ◌≤◌, String, Bool, true, false, Option, none, some, List, ◌≡◌, inl, inr, refl, ap, ◌∙◌,
  ◌||◌, ◌==◌, string_eq, arith, if◌then◌else◌, length, length-sort_by, sort_by, count_rows,
  Option-cases,
}
use model_lib.Tx.{Result, ok, err}
use model_lib.Tx.Rules.{ok-injective}
use model_lib.Bridge.Window.{Leases}
use model_lib.Bridge.Turns.{
  Candidate, TurnState, LedgerRow, Place, recovery, resume, worker_event, master, worker,
  superseded, refused, is_terminal_status, active_session, place, Buckets, put, put_before, collect,
  head_of, first_turn, or_else, alternate, pick, Selection, selection_of, select_turn,
}
use model_lib.Bridge.Turns.Eligible.{In, is_kept, OnOutcome}

-- the candidates in the lists
abbrev total : Buckets → ℕ
total b =
    length b.recoveries
    + (length b.resumes + (length b.worker_events + (length b.masters + length b.workers)))

put_before-total :
    (c : Candidate) (p : Place) (rest : Result String Buckets) (n : ℕ)
    → OnOutcome (λ b. total b ≡ n) rest
    → OnOutcome (λ b. total b ≡ (if is_kept p then 1 else 0) + n) (put_before c p rest)
unfolding OnOutcome put_before put
put_before-total c (refused e) rest n h = tt
put_before-total c (superseded r) (err e) n h = tt
put_before-total c recovery (err e) n h = tt
put_before-total c resume (err e) n h = tt
put_before-total c worker_event (err e) n h = tt
put_before-total c master (err e) n h = tt
put_before-total c worker (err e) n h = tt
put_before-total c (superseded r) (ok b) n h = omega (arith, h)
put_before-total c recovery (ok b) n h = omega (arith, h)
put_before-total c resume (ok b) n h = omega (arith, h)
put_before-total c worker_event (ok b) n h = omega (arith, h)
put_before-total c master (ok b) n h = omega (arith, h)
put_before-total c worker (ok b) n h = omega (arith, h)

abbrev kept_rows : (Candidate → Place) → List Candidate → ℕ
kept_rows at candidates = count_rows (λ c. is_kept (at c)) candidates

collect-total :
    (at : Candidate → Place) (candidates : List Candidate)
    → OnOutcome (λ b. total b ≡ kept_rows at candidates) (collect at candidates)
unfolding collect OnOutcome count_rows
collect-total at [] = refl
collect-total at (c ∷ candidates) =
    put_before-total c (at c) (collect at candidates) (kept_rows at candidates)
      (collect-total at candidates)

first_turn-none : (turns : List Candidate) → first_turn turns ≡ none → length turns ≡ 0
first_turn-none turns h =
    empty (sort_by (λ c. c.turn_id) turns) (length-sort_by (λ c. c.turn_id) turns) h
  where
    empty : (xs : List Candidate) → length xs ≡ length turns → head_of xs ≡ none → length turns ≡ 0
    empty [] same k = omega (arith, same)
    empty (x ∷ xs) same k = cc

or_else-none : (o next : Option Candidate) → or_else o next ≡ none → (o ≡ none) × (next ≡ none)
or_else-none none next h = (refl, h)
or_else-none (some c) next h = cc

alternate-none :
    (b : Bool) (m w : Option Candidate) → alternate b m w ≡ none → (m ≡ none) × (w ≡ none)
alternate-none b none w h = (refl, h)
alternate-none b (some m) none h = cc
alternate-none true (some m) (some w) h = cc
alternate-none false (some m) (some w) h = cc

pick-none : (b : Bool) (buckets : Buckets) → pick b buckets ≡ none → total buckets ≡ 0
unfolding pick
pick-none b k h =
    let first = or_else-none (first_turn k.recoveries) _ h in
    let second = or_else-none (first_turn k.resumes) _ first.1 in
    let third = or_else-none (first_turn k.worker_events) _ second.1 in
    let last = alternate-none b (first_turn k.masters) (first_turn k.workers) third.1 in
    omega (
      arith,
      first_turn-none k.recoveries first.0,
      first_turn-none k.resumes second.0,
      first_turn-none k.worker_events third.0,
      first_turn-none k.masters last.0,
      first_turn-none k.workers last.1,
    )

In-count_rows :
    (p : Candidate → Bool) (c : Candidate) (xs : List Candidate)
    → In c xs
    → p c ≡ true
    → 1 ≤ count_rows p xs
unfolding count_rows
In-count_rows p c [] m h = absurd m
In-count_rows p c (x ∷ xs) (inl e) h = ground (arith, e, h)
In-count_rows p c (x ∷ xs) (inr m) h = ground (arith, In-count_rows p c xs m h)

-- a selection of nothing is made where nothing is in the lists
selection_of-none :
    (ledger : List LedgerRow) (r : Result String Buckets) (n : ℕ) {selection : Selection}
    → OnOutcome (λ b. total b ≡ n) r
    → selection_of ledger r ≡ ok selection
    → selection.selected ≡ none
    → n ≡ 0
unfolding OnOutcome selection_of
selection_of-none ledger (err e) n h same nothing = cc
selection_of-none ledger (ok b) n h same nothing =
    omega (arith, h, pick-none _ b (ap (λ t. t.selected) (ok-injective same) ∙ nothing))

abbrev pub is_refused : Place → Bool
is_refused (refused e) = true
is_refused _ = false

put_before-returns :
    (c : Candidate) (p : Place) (b : Buckets)
    → is_refused p ≡ false
    → (after : Buckets) × (put_before c p (ok b) ≡ ok after)
unfolding put_before put
put_before-returns c recovery b h = (_, refl)
put_before-returns c resume b h = (_, refl)
put_before-returns c worker_event b h = (_, refl)
put_before-returns c master b h = (_, refl)
put_before-returns c worker b h = (_, refl)
put_before-returns c (superseded r) b h = (_, refl)
put_before-returns c (refused e) b h = cc

collect-returns :
    (at : Candidate → Place) (candidates : List Candidate)
    → ((d : Candidate) → In d candidates → is_refused (at d) ≡ false)
    → (b : Buckets) × (collect at candidates ≡ ok b)
unfolding collect
collect-returns at [] h = (_, refl)
collect-returns at (c ∷ candidates) h =
    let (b, rest) = collect-returns at candidates (λ d m. h d (inr m)) in
    let (after, put_in) = put_before-returns c (at c) b (h c (inl refl)) in
    (after, ap (put_before c (at c)) rest ∙ put_in)

selection_of-returns :
    (ledger : List LedgerRow) (r : Result String Buckets)
    → (b : Buckets) × (r ≡ ok b)
    → (s : Selection) × (selection_of ledger r ≡ ok s)
unfolding selection_of
selection_of-returns ledger (ok b) h = (_, refl)
selection_of-returns ledger (err e) h = cc

-- Where the project's status is one of the three, no candidate is refused, and one of them is placed to run,
-- the call returns and selects a turn.
pub ready_turn_is_selected :
    (state : TurnState) (windows : Leases) (candidates : List Candidate) (ledger : List LedgerRow)
    (now : ℕ) (c : Candidate)
    → (state.status == "ACTIVE" || is_terminal_status state.status) ≡ true
    → ((d : Candidate)
        → In d candidates
        → is_refused (place state (active_session windows state.project_id now) d) ≡ false)
    → In c candidates
    → is_kept (place state (active_session windows state.project_id now) c) ≡ true
    → (selection : Selection) × (turn : Candidate) × (select_turn state windows candidates ledger
          now
        ≡ ok selection)
      × (selection.selected ≡ some turn)
unfolding select_turn
ready_turn_is_selected state windows candidates ledger now c status fine here kept =
    let at = place state (active_session windows state.project_id now) in
    let (selection, returned) =
      selection_of-returns ledger (collect at candidates) (collect-returns at candidates fine) in
    rw status (elim (Option-cases selection.selected) [
      | inl nothing ↦ absurd (
          omega (
            arith,
            In-count_rows (λ x. is_kept (at x)) c candidates here kept,
            selection_of-none ledger (collect at candidates) (kept_rows at candidates)
                (collect-total at candidates) returned nothing,
          ))
      | inr (turn, found) ↦ (selection, turn, returned, found)
    ])
