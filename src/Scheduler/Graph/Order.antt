-- ===== src/Scheduler/Graph/Order.antt =====
-- The search of a task graph for a cycle, `visit` of `enqueue_graph`: that it ends, and what it decides.
use mathlib.Core.List.{[], ◌∷◌}
use model_lib.Prelude.{
  ℕ, zero, suc, ◌+◌, ◌≤◌, String, Bool, true, false, List, ◌≡◌, refl, ◌∙◌, subst, inl, inr, ◌==◌,
  string_eq, eq_iff, arith, exists_row, count_rows, count_rows-le, member, member-cons, member-head,
  Bool-cases,
}
use model_lib.Scheduler.Graph.{Visit, done, cycle, out_of_fuel, and_then, visit_each, visit}

pub count_rows-lt :
    (p q : String → Bool) (xs : List String) (x : String)
    → ((y : String) → p y ≡ true → q y ≡ true)
    → member x xs ≡ true
    → p x ≡ false
    → q x ≡ true
    → count_rows p xs + 1 ≤ count_rows q xs
unfolding count_rows exists_row
count_rows-lt p q [] x h k u v = cc
count_rows-lt p q (y ∷ xs) x h k u v = elim (Bool-cases (y == x)) [
  | inl e ↦ ground (arith, e, eq_iff y x, u, v, count_rows-le p q xs h)
  | inr e ↦ ground (arith, e, h y, count_rows-lt p q xs x h (rw e at k) u v)
]

abbrev pub OnDone : (List String → Type 0) → Visit → Type 0
OnDone P (done v) = P v
OnDone P cycle = Unit
OnDone P out_of_fuel = Unit

OnDone-and_then :
    (P Q : List String → Type 0) (r : Visit) (next : List String → Visit)
    → OnDone P r
    → ((v : List String) → P v → OnDone Q (next v))
    → OnDone Q (and_then r next)
OnDone-and_then P Q (done v) next h k = k v h
OnDone-and_then P Q cycle next h k = tt
OnDone-and_then P Q out_of_fuel next h k = tt

OnDone-weaken :
    (P Q : List String → Type 0) (r : Visit)
    → OnDone P r
    → ((v : List String) → P v → Q v)
    → OnDone Q r
OnDone-weaken P Q (done v) h k = k v h
OnDone-weaken P Q cycle h k = tt
OnDone-weaken P Q out_of_fuel h k = tt

module _ (deps : String → List String) where
  pub visit-zero :
      (visiting : List String) (id : String) (visited : List String)
      → visit deps 0 visiting id visited ≡ out_of_fuel
  unfolding visit
  visit-zero visiting id visited = refl

  -- the three ways through a call
  module _ (fuel : ℕ) (visiting : List String) (id : String) (visited : List String) where
    pub visit-open : member id visiting ≡ true → visit deps (suc fuel) visiting id visited ≡ cycle
    unfolding visit
    visit-open e = ground (arith, e)

    pub visit-closed :
        member id visiting ≡ false
        → member id visited ≡ true
        → visit deps (suc fuel) visiting id visited ≡ done visited
    unfolding visit
    visit-closed e k = ground (arith, e, k)

    pub visit-new :
        member id visiting ≡ false
        → member id visited ≡ false
        → visit deps (suc fuel) visiting id visited
          ≡ and_then
              (visit_each (visit deps fuel (id ∷ visiting)) (deps id) visited)
              λ v. done (id ∷ v)
    unfolding visit
    visit-new e k = ground (arith, e, k)

  -- an order, newest first, in which each task stands once and after its dependencies
  abbrev pub Topological : List String → Type 0
  Topological [] = Unit
  Topological (x ∷ xs) =
      (member x xs ≡ false)
      × ((d : String) → member d (deps x) ≡ true → member d xs ≡ true)
      × Topological xs

  -- what a call that returns has made of `visited`
  pub record Extends (visiting before after : List String) : Type 0 where
    pub order : Topological after
    pub keeps : (y : String) → member y visiting ≡ true → member y after ≡ member y before
    pub grows : (y : String) → member y before ≡ true → member y after ≡ true

  pub visit_each-Extends :
      (go : String → List String → Visit) (visiting ds visited : List String)
      → ((d : String) (v : List String)
          → Topological v
          → OnDone (λ w. Extends visiting v w × (member d w ≡ true)) (go d v))
      → Topological visited
      → OnDone
          (λ w.
            Extends visiting visited w × ((d : String) → member d ds ≡ true → member d w ≡ true))
          (visit_each go ds visited)
  unfolding visit_each exists_row
  visit_each-Extends go visiting [] visited h order =
      (record { order = order; keeps = λ y _. refl; grows = λ y k. k }, λ d k. cc)
  visit_each-Extends go visiting (d ∷ ds) visited h order =
      OnDone-and_then _ _ (go d visited) _ (h d visited order) λ v found.
        OnDone-weaken _ _ (visit_each go ds v) (visit_each-Extends go visiting ds v h found.0.order)
          λ w all. (
            record {
              order = all.0.order;
              keeps = λ y k. all.0.keeps y k ∙ found.0.keeps y k;
              grows = λ y k. all.0.grows y (found.0.grows y k);
            },
            λ y k. elim (Bool-cases (d == y)) [
              | inl e ↦ subst (λ t. member t w ≡ true) ((eq_iff d y).0 e) (all.0.grows d found.1)
              | inr e ↦ all.1 y (rw e at k)
            ],
          )

  -- a task joins `visited` once its dependencies are there
  added :
      (visiting : List String) (id : String) (visited v : List String)
      → member id visiting ≡ false
      → member id visited ≡ false
      → Extends (id ∷ visiting) visited v
      → ((d : String) → member d (deps id) ≡ true → member d v ≡ true)
      → Extends visiting visited (id ∷ v)
  unfolding exists_row
  added visiting id visited v e k ext all = record {
    order = (ext.keeps id (member-head id visiting) ∙ k, all, ext.order);
    keeps = λ y m. ground (arith, e, m, eq_iff id y, ext.keeps y (member-cons y id visiting m));
    grows = λ y m. member-cons y id v (ext.grows y m);
  }

  pub visit-Extends :
      (fuel : ℕ) (visiting : List String) (id : String) (visited : List String)
      → Topological visited
      → OnDone
          (λ w. Extends visiting visited w × (member id w ≡ true))
          (visit deps fuel visiting id visited)
  visit-Extends zero visiting id visited order = rw (visit-zero visiting id visited) tt
  visit-Extends (suc fuel) visiting id visited order = elim (Bool-cases (member id visiting)) [
    | inl e ↦ rw (visit-open fuel visiting id visited e) tt
    | inr e ↦ elim (Bool-cases (member id visited)) [
      | inl k ↦
          rw (visit-closed fuel visiting id visited e k)
            (record { order = order; keeps = λ y _. refl; grows = λ y m. m }, k)
      | inr k ↦ rw (visit-new fuel visiting id visited e k) (
          OnDone-and_then _ _ (visit_each (visit deps fuel (id ∷ visiting)) (deps id) visited) _
            (visit_each-Extends (visit deps fuel (id ∷ visiting)) (id ∷ visiting) (deps id) visited
              (λ d v. visit-Extends fuel (id ∷ visiting) d v) order)
            λ v all. (added visiting id visited v e k all.0 all.1, member-head id v))
    ]
  ]
