-- ===== src/Scheduler/Graph/Acyclic.antt =====
-- The search of `enqueue_graph` accepts exactly the task graphs without a cycle.
use mathlib.Core.List.{[], ◌∷◌}
use model_lib.Prelude.{
  ℕ, suc, ◌≤◌, ◌<◌, String, Bool, true, false, not, List, ◌≡◌, ◌↔◌, refl, sym, subst, inl, inr,
  ◌==◌, string_eq, eq_iff, arith, if◌then◌else◌, length, exists_row, count_rows, member,
  member-cons, member-nil, member-split, Bool-cases,
}
use model_lib.Scheduler.Graph.{
  Task, ids_of, has_stranger, dependencies_of, Visit, done, cycle, out_of_fuel, visit, search_cycle,
  is_done_visit,
}
use model_lib.Scheduler.Graph.Order.{
  OnDone, Topological, Extends, visit_each-Extends, visit-Extends,
}
use model_lib.Scheduler.Graph.Search.{
  is_out_of_fuel, is_cycle, visit_each-fine, visit-in_fuel, Ranks, visit-no_cycle,
}

-- the number of tasks that an order visits up to a task
rank_in : List String → String → ℕ
rank_in [] x = 0
rank_in (y ∷ ys) x = if y == x then suc (length ys) else rank_in ys x

rank_in-le : (xs : List String) (x : String) → rank_in xs x ≤ length xs
unfolding rank_in
rank_in-le [] x = omega arith
rank_in-le (y ∷ ys) x = ground (arith, rank_in-le ys x)

-- what stands in the rest of an order is not its first task
head_differs :
    (y d : String) (ys : List String) → member y ys ≡ false → member d ys ≡ true → (y == d) ≡ false
head_differs y d ys out here = elim (Bool-cases (y == d)) [
  | inl e ↦ absurd (cc (subst (λ t. member t ys ≡ false) ((eq_iff y d).0 e) out, here))
  | inr e ↦ e
]

rank_in-Topological :
    (deps : String → List String) (order : List String) (x d : String)
    → Topological deps order
    → member x order ≡ true
    → member d (deps x) ≡ true
    → (rank_in order d < rank_in order x) × (member d order ≡ true)
unfolding rank_in
rank_in-Topological deps [] x d order here dep = absurd (member-nil x here)
rank_in-Topological deps (y ∷ ys) x d order here dep = elim (member-split y x ys here) [
  | inl e ↦
      let later = order.1 d (subst (λ t. member d (deps t) ≡ true) (sym e) dep) in
      (
        ground (arith, e, eq_iff y x, head_differs y d ys order.0 later, rank_in-le ys d),
        member-cons d y ys later,
      )
  | inr k ↦
      let below = rank_in-Topological deps ys x d order.2 k dep in
      (
        ground (arith, head_differs y d ys order.0 below.1, head_differs y x ys order.0 k, below.0),
        member-cons d y ys below.1,
      )
]

strangers-known :
    (ids ds : List String) (d : String)
    → has_stranger ids ds ≡ false
    → member d ds ≡ true
    → member d ids ≡ true
unfolding exists_row
strangers-known ids [] d h m = cc
strangers-known ids (e ∷ ds) d h m = ground (arith, eq_iff e d, strangers-known ids ds d)

-- the check before the search: every dependency is a task of the graph
dependencies_of-known :
    (ids : List String) (tasks : List Task)
    → exists_row (λ t. has_stranger ids t.dependencies) tasks ≡ false
    → (x d : String) → member d (dependencies_of tasks x) ≡ true
    → member d ids ≡ true
unfolding exists_row dependencies_of
dependencies_of-known ids [] h x d m = cc
dependencies_of-known ids (t ∷ tasks) h x d m =
    ground (arith, strangers-known ids t.dependencies d, dependencies_of-known ids tasks _ x d)

dependencies_of-member :
    (tasks : List Task) (x d : String)
    → member d (dependencies_of tasks x) ≡ true
    → member x (ids_of tasks) ≡ true
unfolding dependencies_of exists_row
dependencies_of-member [] x d m = cc
dependencies_of-member (t ∷ tasks) x d m = ground (arith, dependencies_of-member tasks x d)

count_rows-le_tasks :
    (p : String → Bool) (tasks : List Task) → count_rows p (ids_of tasks) ≤ length tasks
unfolding count_rows
count_rows-le_tasks p [] = omega arith
count_rows-le_tasks p (t ∷ tasks) = ground (arith, count_rows-le_tasks p tasks)

module _ (tasks : List Task)
    (known : exists_row (λ t. has_stranger (ids_of tasks) t.dependencies) tasks ≡ false) where
  -- Where every dependency is a task of the graph, the search for a cycle ends within its fuel of one
  -- nested call for each task, and one more.
  pub search_cycle-ends : is_out_of_fuel (search_cycle tasks) ≡ false
  unfolding search_cycle
  search_cycle-ends =
      visit_each-fine is_out_of_fuel (λ v. refl) _ (ids_of tasks) []
        λ id v m.
          visit-in_fuel (dependencies_of tasks) (ids_of tasks)
            (dependencies_of-known (ids_of tasks) tasks known) (suc (length tasks)) [] id v m
            (omega (arith, count_rows-le_tasks (λ y. not (member y [])) tasks))

  done_of : (r : Visit) → is_out_of_fuel r ≡ false → is_cycle r ≡ false → is_done_visit r ≡ true
  done_of (done v) h k = refl
  done_of cycle h k = cc
  done_of out_of_fuel h k = cc

  numbered :
      (r : Visit)
      → OnDone
          (λ w.
            Extends (dependencies_of tasks) [] [] w
            × ((d : String) → member d (ids_of tasks) ≡ true → member d w ≡ true))
          r
      → is_done_visit r ≡ true
      → (rank : String → ℕ) × Ranks (dependencies_of tasks) rank
  numbered (done w) h k = (
    rank_in w,
    λ x d m.
        (rank_in-Topological (dependencies_of tasks) w x d h.0.order
          (h.1 x (dependencies_of-member tasks x d m)) m).0,
  )
  numbered cycle h k = absurd (ground (arith, k))
  numbered out_of_fuel h k = absurd (ground (arith, k))

  search_cycle-Extends :
      OnDone
        (λ w.
          Extends (dependencies_of tasks) [] [] w
          × ((d : String) → member d (ids_of tasks) ≡ true → member d w ≡ true))
        (search_cycle tasks)
  unfolding search_cycle
  search_cycle-Extends =
      visit_each-Extends (dependencies_of tasks)
        (visit (dependencies_of tasks) (suc (length tasks)) []) [] (ids_of tasks) []
        (λ d v. visit-Extends (dependencies_of tasks) (suc (length tasks)) [] d v) tt

  search_cycle-no_cycle :
      (rank : String → ℕ)
      → Ranks (dependencies_of tasks) rank
      → is_cycle (search_cycle tasks) ≡ false
  unfolding search_cycle
  search_cycle-no_cycle rank ranks =
      visit_each-fine is_cycle (λ v. refl) _ (ids_of tasks) []
        λ id v m.
          visit-no_cycle (dependencies_of tasks) rank ranks (suc (length tasks)) [] id v
            λ y k. absurd (member-nil y k)

  -- Where every dependency is a task of the graph, the search accepts the graph exactly if the tasks can
  -- be numbered so that each has a larger number than its dependencies, which is to say that they have
  -- no cycle.
  pub search_cycle-iff_Ranks :
      (is_done_visit (search_cycle tasks) ≡ true)
      ↔ ((rank : String → ℕ) × Ranks (dependencies_of tasks) rank)
  search_cycle-iff_Ranks = (accepted, ranked)
    where
      accepted :
          is_done_visit (search_cycle tasks) ≡ true
          → (rank : String → ℕ) × Ranks (dependencies_of tasks) rank
      accepted h = numbered (search_cycle tasks) search_cycle-Extends h

      ranked :
          (rank : String → ℕ) × Ranks (dependencies_of tasks) rank
          → is_done_visit (search_cycle tasks) ≡ true
      ranked ranks =
          done_of (search_cycle tasks) search_cycle-ends (search_cycle-no_cycle ranks.0 ranks.1)
