-- ===== src/Scheduler/Graph/Search.antt =====
-- `visit` of `enqueue_graph` has enough fuel, and finds a cycle only where there is one.
use mathlib.Core.List.{[], ◌∷◌}
use model_lib.Prelude.{
  ℕ, zero, suc, ◌+◌, ◌≤◌, ◌<◌, String, Bool, true, false, not, List, ◌≡◌, refl, subst, inl, inr,
  string_eq, arith, count_rows, member, member-cons, member-head, member-split, Bool-cases,
}
use model_lib.Scheduler.Graph.{Visit, done, cycle, out_of_fuel, and_then, visit_each, visit}
use model_lib.Scheduler.Graph.Order.{count_rows-lt, visit-zero, visit-open, visit-closed, visit-new}

abbrev pub is_out_of_fuel : Visit → Bool
is_out_of_fuel out_of_fuel = true
is_out_of_fuel _ = false

abbrev pub is_cycle : Visit → Bool
is_cycle cycle = true
is_cycle _ = false

-- a way of ending that is not `done` comes from a call that ends so
module _ (bad : Visit → Bool) (fine : (v : List String) → bad (done v) ≡ false) where
  and_then-fine :
      (r : Visit) (next : List String → Visit)
      → bad r ≡ false
      → ((v : List String) → bad (next v) ≡ false)
      → bad (and_then r next) ≡ false
  and_then-fine (done v) next h k = k v
  and_then-fine cycle next h k = h
  and_then-fine out_of_fuel next h k = h

  pub visit_each-fine :
      (go : String → List String → Visit) (ds visited : List String)
      → ((d : String) (v : List String) → member d ds ≡ true → bad (go d v) ≡ false)
      → bad (visit_each go ds visited) ≡ false
  unfolding visit_each
  visit_each-fine go [] visited h = fine visited
  visit_each-fine go (d ∷ ds) visited h =
      and_then-fine (go d visited) _ (h d visited (member-head d ds))
        λ v. visit_each-fine go ds v λ e w m. h e w (member-cons e d ds m)

module _ (deps : String → List String) (ids : List String)
    (closed : (x d : String) → member d (deps x) ≡ true → member d ids ≡ true) where
  -- how many tasks have no open call
  abbrev rest : List String → ℕ
  rest visiting = count_rows (λ y. not (member y visiting)) ids

  rest-lt :
      (visiting : List String) (id : String)
      → member id ids ≡ true
      → member id visiting ≡ false
      → rest (id ∷ visiting) + 1 ≤ rest visiting
  rest-lt visiting id known new =
      count_rows-lt (λ y. not (member y (id ∷ visiting))) (λ y. not (member y visiting)) ids id
        (λ y h. ground (arith, member-cons y id visiting)) known
        (ground (arith, member-head id visiting)) (ground (arith, new))

  pub visit-in_fuel :
      (fuel : ℕ) (visiting : List String) (id : String) (visited : List String)
      → member id ids ≡ true
      → rest visiting + 1 ≤ fuel
      → is_out_of_fuel (visit deps fuel visiting id visited) ≡ false
  visit-in_fuel zero visiting id visited known enough = absurd (omega arith)
  visit-in_fuel (suc fuel) visiting id visited known enough =
      elim (Bool-cases (member id visiting)) [
        | inl e ↦ rw (visit-open deps fuel visiting id visited e) refl
        | inr e ↦ elim (Bool-cases (member id visited)) [
          | inl k ↦ rw (visit-closed deps fuel visiting id visited e k) refl
          | inr k ↦ rw (visit-new deps fuel visiting id visited e k) (
              and_then-fine is_out_of_fuel (λ v. refl) _ _
                (visit_each-fine is_out_of_fuel (λ v. refl) _ (deps id) visited
                  λ d v m.
                    visit-in_fuel fuel (id ∷ visiting) d v (closed id d m)
                      (omega (arith, rest-lt visiting id known e)))
                λ v. refl)
        ]
      ]

-- a number for each task that is larger than those of its dependencies
abbrev pub Ranks : (String → List String) → (String → ℕ) → Type 0
Ranks deps rank = (x d : String) → member d (deps x) ≡ true → rank d < rank x

module _ (deps : String → List String) (rank : String → ℕ) (ranks : Ranks deps rank) where
  pub visit-no_cycle :
      (fuel : ℕ) (visiting : List String) (id : String) (visited : List String)
      → ((y : String) → member y visiting ≡ true → rank id < rank y)
      → is_cycle (visit deps fuel visiting id visited) ≡ false
  visit-no_cycle zero visiting id visited below = rw (visit-zero deps visiting id visited) refl
  visit-no_cycle (suc fuel) visiting id visited below = elim (Bool-cases (member id visiting)) [
    | inl e ↦ absurd (omega (arith, below id e))
    | inr e ↦ elim (Bool-cases (member id visited)) [
      | inl k ↦ rw (visit-closed deps fuel visiting id visited e k) refl
      | inr k ↦ rw (visit-new deps fuel visiting id visited e k) (
          and_then-fine is_cycle (λ v. refl) _ _
            (visit_each-fine is_cycle (λ v. refl) _ (deps id) visited
              λ d v m.
                visit-no_cycle fuel (id ∷ visiting) d v
                  (open_above id d visiting below (ranks id d m)))
            λ v. refl)
    ]
  ]
    where
      open_above :
          (id d : String) (visiting : List String)
          → ((y : String) → member y visiting ≡ true → rank id < rank y)
          → rank d < rank id
          → (y : String) → member y (id ∷ visiting) ≡ true
          → rank d < rank y
      open_above id d visiting below lt y m = elim (member-split id y visiting m) [
        | inl e ↦ subst (λ t. rank d < rank t) e lt
        | inr k ↦ omega (arith, below y k)
      ]
