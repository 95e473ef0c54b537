-- ===== src/Prelude/Sort.antt =====
-- ORDER BY a text column, and Python's sets of texts: texts are ordered by their code points.
use Prim.Native.Nat.{Ordering, suc}
use Prim.Native.String.{String, compare}
use mathlib.Core.Bool.{Bool, true, false, not, ◌&&◌}
use mathlib.Core.List.{List, [], ◌∷◌}
use mathlib.Core.Path.{◌≡◌, refl}
use mathlib.Core.Logic.{◌⊎◌, inl, inr}
use native.Mathlib.Omega.{arith}
use text.Mathlib.TextEquality.{eq_iff}
use model_lib.Prelude.Tests.{Bool-cases, if◌then◌else◌, ◌==◌, string_eq}
use model_lib.Prelude.Lists.{exists_row, All, length}

abbrev pub text_leb : String → String → Bool
text_leb s t = elim (compare s t) [ Ordering.gt ↦ false | _ ↦ true ]

module _ {A : Type 0} where
  insert_by : (A → String) → A → List A → List A
  insert_by key x [] = x ∷ []
  insert_by key x (y ∷ ys) =
      let rest = insert_by key x ys in if text_leb (key x) (key y) then x ∷ y ∷ ys else y ∷ rest

  unfoldable pub sort_by : (A → String) → List A → List A
  unfolding insert_by
  sort_by key [] = []
  sort_by key (x ∷ xs) = insert_by key x (sort_by key xs)

  All-insert_by :
      (P : A → Type 0) (key : A → String) (x : A) (xs : List A)
      → P x
      → All P xs
      → All P (insert_by key x xs)
  unfolding insert_by
  All-insert_by P key x [] h k = (h, k)
  All-insert_by P key x (y ∷ ys) h k = elim (Bool-cases (text_leb (key x) (key y))) [
    | inl e ↦ rw e (h, k)
    | inr e ↦ rw e (k.0, All-insert_by P key x ys h k.1)
  ]

  length-insert_by :
      (key : A → String) (x : A) (xs : List A) → length (insert_by key x xs) ≡ suc (length xs)
  unfolding insert_by
  length-insert_by key x [] = refl
  length-insert_by key x (y ∷ ys) = ground (arith, length-insert_by key x ys)

  pub length-sort_by : (key : A → String) (xs : List A) → length (sort_by key xs) ≡ length xs
  unfolding sort_by
  length-sort_by key [] = refl
  length-sort_by key (x ∷ xs) =
      omega (arith, length-insert_by key x (sort_by key xs), length-sort_by key xs)

  -- sorting keeps what holds of each
  pub All-sort_by :
      (P : A → Type 0) (key : A → String) (xs : List A) → All P xs → All P (sort_by key xs)
  unfolding sort_by
  All-sort_by P key [] h = h
  All-sort_by P key (x ∷ xs) h =
      All-insert_by P key x (sort_by key xs) h.0 (All-sort_by P key xs h.1)

-- `value in values`
abbrev pub member : String → List String → Bool
member x xs = exists_row (λ y. y == x) xs

-- `set(values)`
unfoldable pub distinct : List String → List String
distinct [] = []
distinct (x ∷ xs) = let rest = distinct xs in if member x xs then rest else x ∷ rest

-- `len(values) == len(set(values))`
unfoldable pub no_repeats : List String → Bool
no_repeats [] = true
no_repeats (x ∷ xs) = not (member x xs) && no_repeats xs

-- `tuple(sorted(set(values)))`
abbrev pub sorted_set : List String → List String
sorted_set xs = sort_by (λ x. x) (distinct xs)

pub member-cons : (x y : String) (ys : List String) → member x ys ≡ true → member x (y ∷ ys) ≡ true
unfolding exists_row
member-cons x y ys h = ground (arith, h)

pub member-head : (x : String) (xs : List String) → member x (x ∷ xs) ≡ true
unfolding exists_row
member-head x xs = ground (arith, eq_iff x x)

pub member-nil : (x : String) → member x [] ≡ true → ⊥
unfolding exists_row
member-nil x h = cc

pub member-split :
    (x y : String) (xs : List String) → member y (x ∷ xs) ≡ true → (x ≡ y) ⊎ (member y xs ≡ true)
unfolding exists_row
member-split x y xs h = elim (Bool-cases (x == y)) [
  | inl e ↦ inl ((eq_iff x y).0 e)
  | inr e ↦ inr (ground (arith, e))
]
