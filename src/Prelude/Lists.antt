-- ===== src/Prelude/Lists.antt =====
-- Tables as lists of rows, newest first: every query of the program names a key, counts, or states
-- an order of its own, so the order of a table's rows is not observable.
use Prim.Native.Nat.{ℕ, suc, ◌+◌, ◌≤◌}
use mathlib.Core.Path.{◌≡◌, refl}
use mathlib.Core.Bool.{Bool, true, false, ◌||◌}
use mathlib.Core.Option
use mathlib.Core.Option.{Option, none, some}
use mathlib.Core.List.{List, [], ◌∷◌}
use native.Mathlib.Omega.{arith}
use mathlib.Core.Logic.{inl, inr}
use model_lib.Prelude.Tests.{if◌then◌else◌, ltb, Bool-cases}

module _ {ℓ} {A : Type ℓ} where
  abbrev pub length : List A → ℕ
  length [] = 0
  length (x ∷ xs) = suc (length xs)

  -- SELECT … WHERE p, one row
  unfoldable pub find_row : (A → Bool) → List A → Option A
  find_row p [] = none
  find_row p (x ∷ xs) = if p x then some x else find_row p xs

  -- SELECT 1 … WHERE p
  unfoldable pub exists_row : (A → Bool) → List A → Bool
  exists_row p [] = false
  exists_row p (x ∷ xs) = p x || exists_row p xs

  -- SELECT COUNT(*) … WHERE p
  unfoldable pub count_rows : (A → Bool) → List A → ℕ
  count_rows p [] = 0
  count_rows p (x ∷ xs) = (if p x then 1 else 0) + count_rows p xs

  -- UPDATE … SET f WHERE p
  unfoldable pub update_rows : (A → Bool) → (A → A) → List A → List A
  update_rows p f [] = []
  update_rows p f (x ∷ xs) = (if p x then f x else x) ∷ update_rows p f xs

  abbrev pub All {κ} : (A → Type κ) → List A → Type κ
  All P [] = Unit
  All P (x ∷ xs) = P x × All P xs

  pub find_row-holds : (p : A → Bool) (xs : List A) {a : A} → find_row p xs ≡ some a → p a ≡ true
  unfolding find_row
  find_row-holds p [] h = cc
  find_row-holds p (x ∷ xs) h = elim (Bool-cases (p x)) [
    | inl e ↦ ground (arith, e)
    | inr e ↦ find_row-holds p xs (rw e at h)
  ]

  pub find_row-count :
      (p q : A → Bool) (xs : List A) {a : A}
      → find_row p xs ≡ some a
      → q a ≡ true
      → 1 ≤ count_rows q xs
  unfolding find_row count_rows
  find_row-count p q [] h k = cc
  find_row-count p q (x ∷ xs) h k = elim (Bool-cases (p x)) [
    | inl e ↦ ground (arith, e)
    | inr e ↦ omega (arith, find_row-count p q xs (rw e at h) k)
  ]

  pub count_rows-le :
      (p q : A → Bool) (xs : List A)
      → ((x : A) → p x ≡ true → q x ≡ true)
      → count_rows p xs ≤ count_rows q xs
  unfolding count_rows
  count_rows-le p q [] h = omega arith
  count_rows-le p q (x ∷ xs) h = ground (arith, h x, count_rows-le p q xs h)

  pub find_row-update_rows :
      (p q : A → Bool) (f : A → A) (xs : List A)
      → ((x : A) → p (f x) ≡ p x)
      → find_row p (update_rows q f xs) ≡ Option.map (λ x. if q x then f x else x) (find_row p xs)
  unfolding find_row update_rows
  find_row-update_rows p q f [] h = refl
  find_row-update_rows p q f (x ∷ xs) h = ground (arith, h x, find_row-update_rows p q f xs h)

  pub count_rows-update_rows :
      (p q : A → Bool) (f : A → A) (xs : List A)
      → ((x : A) → p (f x) ≡ p x)
      → count_rows p (update_rows q f xs) ≡ count_rows p xs
  unfolding count_rows update_rows
  count_rows-update_rows p q f [] h = refl
  count_rows-update_rows p q f (x ∷ xs) h = ground (arith, h x, count_rows-update_rows p q f xs h)

  -- an update that never makes `p` true
  pub count_rows-update_rows_le :
      (p q : A → Bool) (f : A → A) (xs : List A)
      → ((x : A) → q x ≡ true → p (f x) ≡ true → p x ≡ true)
      → count_rows p (update_rows q f xs) ≤ count_rows p xs
  unfolding count_rows update_rows
  count_rows-update_rows_le p q f [] h = omega arith
  count_rows-update_rows_le p q f (x ∷ xs) h =
      ground (arith, h x, count_rows-update_rows_le p q f xs h)

  -- an update that makes `p` false on a row where it was true
  pub count_rows-update_rows_lt :
      (p q : A → Bool) (f : A → A) (xs : List A) {a : A}
      → find_row p xs ≡ some a
      → q a ≡ true
      → ((x : A) → q x ≡ true → p (f x) ≡ false)
      → count_rows p (update_rows q f xs) + 1 ≤ count_rows p xs
  unfolding find_row count_rows update_rows
  count_rows-update_rows_lt p q f [] found k h = cc
  count_rows-update_rows_lt p q f (x ∷ xs) found k h = elim (Bool-cases (p x)) [
    | inl e ↦ ground (arith, e, h x, count_rows-update_rows_le p q f xs (λ y r s. cc (h y r)))
    | inr e ↦ ground (arith, e, h x, count_rows-update_rows_lt p q f xs (rw e at found) k h)
  ]

  pub find_row-none_of_count :
      (p : A → Bool) (xs : List A) → count_rows p xs ≡ 0 → find_row p xs ≡ none
  unfolding find_row count_rows
  find_row-none_of_count p [] h = refl
  find_row-none_of_count p (x ∷ xs) h = ground (arith, find_row-none_of_count p xs)

  pub exists_row-iff_count :
      (p : A → Bool) (xs : List A) → exists_row p xs ≡ ltb 0 (count_rows p xs)
  unfolding exists_row count_rows
  exists_row-iff_count p [] = refl
  exists_row-iff_count p (x ∷ xs) = ground (arith, exists_row-iff_count p xs)

  pub exists_row-update_rows :
      (p q : A → Bool) (f : A → A) (xs : List A)
      → ((x : A) → p (f x) ≡ p x)
      → exists_row p (update_rows q f xs) ≡ exists_row p xs
  unfolding exists_row update_rows
  exists_row-update_rows p q f [] h = refl
  exists_row-update_rows p q f (x ∷ xs) h = ground (arith, h x, exists_row-update_rows p q f xs h)

  pub find_row-none_of_exists :
      (p : A → Bool) (xs : List A) → exists_row p xs ≡ false → find_row p xs ≡ none
  unfolding find_row exists_row
  find_row-none_of_exists p [] h = refl
  find_row-none_of_exists p (x ∷ xs) h = ground (arith, find_row-none_of_exists p xs)

  abbrev pub is_some : Option A → Bool
  is_some none = false
  is_some (some x) = true

  pub exists_row-find_row : (p : A → Bool) (xs : List A) → exists_row p xs ≡ is_some (find_row p xs)
  unfolding find_row exists_row
  exists_row-find_row p [] = refl
  exists_row-find_row p (x ∷ xs) = ground (arith, exists_row-find_row p xs)

  -- an update of the rows that are looked up, which stay so
  pub find_row-update_rows_same :
      (p : A → Bool) (f : A → A) (xs : List A)
      → ((x : A) → p x ≡ true → p (f x) ≡ true)
      → find_row p (update_rows p f xs) ≡ Option.map f (find_row p xs)
  unfolding find_row update_rows
  find_row-update_rows_same p f [] h = refl
  find_row-update_rows_same p f (x ∷ xs) h = ground (arith, h x, find_row-update_rows_same p f xs h)
