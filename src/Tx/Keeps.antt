-- ===== src/Tx/Keeps.antt =====
-- Proof rules for what holds of the database whichever way a body ends.
use model_lib.Prelude.{Bool, true, false, Option, none, some, ◌≡◌, refl}
use model_lib.Tx.{Result, ok, err, Body, raise_if, require, branch, ◌>>=◌, ◌>>◌}

module _ {S E A : Type 0} (P : S → Type 0) where
  pub keeps_raise_if :
      (b : Bool) (e : E) (k : Body S E A) (s : S) → P s → P (k s).1 → P ((raise_if b e >> k) s).1
  unfolding raise_if
  keeps_raise_if true e k s h next = h
  keeps_raise_if false e k s h next = next

  pub keeps_unless :
      (b : Bool) (e : E) (k : Body S E A) (s : S)
      → P s
      → (b ≡ false → P (k s).1)
      → P ((raise_if b e >> k) s).1
  unfolding raise_if
  keeps_unless true e k s h next = h
  keeps_unless false e k s h next = next refl

  pub keeps_branch :
      (b : Bool) (m n : Body S E A) (s : S) → P (m s).1 → P (n s).1 → P (branch b m n s).1
  unfolding branch
  keeps_branch true m n s h k = h
  keeps_branch false m n s h k = k

  pub keeps_cases :
      (b : Bool) (m n : Body S E A) (s : S)
      → (b ≡ true → P (m s).1)
      → (b ≡ false → P (n s).1)
      → P (branch b m n s).1
  unfolding branch
  keeps_cases true m n s h k = h refl
  keeps_cases false m n s h k = k refl

module _ {S E A B : Type 0} (P : S → Type 0) where
  pub keeps_require :
      (o : Option B) (e : E) (k : B → Body S E A) (s : S)
      → P s
      → ((b : B) → P (k b s).1)
      → P ((require o e >>= k) s).1
  unfolding require
  keeps_require none e k s h next = h
  keeps_require (some b) e k s h next = next b

  pub keeps_found :
      (o : Option B) (e : E) (k : B → Body S E A) (s : S)
      → P s
      → ((b : B) → o ≡ some b → P (k b s).1)
      → P ((require o e >>= k) s).1
  unfolding require
  keeps_found none e k s h next = h
  keeps_found (some b) e k s h next = next b refl

  pub keeps_bind :
      (m : Body S E B) (k : B → Body S E A) (s : S)
      → P (m s).1
      → ((b : B) (t : S) → P t → P (k b t).1)
      → P ((m >>= k) s).1
  keeps_bind m k s h next = after (m s).0 (m s).1 h
    where
      after : (r : Result E B) (t : S) → P t → P (((λ _. (r, t)) >>= k) s).1
      after (ok b) t h = next b t h
      after (err e) t h = h
