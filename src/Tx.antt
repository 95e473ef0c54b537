-- ===== src/Tx.antt =====
-- `StateStore._transaction`: the body of a `with` block runs on the database and may raise. What it
-- returns is committed, and what it wrote before a raise is rolled back.
pub mod Rules
pub mod Keeps
use model_lib.Prelude.{Bool, true, false, Option, none, some}

pub data Result {ℓ} (E A : Type ℓ) : Type ℓ where
  ok : A → Result E A
  err : E → Result E A

-- the body of a transaction: it keeps the database as written so far, also beside an exception
abbrev pub Body : Type 0 → Type 0 → Type 0 → Type 0
Body S E A = S → Result E A × S

module _ {S E A : Type 0} where
  abbrev pub return : A → Body S E A
  return a s = (ok a, s)

  abbrev pub raise : E → Body S E A
  raise e s = (err e, s)

  abbrev pub select : (S → A) → Body S E A
  select f s = (ok (f s), s)

  -- the answer of a function that may raise and reads nothing of the database
  unfoldable pub lift : Result E A → Body S E A
  lift (ok a) s = (ok a, s)
  lift (err e) s = (err e, s)

  -- a missing row raises
  unfoldable pub require : Option A → E → Body S E A
  require none e s = (err e, s)
  require (some a) e s = (ok a, s)

module _ {S E : Type 0} where
  abbrev pub write : (S → S) → Body S E (Unit {0})
  write f s = (ok tt, f s)

  -- `if test: raise e`
  unfoldable pub raise_if : Bool → E → Body S E (Unit {0})
  raise_if true e s = (err e, s)
  raise_if false e s = (ok tt, s)

  -- an INSERT that a key or an index of the table refuses
  unfoldable pub write_unless : Bool → E → (S → S) → Body S E (Unit {0})
  write_unless true e f s = (err e, s)
  write_unless false e f s = (ok tt, f s)

module _ {S E A : Type 0} where
  -- `if test: … else: …` where both ways end the block
  unfoldable pub branch : Bool → Body S E A → Body S E A → Body S E A
  branch true m n s = m s
  branch false m n s = n s

module _ {S E A B : Type 0} where
  abbrev pub continue : Result E A → (A → Body S E B) → Body S E B
  continue (ok a) f s = f a s
  continue (err e) f s = (err e, s)

  infixl 10 ◌>>=◌ ◌>>◌
  abbrev pub ◌>>=◌ : Body S E A → (A → Body S E B) → Body S E B
  ◌>>=◌ m f s = continue (m s).0 f (m s).1

  abbrev pub ◌>>◌ : Body S E A → Body S E B → Body S E B
  m >> n = m >>= λ _. n

module _ {S E A : Type 0} where
  abbrev pub settle : Result E A → S → S → Result E A × S
  settle (ok a) before after = (ok a, after)
  settle (err e) before after = (err e, before)

  -- commit on return, rollback on an exception
  abbrev pub transaction : Body S E A → S → Result E A × S
  transaction body s = settle (body s).0 s (body s).1

-- to compute with a block, unfold this
unfoldable pub tx_steps : Unit {0}
unfolding raise_if lift require write_unless branch
tx_steps = tt
