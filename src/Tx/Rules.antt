-- ===== src/Tx/Rules.antt =====
-- Proof rules for transactions: what holds of the value that a body returns and of the database that is
-- then committed. A proof follows a `do` block, one rule for each line that can raise or branch.
use model_lib.Prelude.{Bool, true, false, Option, none, some, ◌≡◌, refl, subst}
use model_lib.Tx.{
  Result, ok, err, Body, raise_if, lift, require, write_unless, branch, settle, continue,
  transaction, ◌>>=◌, ◌>>◌,
}

module _ {E A : Type 0} where
  pub ok-injective : {a b : A} → ◌≡◌ {A = Result E A} (ok a) (ok b) → a ≡ b
  ok-injective e = cc

module _ {S E A : Type 0} where
  abbrev pub OnOk : (A → S → Type 0) → Result E A → S → Type 0
  OnOk P (ok a) s = P a s
  OnOk P (err e) s = Unit

  -- if the body returns, `P` holds
  pub record Commits (P : A → S → Type 0) (outcome : Result E A × S) : Type 0 where
    pub committed : OnOk P outcome.0 outcome.1

  pub Commits-return : (P : A → S → Type 0) (a : A) (s : S) → P a s → Commits P (ok a, s)
  Commits-return P a s h = record { committed = h }

  pub Commits-raise : (P : A → S → Type 0) (e : E) (s : S) → Commits P (err e, s)
  Commits-raise P e s = record { committed = tt }

  pub Commits-weaken :
      (P Q : A → S → Type 0) (o : Result E A × S)
      → ((a : A) (s : S) → P a s → Q a s)
      → Commits P o
      → Commits Q o
  Commits-weaken P Q (ok a, s) f h = Commits-return Q a s (f a s h.committed)
  Commits-weaken P Q (err e, s) f h = Commits-raise Q e s

  settled :
      (P : A → S → Type 0) (r : Result E A) (before after : S)
      → OnOk P r after
      → Commits P (settle r before after)
  settled P (ok a) before after h = Commits-return P a after h
  settled P (err e) before after h = Commits-raise P e before

  pub Commits-transaction :
      (P : A → S → Type 0) (body : Body S E A) (s : S)
      → Commits P (body s)
      → Commits P (transaction body s)
  Commits-transaction P body s h = settled P (body s).0 s (body s).1 h.committed

  on_ok : (P : A → S → Type 0) (r : Result E A) (s : S) {a : A} → OnOk P r s → r ≡ ok a → P a s
  on_ok P (ok b) s h e = subst (λ x. P x s) (ok-injective e) h
  on_ok P (err x) s h e = cc

  pub Commits-ok :
      (P : A → S → Type 0) (o : Result E A × S) {a : A} → Commits P o → o.0 ≡ ok a → P a o.1
  Commits-ok P o h e = on_ok P o.0 o.1 h.committed e

  pub Commits-raise_if :
      (P : A → S → Type 0) (b : Bool) (e : E) (k : Body S E A) (s : S)
      → (b ≡ false → Commits P (k s))
      → Commits P ((raise_if b e >> k) s)
  unfolding raise_if
  Commits-raise_if P true e k s h = Commits-raise P e s
  Commits-raise_if P false e k s h = h refl

  pub Commits-write_unless :
      (P : A → S → Type 0) (b : Bool) (e : E) (f : S → S) (k : Body S E A) (s : S)
      → (b ≡ false → Commits P (k (f s)))
      → Commits P ((write_unless b e f >> k) s)
  unfolding write_unless
  Commits-write_unless P true e f k s h = Commits-raise P e s
  Commits-write_unless P false e f k s h = h refl

  pub Commits-branch :
      (P : A → S → Type 0) (b : Bool) (m n : Body S E A) (s : S)
      → (b ≡ true → Commits P (m s))
      → (b ≡ false → Commits P (n s))
      → Commits P (branch b m n s)
  unfolding branch
  Commits-branch P true m n s h k = h refl
  Commits-branch P false m n s h k = k refl

  -- an outcome that leaves the database alone keeps what holds of it
  keeps_settled :
      (P : S → Type 0) (r : Result E A) (before after : S)
      → P before
      → OnOk (λ _. P) r after
      → P (settle r before after).1
  keeps_settled P (ok a) before after h k = k
  keeps_settled P (err e) before after h k = h

  -- rollback: what holds before a transaction and of every commit holds after it
  pub keeps_of_Commits :
      (P : S → Type 0) (body : Body S E A) (s : S)
      → P s
      → Commits (λ _. P) (body s)
      → P (transaction body s).1
  keeps_of_Commits P body s h k = keeps_settled P (body s).0 s (body s).1 h k.committed

  pub Commits-fetch :
      (P : A → S → Type 0) (o : Option A) (e : E) (s : S)
      → ((a : A) → o ≡ some a → P a s)
      → Commits P (require o e s)
  unfolding require
  Commits-fetch P none e s h = Commits-raise P e s
  Commits-fetch P (some a) e s h = Commits-return P a s (h a refl)

module _ {S E : Type 0} (P : Unit {0} → S → Type 0) where
  -- a check that ends a block
  pub Commits-check : (b : Bool) (e : E) (s : S) → P tt s → Commits P (raise_if b e s)
  unfolding raise_if
  Commits-check true e s h = Commits-raise P e s
  Commits-check false e s h = Commits-return P tt s h

  -- an INSERT that ends a block
  pub Commits-insert :
      (b : Bool) (e : E) (f : S → S) (s : S) → P tt (f s) → Commits P (write_unless b e f s)
  unfolding write_unless
  Commits-insert true e f s h = Commits-raise P e s
  Commits-insert false e f s h = Commits-return P tt (f s) h

module _ {S E A B : Type 0} where
  pub Commits-require :
      (P : A → S → Type 0) (o : Option B) (e : E) (k : B → Body S E A) (s : S)
      → ((b : B) → o ≡ some b → Commits P (k b s))
      → Commits P ((require o e >>= k) s)
  unfolding require
  Commits-require P none e k s h = Commits-raise P e s
  Commits-require P (some b) e k s h = h b refl

  pub Commits-lift :
      (P : A → S → Type 0) (r : Result E B) (k : B → Body S E A) (s : S)
      → ((b : B) → r ≡ ok b → Commits P (k b s))
      → Commits P ((lift r >>= k) s)
  unfolding lift
  Commits-lift P (ok b) k s h = h b refl
  Commits-lift P (err e) k s h = Commits-raise P e s

  after_bind :
      (P : B → S → Type 0) (Q : A → S → Type 0) (r : Result E B) (k : B → Body S E A) (s : S)
      → OnOk P r s
      → ((b : B) (t : S) → P b t → Commits Q (k b t))
      → Commits Q (continue r k s)
  after_bind P Q (ok b) k s h next = next b s h
  after_bind P Q (err e) k s h next = Commits-raise Q e s

  -- what holds once a statement is done holds before the next
  pub Commits-bind :
      (P : B → S → Type 0) (Q : A → S → Type 0) (m : Body S E B) (k : B → Body S E A) (s : S)
      → Commits P (m s)
      → ((b : B) (t : S) → P b t → Commits Q (k b t))
      → Commits Q ((m >>= k) s)
  Commits-bind P Q m k s h next = after_bind P Q (m s).0 k (m s).1 h.committed next
