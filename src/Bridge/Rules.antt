-- ===== src/Bridge/Rules.antt =====
-- The proof rule of `_text`.
use model_lib.Prelude.{String, Bool, true, false, refl, ◌≡◌}
use model_lib.Text.{strip, is_empty}
use model_lib.Tx.{Body, return, raise_if, ◌>>=◌, ◌>>◌}
use model_lib.Tx.Rules.{Commits, Commits-raise_if, Commits-return, Commits-bind}
use model_lib.Bridge.{require_text}

pub Commits-require_text :
    {S A : Type 0} (P : A → S → Type 0) (value error : String) (k : String → Body S String A)
    (s : S)
    → Commits P (k (strip value) s)
    → Commits P ((require_text value error >>= k) s)
unfolding require_text
Commits-require_text P value error k s h =
    Commits-bind (λ t u. (t ≡ strip value) × (u ≡ s)) P (require_text value error) k s
      (Commits-raise_if _ _ _ _ _ λ _. Commits-return _ _ s (refl, refl)) λ t u e. rw (e.0, e.1) h

pub keeps_text :
    {S A : Type 0} (P : S → Type 0) (value error : String) (k : String → Body S String A) (s : S)
    → P s
    → P (k (strip value) s).1
    → P ((require_text value error >>= k) s).1
unfolding require_text raise_if
keeps_text P value error k s h next = stopped (is_empty (strip value))
  where
    stopped : (b : Bool) → P (((raise_if b error >> return (strip value)) >>= k) s).1
    stopped true = h
    stopped false = next

pub keeps_require_text :
    {S A : Type 0} (P : S → Type 0) (value error : String) (k : String → Body S String A) (s : S)
    → P s
    → ((t : String) → P (k t s).1)
    → P ((require_text value error >>= k) s).1
keeps_require_text P value error k s h next = keeps_text P value error k s h (next (strip value))
