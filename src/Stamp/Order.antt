-- ===== src/Stamp/Order.antt =====
-- The order of ISO texts against the order of the instants that they stand for.
use mathlib.Core.List.{[], ◌∷◌}
use model_lib.Prelude.{
  ℕ, zero, suc, false, ◌+◌, ◌*◌, ◌/◌, ◌%◌, ◌≤◌, ◌<◌, Bool, true, ◌&&◌, ◌||◌, ◌≡◌, List, ◌==◌,
  nat_eq, ltb, if◌then◌else◌, arith, not,
}
use model_lib.Stamp.{microseconds, lex_lt, fixed_digits, fraction_text, text_lt}

abbrev power_of_ten : ℕ → ℕ
power_of_ten zero = 1
power_of_ten (suc k) = 10 * power_of_ten k

-- texts of `k` digits are ordered as the numbers are
lex_lt-fixed_digits :
    (k a b : ℕ) (s t : List ℕ)
    → a < power_of_ten k
    → b < power_of_ten k
    → lex_lt (fixed_digits k a s) (fixed_digits k b t) ≡ (ltb a b || (a == b && lex_lt s t))
unfolding lex_lt fixed_digits
lex_lt-fixed_digits zero a b s t ha hb = ground arith
lex_lt-fixed_digits (suc k) a b s t ha hb = ground (
  arith,
  lex_lt-fixed_digits k (a / 10) (b / 10) ((48 + a % 10) ∷ s) ((48 + b % 10) ∷ t) (omega arith)
      (omega arith),
)

-- a whole second is printed after every other instant of that second
abbrev pub text_rank : ℕ → ℕ
text_rank t = if t % microseconds == 0 then t + microseconds else t

lex_lt-fraction_text :
    (a b : ℕ)
    → a / microseconds ≡ b / microseconds
    → lex_lt (fraction_text a) (fraction_text b) ≡ ltb (text_rank a) (text_rank b)
unfolding fraction_text lex_lt
lex_lt-fraction_text a b same = ground (
  arith,
  lex_lt-fixed_digits 6 (a % microseconds) (b % microseconds) (b'Z' ∷ []) (b'Z' ∷ []) (omega arith)
      (omega arith),
)

pub text_lt-rank : (a b : ℕ) → text_lt a b ≡ ltb (text_rank a) (text_rank b)
unfolding text_lt
text_lt-rank a b = ground (arith, lex_lt-fraction_text a b)

-- two instants of one second, of which just one is a whole second
abbrev pub is_mixed : ℕ → ℕ → Bool
is_mixed a b =
    a / microseconds == b / microseconds
    && (if a % microseconds == 0 then not (b % microseconds == 0) else b % microseconds == 0)

-- The text of one instant is before that of another exactly when the instant is, but for two instants
-- of one second of which just one is a whole second: those are ordered the wrong way round.
pub text_lt_exact : (a b : ℕ) → text_lt a b ≡ (if is_mixed a b then not (ltb a b) else ltb a b)
text_lt_exact a b = ground (arith, text_lt-rank a b)

-- The texts of two instants that are a second or more apart are ordered as the instants are.
pub text_lt_a_second_apart :
    (a b : ℕ) → a + microseconds ≤ b → (text_lt a b ≡ true) × (text_lt b a ≡ false)
text_lt_a_second_apart a b h =
    (ground (arith, h, text_lt-rank a b), ground (arith, h, text_lt-rank b a))
