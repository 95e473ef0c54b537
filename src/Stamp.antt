-- ===== src/Stamp.antt =====
-- Instants and their ISO texts: `StateStore._aware_time`, `scheduler._timestamp` and the text
-- comparisons `lease_until > stamp` of master_a_dynamic_v4/state_store.py and scheduler.py.
-- An instant is the number of microseconds since an epoch. `isoformat()` prints the date and the time
-- to the second in fields of fixed width, so that their texts are ordered as the seconds are; then a
-- point and six digits, which it leaves out when the microseconds are 0; then the zone, `Z`.
pub mod Order
use mathlib.Core.List.{[], ◌∷◌}
use model_lib.Prelude.{
  ℕ, zero, suc, ◌+◌, ◌*◌, ◌/◌, ◌%◌, Bool, true, false, ◌&&◌, ◌||◌, ◌≡◌, refl, List, ◌==◌, nat_eq,
  ltb, if◌then◌else◌,
}

abbrev pub microseconds : ℕ
microseconds = 1000000

-- Python's `<` on texts, by code points
lex_lt : List ℕ → List ℕ → Bool
lex_lt [] [] = false
lex_lt [] (d ∷ t) = true
lex_lt (c ∷ s) [] = false
lex_lt (c ∷ s) (d ∷ t) = ltb c d || (c == d && lex_lt s t)

-- the last `k` decimal digits of `m`, in front of `rest`
fixed_digits : ℕ → ℕ → List ℕ → List ℕ
fixed_digits zero m rest = rest
fixed_digits (suc k) m rest = fixed_digits k (m / 10) ((48 + m % 10) ∷ rest)

-- what follows the seconds in the text of an instant
fraction_text : ℕ → List ℕ
unfolding fixed_digits
fraction_text t =
    if t % microseconds == 0
    then b'Z' ∷ []
    else b'.' ∷ fixed_digits 6 (t % microseconds) (b'Z' ∷ [])

-- `text(a) < text(b)`
unfoldable pub text_lt : ℕ → ℕ → Bool
unfolding lex_lt fraction_text
text_lt a b =
    ltb (a / microseconds) (b / microseconds)
    || (a / microseconds == b / microseconds && lex_lt (fraction_text a) (fraction_text b))

-- `now + timedelta(seconds=ttl)`
abbrev pub plus_seconds : ℕ → ℕ → ℕ
plus_seconds now ttl = now + ttl * microseconds

-- 12:00:00.5 is printed before 12:00:00
half_second_earlier : text_lt 500000 0 ≡ true
unfolding text_lt
half_second_earlier = refl
