-- ===== src/Text.antt =====
-- `str.strip`, and decimal printing of a number as f-strings do it.
use Prim.Native.Char.{code}
use Prim.Native.String.{◌++◌ as append}
use model_lib.Prelude.{
  ℕ, zero, suc, ◌/◌, ◌%◌, String, Bool, true, false, ◌&&◌, ◌||◌, ◌≡◌, refl, ◌==◌, nat_eq, leb,
  if◌then◌else◌,
}

-- `str.isspace` of one character
is_space : ℕ → Bool
is_space c =
    (leb 9 c && leb c 13)
    || (leb 28 c && leb c 32)
    || c == 133
    || c == 160
    || c == 5760
    || (leb 8192 c && leb c 8202)
    || c == 8232
    || c == 8233
    || c == 8239
    || c == 8287
    || c == 12288

unfoldable pub is_empty : String → Bool
is_empty String.[] = true
is_empty (String.◌∷◌ c s) = false

strip_left : String → String
strip_left String.[] = String.[]
strip_left (String.◌∷◌ c s) =
    let rest = strip_left s in if is_space (code c) then rest else String.◌∷◌ c s

strip_right : String → String
strip_right String.[] = String.[]
strip_right (String.◌∷◌ c s) =
    let rest = strip_right s in
    if is_space (code c) && is_empty rest then String.[] else String.◌∷◌ c rest

unfoldable pub strip : String → String
unfolding is_space is_empty strip_left strip_right
strip s = strip_right (strip_left s)

digit : ℕ → String
digit d =
    if d == 0
    then "0"
    else if d == 1
    then "1"
    else if d == 2
    then "2"
    else if d == 3
    then "3"
    else if d == 4
    then "4"
    else if d == 5
    then "5"
    else if d == 6
    then "6"
    else if d == 7
    then "7"
    else if d == 8
    then "8"
    else "9"

-- the digits of `n`, most significant first, in front of `rest`; `n + 1` rounds are enough
decimal_loop : ℕ → ℕ → String → String
unfolding digit
decimal_loop zero n rest = rest
decimal_loop (suc fuel) n rest =
    let next = append (digit (n % 10)) rest in
    let more = decimal_loop fuel (n / 10) next in if n / 10 == 0 then next else more

unfoldable pub decimal : ℕ → String
unfolding decimal_loop
decimal n = decimal_loop (suc n) n ""

-- `text.startswith(start)`, with the start as the first argument
unfoldable pub starts_with : String → String → Bool
starts_with String.[] text = true
starts_with (String.◌∷◌ c start) String.[] = false
starts_with (String.◌∷◌ c start) (String.◌∷◌ d text) = code c == code d && starts_with start text

strip_both_ends : strip "  a b  " ≡ "a b"
unfolding strip
strip_both_ends = refl

decimal_digits : decimal 1205 ≡ "1205"
unfolding decimal
decimal_digits = refl
