-- ===== src/Prelude/Parse.antt =====
-- `strconv.ParseInt` for an explicit base and bit size, and `strings.Fields`.
use proxykit.Prelude.Tests.{leb, ltb, ◌==◌, if◌then◌else◌}
use proxykit.Prelude.Int.{ℤ, pos, negsuc}
use proxykit.Prelude.Text.{Bytes, is_space}
use Prim.Native.Nat.{ℕ, zero, suc, ◌+◌, ◌-◌, ◌*◌, ◌^◌, ◌/◌, ◌%◌}
use mathlib.Core.Bool.{◌&&◌}
use mathlib.Core.Option.{Option, none, some}
use mathlib.Core.List.{List, [], ◌∷◌, ◌++◌}

-- The value of a digit or letter, as `ParseUint` reads it.
unfoldable pub digit_value : ℕ → Option ℕ
digit_value c =
    if leb b'0' c && leb c b'9'
    then some (c - b'0')
    else if leb b'a' c && leb c b'z'
    then some (c - b'a' + 10)
    else if leb b'A' c && leb c b'Z'
    then some (c - b'A' + 10)
    else none

unfoldable pub add_digit : ℕ → ℕ → Option ℕ → Option ℕ
add_digit base acc none = none
add_digit base acc (some d) = if ltb d base then some (acc * base + d) else none

-- The digits behind what has been read; a value too large for the result is found at the end.
unfoldable pub digits_from : ℕ → Option ℕ → Bytes → Option ℕ
digits_from base none s = none
digits_from base (some acc) [] = some acc
digits_from base (some acc) (c ∷ s) = digits_from base (add_digit base acc (digit_value c)) s

unfoldable pub parse_uint : ℕ → Bytes → Option ℕ
parse_uint base [] = none
parse_uint base (c ∷ s) = digits_from base (some 0) (c ∷ s)

-- The number with its sign, if it fits into `bits` bits.
unfoldable pub fit_positive : ℕ → Option ℕ → Option ℤ
fit_positive bits none = none
fit_positive bits (some n) = if ltb n (2 ^ (bits - 1)) then some (pos n) else none

unfoldable pub fit_negative : ℕ → Option ℕ → Option ℤ
fit_negative bits none = none
fit_negative bits (some zero) = some (pos 0)
fit_negative bits (some (suc n)) = if ltb n (2 ^ (bits - 1)) then some (negsuc n) else none

-- `strconv.ParseInt(s, base, bits)` for a base that is not 0.
unfoldable pub parse_int : ℕ → ℕ → Bytes → Option ℤ
parse_int base bits [] = none
parse_int base bits (c ∷ s) =
    if c == b'+'
    then fit_positive bits (parse_uint base s)
    else if c == b'-'
    then fit_negative bits (parse_uint base s)
    else fit_positive bits (parse_uint base (c ∷ s))

emit : Bytes → List Bytes → List Bytes
emit [] ws = ws
emit (c ∷ w) ws = (c ∷ w) ∷ ws

-- The words of a text behind a word that has begun.
fields_from : Bytes → Bytes → List Bytes
unfolding is_space emit
fields_from word [] = emit word []
fields_from word (c ∷ s) =
    let rest = fields_from (if is_space c then [] else word ++ c ∷ []) s in
    if is_space c then emit word rest else rest

-- `strings.Fields`.
unfoldable pub fields : Bytes → List Bytes
unfolding fields_from
fields s = fields_from [] s

-- `strconv.FormatInt` of a number that is not negative; a number has no more digits than it is large.
unfoldable pub decimal_from : ℕ → ℕ → Bytes → Bytes
decimal_from zero n ds = (n % 10 + b'0') ∷ ds
decimal_from (suc fuel) n ds =
    if ltb n 10 then (n + b'0') ∷ ds else decimal_from fuel (n / 10) ((n % 10 + b'0') ∷ ds)

unfoldable pub decimal : ℕ → Bytes
unfolding decimal_from
decimal n = decimal_from n n []
