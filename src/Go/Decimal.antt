-- ===== src/Go/Decimal.antt =====
-- `strconv.FormatInt(n, 10)`, which `fmt.Sprintf("%d", n)` agrees with, and
-- `strconv.ParseInt(s, 10, 64)`. Of a `*strconv.NumError` only the reason is kept.
pub mod RoundTrip
use Prim.Native.Char.{Char, code}
use delayed_notifier.Prelude.{
  ℕ, zero, suc, ◌+◌, ◌-◌, ◌*◌, ◌/◌, ◌%◌, String, Bool, ◌&&◌, ltb, leb, ◌==◌, if◌then◌else◌,
}
use delayed_notifier.Prelude.Int.{ℤ, pos, negsuc, half_64}
use delayed_notifier.Go.Errors.{Error, foreign, Result, ok, err}

-- The character of a digit.
unfoldable pub digit : ℕ → Char
digit zero = "0"
digit (suc zero) = "1"
digit (suc (suc zero)) = "2"
digit (suc (suc (suc zero))) = "3"
digit (suc (suc (suc (suc zero)))) = "4"
digit (suc (suc (suc (suc (suc zero))))) = "5"
digit (suc (suc (suc (suc (suc (suc zero)))))) = "6"
digit (suc (suc (suc (suc (suc (suc (suc zero))))))) = "7"
digit (suc (suc (suc (suc (suc (suc (suc (suc zero)))))))) = "8"
digit _ = "9"

-- The digits of `n` before `out`; each round of the fuel writes one.
unfoldable pub format_from : ℕ → ℕ → String → String
unfolding digit
format_from zero n out = out
format_from (suc fuel) n out =
    let rest = format_from fuel (n / 10) (String.◌∷◌ (digit (n % 10)) out) in
    if ltb n 10 then String.◌∷◌ (digit n) out else rest

-- A number has fewer digits than `n + 1`, so the fuel is enough.
unfoldable pub format_int : ℤ → String
unfolding format_from
format_int (pos n) = format_from (suc n) n ""
format_int (negsuc n) = String.◌∷◌ "-" (format_from (suc (suc n)) (suc n) "")

abbrev max_uint64 : ℕ
max_uint64 = 18446744073709551615

abbrev pub invalid_syntax : Error
invalid_syntax = foreign "invalid syntax"

abbrev pub out_of_range : Error
out_of_range = foreign "value out of range"

abbrev pub is_digit : Char → Bool
is_digit c = leb b'0' (code c) && leb (code c) b'9'

-- The loop of `ParseUint`.
unfoldable pub parse_from : ℕ → String → Result ℕ
parse_from n String.[] = ok n
parse_from n (String.◌∷◌ c s) =
    let n' = n * 10 + (code c - b'0') in
    let rest = parse_from n' s in
    if is_digit c
    then (if ltb max_uint64 n' then err out_of_range else rest)
    else err invalid_syntax

abbrev pub parse_uint : String → Result ℕ
parse_uint String.[] = err invalid_syntax
parse_uint (String.◌∷◌ c s) = parse_from 0 (String.◌∷◌ c s)

abbrev pub negated : ℕ → ℤ
negated zero = pos 0
negated (suc m) = negsuc m

abbrev pub without_sign : Result ℕ → Result ℤ
without_sign (err e) = err e
without_sign (ok n) = if ltb n half_64 then ok (pos n) else err out_of_range

abbrev pub with_minus : Result ℕ → Result ℤ
with_minus (err e) = err e
with_minus (ok n) = if ltb half_64 n then err out_of_range else ok (negated n)

unfoldable pub parse_int : String → Result ℤ
unfolding parse_from
parse_int String.[] = err invalid_syntax
parse_int (String.◌∷◌ c s) =
    if code c == b'-'
    then with_minus (parse_uint s)
    else if code c == b'+'
    then without_sign (parse_uint s)
    else without_sign (parse_uint (String.◌∷◌ c s))
