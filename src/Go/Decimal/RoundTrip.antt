-- ===== src/Go/Decimal/RoundTrip.antt =====
-- `strconv.ParseInt` reads back what `strconv.FormatInt` writes.
use Prim.Native.Char.{code}
use delayed_notifier.Prelude.{
  ℕ, zero, suc, ◌+◌, ◌-◌, ◌*◌, ◌/◌, ◌%◌, ◌≤◌, ◌<◌, ◌≡◌, refl, arith, String, Bool-cases, ◌==◌, inl,
  inr, true, false, ltb, ap, ◌∙◌, sym,
}
use delayed_notifier.Prelude.Int.{ℤ, pos, negsuc, half_64, InRange}
use delayed_notifier.Go.Errors.{ok}
use delayed_notifier.Go.Decimal.{digit, format_from, format_int, parse_from, parse_int, is_digit}

code-digit : (d : ℕ) → d < 10 → code (digit d) ≡ 48 + d
unfolding digit
code-digit zero h = refl
code-digit (suc zero) h = refl
code-digit (suc (suc zero)) h = refl
code-digit (suc (suc (suc zero))) h = refl
code-digit (suc (suc (suc (suc zero)))) h = refl
code-digit (suc (suc (suc (suc (suc zero))))) h = refl
code-digit (suc (suc (suc (suc (suc (suc zero)))))) h = refl
code-digit (suc (suc (suc (suc (suc (suc (suc zero))))))) h = refl
code-digit (suc (suc (suc (suc (suc (suc (suc (suc zero)))))))) h = refl
code-digit (suc (suc (suc (suc (suc (suc (suc (suc (suc zero))))))))) h = refl
code-digit (suc (suc (suc (suc (suc (suc (suc (suc (suc (suc d)))))))))) h = absurd (omega arith)

-- One digit is read.
parse-digit :
    (acc d m : ℕ) (s : String)
    → d < 10
    → acc * 10 + d ≡ m
    → m ≤ 18446744073709551615
    → parse_from acc (String.◌∷◌ (digit d) s) ≡ parse_from m s
unfolding parse_from
parse-digit acc d m s small e fits =
    let value : acc * 10 + (code (digit d) - 48) ≡ m = omega (arith, code-digit d small) in
    let fine : is_digit (digit d) ≡ true = ground (arith, code-digit d small) in
    let low : ltb 18446744073709551615 m ≡ false = ground arith in rw (fine, value, low)

parse-format_from :
    (fuel n : ℕ) (out : String)
    → n < fuel
    → n ≤ 18446744073709551615
    → parse_from 0 (format_from fuel n out) ≡ parse_from n out
unfolding format_from
parse-format_from zero n out h fits = absurd (omega arith)
parse-format_from (suc fuel) n out h fits = elim (Bool-cases (ltb n 10)) [
  | inl last ↦ rw last (parse-digit 0 n n out (ground arith) (omega arith) (omega arith))
  | inr more ↦ rw more (
      parse-format_from fuel (n / 10) (String.◌∷◌ (digit (n % 10)) out) (ground arith) (omega arith)
      ∙ parse-digit (n / 10) (n % 10) n out (omega arith) (omega arith) (omega arith))
]

format_from-head :
    (fuel n : ℕ) (out : String)
    → n < fuel
    → (d : ℕ) × (s : String) × (d < 10) × (format_from fuel n out ≡ String.◌∷◌ (digit d) s)
unfolding format_from
format_from-head zero n out h = absurd (omega arith)
format_from-head (suc fuel) n out h = elim (Bool-cases (ltb n 10)) [
  | inl last ↦ (n, out, ground arith, rw last)
  | inr more ↦
      let (d, s, small, e) =
        format_from-head fuel (n / 10) (String.◌∷◌ (digit (n % 10)) out) (ground arith) in
      (d, s, small, rw more e)
]

-- A text that begins with a digit has no sign.
parse_int-digit :
    (d : ℕ) (s : String) (n : ℕ)
    → d < 10
    → parse_from 0 (String.◌∷◌ (digit d) s) ≡ ok n
    → n < half_64
    → parse_int (String.◌∷◌ (digit d) s) ≡ ok (pos n)
unfolding parse_int
parse_int-digit d s n small h fits =
    let no_minus : (code (digit d) == 45) ≡ false = ground (arith, code-digit d small) in
    let no_plus : (code (digit d) == 43) ≡ false = ground (arith, code-digit d small) in
    rw (no_minus, no_plus) (rw h (ground arith))

parse_int-minus :
    (d : ℕ) (s : String) (n : ℕ)
    → parse_from 0 (String.◌∷◌ (digit d) s) ≡ ok (suc n)
    → suc n ≤ half_64
    → parse_int (String.◌∷◌ "-" (String.◌∷◌ (digit d) s)) ≡ ok (negsuc n)
unfolding parse_int
parse_int-minus d s n h fits = rw h (ground arith)

parse_from-nil : (n : ℕ) → parse_from n "" ≡ ok n
unfolding parse_from
parse_from-nil n = refl

-- Every `int64` is read back from its decimal text.
pub parse_int-format_int : (a : ℤ) → InRange half_64 a → parse_int (format_int a) ≡ ok a
unfolding format_int
parse_int-format_int (pos n) (fits, _) =
    let (d, s, small, e) = format_from-head (suc n) n "" (omega arith) in
    rw e (
      parse_int-digit d s n small
        (ap (parse_from 0) (sym e)
          ∙ parse-format_from (suc n) n "" (omega arith) (omega arith)
          ∙ parse_from-nil n)
        fits)
parse_int-format_int (negsuc n) (_, fits) =
    let (d, s, small, e) = format_from-head (suc (suc n)) (suc n) "" (omega arith) in
    rw e (
      parse_int-minus d s n
        (ap (parse_from 0) (sym e)
          ∙ parse-format_from (suc (suc n)) (suc n) "" (omega arith) (omega arith)
          ∙ parse_from-nil (suc n))
        fits)
