-- ===== src/Prelude/Int.antt =====
-- Signed integers over the native numbers, and Go's fixed-width signed arithmetic on them.
use delayed_notifier.Prelude.{
  ℕ, suc, ◌+◌, ◌-◌, ◌*◌, ◌%◌, ◌≤◌, ◌<◌, ◌≡◌, Bool, arith, ◌↔◌, ltb, leb, if◌then◌else◌,
}

-- `negsuc n` is -(n + 1).
pub data ℤ : Type 0 where
  pos : ℕ → ℤ
  negsuc : ℕ → ℤ

abbrev pub pos_part : ℤ → ℕ
pos_part (pos n) = n
pos_part (negsuc _) = 0

abbrev pub neg_part : ℤ → ℕ
neg_part (pos _) = 0
neg_part (negsuc n) = suc n

-- a - b, as an integer.
abbrev pub sub_ℕ : ℕ → ℕ → ℤ
sub_ℕ a b = if leb b a then pos (a - b) else negsuc (b - a - 1)

infixl 65 ◌+ℤ◌ ◌-ℤ◌
infix 50 ◌≤ℤ◌
unfoldable pub ◌+ℤ◌ : ℤ → ℤ → ℤ
a +ℤ b = sub_ℕ (pos_part a + pos_part b) (neg_part a + neg_part b)

unfoldable pub ◌-ℤ◌ : ℤ → ℤ → ℤ
a -ℤ b = sub_ℕ (pos_part a + neg_part b) (neg_part a + pos_part b)

abbrev pub ◌≤ℤ◌ : ℤ → ℤ → Type 0
a ≤ℤ b = pos_part a + neg_part b ≤ pos_part b + neg_part a

abbrev pub ltb_ℤ : ℤ → ℤ → Bool
ltb_ℤ a b = ltb (pos_part a + neg_part b) (pos_part b + neg_part a)

abbrev pub leb_ℤ : ℤ → ℤ → Bool
leb_ℤ a b = leb (pos_part a + neg_part b) (pos_part b + neg_part a)

-- The integer of a w-bit pattern in two's complement, 2 ^ w = 2 * h.
abbrev pub of_bits : ℕ → ℕ → ℤ
of_bits h b = if ltb b h then pos b else negsuc (2 * h - b - 1)

-- The 2 * h bit patterns: an integer modulo 2 ^ w.
abbrev pub to_bits : ℕ → ℤ → ℕ
to_bits h (pos n) = n % (2 * h)
to_bits h (negsuc n) = 2 * h - 1 - n % (2 * h)

-- Conversion to a signed type with values from -h to h - 1.
abbrev pub wrap : ℕ → ℤ → ℤ
wrap h a = of_bits h (to_bits h a)

abbrev pub half_64 : ℕ
half_64 = 9223372036854775808

abbrev pub half_16 : ℕ
half_16 = 32768

abbrev pub half_32 : ℕ
half_32 = 2147483648

-- Arithmetic on `int` and `int64` keeps 64 bits.
unfoldable pub to_int64 : ℤ → ℤ
to_int64 = wrap half_64

-- The conversion `int16(x)`.
unfoldable pub to_int16 : ℤ → ℤ
to_int16 = wrap half_16

-- The conversion `int32(x)`.
unfoldable pub to_int32 : ℤ → ℤ
to_int32 = wrap half_32

-- The values of a signed type.
abbrev pub InRange : ℕ → ℤ → Type 0
InRange h a = (pos_part a < h) × (neg_part a ≤ h)

pub to_int64_id : (a : ℤ) → InRange half_64 a → to_int64 a ≡ a
unfolding to_int64
to_int64_id (pos n) h = ground arith
to_int64_id (negsuc n) h = ground arith

pub to_int16_id : (a : ℤ) → InRange half_16 a → to_int16 a ≡ a
unfolding to_int16
to_int16_id (pos n) h = ground arith
to_int16_id (negsuc n) h = ground arith

-- A conversion has a value of the type, and keeps the number exactly if it is one.
pub to_int32_lem : (a : ℤ) → InRange half_32 (to_int32 a) × ((to_int32 a ≡ a) ↔ InRange half_32 a)
unfolding to_int32
to_int32_lem (pos n) = (ground arith, (λ h. ground arith, λ h. ground arith))
to_int32_lem (negsuc n) = (ground arith, (λ h. ground arith, λ h. ground arith))
