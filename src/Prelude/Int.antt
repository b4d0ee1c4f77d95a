-- ===== src/Prelude/Int.antt =====
-- Go's int64: signed integers over the native numbers, with the wrap-around of a 64-bit sum or
-- product written out.
use feedium.Prelude.{ℕ, suc, ◌+◌, ◌-◌, ◌*◌, ◌%◌, Bool, ltb, leb, if◌then◌else◌}

-- `negsuc n` is -(n + 1).
pub data ℤ : Type 0 where
  pos : ℕ → ℤ
  negsuc : ℕ → ℤ

abbrev pub pos_part : ℤ → ℕ
pos_part (pos n) = n
pos_part (negsuc n) = 0

abbrev pub neg_part : ℤ → ℕ
neg_part (pos n) = 0
neg_part (negsuc n) = suc n

-- a < b and a ≤ b, as Boolean tests.
abbrev pub ltb_ℤ : ℤ → ℤ → Bool
ltb_ℤ a b = ltb (pos_part a + neg_part b) (pos_part b + neg_part a)

abbrev pub leb_ℤ : ℤ → ℤ → Bool
leb_ℤ a b = leb (pos_part a + neg_part b) (pos_part b + neg_part a)

-- The int64 whose two's complement bit pattern is `n % 2 ^ 64`.
abbrev pub of_bits64 : ℕ → ℤ
of_bits64 n =
    let m = n % 18446744073709551616 in
    if ltb m 9223372036854775808 then pos m else negsuc (18446744073709551615 - m)

-- The product of an int64 by a natural number, wrapped to 64 bits.
abbrev pub mul64 : ℤ → ℕ → ℤ
mul64 (pos n) k = of_bits64 (n * k)
mul64 (negsuc n) k = of_bits64 (18446744073709551616 - (suc n * k) % 18446744073709551616)
