-- ===== src/Types/Float.antt =====
-- `f64` of the language, which crates/types/src/value.rs and memcomparable.rs use: a double is its
-- 64-bit pattern (`to_bits`), a sign bit over 63 bits that grow with the magnitude.
use simple_rdbms.Common.{ℕ, zero, suc, ◌-◌, ◌%◌, ◌^◌, Bool, ◌||◌, Ordering, Option, none, some}
use simple_rdbms.Common.{ltb, ◌==◌, if◌then◌else◌}
use simple_rdbms.Common.Int.{ℤ, pos, negsuc, compare_ℤ}

abbrev pub sign_bit_64 : ℕ
sign_bit_64 = 2 ^ 63

-- The pattern of the positive infinity.
abbrev infinity_bits : ℕ
infinity_bits = 0x7ff0_0000_0000_0000

-- `v.is_nan()`: a magnitude above that of the infinities.
unfoldable pub is_nan : ℕ → Bool
is_nan v = ltb infinity_bits (v % sign_bit_64)

-- `v == 0.0`: both zeros.
unfoldable pub is_zero : ℕ → Bool
is_zero v = v % sign_bit_64 == 0

negate : ℕ → ℤ
negate zero = pos 0
negate (suc n) = negsuc n

-- A number that grows with the double, and is the same for both zeros.
unfoldable pub rank : ℕ → ℤ
unfolding negate
rank v = if ltb v sign_bit_64 then pos v else negate (v - sign_bit_64)

-- `a.partial_cmp(b)`
unfoldable pub partial_cmp : ℕ → ℕ → Option Ordering
unfolding is_nan rank compare_ℤ
partial_cmp a b = if is_nan a || is_nan b then none else some (compare_ℤ (rank a) (rank b))
