-- ===== src/Types/Memcomparable/Order.antt =====
-- The byte order of keys is the order of the values (memcomparable.rs against value.rs).
use simple_rdbms.Common.{ℕ, ◌+◌, ◌^◌, ◌<◌, ◌≡◌, refl, ◌∙◌}
use simple_rdbms.Common.{Ordering, some, List, [], ◌∷◌}
use simple_rdbms.Common.{arith, ok, compare as compare_ℕ}
use simple_rdbms.Common.Int.{ℤ, pos, negsuc, Fits, compare_ℤ, to_word, to_word-lt}
use simple_rdbms.Common.Lex.{lex}
use simple_rdbms.Common.Bytes.{to_be_bytes, lex-to_be_bytes}
use simple_rdbms.Types.Float.{rank, partial_cmp}
use simple_rdbms.Types.Value.{Value, boolean, integer, big_int, double, varchar, compare}
use simple_rdbms.Types.Value.{IsWellFormed, compare_bool}
use simple_rdbms.Types.Memcomparable.{flip_sign, order_preserving_bits, encode_memcomparable}

flip_sign-lt : (half w : ℕ) → w < half + half → flip_sign half w < half + half
unfolding flip_sign
flip_sign-lt half w h = ground arith

-- Flipping the sign bit turns the order of signed words into that of unsigned ones.
compare-flip_sign :
    (half : ℕ) (v w : ℤ)
    → Fits half v
    → Fits half w
    → compare_ℕ (flip_sign half (to_word half v)) (flip_sign half (to_word half w)) ≡ compare_ℤ v w
unfolding flip_sign to_word compare_ℤ
compare-flip_sign half (pos a) (pos b) hv hw = ground arith
compare-flip_sign half (pos a) (negsuc b) hv hw = ground arith
compare-flip_sign half (negsuc a) (pos b) hv hw = ground arith
compare-flip_sign half (negsuc a) (negsuc b) hv hw = ground arith

order_preserving_bits-lt : (v : ℕ) → v < 2 ^ 64 → order_preserving_bits v < 2 ^ 64
unfolding order_preserving_bits
order_preserving_bits-lt v h = ground arith

compare-order_preserving_bits :
    (v w : ℕ)
    → v < 2 ^ 64
    → w < 2 ^ 64
    → compare_ℕ (order_preserving_bits v) (order_preserving_bits w) ≡ compare_ℤ (rank v) (rank w)
unfolding order_preserving_bits rank compare_ℤ
compare-order_preserving_bits v w hv hw = ground arith

lex-signed :
    (k half : ℕ) (v w : ℤ)
    → half + half ≡ 256 ^ k
    → Fits half v
    → Fits half w
    → lex
        (1 ∷ to_be_bytes k (flip_sign half (to_word half v)))
        (1 ∷ to_be_bytes k (flip_sign half (to_word half w)))
      ≡ compare_ℤ v w
lex-signed k half v w e hv hw =
    unfold lex in
    (lex-to_be_bytes k _ _ (rw (← e) (flip_sign-lt half _ (to_word-lt half v hv)))
        (rw (← e) (flip_sign-lt half _ (to_word-lt half w hw)))
      ∙ compare-flip_sign half v w hv hw)

lex-double :
    (v w : ℕ) (o : Ordering)
    → v < 2 ^ 64
    → w < 2 ^ 64
    → partial_cmp v w ≡ some o
    → lex
        (1 ∷ to_be_bytes 8 (order_preserving_bits v))
        (1 ∷ to_be_bytes 8 (order_preserving_bits w))
      ≡ o
unfolding partial_cmp
lex-double v w o hv hw h =
    unfold lex in
    (lex-to_be_bytes 8 _ _ (order_preserving_bits-lt v hv) (order_preserving_bits-lt w hw)
      ∙ compare-order_preserving_bits v w hv hw
      ∙ ground arith)

lex-tagged : (s t : List ℕ) → lex (1 ∷ s) (1 ∷ t) ≡ lex s t
unfolding lex
lex-tagged s t = refl

-- Where `compare` orders two values, both of the widths of their types, the keys that
-- `encode_memcomparable` makes of them stand in the same order, equality included.
pub lex-encode_memcomparable :
    (a b : Value) (o : Ordering) (ka kb : List ℕ)
    → IsWellFormed a
    → IsWellFormed b
    → compare a b ≡ ok (some o)
    → encode_memcomparable a [] ≡ ok ka
    → encode_memcomparable b [] ≡ ok kb
    → lex ka kb ≡ o
unfolding compare encode_memcomparable compare_bool
lex-encode_memcomparable (boolean a) (boolean b) o ka kb wa wb h ea eb = unfold lex in ground arith
lex-encode_memcomparable (integer a) (integer b) o ka kb wa wb h ea eb =
    ground (arith, lex-signed 4 (2 ^ 31) a b refl wa wb)
lex-encode_memcomparable (big_int a) (big_int b) o ka kb wa wb h ea eb =
    ground (arith, lex-signed 8 (2 ^ 63) a b refl wa wb)
lex-encode_memcomparable (double a) (double b) o ka kb wa wb h ea eb =
    ground (arith, lex-double a b o wa wb)
lex-encode_memcomparable (varchar s) (varchar t) o ka kb wa wb h ea eb =
    ground (arith, lex-tagged s t)
lex-encode_memcomparable a b o ka kb wa wb h ea eb = cc
