-- ===== src/Types/Memcomparable.antt =====
-- crates/types/src/memcomparable.rs: keys whose byte order is the order of the values.
pub mod Order
pub mod RoundTrip
use simple_rdbms.Common.{ℕ, suc, ◌+◌, ◌-◌, ◌^◌, ◌≤◌, Bool, true, false, Option, none, some, List}
use simple_rdbms.Common.{[], ◌∷◌, ◌++◌, length, slice, ltb, ◌==◌, not, if◌then◌else◌}
use simple_rdbms.Common.{Result, ok, err, ◌>>=◌}
use simple_rdbms.Common.Int.{to_word, of_word}
use simple_rdbms.Common.Bytes.{to_be_bytes, from_be_bytes}
use simple_rdbms.Types.Utf8.{from_utf8}
use simple_rdbms.Types.Float.{sign_bit_64, is_nan, is_zero}
use simple_rdbms.Types.Value.{DataType, Value, ValueError, unorderable_value, invalid_encoding}
use simple_rdbms.Types.Value.{null, boolean, integer, big_int, double, varchar}
use simple_rdbms.Types.Value.{empty_buffer, unknown_tag, truncated_boolean, truncated_integer}
use simple_rdbms.Types.Value.{truncated_bigint, truncated_double, invalid_utf8}

abbrev null_tag : ℕ
null_tag = 0x00

abbrev value_tag : ℕ
value_tag = 0x01

abbrev sign_bit_32 : ℕ
sign_bit_32 = 2 ^ 31

-- `bits ^ sign`, for the top bit of a word of `2 * sign` patterns.
unfoldable pub flip_sign : ℕ → ℕ → ℕ
flip_sign sign bits = if ltb bits sign then bits + sign else bits - sign

-- `!bits` on 64 bits.
abbrev complement : ℕ → ℕ
complement bits = 2 ^ 64 - 1 - bits

-- `bits & SIGN_BIT_64 != 0`
abbrev has_sign : ℕ → Bool
has_sign bits = not (ltb bits sign_bit_64)

unfoldable pub order_preserving_bits : ℕ → ℕ
unfolding is_zero
order_preserving_bits v =
    let bits = if is_zero v then 0 else v in
    if has_sign bits then complement bits else bits + sign_bit_64

-- The bytes that `encode_memcomparable` puts on `buf`.
unfoldable pub encode_memcomparable : Value → List ℕ → Result ValueError (List ℕ)
unfolding to_word to_be_bytes flip_sign order_preserving_bits is_nan
encode_memcomparable null buf = ok (buf ++ null_tag ∷ [])
encode_memcomparable (boolean v) buf = ok ((buf ++ value_tag ∷ []) ++ (if v then 1 else 0) ∷ [])
encode_memcomparable (integer v) buf =
    ok ((buf ++ value_tag ∷ []) ++ to_be_bytes 4 (flip_sign sign_bit_32 (to_word sign_bit_32 v)))
encode_memcomparable (big_int v) buf =
    ok ((buf ++ value_tag ∷ []) ++ to_be_bytes 8 (flip_sign sign_bit_64 (to_word sign_bit_64 v)))
encode_memcomparable (double v) buf =
    if is_nan v
    then err unorderable_value
    else ok ((buf ++ value_tag ∷ []) ++ to_be_bytes 8 (order_preserving_bits v))
encode_memcomparable (varchar s) buf = ok ((buf ++ value_tag ∷ []) ++ s)

-- `ok_or_else`
abbrev ok_or {ℓ} : {A : Type ℓ} → Option A → ValueError → Result ValueError A
ok_or (some a) e = ok a
ok_or none e = err e

read_be_u32 : List ℕ → Option ℕ
unfolding from_be_bytes
read_be_u32 bytes = elim (slice bytes 0 4) [ none ↦ none | some b ↦ some (from_be_bytes b) ]

read_be_u64 : List ℕ → Option ℕ
unfolding from_be_bytes
read_be_u64 bytes = elim (slice bytes 0 8) [ none ↦ none | some b ↦ some (from_be_bytes b) ]

-- `rest.first()`
abbrev first : List ℕ → Option ℕ
first [] = none
first (b ∷ bs) = some b

-- The match on the type, for the bytes behind a value tag.
decode_payload : DataType → List ℕ → Result ValueError (Value × ℕ)
unfolding read_be_u32 read_be_u64 flip_sign of_word from_utf8
decode_payload DataType.boolean rest = do
  b ← ok_or (first rest) (invalid_encoding truncated_boolean)
  ok (boolean (not (b == 0)), 2)
decode_payload DataType.integer rest = do
  word ← ok_or (read_be_u32 rest) (invalid_encoding truncated_integer)
  ok (integer (of_word sign_bit_32 (flip_sign sign_bit_32 word)), 5)
decode_payload DataType.big_int rest = do
  word ← ok_or (read_be_u64 rest) (invalid_encoding truncated_bigint)
  ok (big_int (of_word sign_bit_64 (flip_sign sign_bit_64 word)), 9)
decode_payload DataType.double rest = do
  bits ← ok_or (read_be_u64 rest) (invalid_encoding truncated_double)
  let original = if has_sign bits then bits - sign_bit_64 else complement bits
  ok (double original, 9)
decode_payload (DataType.varchar _) rest = do
  s ← ok_or (from_utf8 rest) (invalid_encoding invalid_utf8)
  ok (varchar s, 1 + length s)

unfoldable pub decode_memcomparable : List ℕ → DataType → Result ValueError (Value × ℕ)
unfolding decode_payload
decode_memcomparable [] data_type = err (invalid_encoding empty_buffer)
decode_memcomparable (tag ∷ rest) data_type =
    if tag == null_tag
    then ok (null, 1)
    else if not (tag == value_tag)
    then err (invalid_encoding (unknown_tag tag))
    else decode_payload data_type rest
