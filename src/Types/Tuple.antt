-- ===== src/Types/Tuple.antt =====
-- crates/types/src/tuple.rs: a row as bytes, a bitmap of its nulls before the other values.
pub mod Bitmap
pub mod Shape
pub mod RoundTrip
pub mod Typed
use simple_rdbms.Common.{
  ℕ, suc, ◌+◌, ◌*◌, ◌/◌, ◌%◌, ◌^◌, Bool, true, false, Option, none, some, List,
}
use simple_rdbms.Common.{[], ◌∷◌, ◌++◌, length, slice, set, get_or, replicate, ◌==◌, not}
use simple_rdbms.Common.{if◌then◌else◌, Result, ok, err, ◌>>=◌}
use simple_rdbms.Common.Int.{to_word, of_word}
use simple_rdbms.Common.Bytes.{to_le_bytes, from_le_bytes}
use simple_rdbms.Types.Utf8.{from_utf8}
use simple_rdbms.Types.Value.{DataType, Value, null, boolean, integer, big_int, double, varchar}

pub data TupleError : Type 0 where
  truncated : ℕ → ℕ → TupleError
  invalid_utf8 : TupleError

-- `byte & (1 << k) != 0`
unfoldable pub test_bit : ℕ → ℕ → Bool
test_bit byte k = byte / 2 ^ k % 2 == 1

-- `byte | (1 << k)`
unfoldable pub set_bit : ℕ → ℕ → ℕ
unfolding test_bit
set_bit byte k = if test_bit byte k then byte else byte + 2 ^ k

-- `len.div_ceil(8)`
abbrev pub bitmap_len : ℕ → ℕ
bitmap_len len = (len + 7) / 8

-- One round of the loop of `encode`: `i` is the column, `start` the place of the bitmap.
unfoldable pub encode_value : ℕ → ℕ → Value → List ℕ → List ℕ
unfolding to_word to_le_bytes set_bit
encode_value start i null buf =
    set buf (start + i / 8) (set_bit (get_or buf (start + i / 8) 0) (i % 8))
encode_value start i (boolean b) buf = buf ++ (if b then 1 else 0) ∷ []
encode_value start i (integer v) buf = buf ++ to_le_bytes 4 (to_word (2 ^ 31) v)
encode_value start i (big_int v) buf = buf ++ to_le_bytes 8 (to_word (2 ^ 63) v)
encode_value start i (double v) buf = buf ++ to_le_bytes 8 v
encode_value start i (varchar s) buf = (buf ++ to_le_bytes 4 (length s % 2 ^ 32)) ++ s

unfoldable pub encode_values : ℕ → ℕ → List Value → List ℕ → List ℕ
unfolding encode_value
encode_values start i [] buf = buf
encode_values start i (v ∷ vs) buf = encode_values start (suc i) vs (encode_value start i v buf)

unfoldable pub encode : List Value → List ℕ → List ℕ
unfolding encode_values
encode values buf =
    encode_values (length buf) 0 values (buf ++ replicate (bitmap_len (length values)) 0)

-- `take`
unfoldable pub take_bytes : List ℕ → ℕ → ℕ → Result TupleError (List ℕ)
take_bytes buf offset len = elim (slice buf offset len) [
  | some bytes ↦ ok bytes
  | none ↦ err (truncated (offset + len) (length buf))
]

-- The match of `decode` on the type of a column: the value and the offset behind it.
unfoldable pub decode_value : List ℕ → DataType → ℕ → Result TupleError (Value × ℕ)
unfolding take_bytes of_word from_le_bytes from_utf8
decode_value buf DataType.boolean offset = do
  bytes ← take_bytes buf offset 1
  ok (boolean (not (get_or bytes 0 0 == 0)), offset + 1)
decode_value buf DataType.integer offset = do
  bytes ← take_bytes buf offset 4
  ok (integer (of_word (2 ^ 31) (from_le_bytes bytes)), offset + 4)
decode_value buf DataType.big_int offset = do
  bytes ← take_bytes buf offset 8
  ok (big_int (of_word (2 ^ 63) (from_le_bytes bytes)), offset + 8)
decode_value buf DataType.double offset = do
  bytes ← take_bytes buf offset 8
  ok (double (from_le_bytes bytes), offset + 8)
decode_value buf (DataType.varchar _) offset = do
  len_bytes ← take_bytes buf offset 4
  let len = from_le_bytes len_bytes
  str_bytes ← take_bytes buf (offset + 4) len
  elim (from_utf8 str_bytes) [ some s ↦ ok (varchar s, offset + 4 + len) | none ↦ err invalid_utf8 ]

-- The loop of `decode` from column `i` on.
unfoldable pub decode_columns :
    List ℕ → List ℕ → ℕ → List DataType → ℕ → Result TupleError (List Value)
unfolding decode_value test_bit
decode_columns buf bitmap i [] offset = ok []
decode_columns buf bitmap i (t ∷ ts) offset = elim (test_bit (get_or bitmap (i / 8) 0) (i % 8)) [
  | true ↦ (do values ← decode_columns buf bitmap (suc i) ts offset; ok (null ∷ values))
  | false ↦ (do
    (value, after) ← decode_value buf t offset
    values ← decode_columns buf bitmap (suc i) ts after
    ok (value ∷ values))
]

unfoldable pub decode : List ℕ → List DataType → Result TupleError (List Value)
unfolding decode_columns take_bytes
decode buf column_types = do
  bitmap ← take_bytes buf 0 (bitmap_len (length column_types))
  decode_columns buf bitmap 0 column_types (bitmap_len (length column_types))
