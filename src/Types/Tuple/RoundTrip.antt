-- ===== src/Types/Tuple/RoundTrip.antt =====
-- `decode` reads back the row that `encode` of tuple.rs wrote.
use simple_rdbms.Common.{ℕ, suc, ◌+◌, ◌%◌, ◌^◌, ◌≡◌, refl, sym, ap, ◌∙◌}
use simple_rdbms.Common.{false, List, [], ◌∷◌, ◌++◌, arith}
use simple_rdbms.Common.{length, All}
use simple_rdbms.Common.{ok, length-append, append_assoc}
use simple_rdbms.Common.{take-length-append, drop-length-append}
use simple_rdbms.Common.Int.{ℤ, Fits, to_word, of_word, to_word-lt, of_word-to_word}
use simple_rdbms.Common.Bytes.{to_le_bytes, from_le_bytes, length-to_le_bytes}
use simple_rdbms.Common.Bytes.{from_le_bytes-to_le_bytes}
use simple_rdbms.Types.Utf8.{from_utf8}
use simple_rdbms.Types.Value.{DataType, Value, null, boolean, integer, big_int, double, varchar}
use simple_rdbms.Types.Value.{IsWellFormed, HasType, is_null}
use simple_rdbms.Types.Tuple.{bitmap_len, encode}
use simple_rdbms.Types.Tuple.{take_bytes, decode_value, decode_columns, decode}
use simple_rdbms.Types.Tuple.Bitmap.{bit_at}
use simple_rdbms.Types.Tuple.Shape.{payload, payloads, bitmap_of, length-bitmap_of, encode_shape}
use simple_rdbms.Types.Tuple.Shape.{Marked, bitmap_of-Marked}

-- A piece of the buffer, given the bytes before and behind it.
take_bytes-at :
    (front bytes more buf : List ℕ) (offset n : ℕ)
    → buf ≡ front ++ (bytes ++ more)
    → offset ≡ length front
    → n ≡ length bytes
    → take_bytes buf offset n ≡ ok bytes
unfolding take_bytes
take_bytes-at front bytes more buf offset n eb eo en =
    rw (eb, eo, en)
      (ground (
        arith,
        length-append front (bytes ++ more),
        length-append bytes more,
        drop-length-append front (bytes ++ more),
        take-length-append bytes more,
      ))

word_of_payload :
    (k half : ℕ) (v : ℤ)
    → half + half ≡ 256 ^ k
    → Fits half v
    → of_word half (from_le_bytes (to_le_bytes k (to_word half v))) ≡ v
word_of_payload k half v e h =
    rw (from_le_bytes-to_le_bytes k (to_word half v) (rw (← e) (to_word-lt half v h)))
      (of_word-to_word half v h)

decode_varchar-at :
    (s : List ℕ) (n : ℕ) (front more buf : List ℕ) (offset : ℕ)
    → IsWellFormed (varchar s)
    → buf ≡ front ++ (payload (varchar s) ++ more)
    → offset ≡ length front
    → decode_value buf (DataType.varchar n) offset
      ≡ ok (varchar s, offset + length (payload (varchar s)))
unfolding decode_value payload from_utf8
decode_varchar-at s n front more buf offset (bytes, fits, valid) eb eo =
    let len : ℕ = length s % 2 ^ 32 in
    ground (
      arith,
      valid,
      fits,
      take_bytes-at front (to_le_bytes 4 len) (s ++ more) buf offset 4
          (eb ∙ ap (λ l. front ++ l) (append_assoc (to_le_bytes 4 len) s more)) eo
          (sym (length-to_le_bytes 4 len)),
      from_le_bytes-to_le_bytes 4 len (omega arith),
      length-to_le_bytes 4 len,
      length-append (to_le_bytes 4 len) s,
      take_bytes-at (front ++ to_le_bytes 4 len) s more buf (offset + 4) (length s)
          (eb
            ∙ ap (λ l. front ++ l) (append_assoc (to_le_bytes 4 len) s more)
            ∙ sym (append_assoc front (to_le_bytes 4 len) (s ++ more)))
          (omega (arith, length-append front (to_le_bytes 4 len), length-to_le_bytes 4 len)) refl,
    )

-- The value at an offset, for a value that is not null.
decode_value-at :
    (v : Value) (t : DataType) (front more buf : List ℕ) (offset : ℕ)
    → IsWellFormed v
    → HasType v t
    → is_null v ≡ false
    → buf ≡ front ++ (payload v ++ more)
    → offset ≡ length front
    → decode_value buf t offset ≡ ok (v, offset + length (payload v))
unfolding decode_value payload is_null
decode_value-at null t front more buf offset w h nn eb eo = cc
decode_value-at (boolean b) DataType.boolean front more buf offset w h nn eb eo =
    rw (take_bytes-at front (payload (boolean b)) more buf offset 1 eb eo refl) (ground arith)
decode_value-at (integer v) DataType.integer front more buf offset w h nn eb eo = ground (
  arith,
  take_bytes-at front (payload (integer v)) more buf offset 4 eb eo (sym (length-to_le_bytes 4 _)),
  word_of_payload 4 (2 ^ 31) v (omega arith) w,
  length-to_le_bytes 4 (to_word (2 ^ 31) v),
)
decode_value-at (big_int v) DataType.big_int front more buf offset w h nn eb eo = ground (
  arith,
  take_bytes-at front (payload (big_int v)) more buf offset 8 eb eo (sym (length-to_le_bytes 8 _)),
  word_of_payload 8 (2 ^ 63) v (omega arith) w,
  length-to_le_bytes 8 (to_word (2 ^ 63) v),
)
decode_value-at (double v) DataType.double front more buf offset w h nn eb eo = ground (
  arith,
  take_bytes-at front (payload (double v)) more buf offset 8 eb eo (sym (length-to_le_bytes 8 v)),
  from_le_bytes-to_le_bytes 8 v w,
  length-to_le_bytes 8 v,
)
decode_value-at (varchar s) (DataType.varchar n) front more buf offset w h nn eb eo =
    decode_varchar-at s n front more buf offset w eb eo
decode_value-at v t front more buf offset w h nn eb eo = absurd h

-- Every row whose values fit the columns comes back from its bytes, whatever follows them.
abbrev pub HaveTypes : List Value → List DataType → Type 0
HaveTypes [] [] = Unit {0}
HaveTypes (v ∷ vs) (t ∷ ts) = HasType v t × HaveTypes vs ts
HaveTypes _ _ = ⊥

decode_columns-at :
    (vs : List Value) (ts : List DataType) (bm front rest buf : List ℕ) (i offset : ℕ)
    → All IsWellFormed vs
    → HaveTypes vs ts
    → Marked bm i vs
    → buf ≡ front ++ (payloads vs ++ rest)
    → offset ≡ length front
    → decode_columns buf bm i ts offset ≡ ok vs
unfolding decode_columns payloads payload bit_at is_null
decode_columns-at [] [] bm front rest buf i offset w h m eb eo = refl
decode_columns-at [] (t ∷ ts) bm front rest buf i offset w h m eb eo = absurd h
decode_columns-at (v ∷ vs) [] bm front rest buf i offset w h m eb eo = absurd h
decode_columns-at (null ∷ vs) (t ∷ ts) bm front rest buf i offset w h m eb eo =
    ground (arith, m.0, decode_columns-at vs ts bm front rest buf (suc i) offset w.1 h.1 m.1 eb eo)
decode_columns-at (v ∷ vs) (t ∷ ts) bm front rest buf i offset w h m eb eo =
    let eb' = eb ∙ ap (λ l. front ++ l) (append_assoc (payload v) (payloads vs) rest) in
    ground (
      arith,
      m.0,
      decode_value-at v t front (payloads vs ++ rest) buf offset w.0 h.0 refl eb' eo,
      decode_columns-at vs ts bm (front ++ payload v) rest buf (suc i) (offset + length (payload v))
          w.1 h.1 m.1 (eb' ∙ sym (append_assoc front (payload v) (payloads vs ++ rest)))
          (omega (arith, length-append front (payload v))),
    )

length-HaveTypes : (vs : List Value) (ts : List DataType) → HaveTypes vs ts → length ts ≡ length vs
length-HaveTypes [] [] h = refl
length-HaveTypes [] (t ∷ ts) h = absurd h
length-HaveTypes (v ∷ vs) [] h = absurd h
length-HaveTypes (v ∷ vs) (t ∷ ts) h = ap suc (length-HaveTypes vs ts h.1)

-- The bytes of a row, whatever follows them, decode by the types of its columns to the row, for
-- values of the widths of their types, nulls of any.
pub decode-encode :
    (values : List Value) (column_types : List DataType) (rest : List ℕ)
    → All IsWellFormed values
    → HaveTypes values column_types
    → decode (encode values [] ++ rest) column_types ≡ ok values
unfolding decode
decode-encode values column_types rest w h =
    let bm : List ℕ = bitmap_of values in
    let eb = ap (λ l. l ++ rest) (encode_shape values) ∙ append_assoc bm (payloads values) rest in
    let en = sym (length-bitmap_of values) in
    rw
      (
        length-HaveTypes values column_types h,
        take_bytes-at [] bm (payloads values ++ rest) _ 0 (bitmap_len (length values)) eb refl en,
      )
      (decode_columns-at values column_types bm bm rest _ 0 _ w h (bitmap_of-Marked values) eb en)
