-- ===== src/Tests/Rows.antt =====
-- A row with a null, and two integers, as bytes and as keys.
use simple_rdbms.Common.{ℕ, ◌≡◌, ◌⊎◌, refl, arith, true, false, List, [], ◌∷◌, ◌++◌}
use simple_rdbms.Common.{some, ok, err, length, All, Ordering}
use simple_rdbms.Common.Int.{pos, negsuc}
use simple_rdbms.Common.Lex.{lex}
use simple_rdbms.Types.Utf8.{utf8_valid}
use simple_rdbms.Types.Value.{DataType, Value, null, integer, varchar}
use simple_rdbms.Types.Value.{IsWellFormed, compare, unorderable_value}
use simple_rdbms.Types.Memcomparable.{encode_memcomparable, decode_memcomparable}
use simple_rdbms.Types.Memcomparable.Order.{lex-encode_memcomparable}
use simple_rdbms.Types.Memcomparable.RoundTrip.{canonical, has_nan, encode_memcomparable_total}
use simple_rdbms.Types.Memcomparable.RoundTrip.{decode_memcomparable-encode_memcomparable}
use simple_rdbms.Types.Tuple.{encode, decode}
use simple_rdbms.Types.Tuple.RoundTrip.{HaveTypes, decode-encode}

abbrev some_row : List Value
some_row = integer (pos 5) ∷ null ∷ varchar (104 ∷ 105 ∷ []) ∷ []

abbrev row_types : List DataType
row_types = DataType.integer ∷ DataType.boolean ∷ DataType.varchar 10 ∷ []

greeting_valid : utf8_valid (104 ∷ 105 ∷ []) ≡ true
unfolding utf8_valid
greeting_valid = refl

some_row-IsWellFormed : All IsWellFormed some_row
some_row-IsWellFormed =
    (omega arith, (tt, (((omega arith, (omega arith, tt)), omega arith, greeting_valid), tt)))

some_row-HaveTypes : HaveTypes some_row row_types
some_row-HaveTypes = (tt, (tt, (tt, tt)))

decode-encode_example : decode (encode some_row [] ++ 9 ∷ []) row_types ≡ ok some_row
decode-encode_example =
    decode-encode some_row row_types (9 ∷ []) some_row-IsWellFormed some_row-HaveTypes

abbrev minus_one : Value
minus_one = integer (negsuc 0)

abbrev five : Value
five = integer (pos 5)

abbrev key_of_minus_one : List ℕ
key_of_minus_one = 1 ∷ 127 ∷ 255 ∷ 255 ∷ 255 ∷ []

abbrev key_of_five : List ℕ
key_of_five = 1 ∷ 128 ∷ 0 ∷ 0 ∷ 5 ∷ []

minus_one_below : compare minus_one five ≡ ok (some Ordering.lt)
unfolding compare
minus_one_below = refl

minus_one_key : encode_memcomparable minus_one [] ≡ ok key_of_minus_one
unfolding encode_memcomparable
minus_one_key = refl

five_key : encode_memcomparable five [] ≡ ok key_of_five
unfolding encode_memcomparable
five_key = refl

lex-encode_memcomparable_example : lex key_of_minus_one key_of_five ≡ Ordering.lt
lex-encode_memcomparable_example =
    lex-encode_memcomparable minus_one five Ordering.lt key_of_minus_one key_of_five (omega arith)
      (omega arith) minus_one_below minus_one_key five_key

decode_memcomparable-encode_memcomparable_example :
    decode_memcomparable key_of_five DataType.integer ≡ ok (canonical five, length key_of_five)
decode_memcomparable-encode_memcomparable_example =
    decode_memcomparable-encode_memcomparable five DataType.integer key_of_five (omega arith) tt
      five_key

encode_memcomparable_total_example :
    ((k : List ℕ) × (encode_memcomparable five (7 ∷ []) ≡ ok (7 ∷ [] ++ k))
      × (has_nan five ≡ false))
    ⊎ ((encode_memcomparable five (7 ∷ []) ≡ err unorderable_value) × (has_nan five ≡ true))
encode_memcomparable_total_example = encode_memcomparable_total five (7 ∷ [])
