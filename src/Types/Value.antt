-- ===== src/Types/Value.antt =====
-- crates/types/src/data_type.rs and value.rs.
use Prim.Native.String.{String}
use simple_rdbms.Common.{ℕ, ◌%◌, ◌^◌, ◌<◌, ◌≡◌, Bool, true, false, ◌||◌, Ordering, Option}
use simple_rdbms.Common.{none, some, List, length, All, if◌then◌else◌, Result, ok, err}
use simple_rdbms.Common.Int.{ℤ, Fits, compare_ℤ}
use simple_rdbms.Common.Lex.{lex}
use simple_rdbms.Types.Utf8.{utf8_valid}
use simple_rdbms.Types.Float.{partial_cmp}

pub data DataType : Type 0 where
  boolean integer big_int double : DataType
  varchar : ℕ → DataType

unfoldable pub fixed_width : DataType → Option ℕ
fixed_width boolean = some 1
fixed_width integer = some 4
fixed_width big_int = some 8
fixed_width double = some 8
fixed_width (varchar n) = none

-- A double is its bit pattern, a text its bytes.
pub data Value : Type 0 where
  null : Value
  boolean : Bool → Value
  integer : ℤ → Value
  big_int : ℤ → Value
  double : ℕ → Value
  varchar : List ℕ → Value

unfoldable pub data_type : Value → Option DataType
data_type null = none
data_type (boolean _) = some DataType.boolean
data_type (integer _) = some DataType.integer
data_type (big_int _) = some DataType.big_int
data_type (double _) = some DataType.double
data_type (varchar s) = some (DataType.varchar (length s % 2 ^ 32))

unfoldable pub is_null : Value → Bool
is_null null = true
is_null _ = false

unfoldable pub type_name : Value → String
type_name null = "Null"
type_name (boolean _) = "Boolean"
type_name (integer _) = "Integer"
type_name (big_int _) = "BigInt"
type_name (double _) = "Double"
type_name (varchar _) = "Varchar"

-- The texts of `InvalidEncoding`, as constructors.
pub data EncodingFault : Type 0 where
  empty_buffer truncated_boolean truncated_integer truncated_bigint : EncodingFault
  truncated_double invalid_utf8 : EncodingFault
  unknown_tag : ℕ → EncodingFault

pub data ValueError : Type 0 where
  type_mismatch : String → String → ValueError
  unorderable_value : ValueError
  invalid_encoding : EncodingFault → ValueError

-- `bool::cmp`
unfoldable pub compare_bool : Bool → Bool → Ordering
compare_bool false false = Ordering.eq
compare_bool false true = Ordering.lt
compare_bool true false = Ordering.gt
compare_bool true true = Ordering.eq

-- The match of `Value::compare` on two values that are not null.
compare_present : Value → Value → Result ValueError (Option Ordering)
unfolding type_name compare_bool compare_ℤ partial_cmp lex
compare_present (boolean a) (boolean b) = ok (some (compare_bool a b))
compare_present (integer a) (integer b) = ok (some (compare_ℤ a b))
compare_present (big_int a) (big_int b) = ok (some (compare_ℤ a b))
compare_present (double a) (double b) = ok (partial_cmp a b)
compare_present (varchar a) (varchar b) = ok (some (lex a b))
compare_present a b = err (type_mismatch (type_name a) (type_name b))

unfoldable pub compare : Value → Value → Result ValueError (Option Ordering)
unfolding is_null compare_present
compare a b = if is_null a || is_null b then ok none else compare_present a b

-- What Rust's types say of a value: the widths of its numbers, and that a text is UTF-8 of a
-- length that the program's `as u32` keeps.
abbrev pub IsWellFormed : Value → Type 0
IsWellFormed null = Unit {0}
IsWellFormed (boolean _) = Unit {0}
IsWellFormed (integer v) = Fits (2 ^ 31) v
IsWellFormed (big_int v) = Fits (2 ^ 63) v
IsWellFormed (double v) = v < 2 ^ 64
IsWellFormed (varchar s) = All (λ b. b < 256) s × (length s < 2 ^ 32) × (utf8_valid s ≡ true)

-- A null belongs to every type, and a text to every declared width.
abbrev pub HasType : Value → DataType → Type 0
HasType null t = Unit {0}
HasType (boolean _) DataType.boolean = Unit {0}
HasType (integer _) DataType.integer = Unit {0}
HasType (big_int _) DataType.big_int = Unit {0}
HasType (double _) DataType.double = Unit {0}
HasType (varchar _) (DataType.varchar _) = Unit {0}
HasType _ _ = ⊥
