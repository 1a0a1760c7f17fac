-- ===== src/Types/Memcomparable/RoundTrip.antt =====
-- What `decode_memcomparable` reads of a key, and when `encode_memcomparable` refuses.
use simple_rdbms.Common.{ℕ, ◌+◌, ◌-◌, ◌^◌, ◌<◌, ◌≡◌, refl, ap}
use simple_rdbms.Common.{Bool, true, false, some, List, [], ◌∷◌, ◌++◌, arith}
use simple_rdbms.Common.{ok, err, length, take, slice, append-nil, take-length-append}
use simple_rdbms.Common.{if◌then◌else◌, ◌⊎◌, inl, inr, append_assoc, Bool-cases}
use simple_rdbms.Common.Int.{ℤ, Fits, to_word, of_word, to_word-lt, of_word-to_word}
use simple_rdbms.Common.Bytes.{to_be_bytes, from_be_bytes-to_be_bytes}
use simple_rdbms.Common.Bytes.{length-to_be_bytes}
use simple_rdbms.Types.Float.{is_nan, is_zero}
use simple_rdbms.Types.Value.{DataType, Value, null, boolean, integer, big_int, double, varchar}
use simple_rdbms.Types.Value.{IsWellFormed, HasType, unorderable_value}
use simple_rdbms.Types.Memcomparable.{flip_sign, order_preserving_bits, encode_memcomparable}
use simple_rdbms.Types.Memcomparable.{read_be_u32, read_be_u64, decode_memcomparable}
use simple_rdbms.Types.Memcomparable.{has_sign, complement}

take_all : (xs : List ℕ) → take (length xs) xs ≡ xs
take_all xs = rw append-nil at (take-length-append xs [])

slice_all : (xs : List ℕ) (n : ℕ) → length xs ≡ n → slice xs 0 n ≡ some xs
slice_all xs n h = rw (← h) (ground (arith, take_all xs))

read_be_u32-to_be_bytes : (x : ℕ) → x < 2 ^ 32 → read_be_u32 (to_be_bytes 4 x) ≡ some x
unfolding read_be_u32
read_be_u32-to_be_bytes x h =
    ground (
      arith,
      slice_all (to_be_bytes 4 x) 4 (length-to_be_bytes 4 x),
      from_be_bytes-to_be_bytes 4 x h,
    )

read_be_u64-to_be_bytes : (x : ℕ) → x < 2 ^ 64 → read_be_u64 (to_be_bytes 8 x) ≡ some x
unfolding read_be_u64
read_be_u64-to_be_bytes x h =
    ground (
      arith,
      slice_all (to_be_bytes 8 x) 8 (length-to_be_bytes 8 x),
      from_be_bytes-to_be_bytes 8 x h,
    )

flip_sign-flip_sign : (half w : ℕ) → w < half + half → flip_sign half (flip_sign half w) ≡ w
unfolding flip_sign
flip_sign-flip_sign half w h = ground arith

flipped_lt : (half : ℕ) (v : ℤ) → Fits half v → flip_sign half (to_word half v) < half + half
unfolding flip_sign
flipped_lt half v h = ground (arith, to_word-lt half v h)

read_signed :
    (half : ℕ) (v : ℤ)
    → Fits half v
    → of_word half (flip_sign half (flip_sign half (to_word half v))) ≡ v
read_signed half v h =
    rw (flip_sign-flip_sign half (to_word half v) (to_word-lt half v h)) (of_word-to_word half v h)

order_preserving_bits_lt : (v : ℕ) → v < 2 ^ 64 → order_preserving_bits v < 2 ^ 64
unfolding order_preserving_bits
order_preserving_bits_lt v h = ground arith

-- What the decoder makes of the bits again.
unordered :
    (v : ℕ)
    → v < 2 ^ 64
    → (if has_sign (order_preserving_bits v)
        then order_preserving_bits v - 2 ^ 63
        else complement (order_preserving_bits v))
      ≡ (if is_zero v then 0 else v)
unfolding order_preserving_bits
unordered v h = ground arith

-- The value that a key stands for: the negative zero is stored as the positive one.
abbrev pub canonical : Value → Value
canonical (double v) = double (if is_zero v then 0 else v)
canonical v = v

-- Decoding the key of a value by its type, null by any, takes the whole key and returns the
-- value, a negative zero as the positive one.
pub decode_memcomparable-encode_memcomparable :
    (v : Value) (t : DataType) (k : List ℕ)
    → IsWellFormed v
    → HasType v t
    → encode_memcomparable v [] ≡ ok k
    → decode_memcomparable k t ≡ ok (canonical v, length k)
unfolding decode_memcomparable encode_memcomparable
decode_memcomparable-encode_memcomparable null t k w h e = ground arith
decode_memcomparable-encode_memcomparable (boolean v) DataType.boolean k w h e = ground arith
decode_memcomparable-encode_memcomparable (integer v) DataType.integer k w h e = ground (
  arith,
  read_signed (2 ^ 31) v w,
  read_be_u32-to_be_bytes (flip_sign (2 ^ 31) (to_word (2 ^ 31) v)) (flipped_lt (2 ^ 31) v w),
  length-to_be_bytes 4 (flip_sign (2 ^ 31) (to_word (2 ^ 31) v)),
)
decode_memcomparable-encode_memcomparable (big_int v) DataType.big_int k w h e = ground (
  arith,
  read_signed (2 ^ 63) v w,
  read_be_u64-to_be_bytes (flip_sign (2 ^ 63) (to_word (2 ^ 63) v)) (flipped_lt (2 ^ 63) v w),
  length-to_be_bytes 8 (flip_sign (2 ^ 63) (to_word (2 ^ 63) v)),
)
decode_memcomparable-encode_memcomparable (double v) DataType.double k w h e = ground (
  arith,
  order_preserving_bits_lt v w,
  unordered v w,
  read_be_u64-to_be_bytes (order_preserving_bits v),
  length-to_be_bytes 8 (order_preserving_bits v),
)
decode_memcomparable-encode_memcomparable (varchar s) (DataType.varchar n) k w h e =
    ground (arith, w.2)
decode_memcomparable-encode_memcomparable v t k w h e = absurd h

abbrev pub has_nan : Value → Bool
has_nan (double v) = is_nan v
has_nan _ = false

-- A value has no key exactly if it is a NaN; any other key is put behind what `buf` holds.
pub encode_memcomparable_total :
    (v : Value) (buf : List ℕ)
    → ((k : List ℕ) × (encode_memcomparable v buf ≡ ok (buf ++ k)) × (has_nan v ≡ false))
      ⊎ ((encode_memcomparable v buf ≡ err unorderable_value) × (has_nan v ≡ true))
unfolding encode_memcomparable
encode_memcomparable_total null buf = inl (0 ∷ [], refl, refl)
encode_memcomparable_total (boolean v) buf =
    inl (1 ∷ (if v then 1 else 0) ∷ [], ap ok (append_assoc buf (1 ∷ []) _), refl)
encode_memcomparable_total (integer v) buf = inl (
  1 ∷ to_be_bytes 4 (flip_sign (2 ^ 31) (to_word (2 ^ 31) v)),
  ap ok (append_assoc buf (1 ∷ []) _),
  refl,
)
encode_memcomparable_total (big_int v) buf = inl (
  1 ∷ to_be_bytes 8 (flip_sign (2 ^ 63) (to_word (2 ^ 63) v)),
  ap ok (append_assoc buf (1 ∷ []) _),
  refl,
)
encode_memcomparable_total (double v) buf = elim (Bool-cases (is_nan v)) [
  | inl e ↦ inr (rw e, e)
  | inr e ↦
      inl
        (1 ∷ to_be_bytes 8 (order_preserving_bits v), rw e (ap ok (append_assoc buf (1 ∷ []) _)), e)
]
encode_memcomparable_total (varchar s) buf = inl (1 ∷ s, ap ok (append_assoc buf (1 ∷ []) s), refl)
