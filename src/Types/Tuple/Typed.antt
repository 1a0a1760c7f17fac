-- ===== src/Types/Tuple/Typed.antt =====
-- A row that `decode` of tuple.rs answers has values of the types of its columns.
use simple_rdbms.Common.{ℕ, suc, ◌+◌, ◌/◌, ◌%◌, ◌≡◌, none, some, List}
use simple_rdbms.Common.{
  [], ◌∷◌, length, get_or, Result, ok, err, ◌>>=◌, split_ok, Bool-cases, inl, inr,
}
use simple_rdbms.Common.{arith, subst, not, ◌==◌, ◌^◌, Option-cases}
use simple_rdbms.Common.Bytes.{from_le_bytes}
use simple_rdbms.Common.Int.{of_word}
use simple_rdbms.Types.Utf8.{from_utf8}
use simple_rdbms.Types.Value.{
  DataType, Value, null, HasType, boolean, integer, big_int, double, varchar,
}
use simple_rdbms.Types.Tuple.{
  TupleError, invalid_utf8, bitmap_len, test_bit, take_bytes, decode_value, decode_columns,
}
use simple_rdbms.Types.Tuple.{decode}
use simple_rdbms.Types.Tuple.RoundTrip.{HaveTypes}

moved :
    (t : DataType) (w v : Value) (i after : ℕ)
    → HasType w t
    → ◌≡◌ {A = Result TupleError (Value × ℕ)} (ok (w, i)) (ok (v, after))
    → HasType v t
moved t w v i after h q = let same : w ≡ v = cc q in subst (λ w. HasType w t) same h

decode_value-HasType :
    (buf : List ℕ) (t : DataType) (offset after : ℕ) (v : Value)
    → decode_value buf t offset ≡ ok (v, after)
    → HasType v t
unfolding decode_value
decode_value-HasType buf DataType.boolean offset after v h =
    let (b, e, k) =
      split_ok (take_bytes buf offset 1) (λ b. ok (boolean (not (get_or b 0 0 == 0)), offset + 1))
        h in
    moved DataType.boolean (boolean (not (get_or b 0 0 == 0))) v (offset + 1) after tt k
decode_value-HasType buf DataType.integer offset after v h =
    let (b, e, k) =
      split_ok (take_bytes buf offset 4)
        (λ b. ok (integer (of_word (2 ^ 31) (from_le_bytes b)), offset + 4)) h in
    moved DataType.integer (integer (of_word (2 ^ 31) (from_le_bytes b))) v (offset + 4) after tt k
decode_value-HasType buf DataType.big_int offset after v h =
    let (b, e, k) =
      split_ok (take_bytes buf offset 8)
        (λ b. ok (big_int (of_word (2 ^ 63) (from_le_bytes b)), offset + 8)) h in
    moved DataType.big_int (big_int (of_word (2 ^ 63) (from_le_bytes b))) v (offset + 8) after tt k
decode_value-HasType buf DataType.double offset after v h =
    let (b, e, k) =
      split_ok (take_bytes buf offset 8) (λ b. ok (double (from_le_bytes b), offset + 8)) h in
    moved DataType.double (double (from_le_bytes b)) v (offset + 8) after tt k
decode_value-HasType buf (DataType.varchar n) offset after v h =
    let (b, e, k) = split_ok (take_bytes buf offset 4) (λ b. text_behind b) h in
    let len = from_le_bytes b in
    let (s, f, m) = split_ok (take_bytes buf (offset + 4) len) (λ s. text_of len s) k in
    elim (Option-cases (from_utf8 s)) [
      | inl z ↦ absurd (ground (arith, m, z))
      | inr (text, z) ↦
          moved (DataType.varchar n) (varchar text) v (offset + 4 + len) after tt
            (ground (arith, m, z))
    ]
  where
    text_of : ℕ → List ℕ → Result TupleError (Value × ℕ)
    text_of len s = elim (from_utf8 s) [
      | some s ↦ ok (varchar s, offset + 4 + len)
      | none ↦ err invalid_utf8
    ]

    text_behind : List ℕ → Result TupleError (Value × ℕ)
    text_behind b =
        let len = from_le_bytes b in take_bytes buf (offset + 4) len >>= λ s. text_of len s

decode_columns-HaveTypes :
    (buf bitmap : List ℕ) (i : ℕ) (ts : List DataType) (offset : ℕ) (vs : List Value)
    → decode_columns buf bitmap i ts offset ≡ ok vs
    → HaveTypes vs ts
unfolding decode_columns
decode_columns-HaveTypes buf bitmap i [] offset vs h =
    let same : [] ≡ vs = cc h in subst (λ vs. HaveTypes vs []) same tt
decode_columns-HaveTypes buf bitmap i (t ∷ ts) offset vs h =
    elim (Bool-cases (test_bit (get_or bitmap (i / 8) 0) (i % 8))) [
      | inl b ↦
          let (rest, e, k) =
            split_ok (decode_columns buf bitmap (suc i) ts offset) (λ values. ok (null ∷ values))
              (rw (b, decode_columns) at h) in
          let same : null ∷ rest ≡ vs = cc k in
          subst (λ vs. HaveTypes vs (t ∷ ts)) same
            (tt, decode_columns-HaveTypes buf bitmap (suc i) ts offset rest e)
      | inr b ↦
          let (p, e, k) =
            split_ok (decode_value buf t offset) (λ p. after_value p)
              (rw (b, decode_columns) at h) in
          let (rest, f, m) =
            split_ok (decode_columns buf bitmap (suc i) ts p.1) (λ values. ok (p.0 ∷ values)) k in
          let same : p.0 ∷ rest ≡ vs = cc m in
          subst (λ vs. HaveTypes vs (t ∷ ts)) same
            (
              decode_value-HasType buf t offset p.1 p.0 e,
              decode_columns-HaveTypes buf bitmap (suc i) ts p.1 rest f,
            )
    ]
  where
    after_value : Value × ℕ → Result TupleError (List Value)
    after_value p = decode_columns buf bitmap (suc i) ts p.1 >>= λ values. ok (p.0 ∷ values)

pub decode-HaveTypes :
    (buf : List ℕ) (ts : List DataType) (vs : List Value) → decode buf ts ≡ ok vs → HaveTypes vs ts
unfolding decode
decode-HaveTypes buf ts vs h =
    let n = bitmap_len (length ts) in
    let (bitmap, e, k) = split_ok (take_bytes buf 0 n) (λ b. decode_columns buf b 0 ts n) h in
    decode_columns-HaveTypes buf bitmap 0 ts n vs k
