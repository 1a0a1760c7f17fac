-- ===== src/Types/Tuple/Shape.antt =====
-- What `encode` of tuple.rs writes: the bitmap with a bit for each null, then the other values.
use simple_rdbms.Common.{ℕ, suc, ◌+◌, ◌*◌, ◌/◌, ◌%◌, ◌^◌, ◌≤◌, ◌<◌, ◌≡◌, refl, sym, ap, ◌∙◌}
use simple_rdbms.Common.{false, List, [], ◌∷◌, ◌++◌, arith}
use simple_rdbms.Common.{length, get_or, replicate}
use simple_rdbms.Common.{if◌then◌else◌, append_assoc}
use simple_rdbms.Common.{set-append, get_or-append, length-replicate}
use simple_rdbms.Common.{append-nil}
use simple_rdbms.Common.Int.{to_word}
use simple_rdbms.Common.Bytes.{to_le_bytes}
use simple_rdbms.Types.Value.{Value, null, boolean, integer, big_int, double, varchar}
use simple_rdbms.Types.Value.{is_null}
use simple_rdbms.Types.Tuple.{bitmap_len, encode_value, encode_values, encode}
use native.Mathlib.Nat.{zero-add}
use simple_rdbms.Types.Tuple.{set_bit}
use simple_rdbms.Types.Tuple.Bitmap.{bit_at, set_at, AreBytes, length-set_at, set_at-AreBytes}
use simple_rdbms.Types.Tuple.Bitmap.{bit_at-set_at, bit_at-zeros, zeros-AreBytes}

-- The bytes of a value behind the bitmap.
unfoldable pub payload : Value → List ℕ
payload null = []
payload (boolean b) = (if b then 1 else 0) ∷ []
payload (integer v) = to_le_bytes 4 (to_word (2 ^ 31) v)
payload (big_int v) = to_le_bytes 8 (to_word (2 ^ 63) v)
payload (double v) = to_le_bytes 8 v
payload (varchar s) = to_le_bytes 4 (length s % 2 ^ 32) ++ s

unfoldable pub payloads : List Value → List ℕ
payloads [] = []
payloads (v ∷ vs) = payload v ++ payloads vs

-- The bitmap after column `i` on.
mark_value : ℕ → Value → List ℕ → List ℕ
mark_value i v bm = if is_null v then set_at bm i else bm

mark : ℕ → List Value → List ℕ → List ℕ
mark i [] bm = bm
mark i (v ∷ vs) bm = mark (suc i) vs (mark_value i v bm)

encode_value-mark :
    (i : ℕ) (v : Value) (bm body : List ℕ)
    → i < 8 * length bm
    → encode_value 0 i v (bm ++ body) ≡ mark_value i v bm ++ (body ++ payload v)
unfolding encode_value mark_value payload is_null set_at
encode_value-mark i null bm body h = ground (
  arith,
  zero-add (i / 8),
  set-append bm body (i / 8) (set_bit (get_or bm (i / 8) 0) (i % 8)),
  get_or-append bm body (i / 8) 0,
  append-nil body,
)
encode_value-mark i (boolean b) bm body h = append_assoc bm body _
encode_value-mark i (integer v) bm body h = append_assoc bm body _
encode_value-mark i (big_int v) bm body h = append_assoc bm body _
encode_value-mark i (double v) bm body h = append_assoc bm body _
encode_value-mark i (varchar s) bm body h = simp append_assoc

length-mark_value : (i : ℕ) (v : Value) (bm : List ℕ) → length (mark_value i v bm) ≡ length bm
unfolding mark_value
length-mark_value i v bm = ground (arith, length-set_at bm i)

length-mark : (i : ℕ) (vs : List Value) (bm : List ℕ) → length (mark i vs bm) ≡ length bm
unfolding mark
length-mark i [] bm = refl
length-mark i (v ∷ vs) bm = length-mark (suc i) vs (mark_value i v bm) ∙ length-mark_value i v bm

encode_values-mark :
    (i : ℕ) (vs : List Value) (bm body : List ℕ)
    → i + length vs ≤ 8 * length bm
    → encode_values 0 i vs (bm ++ body) ≡ mark i vs bm ++ (body ++ payloads vs)
unfolding encode_values mark payloads
encode_values-mark i [] bm body h = ap (λ l. bm ++ l) (sym (append-nil body))
encode_values-mark i (v ∷ vs) bm body h = rw (encode_value-mark i v bm body (omega arith)) (
    encode_values-mark (suc i) vs (mark_value i v bm) (body ++ payload v)
      (omega (arith, length-mark_value i v bm))
    ∙ ap (λ l. mark (suc i) vs (mark_value i v bm) ++ l) (append_assoc body (payload v) _))

mark_value-AreBytes :
    (i : ℕ) (v : Value) (bm : List ℕ)
    → i < 8 * length bm
    → AreBytes bm
    → AreBytes (mark_value i v bm)
unfolding mark_value is_null
mark_value-AreBytes i null bm h b = set_at-AreBytes bm i h b
mark_value-AreBytes i _ bm h b = b

-- A later column does not touch the bit of an earlier one.
bit_at-mark_lt :
    (i j : ℕ) (vs : List Value) (bm : List ℕ)
    → j < i
    → i + length vs ≤ 8 * length bm
    → AreBytes bm
    → bit_at (mark i vs bm) j ≡ bit_at bm j
unfolding mark
bit_at-mark_lt i j [] bm lt h b = refl
bit_at-mark_lt i j (v ∷ vs) bm lt h b =
    bit_at-mark_lt (suc i) j vs (mark_value i v bm) (omega arith)
      (omega (arith, length-mark_value i v bm)) (mark_value-AreBytes i v bm (omega arith) b)
    ∙ (unfold mark_value in ground (arith, bit_at-set_at bm i j (omega arith) b))

-- The bitmap says of each column from `i` on whether it is null.
abbrev pub Marked : List ℕ → ℕ → List Value → Type 0
Marked bm i [] = Unit {0}
Marked bm i (v ∷ vs) = (bit_at bm i ≡ is_null v) × Marked bm (suc i) vs

mark-Marked :
    (i : ℕ) (vs : List Value) (bm : List ℕ)
    → i + length vs ≤ 8 * length bm
    → AreBytes bm
    → ((j : ℕ) → i ≤ j → bit_at bm j ≡ false)
    → Marked (mark i vs bm) i vs
unfolding mark
mark-Marked i [] bm h b clear = tt
mark-Marked i (v ∷ vs) bm h b clear = (
  bit_at-mark_lt (suc i) i vs (mark_value i v bm) (omega arith)
        (omega (arith, length-mark_value i v bm)) (mark_value-AreBytes i v bm (omega arith) b)
      ∙ (unfold mark_value in
          ground (arith, bit_at-set_at bm i i (omega arith) b, clear i (omega arith))),
  mark-Marked (suc i) vs (mark_value i v bm) (omega (arith, length-mark_value i v bm))
      (mark_value-AreBytes i v bm (omega arith) b)
      (λ j le.
        unfold mark_value in
        ground (arith, bit_at-set_at bm i j (omega arith) b, clear j (omega arith))),
)

wide :
    (values : List Value)
    → length values ≤ 8 * length (replicate {A = ℕ} (bitmap_len (length values)) 0)
wide values = rw (length-replicate {A = ℕ} (bitmap_len (length values)) 0) (omega arith)

-- The bitmap that `encode` leaves at the front of an empty buffer.
pub bitmap_of : List Value → List ℕ
bitmap_of values = mark 0 values (replicate (bitmap_len (length values)) 0)

pub length-bitmap_of :
    (values : List Value) → length (bitmap_of values) ≡ bitmap_len (length values)
unfolding bitmap_of
length-bitmap_of values =
    length-mark 0 values (replicate (bitmap_len (length values)) 0) ∙ length-replicate _ 0

pub encode_shape : (values : List Value) → encode values [] ≡ bitmap_of values ++ payloads values
unfolding encode bitmap_of
encode_shape values =
    let zeros : List ℕ = replicate (bitmap_len (length values)) 0 in
    ap (λ l. encode_values 0 0 values l) (sym (append-nil zeros))
    ∙ encode_values-mark 0 values zeros [] (omega (arith, wide values))

pub bitmap_of-Marked : (values : List Value) → Marked (bitmap_of values) 0 values
unfolding bitmap_of
bitmap_of-Marked values =
    mark-Marked 0 values (replicate (bitmap_len (length values)) 0) (omega (arith, wide values))
      (zeros-AreBytes _) (λ j h. bit_at-zeros (bitmap_len (length values)) j)
