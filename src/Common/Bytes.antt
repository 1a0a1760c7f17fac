-- ===== src/Common/Bytes.antt =====
-- Words as byte strings, least and most significant byte first.
use Prim.Native.Nat.{ℕ, zero, suc, ◌+◌, ◌*◌, ◌/◌, ◌%◌, ◌^◌, ◌<◌, compare}
use mathlib.Core.Path.{◌≡◌, refl, ap}
use mathlib.Core.List.{List, [], ◌∷◌}
use native.Mathlib.Omega.{arith}
use native.Mathlib.Nat.{pow-suc, mod-lt, div-add-mod, div-add-mod'}
use simple_rdbms.Common.Lists.{length}
use simple_rdbms.Common.Lex.{lex}

-- `x.to_le_bytes()` for a word of `k` bytes.
unfoldable pub to_le_bytes : ℕ → ℕ → List ℕ
to_le_bytes zero x = []
to_le_bytes (suc k) x = x % 256 ∷ to_le_bytes k (x / 256)

-- `from_le_bytes(bytes)`
unfoldable pub from_le_bytes : List ℕ → ℕ
from_le_bytes [] = 0
from_le_bytes (b ∷ bs) = b + 256 * from_le_bytes bs

-- `x.to_be_bytes()` for a word of `k` bytes, x < 256 ^ k.
unfoldable pub to_be_bytes : ℕ → ℕ → List ℕ
to_be_bytes zero x = []
to_be_bytes (suc k) x = x / 256 ^ k ∷ to_be_bytes k (x % 256 ^ k)

-- `from_be_bytes(bytes)`
unfoldable pub from_be_bytes : List ℕ → ℕ
from_be_bytes [] = 0
from_be_bytes (b ∷ bs) = b * 256 ^ length bs + from_be_bytes bs

pub length-to_le_bytes : (k x : ℕ) → length (to_le_bytes k x) ≡ k
unfolding to_le_bytes
length-to_le_bytes zero x = refl
length-to_le_bytes (suc k) x = ap suc (length-to_le_bytes k (x / 256))

pub length-to_be_bytes : (k x : ℕ) → length (to_be_bytes k x) ≡ k
unfolding to_be_bytes
length-to_be_bytes zero x = refl
length-to_be_bytes (suc k) x = ap suc (length-to_be_bytes k (x % 256 ^ k))

pow_pos : (k : ℕ) → 0 < 256 ^ k
pow_pos zero = omega arith
pow_pos (suc k) = omega (arith, pow-suc 256 k, pow_pos k)

pub from_le_bytes-to_le_bytes : (k x : ℕ) → x < 256 ^ k → from_le_bytes (to_le_bytes k x) ≡ x
unfolding to_le_bytes from_le_bytes
from_le_bytes-to_le_bytes zero x h = omega arith
from_le_bytes-to_le_bytes (suc k) x h =
    omega (arith, from_le_bytes-to_le_bytes k (x / 256) (omega (arith, pow-suc 256 k)))

pub from_be_bytes-to_be_bytes : (k x : ℕ) → x < 256 ^ k → from_be_bytes (to_be_bytes k x) ≡ x
unfolding to_be_bytes from_be_bytes
from_be_bytes-to_be_bytes zero x h = omega arith
from_be_bytes-to_be_bytes (suc k) x h =
    rw (length-to_be_bytes, from_be_bytes-to_be_bytes k (x % 256 ^ k) (mod-lt x (pow_pos k)))
      (div-add-mod' x (256 ^ k))

-- A smaller top digit makes a smaller number.
digit_order : (q x y : ℕ) → 0 < q → x / q < y / q → x < y
digit_order q x y hq h = grind arith

-- The big-endian bytes of two words compare as the words do.
pub lex-to_be_bytes :
    (k x y : ℕ) → x < 256 ^ k → y < 256 ^ k → lex (to_be_bytes k x) (to_be_bytes k y) ≡ compare x y
unfolding to_be_bytes lex
lex-to_be_bytes zero x y hx hy = ground arith
lex-to_be_bytes (suc k) x y hx hy = ground (
  arith,
  lex-to_be_bytes k (x % 256 ^ k) (y % 256 ^ k) (mod-lt x (pow_pos k)) (mod-lt y (pow_pos k)),
  digit_order (256 ^ k) x y,
  digit_order (256 ^ k) y x,
  div-add-mod x (256 ^ k),
  div-add-mod y (256 ^ k),
)
