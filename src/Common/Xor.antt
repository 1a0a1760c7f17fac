-- ===== src/Common/Xor.antt =====
-- `a ^ b` of two words of `w` bits, digit by digit, and its laws.
use Prim.Native.Nat.{ℕ, zero, suc, ◌+◌, ◌*◌, ◌/◌, ◌%◌, ◌^◌, ◌<◌, ◌≤◌}
use mathlib.Core.Path.{◌≡◌, refl, sym, ap, ◌∙◌}
use native.Mathlib.Omega.{arith}
use native.Mathlib.Nat.{pow-suc, div-add-mod, div-div-eq-div-mul}

unfoldable pub xor : ℕ → ℕ → ℕ → ℕ
xor zero a b = 0
xor (suc w) a b = (a % 2 + b % 2) % 2 + 2 * xor w (a / 2) (b / 2)

pub xor_comm : (w a b : ℕ) → xor w a b ≡ xor w b a
unfolding xor
xor_comm zero a b = refl
xor_comm (suc w) a b = omega (arith, xor_comm w (a / 2) (b / 2))

pub xor_assoc : (w a b c : ℕ) → xor w (xor w a b) c ≡ xor w a (xor w b c)
unfolding xor
xor_assoc zero a b c = refl
xor_assoc (suc w) a b c = grind (arith, xor_assoc w (a / 2) (b / 2) (c / 2))

pub xor_self : (w a : ℕ) → xor w a a ≡ 0
unfolding xor
xor_self zero a = refl
xor_self (suc w) a = omega (arith, xor_self w (a / 2))

pub xor_lt : (w a b : ℕ) → xor w a b < 2 ^ w
unfolding xor
xor_lt zero a b = omega arith
xor_lt (suc w) a b = omega (arith, pow-suc 2 w, xor_lt w (a / 2) (b / 2))

pub xor_zero : (w a : ℕ) → a < 2 ^ w → xor w a 0 ≡ a
unfolding xor
xor_zero zero a h = omega arith
xor_zero (suc w) a h = omega (arith, pow-suc 2 w, xor_zero w (a / 2) (omega (arith, pow-suc 2 w)))

pub half-xor : (w a b : ℕ) → xor (suc w) a b / 2 ≡ xor w (a / 2) (b / 2)
unfolding xor
half-xor w a b = omega arith

pub parity-xor : (w a b : ℕ) → xor (suc w) a b % 2 ≡ (a % 2 + b % 2) % 2
unfolding xor
parity-xor w a b = omega arith

pub xor_widen : (w a b : ℕ) → a < 2 ^ w → b < 2 ^ w → xor (suc w) a b ≡ xor w a b
unfolding xor
xor_widen zero a b h k = omega arith
xor_widen (suc w) a b h k = omega (
  arith,
  pow-suc 2 w,
  xor_widen w (a / 2) (b / 2) (omega (arith, pow-suc 2 w)) (omega (arith, pow-suc 2 w)),
)

-- One bit apart, a word is its lowest bit and twice the rest.
pub mod_twice : (x q : ℕ) → 0 < q → x % (2 * q) ≡ x % 2 + 2 * (x / 2 % q)
mod_twice x q h =
    grind (arith, div-add-mod x (2 * q), div-add-mod (x / 2) q, div-div-eq-div-mul x 2 q)

-- Below the digits of `b`, `a` stays.
pub high-xor : (k w a b : ℕ) → k ≤ w → a < 2 ^ w → b < 2 ^ k → xor w a b / 2 ^ k ≡ a / 2 ^ k
high-xor zero w a b g h p = ap (λ z. z / 1) (ap (xor w a) (omega (arith, p)) ∙ xor_zero w a h)
high-xor (suc k) zero a b g h p = absurd (omega (arith, g))
high-xor (suc k) (suc w) a b g h p =
    let q : 2 ^ suc k ≡ 2 * 2 ^ k = omega (arith, pow-suc 2 k) in
    ap (λ z. xor (suc w) a b / z) q
    ∙ sym (div-div-eq-div-mul (xor (suc w) a b) 2 (2 ^ k))
    ∙ ap (λ z. z / 2 ^ k) (half-xor w a b)
    ∙ high-xor k w (a / 2) (b / 2) (omega (arith, g)) (omega (arith, h, pow-suc 2 w))
        (omega (arith, p, q))
    ∙ div-div-eq-div-mul a 2 (2 ^ k)
    ∙ ap (λ z. a / z) (sym q)
