-- ===== src/Crc/Bitwise.antt =====
-- The table of crates/common/src/crc.rs computes what dividing bit by bit does.
use simple_rdbms.Common.{
  ℕ, zero, suc, ◌+◌, ◌*◌, ◌/◌, ◌%◌, ◌^◌, ◌<◌, ◌==◌, ==_iff, ◌≡◌, refl, sym, subst, ap, ◌∙◌,
}
use simple_rdbms.Common.{List, [], ◌∷◌, get_or, arith, Bool-cases, inl, inr, All}
use simple_rdbms.Common.{true, false}
use simple_rdbms.Common.Xor.{
  xor, xor_comm, xor_assoc, xor_self, xor_lt, xor_zero, half-xor, parity-xor,
}
use simple_rdbms.Common.Xor.{xor_widen, mod_twice, high-xor}
use simple_rdbms.Crc.{polynomial, crc_bit, crc_bits, table_from, table, crc_loop, crc32}
use native.Mathlib.Nat.{pow-suc, div-div-eq-div-mul, mod-le}

-- The division of the data by the polynomial, a bit at a time and without a table.
unfoldable pub divide : List ℕ → ℕ → ℕ
unfolding crc_bits xor
divide [] crc = crc
divide (byte ∷ bytes) crc = divide bytes (crc_bits 8 (xor 32 crc byte))

half_lt : (x : ℕ) → x < 2 ^ 32 → x / 2 < 2 ^ 31
half_lt x h = omega arith

crc_bit_odd : (x : ℕ) → (x % 2 == 1) ≡ true → crc_bit x ≡ xor 32 polynomial (x / 2)
unfolding crc_bit
crc_bit_odd x e = rw e refl

crc_bit_even : (x : ℕ) → (x % 2 == 1) ≡ false → crc_bit x ≡ x / 2
unfolding crc_bit
crc_bit_even x e = rw e refl

crc_bit_lt : (x : ℕ) → x < 2 ^ 32 → crc_bit x < 2 ^ 32
crc_bit_lt x h = elim (Bool-cases (x % 2 == 1)) [
  | inl e ↦ subst (λ z. z < 2 ^ 32) (sym (crc_bit_odd x e)) (xor_lt 32 polynomial (x / 2))
  | inr e ↦ subst (λ z. z < 2 ^ 32) (sym (crc_bit_even x e)) (omega arith)
]

-- The step is linear.
half_xor_32 : (a b : ℕ) → a < 2 ^ 32 → b < 2 ^ 32 → xor 32 a b / 2 ≡ xor 32 (a / 2) (b / 2)
half_xor_32 a b h k =
    half-xor 31 a b ∙ sym (xor_widen 31 (a / 2) (b / 2) (half_lt a h) (half_lt b k))

-- What differs by `p` on both sides does not differ.
xor_both : (w p a b : ℕ) → a < 2 ^ w → b < 2 ^ w → xor w (xor w p a) (xor w p b) ≡ xor w a b
xor_both w p a b h k = cc (
  xor_assoc w p p a,
  xor_self w p,
  xor_comm w 0 a,
  xor_zero w a h,
  xor_assoc w (xor w p a) p b,
  xor_comm w (xor w p a) p,
)

parity_of : (x b : ℕ) → x % 2 ≡ b → (x % 2 == 1) ≡ (b == 1)
parity_of x b h = ap (λ z. z == 1) h

odd_of : (x : ℕ) → (x % 2 == 1) ≡ true → x % 2 ≡ 1
odd_of x e = (==_iff (x % 2) 1).0 e

even_of : (x : ℕ) → (x % 2 == 1) ≡ false → x % 2 ≡ 0
even_of x e = ground arith

crc_bit-xor :
    (a b : ℕ) → a < 2 ^ 32 → b < 2 ^ 32 → crc_bit (xor 32 a b) ≡ xor 32 (crc_bit a) (crc_bit b)
crc_bit-xor a b h k =
    let parity = parity-xor 31 a b in
    let half = half_xor_32 a b h k in
    elim (Bool-cases (a % 2 == 1)) [
      | inl e ↦ elim (Bool-cases (b % 2 == 1)) [
        | inl f ↦
            crc_bit_even (xor 32 a b)
              (parity_of (xor 32 a b) 0 (odd_odd parity (odd_of a e) (odd_of b f)))
            ∙ half
            ∙ cc (
              crc_bit_odd a e,
              crc_bit_odd b f,
              xor_both 32 polynomial (a / 2) (b / 2) (omega arith) (omega arith),
            )
        | inr f ↦
            crc_bit_odd (xor 32 a b)
              (parity_of (xor 32 a b) 1 (odd_even parity (odd_of a e) (even_of b f)))
            ∙ cc (half, crc_bit_odd a e, crc_bit_even b f, xor_assoc 32 polynomial (a / 2) (b / 2))
      ]
      | inr e ↦ elim (Bool-cases (b % 2 == 1)) [
        | inl f ↦
            crc_bit_odd (xor 32 a b)
              (parity_of (xor 32 a b) 1 (even_odd parity (even_of a e) (odd_of b f)))
            ∙ cc (
              half,
              crc_bit_even a e,
              crc_bit_odd b f,
              xor_assoc 32 polynomial (a / 2) (b / 2),
              xor_assoc 32 (a / 2) polynomial (b / 2),
              xor_comm 32 (a / 2) polynomial,
            )
        | inr f ↦
            crc_bit_even (xor 32 a b)
              (parity_of (xor 32 a b) 0 (even_even parity (even_of a e) (even_of b f)))
            ∙ cc (half, crc_bit_even a e, crc_bit_even b f)
      ]
    ]
  where
    odd_odd : {x : ℕ} → x ≡ (a % 2 + b % 2) % 2 → a % 2 ≡ 1 → b % 2 ≡ 1 → x ≡ 0
    odd_odd p q r = omega arith

    odd_even : {x : ℕ} → x ≡ (a % 2 + b % 2) % 2 → a % 2 ≡ 1 → b % 2 ≡ 0 → x ≡ 1
    odd_even p q r = omega arith

    even_odd : {x : ℕ} → x ≡ (a % 2 + b % 2) % 2 → a % 2 ≡ 0 → b % 2 ≡ 1 → x ≡ 1
    even_odd p q r = omega arith

    even_even : {x : ℕ} → x ≡ (a % 2 + b % 2) % 2 → a % 2 ≡ 0 → b % 2 ≡ 0 → x ≡ 0
    even_even p q r = omega arith

crc_bits-xor :
    (n a b : ℕ)
    → a < 2 ^ 32
    → b < 2 ^ 32
    → crc_bits n (xor 32 a b) ≡ xor 32 (crc_bits n a) (crc_bits n b)
unfolding crc_bits
crc_bits-xor zero a b h k = refl
crc_bits-xor (suc n) a b h k =
    ap (crc_bits n) (crc_bit-xor a b h k)
    ∙ crc_bits-xor n (crc_bit a) (crc_bit b) (crc_bit_lt a h) (crc_bit_lt b k)

-- The step on a word is the step on its lowest bit, added to the rest.
crc_bit_split : (x y b : ℕ) → x < 2 ^ 32 → y ≡ x / 2 → b ≡ x % 2 → crc_bit x ≡ xor 32 y (crc_bit b)
crc_bit_split x y b h p q = elim (Bool-cases (x % 2 == 1)) [
  | inl e ↦
      crc_bit_odd x e
      ∙ xor_comm 32 polynomial (x / 2)
      ∙ cc (
        p,
        crc_bit_odd b (ground (arith, e, q)),
        half_of_bit b (omega (arith, q)),
        xor_zero 32 polynomial (omega arith),
      )
  | inr e ↦
      crc_bit_even x e
      ∙ cc (
        p,
        crc_bit_even b (ground (arith, e, q)),
        half_of_bit b (omega (arith, q)),
        xor_zero 32 (x / 2) (omega arith),
      )
]
  where
    half_of_bit : (b : ℕ) → b < 2 → b / 2 ≡ 0
    half_of_bit b h = omega arith

twice_mod : (x n : ℕ) → x % 2 ^ suc n ≡ x % 2 + 2 * (x / 2 % 2 ^ n)
twice_mod x n = ap (λ q. x % q) (omega (arith, pow-suc 2 n)) ∙ mod_twice x (2 ^ n) (pow_pos n)
  where
    pow_pos : (n : ℕ) → 0 < 2 ^ n
    pow_pos zero = omega arith
    pow_pos (suc n) = omega (arith, pow-suc 2 n, pow_pos n)

-- `n` rounds on a word act on its lowest `n` bits, and shift the others down.
crc_bits_split : (n x : ℕ) → x < 2 ^ 32 → crc_bits n x ≡ xor 32 (x / 2 ^ n) (crc_bits n (x % 2 ^ n))
unfolding crc_bits
crc_bits_split zero x h =
    sym (ap (λ z. xor 32 z (x % 1)) whole ∙ ap (xor 32 x) none_left ∙ xor_zero 32 x h)
  where
    whole : x / 1 ≡ x
    whole = omega arith

    none_left : x % 1 ≡ 0
    none_left = omega arith
crc_bits_split (suc n) x h =
    let y = x / 2 in
    let low = y % 2 ^ n in
    let twice = twice_mod x n in
    let below : x % 2 ^ suc n < 2 ^ 32 = omega (arith, h, mod-le x (2 ^ suc n)) in
    let hy : y < 2 ^ 32 = omega arith in
    let bit = crc_bit (x % 2) in
    let hbit : bit < 2 ^ 32 = crc_bit_lt (x % 2) (omega arith) in
    let hlow : low < 2 ^ 32 = omega (arith, hy, mod-le y (2 ^ n)) in
    ap (crc_bits n) (crc_bit_split x y (x % 2) h refl refl)
    ∙ crc_bits-xor n y bit hy hbit
    ∙ ap (λ z. xor 32 z (crc_bits n bit)) (crc_bits_split n y hy)
    ∙ xor_assoc 32 (y / 2 ^ n) (crc_bits n low) (crc_bits n bit)
    ∙ ap (λ z. xor 32 (y / 2 ^ n) z)
        (sym (
          ap (crc_bits n) (
            crc_bit_split (x % 2 ^ suc n) low (x % 2) below (omega (arith, twice))
              (omega (arith, twice)))
          ∙ crc_bits-xor n low bit hlow hbit))
    ∙ ap (λ z. xor 32 z (crc_bits n (crc_bit (x % 2 ^ suc n))))
        (div-div-eq-div-mul x 2 (2 ^ n) ∙ ap (λ z. x / z) (omega (arith, pow-suc 2 n)))

get_or-table_from : (n byte i : ℕ) → i < n → get_or (table_from n byte) i 0 ≡ crc_bits 8 (byte + i)
unfolding table_from
get_or-table_from zero byte i h = absurd (omega arith)
get_or-table_from (suc n) byte zero h = ap (crc_bits 8) (omega arith)
get_or-table_from (suc n) byte (suc i) h =
    get_or-table_from n (suc byte) i (omega arith) ∙ ap (crc_bits 8) (omega arith)

get_or-table : (i : ℕ) → i < 256 → get_or table i 0 ≡ crc_bits 8 i
unfolding table
get_or-table i h = get_or-table_from 256 0 i h ∙ ap (crc_bits 8) (omega arith)

-- The byte that comes in and the table's entry are the eight rounds.
round_lem :
    (crc byte : ℕ)
    → crc < 2 ^ 32
    → byte < 256
    → xor 32 (get_or table (xor 32 crc byte % 256) 0) (crc / 256) ≡ crc_bits 8 (xor 32 crc byte)
round_lem crc byte h k =
    ap (λ z. xor 32 z (crc / 256)) (get_or-table (xor 32 crc byte % 256) (omega arith))
    ∙ xor_comm 32 (crc_bits 8 (xor 32 crc byte % 256)) (crc / 256)
    ∙ ap (λ z. xor 32 z (crc_bits 8 (xor 32 crc byte % 256)))
        (sym (high-xor 8 32 crc byte (omega arith) h k))
    ∙ sym (crc_bits_split 8 (xor 32 crc byte) (xor_lt 32 crc byte))

crc_loop-divide :
    (bytes : List ℕ) (crc : ℕ)
    → All (λ b. b < 256) bytes
    → crc < 2 ^ 32
    → crc_loop bytes crc ≡ divide bytes crc
unfolding crc_loop divide
crc_loop-divide [] crc hs h = refl
crc_loop-divide (byte ∷ bytes) crc (k, hs) h =
    let step = round_lem crc byte h k in
    crc_loop-divide bytes (xor 32 (get_or table (xor 32 crc byte % 256) 0) (crc / 256)) hs
      (xor_lt 32 (get_or table (xor 32 crc byte % 256) 0) (crc / 256))
    ∙ ap (divide bytes) step

-- The checksum by the table of bytes is the remainder of the division of the bytes, a bit at a
-- time, by the polynomial, from all ones and with all bits turned over at the end.
pub crc32-divide :
    (bytes : List ℕ)
    → All (λ b. b < 256) bytes
    → crc32 bytes ≡ xor 32 (divide bytes 4294967295) 4294967295
unfolding crc32
crc32-divide bytes h =
    ap (λ z. xor 32 z 4294967295) (crc_loop-divide bytes 4294967295 h (omega arith))

pub crc32_lt : (bytes : List ℕ) → crc32 bytes < 2 ^ 32
unfolding crc32
crc32_lt bytes = xor_lt 32 (crc_loop bytes 4294967295) 4294967295
