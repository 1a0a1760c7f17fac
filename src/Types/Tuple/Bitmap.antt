-- ===== src/Types/Tuple/Bitmap.antt =====
-- The bitmap of nulls of tuple.rs: what a bit holds after the loop of `encode` has set some.
use simple_rdbms.Common.{ℕ, zero, suc, ◌*◌, ◌/◌, ◌%◌, ◌<◌, ◌≡◌, refl, arith}
use simple_rdbms.Common.{Bool, true, false, ◌&&◌, ◌||◌, List, length, set, get_or}
use simple_rdbms.Common.{replicate, ltb, ◌==◌, ==_iff, get_or-set_self}
use simple_rdbms.Common.{get_or-replicate, get_or-set_ne, length-set, Bool-cases, inl, inr, ap, ◌∙◌}
use simple_rdbms.Common.{if◌then◌else◌}
use simple_rdbms.Types.Tuple.{test_bit, set_bit}

bool_eq : Bool → Bool → Bool
bool_eq true b = b
bool_eq false true = false
bool_eq false false = true

bool_eq_sound : (a b : Bool) → bool_eq a b ≡ true → a ≡ b
unfolding bool_eq
bool_eq_sound true b h = ground arith
bool_eq_sound false true h = cc
bool_eq_sound false false h = refl

-- A test of the numbers below `n`, the highest first.
every_below : ℕ → (ℕ → Bool) → Bool
every_below zero test = true
every_below (suc n) test = if test n then every_below n test else false

every_below_sound :
    (n : ℕ) (test : ℕ → Bool) → every_below n test ≡ true → (k : ℕ) → k < n → test k ≡ true
unfolding every_below
every_below_sound zero test passed k below = absurd (omega arith)
every_below_sound (suc n) test passed k below = elim (Bool-cases (test n)) [
  | inr fails ↦ absurd (ground (arith, passed, fails))
  | inl top ↦ elim (Bool-cases (k == n)) [
    | inl same ↦ ground (arith, same, top)
    | inr apart ↦
        every_below_sound n test (ground (arith, passed, top)) k (ground (arith, below, apart))
  ]
]

-- A byte, a bit that is set in it and a bit that is read of it, all checked by evaluation.
bit_law : ℕ → ℕ → ℕ → Bool
unfolding bool_eq test_bit set_bit
bit_law b k j = bool_eq (test_bit (set_bit b k) j) (k == j || test_bit b j) && ltb (set_bit b k) 256

bit_table : every_below 256 (λ b. every_below 8 (λ k. every_below 8 (λ j. bit_law b k j))) ≡ true
unfolding every_below bit_law
bit_table = refl

bit_law-true : (b k j : ℕ) → b < 256 → k < 8 → j < 8 → bit_law b k j ≡ true
bit_law-true b k j hb hk hj =
    every_below_sound 8 _ (every_below_sound 8 _ (every_below_sound 256 _ bit_table b hb) k hk) j hj

test_bit-set_bit :
    (b k j : ℕ) → b < 256 → k < 8 → j < 8 → test_bit (set_bit b k) j ≡ (k == j || test_bit b j)
test_bit-set_bit b k j hb hk hj =
    bool_eq_sound _ _ (unfold bit_law in ground (arith, bit_law-true b k j hb hk hj))

set_bit-lt : (b k : ℕ) → b < 256 → k < 8 → set_bit b k < 256
set_bit-lt b k hb hk = unfold bit_law in ground (arith, bit_law-true b k 0 hb hk (omega arith))

test_bit-zero : (k : ℕ) → test_bit 0 k ≡ false
unfolding test_bit
test_bit-zero k = grind arith

-- The bit of column `j`, and the bitmap with the bit of column `i` set.
unfoldable pub bit_at : List ℕ → ℕ → Bool
bit_at bm j = test_bit (get_or bm (j / 8) 0) (j % 8)

unfoldable pub set_at : List ℕ → ℕ → List ℕ
set_at bm i = set bm (i / 8) (set_bit (get_or bm (i / 8) 0) (i % 8))

pub AreBytes : List ℕ → Type 0
AreBytes bm = (i : ℕ) → get_or bm i 0 < 256

pub length-set_at : (bm : List ℕ) (i : ℕ) → length (set_at bm i) ≡ length bm
unfolding set_at
length-set_at bm i = length-set bm (i / 8) _

pub set_at-AreBytes :
    (bm : List ℕ) (i : ℕ) → i < 8 * length bm → AreBytes bm → AreBytes (set_at bm i)
unfolding AreBytes set_at
set_at-AreBytes bm i h bytes j = ground (
  arith,
  ==_iff (i / 8) j,
  get_or-set_self bm (i / 8) (set_bit (get_or bm (i / 8) 0) (i % 8)) 0,
  get_or-set_ne bm (i / 8) j (set_bit (get_or bm (i / 8) 0) (i % 8)) 0,
  set_bit-lt (get_or bm (i / 8) 0) (i % 8) (bytes (i / 8)),
  bytes j,
)

pub bit_at-set_at :
    (bm : List ℕ) (i j : ℕ)
    → i < 8 * length bm
    → AreBytes bm
    → bit_at (set_at bm i) j ≡ (i == j || bit_at bm j)
unfolding AreBytes bit_at set_at
bit_at-set_at bm i j h bytes = elim (Bool-cases (i / 8 == j / 8)) [
  | inl e ↦ same (e' e)
  | inr e ↦
      rw (get_or-set_ne bm (i / 8) (j / 8) (set_bit (get_or bm (i / 8) 0) (i % 8)) 0 (ground arith))
        (ground arith)
]
  where
    e' : ((i / 8 == j / 8) ≡ true) → i / 8 ≡ j / 8
    e' = (==_iff (i / 8) (j / 8)).0

    same :
        i / 8 ≡ j / 8
        → test_bit
            (get_or (set bm (i / 8) (set_bit (get_or bm (i / 8) 0) (i % 8))) (j / 8) 0)
            (j % 8)
          ≡ (i == j || test_bit (get_or bm (j / 8) 0) (j % 8))
    same p =
        rw (← p, get_or-set_self bm (i / 8) (set_bit (get_or bm (i / 8) 0) (i % 8)) 0 (omega arith))
          (test_bit-set_bit (get_or bm (i / 8) 0) (i % 8) (j % 8) (bytes (i / 8)) (omega arith)
              (omega arith)
            ∙ ap (λ b. b || test_bit (get_or bm (i / 8) 0) (j % 8)) (ground arith))

pub zeros-AreBytes : (n : ℕ) → AreBytes (replicate n 0)
unfolding AreBytes
zeros-AreBytes n i = rw (get_or-replicate {A = ℕ} n i 0) (omega arith)

pub bit_at-zeros : (n j : ℕ) → bit_at (replicate n 0) j ≡ false
unfolding bit_at
bit_at-zeros n j = rw (get_or-replicate {A = ℕ} n (j / 8) 0) (test_bit-zero (j % 8))
