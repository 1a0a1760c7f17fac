-- ===== src/Planner/ScanBounds/Order.antt =====
-- The order of byte strings around a key and its successor.
use simple_rdbms.Common.{zero, suc, ◌≡◌, refl, [], ◌∷◌, arith, Ordering}
use simple_rdbms.Common.{true}
use simple_rdbms.Common.Lex.{lex}
use simple_rdbms.Planner.ScanBounds.{Key, successor, is_le}

abbrev pub flip : Ordering → Ordering
flip Ordering.lt = Ordering.gt
flip Ordering.eq = Ordering.eq
flip Ordering.gt = Ordering.lt

pub lex-flip : (a b : Key) → lex a b ≡ flip (lex b a)
unfolding lex
lex-flip [] [] = refl
lex-flip [] (y ∷ ys) = refl
lex-flip (x ∷ xs) [] = refl
lex-flip (x ∷ xs) (y ∷ ys) = ground (arith, lex-flip xs ys)

-- The successor of a key is the least string above it.
pub lex-successor_le : (k e : Key) → is_le (lex k e) ≡ true → lex k (successor e) ≡ Ordering.lt
unfolding lex successor
lex-successor_le [] [] h = refl
lex-successor_le [] (y ∷ ys) h = refl
lex-successor_le (x ∷ xs) [] h = cc
lex-successor_le (x ∷ xs) (y ∷ ys) h = ground (arith, lex-successor_le xs ys)

pub lex-successor_gt : (k e : Key) → lex k e ≡ Ordering.gt → is_le (lex (successor e) k) ≡ true
unfolding lex successor
lex-successor_gt [] [] h = cc
lex-successor_gt [] (y ∷ ys) h = cc
lex-successor_gt (zero ∷ []) [] h = refl
lex-successor_gt (zero ∷ y ∷ ys) [] h = refl
lex-successor_gt (suc x ∷ xs) [] h = ground arith
lex-successor_gt (x ∷ xs) (y ∷ ys) h = ground (arith, lex-successor_gt xs ys)
