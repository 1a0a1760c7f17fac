-- ===== src/Common/Member.antt =====
-- Membership of lists of numbers under the list operations.
use simple_rdbms.Common.{ℕ, ◌≡◌, refl, ◌∙◌, ◌||◌, List, [], ◌∷◌}
use simple_rdbms.Common.{◌++◌, arith}
use simple_rdbms.Common.Map.{contains, nat_eq}
use mathlib.Core.List.{reverse, reverse-cons}

pub contains-append :
    (x : ℕ) (xs ys : List ℕ) → contains x (xs ++ ys) ≡ (contains x xs || contains x ys)
contains-append x [] ys = refl
contains-append x (y ∷ xs) ys = ground (arith, contains-append x xs ys)

pub contains-reverse : (x : ℕ) (xs : List ℕ) → contains x (reverse xs) ≡ contains x xs
contains-reverse x [] = refl
contains-reverse x (y ∷ xs) =
    rw (reverse-cons)
      (contains-append x (reverse xs) (y ∷ []) ∙ ground (arith, contains-reverse x xs))
