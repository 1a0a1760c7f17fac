-- ===== src/Planner/ScanBounds/Candidates.antt =====
-- The bounds that one comparison of optimizer.rs gives a scan, and the keys within them.
use simple_rdbms.Common.{ℕ, ◌≡◌, refl, true, false, Ordering, Option}
use simple_rdbms.Common.{none, some, [], Result, ok, err, arith}
use simple_rdbms.Common.{inl, inr, Bool-cases, ◌==◌, ==_iff}
use simple_rdbms.Common.Lex.{lex}
use simple_rdbms.Types.Value.{DataType, Value, null, boolean, integer, big_int, double, varchar}
use simple_rdbms.Types.Value.{compare, ValueError}
use simple_rdbms.Types.Float.{partial_cmp, is_nan}
use simple_rdbms.Types.Memcomparable.{encode_memcomparable}
use simple_rdbms.Types.Memcomparable.RoundTrip.{has_nan, encode_memcomparable_total}
use simple_rdbms.Planner.BoundExpr.{BoundExpr, literal, column_ref, binary_op}
use simple_rdbms.Sql.Ast.{BinaryOperator}
use simple_rdbms.Planner.ScanBounds.{bounds_a_scan, column_and_literal, Key}
use simple_rdbms.Planner.ScanBounds.{is_ge, is_le, candidates, raise_start, lower_end}
use simple_rdbms.Planner.ScanBounds.{tighten}
use simple_rdbms.Planner.ScanBounds.Order.{lex-flip, lex-successor_le, lex-successor_gt}
use simple_rdbms.Executor.Expression.{matches_comparison}

-- The key is not below the start, if there is one, and it is below the end, if there is one.
abbrev pub IsAbove : Option Key → Key → Type 0
IsAbove none k = Unit
IsAbove (some start) k = is_le (lex start k) ≡ true

abbrev pub IsBelow : Option Key → Key → Type 0
IsBelow none k = Unit
IsBelow (some end) k = lex k end ≡ Ordering.lt

pub raise_start-IsAbove :
    (start candidate : Option Key) (k : Key)
    → IsAbove start k
    → IsAbove candidate k
    → IsAbove (raise_start start candidate) k
unfolding raise_start
raise_start-IsAbove none none k h c = h
raise_start-IsAbove (some s) none k h c = h
raise_start-IsAbove none (some x) k h c = c
raise_start-IsAbove (some s) (some x) k h c = elim (Bool-cases (is_ge (lex s x))) [
  | inl e ↦ rw e h
  | inr e ↦ rw e c
]

pub lower_end-IsBelow :
    (end candidate : Option Key) (k : Key)
    → IsBelow end k
    → IsBelow candidate k
    → IsBelow (lower_end end candidate) k
unfolding lower_end
lower_end-IsBelow none none k h c = h
lower_end-IsBelow (some s) none k h c = h
lower_end-IsBelow none (some x) k h c = c
lower_end-IsBelow (some s) (some x) k h c = elim (Bool-cases (is_le (lex s x))) [
  | inl e ↦ rw e h
  | inr e ↦ rw e c
]

-- A key that compares with the literal's as the operator says lies within its candidates.
pub candidates-hold :
    (op : BinaryOperator) (k e : Key)
    → matches_comparison op (lex k e) ≡ true
    → IsAbove (candidates op e).0 k × IsBelow (candidates op e).1 k
unfolding candidates matches_comparison
candidates-hold BinaryOperator.eq k e h =
    (ground (arith, h, lex-flip e k), lex-successor_le k e (ground (arith, h)))
candidates-hold BinaryOperator.lt k e h = (tt, ground (arith, h))
candidates-hold BinaryOperator.lt_eq k e h = (tt, lex-successor_le k e (ground (arith, h)))
candidates-hold BinaryOperator.gt k e h = (lex-successor_gt k e (ground (arith, h)), tt)
candidates-hold BinaryOperator.gt_eq k e h = (ground (arith, h, lex-flip e k), tt)
candidates-hold op k e h = (tt, tt)

nan_incomparable : (v w : Value) (o : Ordering) → has_nan v ≡ true → compare v w ≡ ok (some o) → ⊥
unfolding compare
nan_incomparable (double x) null o n h = absurd (ground (arith, h))
nan_incomparable (double x) (boolean b) o n h = absurd (ground (arith, h))
nan_incomparable (double x) (integer y) o n h = absurd (ground (arith, h))
nan_incomparable (double x) (big_int y) o n h = absurd (ground (arith, h))
nan_incomparable (double x) (double y) o n h = partial_none x y o n h
  where
    partial_none :
        (x y : ℕ) (o : Ordering)
        → is_nan x ≡ true
        → ◌≡◌ {A = Result ValueError (Option Ordering)} (ok (partial_cmp x y)) (ok (some o))
        → ⊥
    partial_none x y o n h = unfold partial_cmp in ground (arith, n, h)
nan_incomparable (double x) (varchar s) o n h = absurd (ground (arith, h))
nan_incomparable v w o n h = absurd (ground (arith, n))

-- A value that compares with another has a key.
pub key_of_compared :
    (v w : Value) (o : Ordering)
    → compare v w ≡ ok (some o)
    → (k : Key) × (encode_memcomparable v [] ≡ ok k)
key_of_compared v w o h = elim (encode_memcomparable_total v []) [
  | inl (k, e, n) ↦ (k, e)
  | inr (e, n) ↦ absurd (nan_incomparable v w o n h)
]

-- What `column_and_literal` takes apart.
pub column_and_literal_lem :
    (e : BoundExpr) (c : ℕ) (op : BinaryOperator) (w : Value)
    → column_and_literal e ≡ some (c, op, w)
    → (t : DataType) × (u : DataType) × (e ≡ binary_op (column_ref c t) op (literal w) u)
      × (bounds_a_scan op ≡ true)
unfolding column_and_literal
column_and_literal_lem (binary_op (column_ref i t) p (literal x) u) c op w h =
    (t, u, ground (arith, h), ground (arith, h))
column_and_literal_lem e c op w h = absurd (ground (arith, h))

-- The cases of `tighten`.
pub tighten-other :
    (target c : ℕ) (op : BinaryOperator) (w : Value) (bounds : Option Key × Option Key)
    → (c == target) ≡ false
    → tighten target (some (c, op, w)) bounds ≡ bounds
unfolding tighten
tighten-other target c op w (start, end) n = rw n refl

pub tighten-unorderable :
    (target : ℕ) (op : BinaryOperator) (w : Value) (bounds : Option Key × Option Key)
    (x : ValueError)
    → encode_memcomparable w [] ≡ err x
    → tighten target (some (target, op, w)) bounds ≡ bounds
unfolding tighten
tighten-unorderable target op w (start, end) x h = rw ((==_iff target target).1 refl, h) refl

pub tighten-literal :
    (target : ℕ) (op : BinaryOperator) (w : Value) (start end : Option Key) (kw : Key)
    → encode_memcomparable w [] ≡ ok kw
    → tighten target (some (target, op, w)) (start, end)
      ≡ (raise_start start (candidates op kw).0, lower_end end (candidates op kw).1)
unfolding tighten
tighten-literal target op w start end kw h = rw ((==_iff target target).1 refl, h) refl
