-- ===== src/Planner/Binder/Values.antt =====
-- The values that the operators of expression.rs give on values of the types that binder.rs asks for.
use simple_rdbms.Common.{
  ℕ, zero, suc, ◌≡◌, refl, sym, subst, Bool, true, false, Option, none, some, List,
}
use simple_rdbms.Common.{[], ◌∷◌, map, get_elem?, ok, arith, inl, inr}
use simple_rdbms.Common.{Option-cases, Ordering}
use simple_rdbms.Catalog.Schema.{Column, Schema}
use simple_rdbms.Sql.Ast.{BinaryOperator, UnaryOperator}
use simple_rdbms.Types.Value.{DataType, Value, null, boolean, integer, big_int, double, varchar}
use simple_rdbms.Types.Value.{data_type, HasType, compare}
use simple_rdbms.Types.Tuple.RoundTrip.{HaveTypes}
use simple_rdbms.Planner.BoundExpr.{column_ref}
use simple_rdbms.Planner.Binder.{Typed, not_boolean, comparable}
use simple_rdbms.Planner.Binder.{data_types_match}
use simple_rdbms.Planner.Binder.{is_numeric}
use simple_rdbms.Executor.Expression.{evaluate, apply_unary, as_bool}
use simple_rdbms.Executor.Expression.{and_of, or_of, compare_values}
use simple_rdbms.Executor.Expression.{matches_comparison, flip_bool}

-- The values of a type; only null has none.
abbrev pub IsOfType : Option DataType → Value → Type 0
IsOfType none v = v ≡ null
IsOfType (some t) v = HasType v t

abbrev pub types_of : Schema → List DataType
types_of schema = map (λ c. c.data_type) schema

abbrev pub Yields : List Value → Typed → Type 0
Yields tuple p = (v : Value) × (evaluate p.0 tuple ≡ ok v) × IsOfType p.1 v

pub IsOfType-data_type : (v : Value) → IsOfType (data_type v) v
unfolding data_type
IsOfType-data_type null = refl
IsOfType-data_type (boolean b) = tt
IsOfType-data_type (integer n) = tt
IsOfType-data_type (big_int n) = tt
IsOfType-data_type (double n) = tt
IsOfType-data_type (varchar s) = tt

pub column_value :
    (schema : Schema) (tuple : List Value) (i : ℕ) (c : Column)
    → HaveTypes tuple (types_of schema)
    → get_elem? schema i ≡ some c
    → (v : Value) × (get_elem? tuple i ≡ some v) × HasType v c.data_type
column_value [] tuple i c h e = cc
column_value (d ∷ schema) [] i c h e = absurd h
column_value (d ∷ schema) (v ∷ tuple) zero c h e =
    (v, refl, subst_column d c v (ground (arith, e)) h.0)
  where
    subst_column :
        (d c : Column) (v : Value) → d ≡ c → HasType v d.data_type → HasType v c.data_type
    subst_column d c v q k = rw (← q) k
column_value (d ∷ schema) (v ∷ tuple) (suc i) c h e = column_value schema tuple i c h.1 e

pub as_bool-typed :
    (t : Option DataType) (v : Value)
    → IsOfType t v
    → not_boolean t ≡ none
    → (b : Option Bool) × (as_bool v ≡ ok b)
unfolding as_bool
as_bool-typed t null h n = (none, refl)
as_bool-typed t (boolean b) h n = (some b, refl)
as_bool-typed none v h n = absurd (ground (arith, h))
as_bool-typed (some DataType.boolean) v h n = absurd h
as_bool-typed (some t) v h n = absurd (ground (arith, n))

pub and_of-boolean : (l r : Option Bool) → HasType (and_of l r) DataType.boolean
unfolding and_of
and_of-boolean none none = tt
and_of-boolean none (some true) = tt
and_of-boolean none (some false) = tt
and_of-boolean (some true) none = tt
and_of-boolean (some true) (some true) = tt
and_of-boolean (some true) (some false) = tt
and_of-boolean (some false) none = tt
and_of-boolean (some false) (some true) = tt
and_of-boolean (some false) (some false) = tt

pub or_of-boolean : (l r : Option Bool) → HasType (or_of l r) DataType.boolean
unfolding or_of
or_of-boolean none none = tt
or_of-boolean none (some true) = tt
or_of-boolean none (some false) = tt
or_of-boolean (some true) none = tt
or_of-boolean (some true) (some true) = tt
or_of-boolean (some true) (some false) = tt
or_of-boolean (some false) none = tt
or_of-boolean (some false) (some true) = tt
or_of-boolean (some false) (some false) = tt

compare-matching :
    (t u : DataType) (v w : Value)
    → HasType v t
    → HasType w u
    → data_types_match t u ≡ true
    → (o : Option Ordering) × (compare v w ≡ ok o)
unfolding compare
compare-matching DataType.boolean DataType.boolean null w h k m = (none, refl)
compare-matching DataType.boolean DataType.boolean (boolean x) null h k m = (none, refl)
compare-matching DataType.boolean DataType.boolean (boolean x) (boolean y) h k m = (_, refl)
compare-matching DataType.boolean DataType.boolean (boolean x) w h k m = absurd k
compare-matching DataType.boolean DataType.boolean v w h k m = absurd h
compare-matching DataType.integer DataType.integer null w h k m = (none, refl)
compare-matching DataType.integer DataType.integer (integer x) null h k m = (none, refl)
compare-matching DataType.integer DataType.integer (integer x) (integer y) h k m = (_, refl)
compare-matching DataType.integer DataType.integer (integer x) w h k m = absurd k
compare-matching DataType.integer DataType.integer v w h k m = absurd h
compare-matching DataType.big_int DataType.big_int null w h k m = (none, refl)
compare-matching DataType.big_int DataType.big_int (big_int x) null h k m = (none, refl)
compare-matching DataType.big_int DataType.big_int (big_int x) (big_int y) h k m = (_, refl)
compare-matching DataType.big_int DataType.big_int (big_int x) w h k m = absurd k
compare-matching DataType.big_int DataType.big_int v w h k m = absurd h
compare-matching DataType.double DataType.double null w h k m = (none, refl)
compare-matching DataType.double DataType.double (double x) null h k m = (none, refl)
compare-matching DataType.double DataType.double (double x) (double y) h k m = (_, refl)
compare-matching DataType.double DataType.double (double x) w h k m = absurd k
compare-matching DataType.double DataType.double v w h k m = absurd h
compare-matching (DataType.varchar i) (DataType.varchar j) null w h k m = (none, refl)
compare-matching (DataType.varchar i) (DataType.varchar j) (varchar x) null h k m = (none, refl)
compare-matching (DataType.varchar i) (DataType.varchar j) (varchar x) (varchar y) h k m = (_, refl)
compare-matching (DataType.varchar i) (DataType.varchar j) (varchar x) w h k m = absurd k
compare-matching (DataType.varchar i) (DataType.varchar j) v w h k m = absurd h
compare-matching t u v w h k m = absurd (ground (arith, m))

compare-typed :
    (t u : Option DataType) (v w : Value)
    → IsOfType t v
    → IsOfType u w
    → comparable t u ≡ true
    → (o : Option Ordering) × (compare v w ≡ ok o)
unfolding compare
compare-typed t u null w h k m = (none, refl)
compare-typed t u (boolean a) null h k m = (none, refl)
compare-typed t u (integer a) null h k m = (none, refl)
compare-typed t u (big_int a) null h k m = (none, refl)
compare-typed t u (double a) null h k m = (none, refl)
compare-typed t u (varchar a) null h k m = (none, refl)
compare-typed none u v w h k m = absurd (ground (arith, h))
compare-typed t none v w h k m = absurd (ground (arith, k))
compare-typed (some t) (some u) v w h k m = compare-matching t u v w h k m

pub compare_values-typed :
    (op : BinaryOperator) (t u : Option DataType) (v w : Value)
    → IsOfType t v
    → IsOfType u w
    → comparable t u ≡ true
    → (x : Value) × (compare_values op v w ≡ ok x) × HasType x DataType.boolean
unfolding compare_values
compare_values-typed op t u v w h k m =
    let (o, e) = compare-typed t u v w h k m in
    elim (Option-cases o) [
      | inl n ↦ (null, ground (arith, e, n), tt)
      | inr (x, s) ↦ (boolean (matches_comparison op x), ground (arith, e, s), tt)
    ]

pub negate-typed :
    (t : DataType) (v : Value)
    → HasType v t
    → is_numeric t ≡ true
    → (x : Value) × (apply_unary UnaryOperator.negate v ≡ ok x) × HasType x t
unfolding apply_unary
negate-typed t null h n = (null, refl, tt)
negate-typed DataType.integer (integer a) h n = (_, refl, tt)
negate-typed DataType.big_int (big_int a) h n = (_, refl, tt)
negate-typed DataType.double (double a) h n = (_, refl, tt)
negate-typed DataType.boolean v h n = absurd (ground (arith, n))
negate-typed (DataType.varchar k) v h n = absurd (ground (arith, n))
negate-typed t v h n = absurd h

pub not-typed :
    (t : Option DataType) (v : Value)
    → IsOfType t v
    → not_boolean t ≡ none
    → (x : Value) × (apply_unary UnaryOperator.not v ≡ ok x) × HasType x DataType.boolean
unfolding apply_unary
not-typed t null h n = (null, refl, tt)
not-typed t (boolean b) h n = (boolean (flip_bool b), refl, tt)
not-typed none v h n = absurd (ground (arith, h))
not-typed (some DataType.boolean) v h n = absurd h
not-typed (some t) v h n = absurd (ground (arith, n))

pub evaluate-column :
    (tuple : List Value) (i : ℕ) (t : DataType) (v : Value)
    → get_elem? tuple i ≡ some v
    → evaluate (column_ref i t) tuple ≡ ok v
unfolding evaluate
evaluate-column tuple i t v e = ground (arith, e)

-- A type that a test of Booleans passes is that of NULL or the Boolean one.
pub Yields-boolean :
    (tuple : List Value) (p : Typed)
    → not_boolean p.1 ≡ none
    → Yields tuple p
    → Yields tuple (p.0, some DataType.boolean)
Yields-boolean tuple (e, none) n (v, q, typed) =
    (v, q, subst (λ w. HasType w DataType.boolean) (sym typed) tt)
Yields-boolean tuple (e, some DataType.boolean) n y = y
Yields-boolean tuple (e, some t) n y = absurd (ground (arith, n))
