-- ===== src/Planner/Optimizer/Keeps.antt =====
-- What the index scan rule of optimizer.rs makes of the plan of a SELECT.
use simple_rdbms.Common.{ℕ, ◌≡◌, refl, ap, ◌∙◌, Bool, true, false, ◌&&◌, Option, none, some, List}
use simple_rdbms.Common.{[], ◌∷◌, get_elem?, retain, All, ok, err, ◌⊎◌, inl, inr, arith, subst}
use simple_rdbms.Common.{Bool-cases, Option-cases, Result-cases, Ordering}
use simple_rdbms.Common.Lex.{lex}
use simple_rdbms.Ids.{TableId, IndexId}
use simple_rdbms.Catalog.State.{CatalogState}
use simple_rdbms.Types.Value.{Value, IsWellFormed, boolean}
use simple_rdbms.Types.Memcomparable.{encode_memcomparable}
use simple_rdbms.Planner.BoundExpr.{BoundExpr}
use simple_rdbms.Planner.Binder.Statements.{BoundSelect, BoundStatement}
use simple_rdbms.Planner.Plan.{LogicalPlan, plan, scan_of, filtered}
use simple_rdbms.Planner.ScanBounds.{Key, is_le, index_scan_bounds}
use simple_rdbms.Planner.ScanBounds.Candidates.{IsAbove, IsBelow}
use simple_rdbms.Planner.ScanBounds.Covers.{
  LiteralsFit, index_scan_bounds-covers_at, index_scan_bounds-target,
}
use simple_rdbms.Planner.Optimizer.{optimize, index_scan_rule, bounded_scan, index_id_for}
use simple_rdbms.Executor.Expression.{evaluate}
use simple_rdbms.Executor.Operators.{Tuple, is_true}
use simple_rdbms.Executor.Operators.Drain.{passes}

abbrev is_lt : Ordering → Bool
is_lt Ordering.lt = true
is_lt _ = false

abbrev is_above : Option Key → Key → Bool
is_above none k = true
is_above (some start) k = is_le (lex start k)

abbrev is_below : Option Key → Key → Bool
is_below none k = true
is_below (some end) k = is_lt (lex k end)

-- Whether an index on the column has the row's key between the bounds.
unfoldable pub in_bounds : ℕ → Option Key → Option Key → Tuple → Bool
unfolding encode_memcomparable lex
in_bounds column start end row = elim (get_elem? row column) [
  | none ↦ false
  | some v ↦ elim (encode_memcomparable v []) [
    | err e ↦ false
    | ok k ↦ is_above start k && is_below end k
  ]
]

passes-true :
    (predicate : BoundExpr) (row : Tuple)
    → passes predicate row ≡ true
    → evaluate predicate row ≡ ok (boolean true)
unfolding passes
passes-true predicate row h = elim (Result-cases (evaluate predicate row)) [
  | inl (e, q) ↦ absurd (ground (arith, h, q))
  | inr (v, q) ↦ q ∙ ap ok (truth v (ground (arith, h, q)))
]
  where
    truth : (v : Value) → is_true v ≡ true → v ≡ boolean true
    truth (boolean true) h = refl
    truth v h = cc

in_bounds-true :
    (column : ℕ) (start end : Option Key) (row : Tuple) (v : Value) (k : Key)
    → get_elem? row column ≡ some v
    → encode_memcomparable v [] ≡ ok k
    → IsAbove start k
    → IsBelow end k
    → in_bounds column start end row ≡ true
unfolding in_bounds
in_bounds-true column none none row v k g e a b = ground (arith, g, e)
in_bounds-true column (some s) none row v k g e a b = ground (arith, g, e, a)
in_bounds-true column none (some z) row v k g e a b = ground (arith, g, e, b)
in_bounds-true column (some s) (some z) row v k g e a b = ground (arith, g, e, a, b)

retain-retain :
    (f g : Tuple → Bool) (P : Tuple → Type 0) (rows : List Tuple)
    → ((row : Tuple) → P row → f row ≡ true → g row ≡ true)
    → All P rows
    → retain f (retain g rows) ≡ retain f rows
retain-retain f g P [] k h = refl
retain-retain f g P (row ∷ rows) k (h, hs) = elim (Bool-cases (g row)) [
  | inl y ↦ ground (arith, y, retain-retain f g P rows k hs)
  | inr n ↦ elim (Bool-cases (f row)) [
    | inl y ↦ absurd (ground (arith, n, k row h y))
    | inr m ↦ ground (arith, n, m, retain-retain f g P rows k hs)
  ]
]

abbrev pub PredicateFits : Option BoundExpr → Type 0
PredicateFits none = Unit {0}
PredicateFits (some predicate) = LiteralsFit predicate

module _ (catalog : CatalogState) (rows : List Tuple) where
  -- A scan of an index stands for the sequential one.
  abbrev pub IsBounded : List BoundExpr → Option BoundExpr → Option TableId → LogicalPlan → Type 0
  IsBounded es o table p =
      (t : TableId) × (predicate : BoundExpr) × (i : IndexId) × (start : Option Key) × (end : Option
        Key)
      × (c : ℕ) × (table ≡ some t)
      × (o ≡ some predicate)
      × (p
          ≡ LogicalPlan.projection es
              (LogicalPlan.filter predicate (LogicalPlan.index_scan i t start end)))
      × (index_id_for catalog t c ≡ some i)
      × (retain (passes predicate) (retain (in_bounds c start end) rows)
          ≡ retain (passes predicate) rows)

module _ (catalog : CatalogState) (rows : List Tuple) (fit : All (All IsWellFormed) rows) where
  optimized :
      (es : List BoundExpr) (o : Option BoundExpr) (table : Option TableId)
      → PredicateFits o
      → (optimize
            (index_scan_rule ∷ [])
            (LogicalPlan.projection es (filtered o (scan_of table)))
            catalog
          ≡ LogicalPlan.projection es (filtered o (scan_of table)))
        ⊎ IsBounded catalog rows es o table (
            optimize
              (index_scan_rule ∷ [])
              (LogicalPlan.projection es (filtered o (scan_of table)))
              catalog)
  unfolding optimize index_scan_rule bounded_scan
  optimized es none none f = inl refl
  optimized es none (some t) f = inl refl
  optimized es (some predicate) none f = inl refl
  optimized es (some predicate) (some t) f =
      elim (Option-cases (index_scan_bounds (index_id_for catalog) predicate t)) [
        | inl n ↦ inl (ground (arith, n))
        | inr ((i, start, end), q) ↦
            let (c, target, index) =
              index_scan_bounds-target (index_id_for catalog) t predicate i start end q in
            inr (
              t,
              predicate,
              i,
              start,
              end,
              c,
              refl,
              refl,
              ground (arith, q),
              index,
              retain-retain (passes predicate) (in_bounds c start end) (All IsWellFormed) rows
                  (λ row (w : All IsWellFormed row) yes_it.
                    let (v, k, _, g, e, a, b) =
                      index_scan_bounds-covers_at row w (index_id_for catalog) t predicate c i i
                        start end (passes-true predicate row yes_it) f target q in
                    in_bounds-true c start end row v k g e a b)
                  fit,
            )
      ]

  -- The optimizer either leaves the plan of a SELECT as it is, or puts a scan of an index on a
  -- column of the table in the place of the sequential scan, and then the filter above keeps, of the
  -- rows whose keys lie between the bounds of the scan, exactly those that it keeps of all rows,
  -- where the values of the rows and the literals of the predicate are values of their types.
  pub optimize-keeps :
      (b : BoundSelect) (p : LogicalPlan)
      → PredicateFits b.predicate
      → plan (BoundStatement.select b) ≡ some p
      → (optimize (index_scan_rule ∷ []) p catalog ≡ p)
        ⊎ IsBounded catalog rows b.projections b.predicate b.table_id
            (optimize (index_scan_rule ∷ []) p catalog)
  unfolding plan
  optimize-keeps b p f h =
      let same : LogicalPlan.projection b.projections (filtered b.predicate (scan_of b.table_id))
          ≡ p =
        cc h in
      subst
        (λ p.
          (optimize (index_scan_rule ∷ []) p catalog ≡ p)
          ⊎ IsBounded catalog rows b.projections b.predicate b.table_id
              (optimize (index_scan_rule ∷ []) p catalog))
        same (optimized b.projections b.predicate b.table_id f)
