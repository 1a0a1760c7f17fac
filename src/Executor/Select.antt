-- ===== src/Executor/Select.antt =====
-- A SELECT from its statement to its rows: the binder, the plan and the operators together.
use simple_rdbms.Common.{ℕ, ◌≡◌, refl, ap, Option, none, some, List}
use simple_rdbms.Common.{[], ◌∷◌, map, retain, All, Result, ok, arith, inl, inr, subst, Bool-cases}
use simple_rdbms.Ids.{PageId, Rid}
use simple_rdbms.Catalog.Schema.{TableInfo}
use simple_rdbms.Catalog.State.{table_by_id}
use simple_rdbms.Sql.Ast.{SelectStatement}
use simple_rdbms.Types.Value.{DataType}
use simple_rdbms.Types.Tuple.RoundTrip.{HaveTypes}
use simple_rdbms.Types.Tuple.Typed.{decode-HaveTypes}
use simple_rdbms.Storage.Heap.{entries_from}
use simple_rdbms.Planner.BoundExpr.{BoundExpr}
use simple_rdbms.Planner.Binder.{SessionContext}
use simple_rdbms.Planner.Binder.Values.{IsOfType, types_of, Yields}
use simple_rdbms.Planner.Binder.SelectSound.{
  AllYield, PredicateYields, bind_select-Yields, bind_select-table_id,
}
use simple_rdbms.Planner.Binder.Statements.{BoundSelect, BoundStatement, bind_select, from_table}
use simple_rdbms.Planner.Plan.{LogicalPlan, plan, to_physical, scan_of, filtered}
use simple_rdbms.Executor.Operators.{Tuple, Executor, LockOps, Context, SeqScan}
use simple_rdbms.Executor.Operators.{lock_scanned, evaluate_all, init}
use simple_rdbms.Executor.Operators.Drain.{passes, image, Drains, Drains-filter}
use simple_rdbms.Executor.Operators.Drain.{Drains-projection}
use simple_rdbms.Executor.Operators.Scan.{read_rows, read_rows-cases, seq_scan-Drains}
use simple_rdbms.Executor.Factory.{build_executor}

abbrev pub kept : Option BoundExpr → List Tuple → List Tuple
kept none rows = rows
kept (some predicate) rows = retain (passes predicate) rows

-- The rows that the query asks for.
abbrev pub selected : BoundSelect → List Tuple → List Tuple
selected b rows = map (image b.projections) (kept b.predicate rows)

abbrev pub OfTypes : Tuple → List (Option DataType) → Type 0
OfTypes [] [] = Unit {0}
OfTypes (v ∷ vs) (t ∷ ts) = IsOfType t v × OfTypes vs ts
OfTypes _ _ = ⊥

evaluate_all-OfTypes :
    (row : Tuple) (es : List BoundExpr) (ts : List (Option DataType))
    → AllYield row es ts
    → (values : Tuple) × (evaluate_all es row ≡ ok values) × OfTypes values ts
unfolding evaluate_all
evaluate_all-OfTypes row [] [] h = ([], refl, tt)
evaluate_all-OfTypes row [] (t ∷ ts) h = absurd h
evaluate_all-OfTypes row (e ∷ es) [] h = absurd h
evaluate_all-OfTypes row (e ∷ es) (t ∷ ts) ((v, q, typed), h) =
    let (vs, k, all) = evaluate_all-OfTypes row es ts h in
    (v ∷ vs, ground (arith, q, k), (typed, all))

image-OfTypes :
    (row : Tuple) (es : List BoundExpr) (ts : List (Option DataType))
    → AllYield row es ts
    → OfTypes (image es row) ts
unfolding image
image-OfTypes row es ts h =
    let (vs, k, all) = evaluate_all-OfTypes row es ts h in
    let same : vs ≡ image es row = ground (arith, k) in subst (λ vs. OfTypes vs ts) same all

All-kept :
    (P : Tuple → Type 0) (p : Option BoundExpr) (rows : List Tuple)
    → All P rows
    → All P (kept p rows)
All-kept P none rows h = h
All-kept P (some p) [] h = tt
All-kept P (some p) (row ∷ rows) h = elim (Bool-cases (passes p row)) [
  | inl b ↦ rw b (h.0, All-kept P (some p) rows h.1)
  | inr b ↦ rw b (All-kept P (some p) rows h.1)
]

All-map :
    (P Q : Tuple → Type 0) (f : Tuple → Tuple) (rows : List Tuple)
    → ((row : Tuple) → P row → Q (f row))
    → All P rows
    → All Q (map f rows)
All-map P Q f [] g h = tt
All-map P Q f (row ∷ rows) g h = (g row h.0, All-map P Q f rows g h.1)

All-weaken :
    {P Q : Tuple → Type 0} (rows : List Tuple)
    → ((row : Tuple) → P row → Q row)
    → All P rows
    → All Q rows
All-weaken [] g h = tt
All-weaken (row ∷ rows) g h = (g row h.0, All-weaken rows g h.1)

module _ {LockError Locks : Type 0} (ops : LockOps Locks LockError) (ctx : Context)
    (types : List DataType) where
  read_rows-HaveTypes :
      (l l' : Locks) (es : List (Rid × List ℕ)) (rows : List Tuple)
      → read_rows ops ctx types l es ≡ some (rows, l')
      → All (λ row. HaveTypes row types) rows
  unfolding read_rows
  read_rows-HaveTypes l l' [] rows h =
      let same : [] ≡ rows = ground (arith, h) in subst (All (λ row. HaveTypes row types)) same tt
  read_rows-HaveTypes l l' ((rid, bytes) ∷ es) rows h =
      elim (read_rows-cases ops ctx types l l' rid bytes es rows h) [
        | inl (l₁, a, k) ↦ read_rows-HaveTypes l₁ l' es rows k
        | inr (l₁, row, others, a, d, k, q) ↦
            subst (All (λ row. HaveTypes row types)) q
              (decode-HaveTypes bytes types row d, read_rows-HaveTypes l₁ l' es others k)
      ]

module _ {StorageError LockError Locks : Type 0} (fetch : PageId → Result StorageError (List ℕ))
    (ops : LockOps Locks LockError) (ctx : Context) where
  abbrev filter_over : Option BoundExpr → Executor → Executor
  filter_over none child = child
  filter_over (some predicate) child = Executor.filter predicate child

  Drains-kept :
      (p : Option BoundExpr) (c : Executor) (l l' : Locks) (rows : List Tuple)
      → All (λ row. PredicateYields row p) rows
      → Drains fetch ops ctx c l rows l'
      → Drains fetch ops ctx (filter_over p c) l (kept p rows) l'
  Drains-kept none c l l' rows h d = d
  Drains-kept (some p) c l l' rows h d =
      Drains-filter fetch ops ctx p c l l' rows d
        (All-weaken rows (λ row (y : Yields row (p, some DataType.boolean)). (y.0, y.1)) h)

  -- What the operators above a scan answer.
  Drains-selected :
      (b : BoundSelect) (c : Executor) (l l' : Locks) (rows : List Tuple)
      → All
          (λ row. AllYield row b.projections b.column_types × PredicateYields row b.predicate)
          rows
      → Drains fetch ops ctx c l rows l'
      → Drains fetch ops ctx
          (Executor.projection b.projections (filter_over b.predicate c))
          l
          (selected b rows)
          l'
        × All (λ row. OfTypes row b.column_types) (selected b rows)
  Drains-selected b c l l' rows h d =
      let all_yield : All (λ row. AllYield row b.projections b.column_types)
          (kept b.predicate rows) =
        All-kept (λ row. AllYield row b.projections b.column_types) b.predicate rows
          (All-weaken rows (λ row y. y.0) h) in
      (
        Drains-projection fetch ops ctx b.projections (filter_over b.predicate c) l l'
            (kept b.predicate rows)
            (Drains-kept b.predicate c l l' rows (All-weaken rows (λ row y. y.1) h) d)
            (All-weaken (kept b.predicate rows)
              (λ row y.
                let (vs, q, _) = evaluate_all-OfTypes row b.projections b.column_types y in (vs, q))
              all_yield),
        All-map (λ row. AllYield row b.projections b.column_types)
            (λ row. OfTypes row b.column_types) (image b.projections) (kept b.predicate rows)
            (λ row y. image-OfTypes row b.projections b.column_types y) all_yield,
      )

  abbrev table_scan : TableInfo → SeqScan
  table_scan table = record {
    table_id = table.table_id;
    column_types = [];
    current_page = none;
    next_slot = 0;
  }

  abbrev opened : TableInfo → Executor
  opened table = Executor.seq_scan (record {
    table_id = table.table_id;
    column_types = types_of table.schema;
    current_page = some table.first_page_id;
    next_slot = 0;
  })

  built :
      (p : Option BoundExpr) (es : List BoundExpr) (table : TableInfo)
      → build_executor (
          to_physical
            (LogicalPlan.projection es (filtered p (LogicalPlan.seq_scan table.table_id))))
        ≡ some (Executor.projection es (filter_over p (Executor.seq_scan (table_scan table))))
  unfolding build_executor to_physical
  built none es table = refl
  built (some p) es table = refl

  opens :
      (p : Option BoundExpr) (es : List BoundExpr) (table : TableInfo) (l₀ l : Locks)
      → table_by_id ctx.catalog table.table_id ≡ ok table
      → lock_scanned ops ctx l₀ table.table_id ≡ (ok tt, l)
      → init fetch ops ctx
          (Executor.projection es (filter_over p (Executor.seq_scan (table_scan table))))
          l₀
        ≡ (ok tt, Executor.projection es (filter_over p (opened table)), l)
  unfolding init
  opens none es table l₀ l t k = ground (arith, t, k)
  opens (some p) es table l₀ l t k = ground (arith, t, k)

  -- A SELECT on a table that the binder accepts, and that no index serves, is planned and opened,
  -- and answers, in the order of the heap, the images of the rows that its predicate is true on:
  -- no expression of it fails on any row of the table, and each answer has values of the types that
  -- the binder gave. The rows are those of the entries that `TableIter` yields, each admitted in
  -- turn, where no lock is refused and no page, slot or row is bad.
  pub select-Drains :
      (s : SessionContext) (statement : SelectStatement) (b : BoundSelect) (table : TableInfo)
      (n : ℕ) (entries : List (Rid × List ℕ)) (l₀ l l' : Locks) (rows : List Tuple)
      → bind_select ctx.catalog s statement ≡ ok b
      → from_table ctx.catalog statement.from ≡ ok (some table)
      → table_by_id ctx.catalog table.table_id ≡ ok table
      → lock_scanned ops ctx l₀ table.table_id ≡ (ok tt, l)
      → entries_from fetch n (some table.first_page_id) ≡ some (ok entries)
      → read_rows ops ctx (types_of table.schema) l entries ≡ some (rows, l')
      → (p : LogicalPlan) × (e : Executor) × (e' : Executor) × (plan (BoundStatement.select b)
          ≡ some p)
        × (build_executor (to_physical p) ≡ some e)
        × (init fetch ops ctx e l₀ ≡ (ok tt, e', l))
        × Drains fetch ops ctx e' l (selected b rows) l'
        × All (λ row. OfTypes row b.column_types) (selected b rows)
  select-Drains s statement b table n entries l₀ l l' rows bound from there locked yields read =
      let sound : (row : Tuple)
          → HaveTypes row (types_of table.schema)
          → AllYield row b.projections b.column_types × PredicateYields row b.predicate =
        λ row h.
          let (_, all, _, p) =
            bind_select-Yields ctx.catalog s statement b (some table) row bound from h in
          (all, p) in
      let typed =
        All-weaken rows sound
          (read_rows-HaveTypes ops ctx (types_of table.schema) l l' entries rows read) in
      let scanned : Drains fetch ops ctx (opened table) l rows l' =
        seq_scan-Drains fetch ops ctx
          (record (table_scan table) { column_types = types_of table.schema }) n
          (some table.first_page_id) entries l l' rows yields read in
      let (drained, good) = Drains-selected b (opened table) l l' rows typed scanned in
      (
        LogicalPlan.projection b.projections
            (filtered b.predicate (LogicalPlan.seq_scan table.table_id)),
        Executor.projection b.projections
            (filter_over b.predicate (Executor.seq_scan (table_scan table))),
        Executor.projection b.projections (filter_over b.predicate (opened table)),
        planned b table (bind_select-table_id ctx.catalog s statement b (some table) bound from),
        built b.predicate b.projections table,
        opens b.predicate b.projections table l₀ l there locked,
        drained,
        good,
      )
    where
      planned :
          (b : BoundSelect) (table : TableInfo)
          → b.table_id ≡ some table.table_id
          → plan (BoundStatement.select b)
            ≡ some (
                LogicalPlan.projection b.projections
                  (filtered b.predicate (LogicalPlan.seq_scan table.table_id)))
      planned b table q =
          unfold plan in
          ap (λ t. some (LogicalPlan.projection b.projections (filtered b.predicate (scan_of t)))) q
