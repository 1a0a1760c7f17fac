-- ===== src/Planner/ScanBounds/Covers.antt =====
-- The keys of the rows on which a predicate holds lie between the bounds that
-- `index_scan_bounds` of optimizer.rs gives the scan.
use simple_rdbms.Common.{ℕ, ◌≡◌, refl, sym, ap, subst, ◌∙◌, true, Ordering, Option}
use simple_rdbms.Common.{
  none, some, suc, zero, List, [], ◌∷◌, get_elem?, Result, ok, err, arith, All,
}
use simple_rdbms.Common.{All-append, inl, inr, Bool-cases, Option-cases, ◌==◌, ==_iff}
use simple_rdbms.Ids.{TableId, IndexId}
use simple_rdbms.Types.Value.{Value, boolean}
use simple_rdbms.Types.Value.{compare, IsWellFormed, ValueError}
use simple_rdbms.Types.Memcomparable.{encode_memcomparable}
use simple_rdbms.Types.Memcomparable.Order.{lex-encode_memcomparable}
use simple_rdbms.Planner.BoundExpr.{BoundExpr, literal, column_ref, binary_op}
use simple_rdbms.Sql.Ast.{BinaryOperator}
use simple_rdbms.Planner.BoundExpr.{unary_op, is_null, session_context}
use simple_rdbms.Planner.ScanBounds.{flatten_and_conjuncts, column_and_literal, Key}
use simple_rdbms.Planner.ScanBounds.{candidates}
use simple_rdbms.Planner.ScanBounds.{
  tighten, tighten_all, target_of, find_target, index_scan_bounds,
}
use simple_rdbms.Executor.Expression.{matches_comparison, evaluate}
use simple_rdbms.Executor.Expression.Logic.{evaluate-and, evaluate-comparison}
use simple_rdbms.Planner.ScanBounds.Candidates.{IsAbove, IsBelow, raise_start-IsAbove}
use simple_rdbms.Planner.ScanBounds.Candidates.{lower_end-IsBelow, candidates-hold, key_of_compared}
use simple_rdbms.Planner.ScanBounds.Candidates.{column_and_literal_lem, tighten-other}
use simple_rdbms.Planner.ScanBounds.Candidates.{tighten-unorderable, tighten-literal}

-- The literals of the expression are values of Rust's types.
abbrev pub LiteralsFit : BoundExpr → Type 0
LiteralsFit (literal w) = IsWellFormed w
LiteralsFit (column_ref i t) = Unit
LiteralsFit (binary_op left op right t) = LiteralsFit left × LiteralsFit right
LiteralsFit (unary_op op e t) = LiteralsFit e
LiteralsFit (is_null e negated) = LiteralsFit e
LiteralsFit (session_context name w) = IsWellFormed w

get_elem?-All :
    (vs : List Value) (i : ℕ) (v : Value)
    → All IsWellFormed vs
    → get_elem? vs i ≡ some v
    → IsWellFormed v
get_elem?-All [] i v h e = cc
get_elem?-All (x ∷ xs) zero v (h, hs) e = subst IsWellFormed (ground (arith, e)) h
get_elem?-All (x ∷ xs) (suc i) v (h, hs) e = get_elem?-All xs i v hs e

-- The bounds hold the key.
abbrev Hold : Option Key × Option Key → Key → Type 0
Hold bounds k = IsAbove bounds.0 k × IsBelow bounds.1 k

module _ (tuple : List Value) (fit : All IsWellFormed tuple) where
  abbrev IsTrue : BoundExpr → Type 0
  IsTrue e = (evaluate e tuple ≡ ok (boolean true)) × LiteralsFit e

  flatten-IsTrue :
      (e : BoundExpr) (out : List BoundExpr)
      → IsTrue e
      → All IsTrue out
      → All IsTrue (flatten_and_conjuncts e out)
  unfolding flatten_and_conjuncts
  flatten-IsTrue (binary_op left BinaryOperator.and right t) out (h, (f, g)) hs =
      let (hl, hr) = evaluate-and left right t tuple h in
      flatten-IsTrue right (flatten_and_conjuncts left out) (hr, g)
        (flatten-IsTrue left out (hl, f) hs)
  flatten-IsTrue e out h hs = All-append IsTrue out (e ∷ []) hs (h, tt)

  -- What a true conjunct that is a comparison says of the value in its column.
  conjunct_lem :
      (e : BoundExpr) (c : ℕ) (op : BinaryOperator) (w : Value)
      → IsTrue e
      → column_and_literal e ≡ some (c, op, w)
      → (v : Value) × (get_elem? tuple c ≡ some v)
        × (o : Ordering) × (compare v w ≡ ok (some o))
        × (matches_comparison op o ≡ true)
        × IsWellFormed w
  conjunct_lem e c op w (h, f) q =
      let (t, u, p, b) = column_and_literal_lem e c op w q in
      let (v, g, o, k, m) =
        evaluate-comparison op c w t u tuple b (ap (λ x. evaluate x tuple) (sym p) ∙ h) in
      let (_, fw) = subst LiteralsFit p f in (v, g, o, k, m, fw)

  module _ (target : ℕ) (v : Value) (k : Key) (there : get_elem? tuple target ≡ some v)
      (encoded : encode_memcomparable v [] ≡ ok k) where
    -- A true conjunct on the target keeps the key in the candidates of its literal.
    literal-holds :
        (e : BoundExpr) (op : BinaryOperator) (w : Value) (kw : Key)
        → IsTrue e
        → column_and_literal e ≡ some (target, op, w)
        → encode_memcomparable w [] ≡ ok kw
        → Hold (candidates op kw) k
    literal-holds e op w kw h q ew =
        let (v', g, o, c, m, fw) = conjunct_lem e target op w h q in
        let same : v' ≡ v = ground (arith, there, g) in
        let order =
          lex-encode_memcomparable v w o k kw (get_elem?-All tuple target v fit there) fw
            (ap (λ x. compare x w) (sym same) ∙ c) encoded ew in
        candidates-hold op k kw (ap (matches_comparison op) order ∙ m)

    literal_tightens :
        (e : BoundExpr) (op : BinaryOperator) (w : Value) (start end : Option Key)
        → IsTrue e
        → Hold (start, end) k
        → column_and_literal e ≡ some (target, op, w)
        → (r : Result ValueError Key) → encode_memcomparable w [] ≡ r
        → Hold (tighten target (some (target, op, w)) (start, end)) k
    literal_tightens e op w start end h b q (err x) ew =
        subst (λ z. Hold z k) (sym (tighten-unorderable target op w (start, end) x ew)) b
    literal_tightens e op w start end h (above, below) q (ok kw) ew =
        let (a, z) = literal-holds e op w kw h q ew in
        subst (λ z. Hold z k) (sym (tighten-literal target op w start end kw ew))
          (
            raise_start-IsAbove start (candidates op kw).0 k above a,
            lower_end-IsBelow end (candidates op kw).1 k below z,
          )

    conjunct_tightens :
        (e : BoundExpr) (start end : Option Key)
        → IsTrue e
        → Hold (start, end) k
        → (r : Option (ℕ × BinaryOperator × Value)) → column_and_literal e ≡ r
        → Hold (tighten target r (start, end)) k
    conjunct_tightens e start end h b none q = unfold tighten in b
    conjunct_tightens e start end h b (some (c, op, w)) q = elim (Bool-cases (c == target)) [
      | inl p ↦
          let same = (==_iff c target).0 p in
          subst (λ x. Hold (tighten target (some (x, op, w)) (start, end)) k) (sym same)
            (literal_tightens e op w start end h b (q ∙ ap (λ x. some (x, op, w)) same)
              (encode_memcomparable w []) refl)
      | inr n ↦ subst (λ z. Hold z k) (sym (tighten-other target c op w (start, end) n)) b
    ]

    tighten_all-holds :
        (es : List BoundExpr) (bounds : Option Key × Option Key)
        → All IsTrue es
        → Hold bounds k
        → Hold (tighten_all target es bounds) k
    unfolding tighten_all
    tighten_all-holds [] bounds hs b = b
    tighten_all-holds (e ∷ es) bounds (h, hs) b =
        tighten_all-holds es (tighten target (column_and_literal e) bounds) hs
          (conjunct_tightens e bounds.0 bounds.1 h b (column_and_literal e) refl)

  module _ (index_for_column : TableId → ℕ → Option IndexId) (table_id : TableId) where
    target_of_lem :
        (e : BoundExpr) (c : ℕ) (i : IndexId)
        → target_of index_for_column table_id e ≡ some (c, i)
        → (op : BinaryOperator) × (w : Value) × (column_and_literal e ≡ some (c, op, w))
          × (index_for_column table_id c ≡ some i)
    unfolding target_of
    target_of_lem e c i h = from (column_and_literal e) refl
      where
        from :
            (r : Option (ℕ × BinaryOperator × Value))
            → column_and_literal e ≡ r
            → (op : BinaryOperator) × (w : Value) × (column_and_literal e ≡ some (c, op, w))
              × (index_for_column table_id c ≡ some i)
        from none q = absurd (ground (arith, h, q))
        from (some (d, op, w)) q = elim (Option-cases (index_for_column table_id d)) [
          | inl n ↦ absurd (ground (arith, h, q, n))
          | inr (j, p) ↦ (op, w, ground (arith, h, q, p), ground (arith, h, q, p))
        ]

    -- The target is the column of a true comparison, and has the index.
    find_target_lem :
        (es : List BoundExpr) (c : ℕ) (i : IndexId)
        → All IsTrue es
        → find_target index_for_column table_id es ≡ some (c, i)
        → (v : Value) × (k : Key) × (index_for_column table_id c ≡ some i)
          × (get_elem? tuple c ≡ some v)
          × (encode_memcomparable v [] ≡ ok k)
    unfolding find_target
    find_target_lem [] c i hs e = absurd (ground (arith, e))
    find_target_lem (x ∷ es) c i (h, hs) e =
        elim (Option-cases (target_of index_for_column table_id x)) [
          | inl n ↦ find_target_lem es c i hs (ground (arith, e, n))
          | inr (found, p) ↦
              let (op, w, q, index) = target_of_lem x c i (p ∙ ground (arith, e, p)) in
              let (v, g, o, m, _, _) = conjunct_lem x c op w h q in
              let (k, encoded) = key_of_compared v w o m in (v, k, index, g, encoded)
        ]

    -- With the column that the choice of the index goes by.
    pub index_scan_bounds-covers_at :
        (predicate : BoundExpr) (c : ℕ) (j i : IndexId) (start end : Option Key)
        → evaluate predicate tuple ≡ ok (boolean true)
        → LiteralsFit predicate
        → find_target index_for_column table_id (flatten_and_conjuncts predicate []) ≡ some (c, j)
        → index_scan_bounds index_for_column predicate table_id ≡ some (i, start, end)
        → (v : Value) × (k : Key) × (index_for_column table_id c ≡ some i)
          × (get_elem? tuple c ≡ some v)
          × (encode_memcomparable v [] ≡ ok k)
          × IsAbove start k
          × IsBelow end k
    unfolding index_scan_bounds
    index_scan_bounds-covers_at predicate c j i start end h f p e =
        let es = flatten_and_conjuncts predicate [] in
        let true_ones = flatten-IsTrue predicate [] (h, f) tt in
        let (v, k, index, g, encoded) = find_target_lem es c j true_ones p in
        let (above, below) = tighten_all-holds c v k g encoded es (none, none) true_ones (tt, tt) in
        let bounds = tighten_all c es (none, none) in
        let (pi, ps, pe) = parts bounds (ground (arith, e, p)) in
        (
          v,
          k,
          index ∙ ap some pi,
          g,
          encoded,
          subst (λ b. IsAbove b k) ps above,
          subst (λ b. IsBelow b k) pe below,
        )
      where
        parts :
            (bounds : Option Key × Option Key) {j : IndexId}
            → ◌≡◌ {A = Option (IndexId × Option Key × Option Key)}
                (some (j, bounds.0, bounds.1))
                (some (i, start, end))
            → (j ≡ i) × (bounds.0 ≡ start) × (bounds.1 ≡ end)
        parts bounds q = (ground (arith, q), ground (arith, q), ground (arith, q))

    -- If a scan of an index between bounds is chosen for a predicate, the predicate is true on a
    -- row, and the row's values and the predicate's literals are values of their types, then the
    -- row has a value in a column of that index, the value has a key, and the key lies between
    -- the bounds: a scan that is bounded misses no row.
    pub index_scan_bounds-covers :
        (predicate : BoundExpr) (i : IndexId) (start end : Option Key)
        → evaluate predicate tuple ≡ ok (boolean true)
        → LiteralsFit predicate
        → index_scan_bounds index_for_column predicate table_id ≡ some (i, start, end)
        → (c : ℕ) × (v : Value) × (k : Key) × (index_for_column table_id c ≡ some i)
          × (get_elem? tuple c ≡ some v)
          × (encode_memcomparable v [] ≡ ok k)
          × IsAbove start k
          × IsBelow end k
    unfolding index_scan_bounds
    index_scan_bounds-covers predicate i start end h f e =
        elim (Option-cases
          (find_target index_for_column table_id (flatten_and_conjuncts predicate []))) [
            | inl n ↦ absurd (ground (arith, e, n))
            | inr ((c, j), p) ↦
                let (v, k, index, g, encoded, above, below) =
                  index_scan_bounds-covers_at predicate c j i start end h f p e in
                (c, v, k, index, g, encoded, above, below)
          ]

module _ (index_for_column : TableId → ℕ → Option IndexId) (table_id : TableId) where
  target_of-index :
      (e : BoundExpr) (c : ℕ) (i : IndexId)
      → target_of index_for_column table_id e ≡ some (c, i)
      → index_for_column table_id c ≡ some i
  unfolding target_of
  target_of-index e c i h = elim (Option-cases (column_and_literal e)) [
    | inl n ↦ absurd (ground (arith, h, n))
    | inr ((d, op, w), q) ↦ elim (Option-cases (index_for_column table_id d)) [
      | inl n ↦ absurd (ground (arith, h, q, n))
      | inr (j, n) ↦
          let same : d ≡ c = ground (arith, h, q, n) in
          ap (index_for_column table_id) (sym same) ∙ n ∙ ground (arith, h, q, n)
    ]
  ]

  find_target-index :
      (es : List BoundExpr) (c : ℕ) (i : IndexId)
      → find_target index_for_column table_id es ≡ some (c, i)
      → index_for_column table_id c ≡ some i
  unfolding find_target
  find_target-index [] c i h = cc
  find_target-index (e ∷ es) c i h = elim (Option-cases (target_of index_for_column table_id e)) [
    | inl n ↦ find_target-index es c i (ground (arith, h, n))
    | inr (t, q) ↦ target_of-index e c i (ground (arith, h, q))
  ]

  -- A scan that is chosen is one of an index on the column that the choice goes by.
  pub index_scan_bounds-target :
      (predicate : BoundExpr) (i : IndexId) (start end : Option Key)
      → index_scan_bounds index_for_column predicate table_id ≡ some (i, start, end)
      → (c : ℕ) × (find_target index_for_column table_id (flatten_and_conjuncts predicate [])
          ≡ some (c, i))
        × (index_for_column table_id c ≡ some i)
  unfolding index_scan_bounds
  index_scan_bounds-target predicate i start end e =
      let es = flatten_and_conjuncts predicate [] in
      elim (Option-cases (find_target index_for_column table_id es)) [
        | inl n ↦ absurd (ground (arith, e, n))
        | inr ((c, j), p) ↦
            let same : j ≡ i = ground (arith, e, p) in
            let at_i = p ∙ ap (λ k. some (c, k)) same in (c, at_i, find_target-index es c i at_i)
      ]
