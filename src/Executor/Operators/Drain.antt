-- ===== src/Executor/Operators/Drain.antt =====
-- What the calls of `next` on a tree of operators answer, one after the other, up to the end.
use simple_rdbms.Common.{ℕ, zero, suc, ◌+◌, ◌≤◌, ◌≡◌, sym, Bool, true, false, Option}
use simple_rdbms.Common.{
  none, some, List, [], ◌∷◌, map, retain, All, Result, ok, err, arith, inl, inr,
}
use simple_rdbms.Common.{Bool-cases, subst}
use simple_rdbms.Ids.{PageId}
use simple_rdbms.Types.Value.{Value}
use simple_rdbms.Planner.BoundExpr.{BoundExpr}
use simple_rdbms.Executor.Expression.{evaluate}
use simple_rdbms.Executor.Operators.{Tuple, OperatorError, Executor, LockOps, Context, next, sift}
use simple_rdbms.Executor.Operators.{filter, projection, project, evaluate_all, is_true}

-- Whether a filter lets the row through.
unfoldable pub passes : BoundExpr → Tuple → Bool
unfolding evaluate
passes predicate row = elim (evaluate predicate row) [ ok v ↦ is_true v | err e ↦ false ]

-- The row that a projection makes.
unfoldable pub image : List BoundExpr → Tuple → Tuple
unfolding evaluate_all
image expressions row = elim (evaluate_all expressions row) [ ok values ↦ values | err e ↦ [] ]

module _ {StorageError LockError : Type 0} where
  sift-passes :
      (predicate : BoundExpr) (row : Tuple) (v : Value)
      → evaluate predicate row ≡ ok v
      → passes predicate row ≡ true
      → sift {StorageError = StorageError} {LockError = LockError} predicate row
        ≡ some (ok (some row))
  unfolding sift passes
  sift-passes predicate row v e h = ground (arith, e, h)

  sift-skips :
      (predicate : BoundExpr) (row : Tuple) (v : Value)
      → evaluate predicate row ≡ ok v
      → passes predicate row ≡ false
      → sift {StorageError = StorageError} {LockError = LockError} predicate row ≡ none
  unfolding sift passes
  sift-skips predicate row v e h = ground (arith, e, h)

  project-image :
      (expressions : List BoundExpr) (row values : Tuple)
      → evaluate_all expressions row ≡ ok values
      → project {StorageError = StorageError} {LockError = LockError} expressions row
        ≡ ok (some (image expressions row))
  unfolding project image
  project-image expressions row values e = ground (arith, e)

module _ {StorageError LockError Locks : Type 0} (fetch : PageId → Result StorageError (List ℕ))
    (ops : LockOps Locks LockError) (ctx : Context) where
  abbrev pub Reply : Type 0
  Reply = Result (OperatorError StorageError LockError) (Option Tuple)

  -- With enough fuel the call comes to its end, with the reply.
  abbrev pub Replies : Executor → Locks → Reply → Executor → Locks → Type 0
  Replies e l r e' l' = (n : ℕ) × ((m : ℕ) → n ≤ m → next fetch ops ctx m e l ≡ some (r, e', l'))

  -- The calls answer the rows and then come to the end.
  abbrev pub Drains : Executor → Locks → List Tuple → Locks → Type 0
  Drains e l [] l' = (e' : Executor) × Replies e l (ok none) e' l'
  Drains e l (row ∷ rows) l' =
      (e' : Executor) × (l₁ : Locks) × Replies e l (ok (some row)) e' l₁ × Drains e' l₁ rows l'

  filter-ends :
      (p : BoundExpr) (c c' : Executor) (l l' : Locks)
      → Replies c l (ok none) c' l'
      → Replies (filter p c) l (ok none) (filter p c') l'
  filter-ends p c c' l l' (n, f) = (suc n, step)
    where
      step :
          (m : ℕ)
          → suc n ≤ m
          → next fetch ops ctx m (filter p c) l ≡ some (ok none, filter p c', l')
      step zero h = absurd (omega (arith, h))
      step (suc m) h = unfold next in ground (arith, f m (omega (arith, h)))

  filter-passes :
      (p : BoundExpr) (c c' : Executor) (l l' : Locks) (row : Tuple) (r : Reply)
      → Replies c l (ok (some row)) c' l'
      → sift p row ≡ some r
      → Replies (filter p c) l r (filter p c') l'
  filter-passes p c c' l l' row r (n, f) s = (suc n, step)
    where
      step : (m : ℕ) → suc n ≤ m → next fetch ops ctx m (filter p c) l ≡ some (r, filter p c', l')
      step zero h = absurd (omega (arith, h))
      step (suc m) h = unfold next in ground (arith, f m (omega (arith, h)), s)

  filter-skips :
      (p : BoundExpr) (c c' e : Executor) (l l₁ l' : Locks) (row : Tuple) (r : Reply)
      → Replies c l (ok (some row)) c' l₁
      → sift {StorageError = StorageError} {LockError = LockError} p row ≡ none
      → Replies (filter p c') l₁ r e l'
      → Replies (filter p c) l r e l'
  filter-skips p c c' e l l₁ l' row r (n, f) s (k, g) = (suc (n + k), step)
    where
      step : (m : ℕ) → suc (n + k) ≤ m → next fetch ops ctx m (filter p c) l ≡ some (r, e, l')
      step zero h = absurd (omega (arith, h))
      step (suc m) h =
          unfold next in ground (arith, f m (omega (arith, h)), s, g m (omega (arith, h)))

  Drains-skipped :
      (p : BoundExpr) (c c' : Executor) (l l₁ l' : Locks) (row : Tuple) (rows : List Tuple)
      → Replies c l (ok (some row)) c' l₁
      → sift {StorageError = StorageError} {LockError = LockError} p row ≡ none
      → Drains (filter p c') l₁ rows l'
      → Drains (filter p c) l rows l'
  Drains-skipped p c c' l l₁ l' row [] f s (e, g) =
      (e, filter-skips p c c' e l l₁ l' row (ok none) f s g)
  Drains-skipped p c c' l l₁ l' row (t ∷ rows) f s (e, l₂, g, rest) =
      (e, l₂, filter-skips p c c' e l l₁ l₂ row (ok (some t)) f s g, rest)

  -- A filter over a child that answers the rows answers those that its predicate is true on, in
  -- their order, where the predicate has a value on each.
  pub Drains-filter :
      (p : BoundExpr) (c : Executor) (l l' : Locks) (rows : List Tuple)
      → Drains c l rows l'
      → All (λ row. (v : Value) × (evaluate p row ≡ ok v)) rows
      → Drains (filter p c) l (retain (passes p) rows) l'
  Drains-filter p c l l' [] (c', f) h = (filter p c', filter-ends p c c' l l' f)
  Drains-filter p c l l' (row ∷ rows) (c', l₁, f, rest) ((v, e), h) =
      elim (Bool-cases (passes p row)) [
        | inl b ↦
            subst (λ kept. Drains (filter p c) l kept l') (sym (kept_lem b))
              (
                filter p c',
                l₁,
                filter-passes p c c' l l₁ row (ok (some row)) f (sift-passes p row v e b),
                Drains-filter p c' l₁ l' rows rest h,
              )
        | inr b ↦
            subst (λ kept. Drains (filter p c) l kept l') (sym (skipped_lem b))
              (Drains-skipped p c c' l l₁ l' row (retain (passes p) rows) f (sift-skips p row v e b)
                (Drains-filter p c' l₁ l' rows rest h))
      ]
    where
      kept_lem : passes p row ≡ true → retain (passes p) (row ∷ rows) ≡ row ∷ retain (passes p) rows
      kept_lem b = ground (arith, b)

      skipped_lem : passes p row ≡ false → retain (passes p) (row ∷ rows) ≡ retain (passes p) rows
      skipped_lem b = ground (arith, b)

  projection-Replies :
      (es : List BoundExpr) (c c' : Executor) (l l' : Locks) (r r' : Reply)
      → Replies c l r c' l'
      → ((m : ℕ)
          → next fetch ops ctx m c l ≡ some (r, c', l')
          → next fetch ops ctx (suc m) (projection es c) l ≡ some (r', projection es c', l'))
      → Replies (projection es c) l r' (projection es c') l'
  projection-Replies es c c' l l' r r' (n, f) g = (suc n, step)
    where
      step :
          (m : ℕ)
          → suc n ≤ m
          → next fetch ops ctx m (projection es c) l ≡ some (r', projection es c', l')
      step zero h = absurd (omega (arith, h))
      step (suc m) h = g m (f m (omega (arith, h)))

  -- A projection over a child that answers the rows answers their images, in their order, where
  -- each expression has a value on each row.
  pub Drains-projection :
      (es : List BoundExpr) (c : Executor) (l l' : Locks) (rows : List Tuple)
      → Drains c l rows l'
      → All (λ row. (values : Tuple) × (evaluate_all es row ≡ ok values)) rows
      → Drains (projection es c) l (map (image es) rows) l'
  Drains-projection es c l l' [] (c', f) h = (
    projection es c',
    projection-Replies es c c' l l' (ok none) (ok none) f (λ m q. unfold next in ground (arith, q)),
  )
  Drains-projection es c l l' (row ∷ rows) (c', l₁, f, rest) ((values, e), h) = (
    projection es c',
    l₁,
    projection-Replies es c c' l l₁ (ok (some row)) (ok (some (image es row))) f (λ m q.
        unfold next in
        ground (
          arith,
          q,
          project-image {StorageError = StorageError} {LockError = LockError} es row values e,
        )),
    Drains-projection es c' l₁ l' rows rest h,
  )
