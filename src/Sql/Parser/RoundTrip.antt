-- ===== src/Sql/Parser/RoundTrip.antt =====
-- The parser of crates/sql/src/parser.rs reads an expression back from its spelling.
use simple_rdbms.Common.{ℕ, zero, suc, ◌≤◌, ◌≡◌, refl, ap, ◌∙◌, Bool, true, false}
use simple_rdbms.Common.{some, List, ◌∷◌, length, arith}
use simple_rdbms.Sql.Ast.{Expr, literal, session_context, column, binary_op, unary_op, is_null}
use simple_rdbms.Sql.Ast.{parameter, BinaryOperator, UnaryOperator}
use simple_rdbms.Sql.Token.{TokenKind, Token}
use simple_rdbms.Sql.Parser.{Parsed, parsed, ◌>>=◌, comparison_operator}
use simple_rdbms.Sql.Parser.{parse_unary, comparisons, parse_comparison, null_tests}
use simple_rdbms.Sql.Parser.{parse_is_null, parse_not, conjuncts, parse_and, disjuncts, parse_or}
use simple_rdbms.Sql.Parser.{parse_expr}
use simple_rdbms.Sql.Parser.Spelling.{
  tok, spell_negated, spell, spell_operator, operator_count, IsSpelled, IsReadable, stops,
}
use simple_rdbms.Sql.Parser.Atoms.{
  comparisons-stop, null_tests-stop, conjuncts-stop, disjuncts-stop,
}
use simple_rdbms.Sql.Parser.Atoms.{paren-read, from_not, from_comparison, from_unary, literal-read}
use simple_rdbms.Sql.Parser.Atoms.{parameter-read, context-read, column-read}

module _ (p : List Token → Parsed Expr) (kind : TokenKind) (o : ℕ) (ts : List Token)
    (stop : stops kind ≡ true) where
  abbrev behind : List Token
  behind = (kind, o) ∷ ts

  -- An operand that the parser of what stands in parentheses reads.
  abbrev Reads : Expr → Type 0
  Reads e =
      (rest : List Token)
      → p (spell e (tok TokenKind.r_paren ∷ rest)) ≡ parsed e (tok TokenKind.r_paren ∷ rest)

  abbrev paren : Expr → List Token → List Token
  paren e rest = tok TokenKind.l_paren ∷ spell e (tok TokenKind.r_paren ∷ rest)

  not-read :
      (e : Expr)
      → Reads e
      → parse_or p (spell (unary_op UnaryOperator.not e) behind)
        ≡ parsed (unary_op UnaryOperator.not e) behind
  unfolding spell parse_not
  not-read e h =
      from_not p kind o ts stop (tok TokenKind.not ∷ paren e behind) (unary_op UnaryOperator.not e)
        (ap (λ r. r >>= λ e ts. parsed (unary_op UnaryOperator.not e) ts)
          (from_unary p kind o ts stop (paren e behind) e (paren-read p e behind (h behind))))

  negate-read :
      (e : Expr)
      → Reads e
      → parse_or p (spell (unary_op UnaryOperator.negate e) behind)
        ≡ parsed (unary_op UnaryOperator.negate e) behind
  unfolding spell parse_not parse_unary
  negate-read e h =
      from_not p kind o ts stop (tok TokenKind.minus ∷ paren e behind)
        (unary_op UnaryOperator.negate e)
        (from_unary p kind o ts stop (tok TokenKind.minus ∷ paren e behind)
          (unary_op UnaryOperator.negate e)
          (ap (λ r. r >>= λ e ts. parsed (unary_op UnaryOperator.negate e) ts)
            (paren-read p e behind (h behind))))

  is_null-read :
      (e : Expr) (negated : Bool)
      → Reads e
      → parse_or p (spell (is_null e negated) behind) ≡ parsed (is_null e negated) behind
  unfolding spell parse_not parse_is_null parse_comparison comparisons null_tests
  is_null-read e negated h =
      let tail = tok TokenKind.is ∷ spell_negated negated behind in
      from_not p kind o ts stop (paren e tail) (is_null e negated) (
        ap
          (λ r. (r >>= λ l rest. comparisons p (suc (length rest)) l rest) >>= λ e rest.
            null_tests p e rest)
          (paren-read p e tail (h tail))
        ∙ tested negated)
    where
      tested :
          (negated : Bool)
          → null_tests p e (tok TokenKind.is ∷ spell_negated negated behind)
            ≡ parsed (is_null e negated) behind
      tested true = null_tests-stop p (is_null e true) kind o ts stop
      tested false = null_tests-stop p (is_null e false) kind o ts stop

  comparisons-step :
      (n : ℕ) (l : Expr) (op : BinaryOperator) (k : TokenKind) (X : List Token)
      → comparison_operator k ≡ some op
      → comparisons p (suc n) l (tok k ∷ X)
        ≡ (parse_unary p X >>= λ r rest. comparisons p n (binary_op l op r) rest)
  unfolding comparisons
  comparisons-step n l op k X e = rw e refl

  module _ (l r : Expr) (hl : Reads l) (hr : Reads r) where
    comparison-read :
        (op : BinaryOperator)
        → comparison_operator (spell_operator op) ≡ some op
        → parse_or p (spell (binary_op l op r) behind) ≡ parsed (binary_op l op r) behind
    unfolding spell parse_not parse_comparison
    comparison-read op e =
        let X = tok (spell_operator op) ∷ paren r behind in
        from_not p kind o ts stop (paren l X) (binary_op l op r) (
          from_comparison p kind o ts stop (paren l X) (binary_op l op r) (
            ap (λ r. r >>= λ l rest. comparisons p (suc (length rest)) l rest)
              (paren-read p l X (hl X))
            ∙ comparisons-step (length X) l op (spell_operator op) (paren r behind) e
            ∙ ap (λ q. q >>= λ r rest. comparisons p (length X) (binary_op l op r) rest)
                (paren-read p r behind (hr behind))
            ∙ comparisons-stop p (length (paren r behind)) (binary_op l op r) kind o ts stop))

    and-read :
        parse_or p (spell (binary_op l BinaryOperator.and r) behind)
        ≡ parsed (binary_op l BinaryOperator.and r) behind
    unfolding spell parse_or parse_and parse_not parse_is_null parse_comparison comparisons
        null_tests conjuncts
    and-read =
        let X = tok TokenKind.and ∷ paren r behind in
        let e = binary_op l BinaryOperator.and r in
        ap
          (λ q.
            (((q >>= λ l rest. comparisons p (suc (length rest)) l rest) >>= λ e rest.
            null_tests p e rest)
              >>= λ l rest. conjuncts p (suc (length rest)) l rest)
            >>= λ l rest. disjuncts p (suc (length rest)) l rest)
          (paren-read p l X (hl X))
        ∙ ap
            (λ q.
              (q >>= λ r rest. conjuncts p (length X) (binary_op l BinaryOperator.and r) rest)
              >>= λ l rest. disjuncts p (suc (length rest)) l rest)
            (from_unary p kind o ts stop (paren r behind) r (paren-read p r behind (hr behind)))
        ∙ ap (λ q. q >>= λ l rest. disjuncts p (suc (length rest)) l rest)
            (conjuncts-stop p (length (paren r behind)) e kind o ts stop)
        ∙ disjuncts-stop p (length behind) e kind o ts stop

    or-read :
        parse_or p (spell (binary_op l BinaryOperator.or r) behind)
        ≡ parsed (binary_op l BinaryOperator.or r) behind
    unfolding spell parse_or parse_and parse_not parse_is_null parse_comparison comparisons
        null_tests conjuncts disjuncts
    or-read =
        let X = tok TokenKind.or ∷ paren r behind in
        let e = binary_op l BinaryOperator.or r in
        ap
          (λ q.
            (((q >>= λ l rest. comparisons p (suc (length rest)) l rest) >>= λ e rest.
            null_tests p e rest)
              >>= λ l rest. conjuncts p (suc (length rest)) l rest)
            >>= λ l rest. disjuncts p (suc (length rest)) l rest)
          (paren-read p l X (hl X))
        ∙ ap
            (λ q. (q >>= λ l rest. conjuncts p (suc (length rest)) l rest) >>= λ r rest.
              disjuncts p (length X) (binary_op l BinaryOperator.or r) rest)
            (from_unary p kind o ts stop (paren r behind) r (paren-read p r behind (hr behind)))
        ∙ ap (λ q. q >>= λ r rest. disjuncts p (length X) (binary_op l BinaryOperator.or r) rest)
            (conjuncts-stop p (length behind) r kind o ts stop)
        ∙ disjuncts-stop p (length (paren r behind)) e kind o ts stop

    binary-read :
        (op : BinaryOperator)
        → IsReadable op
        → parse_or p (spell (binary_op l op r) behind) ≡ parsed (binary_op l op r) behind
    binary-read BinaryOperator.and h = and-read
    binary-read BinaryOperator.or h = or-read
    binary-read BinaryOperator.plus h = absurd h
    binary-read BinaryOperator.minus h = absurd h
    binary-read BinaryOperator.multiply h = absurd h
    binary-read BinaryOperator.divide h = absurd h
    binary-read op h = comparison-read op refl

-- The parser reads an expression back from its spelling in which each operand stands in parentheses,
-- whatever token follows that does not go on with an expression, with fuel above the number of its
-- operators. No INTEGER literal, no arithmetic and no column named like a context has a spelling.
pub parse_expr-spell :
    (e : Expr) (n : ℕ) (kind : TokenKind) (o : ℕ) (ts : List Token)
    → IsSpelled e
    → operator_count e ≤ n
    → stops kind ≡ true
    → parse_expr (suc n) (spell e ((kind, o) ∷ ts)) ≡ parsed e ((kind, o) ∷ ts)
unfolding parse_expr operator_count
parse_expr-spell (literal v) n kind o ts h le stop = literal-read (parse_expr n) kind o ts stop v h
parse_expr-spell (session_context c) n kind o ts h le stop =
    context-read (parse_expr n) kind o ts stop c
parse_expr-spell (column table name) n kind o ts h le stop =
    column-read (parse_expr n) kind o ts stop table name h
parse_expr-spell (parameter index) n kind o ts h le stop =
    parameter-read (parse_expr n) kind o ts stop index
parse_expr-spell e zero kind o ts h le stop = absurd (omega (arith, le))
parse_expr-spell (unary_op UnaryOperator.not e) (suc n) kind o ts h le stop =
    not-read (parse_expr (suc n)) kind o ts stop e
      (λ rest. parse_expr-spell e n TokenKind.r_paren 0 rest h (omega (arith, le)) refl)
parse_expr-spell (unary_op UnaryOperator.negate e) (suc n) kind o ts h le stop =
    negate-read (parse_expr (suc n)) kind o ts stop e
      (λ rest. parse_expr-spell e n TokenKind.r_paren 0 rest h (omega (arith, le)) refl)
parse_expr-spell (is_null e negated) (suc n) kind o ts h le stop =
    is_null-read (parse_expr (suc n)) kind o ts stop e negated
      (λ rest. parse_expr-spell e n TokenKind.r_paren 0 rest h (omega (arith, le)) refl)
parse_expr-spell (binary_op l op r) (suc n) kind o ts (hl, hop, hr) le stop =
    binary-read (parse_expr (suc n)) kind o ts stop l r
      (λ rest. parse_expr-spell l n TokenKind.r_paren 0 rest hl (omega (arith, le)) refl)
      (λ rest. parse_expr-spell r n TokenKind.r_paren 0 rest hr (omega (arith, le)) refl) op hop
