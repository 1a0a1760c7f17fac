-- ===== src/Sql/Parser/Read.antt =====
-- What crates/sql/src/parser.rs reads of a spelled expression with the fuel that its tokens give.
use simple_rdbms.Common.{ℕ, ◌+◌, ◌≤◌, ◌≡◌, Bool, true, false, none, some, List, ◌∷◌, length, arith}
use simple_rdbms.Sql.Ast.{
  Expr, literal, session_context, column, binary_op, unary_op, is_null, parameter,
}
use simple_rdbms.Sql.Ast.{UnaryOperator, SessionContextName}
use simple_rdbms.Sql.Ast.{current_catalog, current_schema, current_user, session_user, version}
use simple_rdbms.Sql.Token.{TokenKind, Token}
use simple_rdbms.Sql.Parser.{parsed}
use simple_rdbms.Sql.Parser.Statements.{parse_whole_expr}
use simple_rdbms.Sql.Parser.Spelling.{tok, spell, spell_operator, spell_context, spell_negated}
use simple_rdbms.Sql.Parser.Spelling.{operator_count, IsSpelled, stops}
use simple_rdbms.Sql.Parser.RoundTrip.{parse_expr-spell}

context-longer :
    (c : SessionContextName) (rest : List Token) → length rest ≤ length (spell_context c rest)
context-longer current_catalog rest = omega (arith)
context-longer current_schema rest = omega (arith)
context-longer current_user rest = omega (arith)
context-longer session_user rest = omega (arith)
context-longer version rest = omega (arith)

negated-longer : (b : Bool) (rest : List Token) → length rest ≤ length (spell_negated b rest)
negated-longer true rest = omega (arith)
negated-longer false rest = omega (arith)

-- Each operator of an expression has tokens of its own.
operator_count-spell :
    (e : Expr) (rest : List Token) → operator_count e + length rest ≤ length (spell e rest)
unfolding operator_count spell
operator_count-spell (literal v) rest = omega (arith)
operator_count-spell (session_context c) rest = omega (arith, context-longer c rest)
operator_count-spell (column none name) rest = omega (arith)
operator_count-spell (column (some table) name) rest = omega (arith)
operator_count-spell (parameter index) rest = omega (arith)
operator_count-spell (unary_op UnaryOperator.not e) rest =
    omega (arith, operator_count-spell e (tok TokenKind.r_paren ∷ rest))
operator_count-spell (unary_op UnaryOperator.negate e) rest =
    omega (arith, operator_count-spell e (tok TokenKind.r_paren ∷ rest))
operator_count-spell (is_null e negated) rest = omega (
  arith,
  negated-longer negated rest,
  operator_count-spell e (tok TokenKind.r_paren ∷ tok TokenKind.is ∷ spell_negated negated rest),
)
operator_count-spell (binary_op l op r) rest =
    let behind = tok TokenKind.r_paren ∷ rest in
    omega (
      arith,
      operator_count-spell r behind,
      operator_count-spell l (
          tok TokenKind.r_paren ∷ tok (spell_operator op) ∷ tok TokenKind.l_paren ∷ spell r behind),
    )

-- The parser reads an expression back from its spelling in which each operand stands in parentheses,
-- whatever token follows that does not go on with an expression; the tokens are fuel enough. No
-- INTEGER literal, no arithmetic and no column named like a context has a spelling.
pub parse_whole_expr-spell :
    (e : Expr) (kind : TokenKind) (o : ℕ) (ts : List Token)
    → IsSpelled e
    → stops kind ≡ true
    → parse_whole_expr (spell e ((kind, o) ∷ ts)) ≡ parsed e ((kind, o) ∷ ts)
unfolding parse_whole_expr
parse_whole_expr-spell e kind o ts h stop =
    let rest = (kind, o) ∷ ts in
    parse_expr-spell e (length (spell e rest)) kind o ts h
      (omega (arith, operator_count-spell e rest)) stop
