-- ===== src/Sql/Parser/Spelling.antt =====
-- A spelling of the expressions that crates/sql/src/parser.rs can read, each operand in parentheses.
use simple_rdbms.Common.{ℕ, suc, ◌+◌, ◌≡◌, Bool, true, false, none, some, List, [], ◌∷◌}
use simple_rdbms.Sql.Ast.{
  Name, Expr, literal, session_context, column, binary_op, unary_op, is_null,
}
use simple_rdbms.Sql.Ast.{parameter, BinaryOperator, UnaryOperator, SessionContextName}
use simple_rdbms.Sql.Ast.{current_catalog, current_schema, current_user, session_user, version}
use simple_rdbms.Sql.Token.{TokenKind, Token}
use simple_rdbms.Sql.Parser.{keyword}
use simple_rdbms.Types.Value.{Value}

abbrev pub tok : TokenKind → Token
tok kind = (kind, 0)

abbrev pub spell_literal : Value → TokenKind
spell_literal (Value.boolean true) = TokenKind.true_keyword
spell_literal (Value.boolean false) = TokenKind.false_keyword
spell_literal (Value.big_int v) = TokenKind.integer_literal v
spell_literal (Value.double bits) = TokenKind.float_literal bits
spell_literal (Value.varchar s) = TokenKind.string_literal s
spell_literal _ = TokenKind.null

abbrev pub spell_operator : BinaryOperator → TokenKind
spell_operator BinaryOperator.eq = TokenKind.eq
spell_operator BinaryOperator.not_eq = TokenKind.not_eq
spell_operator BinaryOperator.lt = TokenKind.lt
spell_operator BinaryOperator.lt_eq = TokenKind.lt_eq
spell_operator BinaryOperator.gt = TokenKind.gt
spell_operator BinaryOperator.gt_eq = TokenKind.gt_eq
spell_operator BinaryOperator.and = TokenKind.and
spell_operator BinaryOperator.or = TokenKind.or
spell_operator BinaryOperator.plus = TokenKind.plus
spell_operator BinaryOperator.minus = TokenKind.minus
spell_operator BinaryOperator.multiply = TokenKind.star
spell_operator BinaryOperator.divide = TokenKind.slash

abbrev pub spell_negated : Bool → List Token → List Token
spell_negated true rest = tok TokenKind.not ∷ tok TokenKind.null ∷ rest
spell_negated false rest = tok TokenKind.null ∷ rest

-- A word for each context.
abbrev pub context_word : SessionContextName → Name
context_word current_catalog =
    b'c' ∷ b'u' ∷ b'r' ∷ b'r' ∷ b'e' ∷ b'n' ∷ b't' ∷ b'_' ∷ b'c' ∷ b'a' ∷ b't' ∷ b'a' ∷ b'l' ∷ b'o'
    ∷ b'g' ∷ []
context_word current_schema =
    b'c' ∷ b'u' ∷ b'r' ∷ b'r' ∷ b'e' ∷ b'n' ∷ b't' ∷ b'_' ∷ b's' ∷ b'c' ∷ b'h' ∷ b'e' ∷ b'm' ∷ b'a'
    ∷ []
context_word current_user = b'u' ∷ b's' ∷ b'e' ∷ b'r' ∷ []
context_word session_user =
    b's' ∷ b'e' ∷ b's' ∷ b's' ∷ b'i' ∷ b'o' ∷ b'n' ∷ b'_' ∷ b'u' ∷ b's' ∷ b'e' ∷ b'r' ∷ []
context_word version = b'v' ∷ b'e' ∷ b'r' ∷ b's' ∷ b'i' ∷ b'o' ∷ b'n' ∷ []

abbrev pub spell_context : SessionContextName → List Token → List Token
spell_context version rest =
    tok (TokenKind.identifier (context_word version))
    ∷ tok TokenKind.l_paren
    ∷ tok TokenKind.r_paren
    ∷ rest
spell_context context rest = tok (TokenKind.identifier (context_word context)) ∷ rest

-- The tokens of an expression, before the rest.
unfoldable pub spell : Expr → List Token → List Token
spell (literal v) rest = tok (spell_literal v) ∷ rest
spell (session_context context) rest = spell_context context rest
spell (column none name) rest = tok (TokenKind.identifier name) ∷ rest
spell (column (some table) name) rest =
    tok (TokenKind.identifier table) ∷ tok TokenKind.dot ∷ tok (TokenKind.identifier name) ∷ rest
spell (binary_op l op r) rest =
    tok TokenKind.l_paren
    ∷ spell l (
        tok TokenKind.r_paren
        ∷ tok (spell_operator op)
        ∷ tok TokenKind.l_paren
        ∷ spell r (tok TokenKind.r_paren ∷ rest))
spell (unary_op UnaryOperator.not e) rest =
    tok TokenKind.not ∷ tok TokenKind.l_paren ∷ spell e (tok TokenKind.r_paren ∷ rest)
spell (unary_op UnaryOperator.negate e) rest =
    tok TokenKind.minus ∷ tok TokenKind.l_paren ∷ spell e (tok TokenKind.r_paren ∷ rest)
spell (is_null e negated) rest =
    tok TokenKind.l_paren
    ∷ spell e (tok TokenKind.r_paren ∷ tok TokenKind.is ∷ spell_negated negated rest)
spell (parameter index) rest = tok (TokenKind.parameter index) ∷ rest

-- The operators of an expression, which bound the nesting of its parentheses.
unfoldable pub operator_count : Expr → ℕ
operator_count (binary_op l op r) = suc (operator_count l + operator_count r)
operator_count (unary_op op e) = suc (operator_count e)
operator_count (is_null e negated) = suc (operator_count e)
operator_count _ = 0

abbrev pub IsReadable : BinaryOperator → Type 0
IsReadable BinaryOperator.plus = ⊥
IsReadable BinaryOperator.minus = ⊥
IsReadable BinaryOperator.multiply = ⊥
IsReadable BinaryOperator.divide = ⊥
IsReadable _ = Unit {0}

-- The expressions that have a spelling: no INTEGER literal, which only the binder makes, no
-- arithmetic, and no column that has the name of a context.
abbrev pub IsSpelled : Expr → Type 0
IsSpelled (literal (Value.integer v)) = ⊥
IsSpelled (literal v) = Unit {0}
IsSpelled (column none name) = keyword name ≡ none
IsSpelled (binary_op l op r) = IsSpelled l × IsReadable op × IsSpelled r
IsSpelled (unary_op op e) = IsSpelled e
IsSpelled (is_null e negated) = IsSpelled e
IsSpelled _ = Unit {0}

-- Whether an expression cannot go on with the token.
abbrev pub stops : TokenKind → Bool
stops TokenKind.or = false
stops TokenKind.and = false
stops TokenKind.is = false
stops TokenKind.eq = false
stops TokenKind.not_eq = false
stops TokenKind.lt = false
stops TokenKind.lt_eq = false
stops TokenKind.gt = false
stops TokenKind.gt_eq = false
stops TokenKind.dot = false
stops TokenKind.l_paren = false
stops _ = true
