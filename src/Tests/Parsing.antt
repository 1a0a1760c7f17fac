-- ===== src/Tests/Parsing.antt =====
-- The parser on the tokens of a condition and of a statement.
use simple_rdbms.Common.{◌≡◌, refl, true, false, none, some, [], ◌∷◌}
use simple_rdbms.Common.Int.{pos}
use simple_rdbms.Sql.Ast.{Name, Expr, BinaryOperator, wildcard, Statement}
use simple_rdbms.Sql.Token.{TokenKind}
use simple_rdbms.Sql.Parser.{parsed, keyword}
use simple_rdbms.Sql.Parser.Spelling.{tok, spell}
use simple_rdbms.Sql.Parser.Read.{parse_whole_expr-spell}
use simple_rdbms.Sql.Parser.Statements.{parse_whole_expr}
use simple_rdbms.Sql.Parser.Whole.{parse}
use simple_rdbms.Types.Value.{Value}

abbrev age : Name
age = b'a' ∷ b'g' ∷ b'e' ∷ []

abbrev at_least : Expr
at_least =
    Expr.binary_op (Expr.column none age) BinaryOperator.gt_eq
      (Expr.literal (Value.big_int (pos 18)))

-- `(age >= 18) AND ((age) IS NOT NULL)`
abbrev adult : Expr
adult = Expr.binary_op at_least BinaryOperator.and (Expr.is_null (Expr.column none age) true)

age_no_keyword : keyword age ≡ none
unfolding keyword
age_no_keyword = refl

parse_whole_expr-spell_example :
    parse_whole_expr (spell adult (tok TokenKind.eof ∷ [])) ≡ parsed adult (tok TokenKind.eof ∷ [])
parse_whole_expr-spell_example =
    parse_whole_expr-spell adult TokenKind.eof 0 [] ((age_no_keyword, tt, tt), tt, age_no_keyword)
      refl

-- `EXPLAIN SELECT *` without FROM, then with it.
explained_query :
    parse (
      tok TokenKind.explain
      ∷ tok TokenKind.select
      ∷ tok TokenKind.star
      ∷ tok TokenKind.from
      ∷ tok (TokenKind.identifier age)
      ∷ tok TokenKind.semicolon
      ∷ tok TokenKind.eof
      ∷ [])
    ≡ parsed
        (Statement.explain false (
          Statement.select (record {
            items = wildcard ∷ [];
            from = some (record { name = age; alias = none });
            where_clause = none;
          })))
        (tok TokenKind.eof ∷ [])
unfolding parse
explained_query = refl
