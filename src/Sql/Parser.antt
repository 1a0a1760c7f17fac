-- ===== src/Sql/Parser.antt =====
-- The expressions of crates/sql/src/parser.rs, by descent. The parser is the tokens from its place
-- on: they end with `Eof`, which no rule advances past. The depth of parentheses is fuel, and the
-- rounds of a loop are at most the tokens that are left.
pub mod Spelling
pub mod Atoms
pub mod RoundTrip
pub mod Read
pub mod Statements
pub mod Whole
use simple_rdbms.Common.{
  ℕ, zero, suc, ◌+◌, ◌-◌, Bool, true, false, ◌&&◌, ◌||◌, Option, none, some, List,
}
use simple_rdbms.Common.{[], ◌∷◌, map, length, leb, ◌==◌, if◌then◌else◌}
use simple_rdbms.Common.Options.{bytes_beq}
use simple_rdbms.Sql.Ast.{Name, Expr, BinaryOperator, UnaryOperator, SessionContextName}
use simple_rdbms.Sql.Ast.{current_catalog, current_schema, current_user, session_user, version}
use simple_rdbms.Sql.Token.{
  TokenKind, Token, Expected, a_token, an_identifier, an_expression, SqlError,
}
use simple_rdbms.Sql.Token.{unexpected_token, unexpected_eof, undefined_function}
use simple_rdbms.Types.Value.{Value}

-- What a rule answers, with the tokens behind; `unfinished` is out of fuel.
pub data Parsed (A : Type 0) : Type 0 where
  parsed : A → List Token → Parsed A
  failed : SqlError → Parsed A
  unfinished : Parsed A

infixl 5 ◌>>=◌
abbrev pub ◌>>=◌ : {A B : Type 0} → Parsed A → (A → List Token → Parsed B) → Parsed B
parsed a ts >>= k = k a ts
failed e >>= k = failed e
unfinished >>= k = unfinished

unfoldable pub unexpected : {A : Type 0} → Expected → List Token → Parsed A
unexpected expected [] = failed (unexpected_eof expected)
unexpected expected ((TokenKind.eof, offset) ∷ ts) = failed (unexpected_eof expected)
unexpected expected ((kind, offset) ∷ ts) = failed (unexpected_token expected kind offset)

abbrev pub to_upper : ℕ → ℕ
to_upper b = if leb 97 b && leb b 122 then b - 32 else b

-- `eq_ignore_ascii_case` with a word in upper case.
abbrev pub is_word : Name → Name → Bool
is_word word name = bytes_beq (map to_upper name) word

unfoldable pub keyword : Name → Option SessionContextName
keyword word =
    if is_word
      (b'C' ∷ b'U' ∷ b'R' ∷ b'R' ∷ b'E' ∷ b'N' ∷ b'T' ∷ b'_' ∷ b'C' ∷ b'A' ∷ b'T' ∷ b'A' ∷ b'L'
        ∷ b'O' ∷ b'G' ∷ [])
      word
    then some current_catalog
    else if is_word
        (b'C' ∷ b'U' ∷ b'R' ∷ b'R' ∷ b'E' ∷ b'N' ∷ b'T' ∷ b'_' ∷ b'S' ∷ b'C' ∷ b'H' ∷ b'E' ∷ b'M'
          ∷ b'A' ∷ [])
        word
    then some current_schema
    else if is_word
          (b'C' ∷ b'U' ∷ b'R' ∷ b'R' ∷ b'E' ∷ b'N' ∷ b'T' ∷ b'_' ∷ b'U' ∷ b'S' ∷ b'E' ∷ b'R' ∷ [])
          word
        || is_word (b'U' ∷ b'S' ∷ b'E' ∷ b'R' ∷ []) word
    then some current_user
    else if is_word
        (b'S' ∷ b'E' ∷ b'S' ∷ b'S' ∷ b'I' ∷ b'O' ∷ b'N' ∷ b'_' ∷ b'U' ∷ b'S' ∷ b'E' ∷ b'R' ∷ [])
        word
    then some session_user
    else none

unfoldable pub function : Name → Option SessionContextName
unfolding keyword
function word =
    if is_word
      (b'C' ∷ b'U' ∷ b'R' ∷ b'R' ∷ b'E' ∷ b'N' ∷ b'T' ∷ b'_' ∷ b'D' ∷ b'A' ∷ b'T' ∷ b'A' ∷ b'B'
        ∷ b'A' ∷ b'S' ∷ b'E' ∷ [])
      word
    then some current_catalog
    else if is_word (b'V' ∷ b'E' ∷ b'R' ∷ b'S' ∷ b'I' ∷ b'O' ∷ b'N' ∷ []) word
    then some version
    else keyword word

unfoldable pub expect_identifier : List Token → Parsed Name
unfolding unexpected
expect_identifier ((TokenKind.identifier name, offset) ∷ ts) = parsed name ts
expect_identifier ts = unexpected an_identifier ts

unfoldable pub consume_empty_argument_list :
    SessionContextName → Name → ℕ → List Token → Parsed Expr
consume_empty_argument_list context name offset ((TokenKind.r_paren, o) ∷ ts) =
    parsed (Expr.session_context context) ts
consume_empty_argument_list context name offset ts = failed (undefined_function name offset)

-- The arm of an identifier behind the name: a column of a table, a function, or a name alone.
unfoldable pub parse_named : Name → ℕ → List Token → Parsed Expr
unfolding expect_identifier function keyword consume_empty_argument_list
parse_named name offset ((TokenKind.dot, o) ∷ ts) =
    expect_identifier ts >>= λ column ts. parsed (Expr.column (some name) column) ts
parse_named name offset ((TokenKind.l_paren, o) ∷ ts) = elim (function name) [
  | none ↦ failed (undefined_function name offset)
  | some context ↦ consume_empty_argument_list context name offset ts
]
parse_named name offset ts = elim (keyword name) [
  | some context ↦ parsed (Expr.session_context context) ts
  | none ↦ parsed (Expr.column none name) ts
]

abbrev pub comparison_operator : TokenKind → Option BinaryOperator
comparison_operator TokenKind.eq = some BinaryOperator.eq
comparison_operator TokenKind.not_eq = some BinaryOperator.not_eq
comparison_operator TokenKind.lt = some BinaryOperator.lt
comparison_operator TokenKind.lt_eq = some BinaryOperator.lt_eq
comparison_operator TokenKind.gt = some BinaryOperator.gt
comparison_operator TokenKind.gt_eq = some BinaryOperator.gt_eq
comparison_operator kind = none

-- `expect_kind(RParen)`
unfoldable pub expect_r_paren : List Token → Parsed (Unit {0})
unfolding unexpected
expect_r_paren ((TokenKind.r_paren, offset) ∷ ts) = parsed tt ts
expect_r_paren ts = unexpected (a_token TokenKind.r_paren) ts

module _ (parse_expr : List Token → Parsed Expr) where
  unfoldable pub parse_primary : List Token → Parsed Expr
  unfolding parse_named expect_r_paren unexpected
  parse_primary ((TokenKind.integer_literal v, o) ∷ ts) = parsed (Expr.literal (Value.big_int v)) ts
  parse_primary ((TokenKind.float_literal v, o) ∷ ts) = parsed (Expr.literal (Value.double v)) ts
  parse_primary ((TokenKind.string_literal s, o) ∷ ts) = parsed (Expr.literal (Value.varchar s)) ts
  parse_primary ((TokenKind.true_keyword, o) ∷ ts) = parsed (Expr.literal (Value.boolean true)) ts
  parse_primary ((TokenKind.false_keyword, o) ∷ ts) = parsed (Expr.literal (Value.boolean false)) ts
  parse_primary ((TokenKind.null, o) ∷ ts) = parsed (Expr.literal Value.null) ts
  parse_primary ((TokenKind.parameter index, o) ∷ ts) = parsed (Expr.parameter index) ts
  parse_primary ((TokenKind.identifier name, o) ∷ ts) = parse_named name o ts
  parse_primary ((TokenKind.l_paren, o) ∷ ts) =
      parse_expr ts >>= λ e ts. expect_r_paren ts >>= λ _ ts. parsed e ts
  parse_primary ts = unexpected an_expression ts

  unfoldable pub parse_unary : List Token → Parsed Expr
  unfolding parse_primary
  parse_unary ((TokenKind.minus, o) ∷ ts) =
      parse_unary ts >>= λ e ts. parsed (Expr.unary_op UnaryOperator.negate e) ts
  parse_unary ts = parse_primary ts

  -- The loop of `parse_comparison`, at most `n` rounds.
  unfoldable pub comparisons : ℕ → Expr → List Token → Parsed Expr
  unfolding parse_unary
  comparisons zero left ts = unfinished
  comparisons (suc n) left [] = parsed left []
  comparisons (suc n) left ((kind, o) ∷ ts) = elim (comparison_operator kind) [
    | none ↦ parsed left ((kind, o) ∷ ts)
    | some op ↦ parse_unary ts >>= λ right ts. comparisons n (Expr.binary_op left op right) ts
  ]

  unfoldable pub parse_comparison : List Token → Parsed Expr
  unfolding parse_unary comparisons
  parse_comparison ts = parse_unary ts >>= λ left rest. comparisons (suc (length rest)) left rest

  -- The loop of `parse_is_null`.
  unfoldable pub null_tests : Expr → List Token → Parsed Expr
  unfolding unexpected
  null_tests e ((TokenKind.is, o) ∷ (TokenKind.not, o₁) ∷ (TokenKind.null, o₂) ∷ ts) =
      null_tests (Expr.is_null e true) ts
  null_tests e ((TokenKind.is, o) ∷ (TokenKind.null, o₁) ∷ ts) =
      null_tests (Expr.is_null e false) ts
  null_tests e ((TokenKind.is, o) ∷ (TokenKind.not, o₁) ∷ ts) =
      unexpected (a_token TokenKind.null) ts
  null_tests e ((TokenKind.is, o) ∷ ts) = unexpected (a_token TokenKind.null) ts
  null_tests e ts = parsed e ts

  unfoldable pub parse_is_null : List Token → Parsed Expr
  unfolding parse_comparison null_tests
  parse_is_null ts = parse_comparison ts >>= λ e rest. null_tests e rest

  unfoldable pub parse_not : List Token → Parsed Expr
  unfolding parse_is_null
  parse_not ((TokenKind.not, o) ∷ ts) =
      parse_not ts >>= λ e ts. parsed (Expr.unary_op UnaryOperator.not e) ts
  parse_not ts = parse_is_null ts

  -- The loops of `parse_and` and of `parse_or`.
  unfoldable pub conjuncts : ℕ → Expr → List Token → Parsed Expr
  unfolding parse_not
  conjuncts zero left ts = unfinished
  conjuncts (suc n) left ((TokenKind.and, o) ∷ ts) =
      parse_not ts >>= λ right ts. conjuncts n (Expr.binary_op left BinaryOperator.and right) ts
  conjuncts (suc n) left ts = parsed left ts

  unfoldable pub parse_and : List Token → Parsed Expr
  unfolding parse_not conjuncts
  parse_and ts = parse_not ts >>= λ left rest. conjuncts (suc (length rest)) left rest

  unfoldable pub disjuncts : ℕ → Expr → List Token → Parsed Expr
  unfolding parse_and
  disjuncts zero left ts = unfinished
  disjuncts (suc n) left ((TokenKind.or, o) ∷ ts) =
      parse_and ts >>= λ right ts. disjuncts n (Expr.binary_op left BinaryOperator.or right) ts
  disjuncts (suc n) left ts = parsed left ts

  unfoldable pub parse_or : List Token → Parsed Expr
  unfolding parse_and disjuncts
  parse_or ts = parse_and ts >>= λ left rest. disjuncts (suc (length rest)) left rest

unfoldable pub parse_expr : ℕ → List Token → Parsed Expr
unfolding parse_or
parse_expr zero ts = unfinished
parse_expr (suc n) ts = parse_or (parse_expr n) ts
