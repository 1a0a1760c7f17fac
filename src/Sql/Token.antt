-- ===== src/Sql/Token.antt =====
-- crates/sql/src/token.rs and the errors of crates/sql/src/error.rs. A token is its kind and its offset.
use simple_rdbms.Common.{ℕ, List}
use simple_rdbms.Common.Int.{ℤ}
use simple_rdbms.Sql.Ast.{Name}

pub data TokenKind : Type 0 where
  select from where_keyword insert into values as_keyword create table index on : TokenKind
  and or not is null true_keyword false_keyword : TokenKind
  begin start transaction commit rollback explain : TokenKind
  identifier : Name → TokenKind
  integer_literal : ℤ → TokenKind
  float_literal : (bits : ℕ) → TokenKind
  string_literal : List ℕ → TokenKind
  parameter : ℕ → TokenKind
  comma semicolon l_paren r_paren star dot plus minus slash : TokenKind
  eq not_eq lt lt_eq gt gt_eq eof : TokenKind

abbrev pub Token : Type 0
Token = TokenKind × ℕ

-- The texts of what is expected.
pub data Expected : Type 0 where
  a_token : TokenKind → Expected
  an_identifier an_expression a_type_name a_statement end_of_statement : Expected

pub data SqlError : Type 0 where
  unexpected_char : (ch : ℕ) (offset : ℕ) → SqlError
  unterminated_string : (offset : ℕ) → SqlError
  unexpected_token : Expected → (found : TokenKind) (offset : ℕ) → SqlError
  unexpected_eof : Expected → SqlError
  invalid_numeric_literal invalid_parameter : (text : Name) (offset : ℕ) → SqlError
  explain_of_transaction_control nested_explain wildcard_without_from : (offset : ℕ) → SqlError
  undefined_function : (name : Name) (offset : ℕ) → SqlError
