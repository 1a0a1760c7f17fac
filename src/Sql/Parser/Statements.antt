-- ===== src/Sql/Parser/Statements.antt =====
-- The statements of crates/sql/src/parser.rs. The tokens that are left are fuel enough for each loop
-- and for the parentheses of each expression.
use simple_rdbms.Common.{
  ℕ, zero, suc, Bool, true, false, ◌||◌, Option, none, some, List, [], ◌∷◌, ◌++◌,
}
use simple_rdbms.Common.{length, any, ◌^◌, ◌-◌, if◌then◌else◌}
use simple_rdbms.Sql.Ast.{Name, Expr, SelectItem, wildcard, TableRef}
use simple_rdbms.Sql.Ast.{ColumnDef, Statement}
use simple_rdbms.Sql.Token.{TokenKind, Token, a_token, a_type_name}
use simple_rdbms.Sql.Token.{wildcard_without_from}
use simple_rdbms.Sql.Parser.{Parsed, parsed, failed, unfinished, ◌>>=◌, unexpected, is_word}
use simple_rdbms.Sql.Parser.{expect_identifier, expect_r_paren, parse_expr}
use simple_rdbms.Types.Value.{DataType}

-- `parse_expr` with the fuel that the tokens give.
unfoldable pub parse_whole_expr : List Token → Parsed Expr
unfolding parse_expr
parse_whole_expr ts = parse_expr (suc (length ts)) ts

unfoldable pub expect_l_paren : List Token → Parsed (Unit {0})
unfolding unexpected
expect_l_paren ((TokenKind.l_paren, o) ∷ ts) = parsed tt ts
expect_l_paren ts = unexpected (a_token TokenKind.l_paren) ts

unfoldable pub expect_into : List Token → Parsed (Unit {0})
unfolding unexpected
expect_into ((TokenKind.into, o) ∷ ts) = parsed tt ts
expect_into ts = unexpected (a_token TokenKind.into) ts

unfoldable pub expect_values : List Token → Parsed (Unit {0})
unfolding unexpected
expect_values ((TokenKind.values, o) ∷ ts) = parsed tt ts
expect_values ts = unexpected (a_token TokenKind.values) ts

unfoldable pub expect_table : List Token → Parsed (Unit {0})
unfolding unexpected
expect_table ((TokenKind.table, o) ∷ ts) = parsed tt ts
expect_table ts = unexpected (a_token TokenKind.table) ts

unfoldable pub expect_on : List Token → Parsed (Unit {0})
unfolding unexpected
expect_on ((TokenKind.on, o) ∷ ts) = parsed tt ts
expect_on ts = unexpected (a_token TokenKind.on) ts

-- `while matches!(self.current().kind, TokenKind::Comma)` after a first item; at most `n` rounds.
unfoldable pub comma_list :
    {A : Type 0} → ℕ → (List Token → Parsed A) → List A → List Token → Parsed (List A)
comma_list zero item items ts = unfinished
comma_list (suc n) item items ((TokenKind.comma, o) ∷ ts) =
    item ts >>= λ a rest. comma_list n item (items ++ a ∷ []) rest
comma_list (suc n) item items ts = parsed items ts

-- A first item and those behind commas.
unfoldable pub comma_separated :
    {A : Type 0} → (List Token → Parsed A) → List Token → Parsed (List A)
unfolding comma_list
comma_separated item ts = item ts >>= λ a rest. comma_list (suc (length rest)) item (a ∷ []) rest

unfoldable pub parse_item : List Token → Parsed SelectItem
unfolding parse_whole_expr
parse_item ts = parse_whole_expr ts >>= λ e rest. parsed (SelectItem.expr e) rest

unfoldable pub parse_select_list : List Token → Parsed (List SelectItem)
unfolding comma_separated parse_item
parse_select_list ((TokenKind.star, o) ∷ ts) = parsed (wildcard ∷ []) ts
parse_select_list ts = comma_separated parse_item ts

abbrev pub reserved_words : List Name
reserved_words =
    (b'O' ∷ b'R' ∷ b'D' ∷ b'E' ∷ b'R' ∷ [])
    ∷ (b'B' ∷ b'Y' ∷ [])
    ∷ (b'G' ∷ b'R' ∷ b'O' ∷ b'U' ∷ b'P' ∷ [])
    ∷ (b'H' ∷ b'A' ∷ b'V' ∷ b'I' ∷ b'N' ∷ b'G' ∷ [])
    ∷ (b'L' ∷ b'I' ∷ b'M' ∷ b'I' ∷ b'T' ∷ [])
    ∷ (b'O' ∷ b'F' ∷ b'F' ∷ b'S' ∷ b'E' ∷ b'T' ∷ [])
    ∷ (b'J' ∷ b'O' ∷ b'I' ∷ b'N' ∷ [])
    ∷ (b'I' ∷ b'N' ∷ b'N' ∷ b'E' ∷ b'R' ∷ [])
    ∷ (b'L' ∷ b'E' ∷ b'F' ∷ b'T' ∷ [])
    ∷ (b'R' ∷ b'I' ∷ b'G' ∷ b'H' ∷ b'T' ∷ [])
    ∷ (b'F' ∷ b'U' ∷ b'L' ∷ b'L' ∷ [])
    ∷ (b'O' ∷ b'U' ∷ b'T' ∷ b'E' ∷ b'R' ∷ [])
    ∷ (b'C' ∷ b'R' ∷ b'O' ∷ b'S' ∷ b'S' ∷ [])
    ∷ (b'O' ∷ b'N' ∷ [])
    ∷ (b'U' ∷ b'S' ∷ b'I' ∷ b'N' ∷ b'G' ∷ [])
    ∷ (b'U' ∷ b'N' ∷ b'I' ∷ b'O' ∷ b'N' ∷ [])
    ∷ (b'I' ∷ b'N' ∷ b'T' ∷ b'E' ∷ b'R' ∷ b'S' ∷ b'E' ∷ b'C' ∷ b'T' ∷ [])
    ∷ (b'E' ∷ b'X' ∷ b'C' ∷ b'E' ∷ b'P' ∷ b'T' ∷ [])
    ∷ (b'R' ∷ b'E' ∷ b'T' ∷ b'U' ∷ b'R' ∷ b'N' ∷ b'I' ∷ b'N' ∷ b'G' ∷ [])
    ∷ (b'S' ∷ b'E' ∷ b'T' ∷ [])
    ∷ (b'W' ∷ b'H' ∷ b'E' ∷ b'R' ∷ b'E' ∷ [])
    ∷ (b'F' ∷ b'R' ∷ b'O' ∷ b'M' ∷ [])
    ∷ []

unfoldable pub is_reserved_word : Name → Bool
is_reserved_word word = any (λ reserved. is_word reserved word) reserved_words

unfoldable pub parse_optional_table_alias : List Token → Parsed (Option Name)
unfolding expect_identifier is_reserved_word
parse_optional_table_alias ((TokenKind.as_keyword, o) ∷ ts) =
    expect_identifier ts >>= λ name rest. parsed (some name) rest
parse_optional_table_alias ((TokenKind.identifier name, o) ∷ ts) =
    if is_reserved_word name
    then parsed none ((TokenKind.identifier name, o) ∷ ts)
    else parsed (some name) ts
parse_optional_table_alias ts = parsed none ts

unfoldable pub parse_table_ref : List Token → Parsed TableRef
unfolding expect_identifier parse_optional_table_alias
parse_table_ref ts = expect_identifier ts >>= λ name rest.
    parse_optional_table_alias rest >>= λ alias rest.
    parsed (record { name = name; alias = alias }) rest

abbrev pub is_wildcard : SelectItem → Bool
is_wildcard wildcard = true
is_wildcard (SelectItem.expr e) = false

-- The FROM clause behind the list of items, which starts at the offset.
unfoldable pub parse_from : ℕ → List SelectItem → List Token → Parsed (Option TableRef)
unfolding parse_table_ref
parse_from list_offset items ((TokenKind.from, o) ∷ ts) =
    parse_table_ref ts >>= λ table rest. parsed (some table) rest
parse_from list_offset items ts =
    if any is_wildcard items then failed (wildcard_without_from list_offset) else parsed none ts

unfoldable pub parse_where : List Token → Parsed (Option Expr)
unfolding parse_whole_expr
parse_where ((TokenKind.where_keyword, o) ∷ ts) =
    parse_whole_expr ts >>= λ e rest. parsed (some e) rest
parse_where ts = parsed none ts

abbrev pub current_offset : List Token → ℕ
current_offset [] = 0
current_offset ((kind, o) ∷ ts) = o

-- Behind SELECT.
unfoldable pub parse_select : List Token → Parsed Statement
unfolding parse_select_list parse_from parse_where
parse_select ts = parse_select_list ts >>= λ items rest.
    parse_from (current_offset ts) items rest >>= λ from rest.
    parse_where rest >>= λ where_clause rest.
    parsed (Statement.select (record { items = items; from = from; where_clause = where_clause }))
      rest

unfoldable pub parse_value_row : List Token → Parsed (List Expr)
unfolding expect_l_paren comma_separated parse_whole_expr expect_r_paren
parse_value_row ts = expect_l_paren ts >>= λ _ rest.
    comma_separated parse_whole_expr rest >>= λ exprs rest.
    expect_r_paren rest >>= λ _ rest. parsed exprs rest

-- The columns in parentheses, if there are any.
unfoldable pub parse_columns : List Token → Parsed (List Name)
unfolding comma_separated expect_identifier expect_r_paren
parse_columns ((TokenKind.l_paren, o) ∷ ts) =
    comma_separated expect_identifier ts >>= λ columns rest.
    expect_r_paren rest >>= λ _ rest. parsed columns rest
parse_columns ts = parsed [] ts

-- Behind INSERT.
unfoldable pub parse_insert : List Token → Parsed Statement
unfolding expect_into expect_identifier parse_columns expect_values comma_separated parse_value_row
parse_insert ts = expect_into ts >>= λ _ rest. expect_identifier rest >>= λ table rest.
    parse_columns rest >>= λ columns rest. expect_values rest >>= λ _ rest.
    comma_separated parse_value_row rest >>= λ values rest.
    parsed (Statement.insert (record { table = table; columns = columns; values = values })) rest

unfoldable pub type_of_word : Name → Option DataType
type_of_word name =
    if is_word (b'I' ∷ b'N' ∷ b'T' ∷ b'E' ∷ b'G' ∷ b'E' ∷ b'R' ∷ []) name
      || is_word (b'I' ∷ b'N' ∷ b'T' ∷ []) name
    then some DataType.integer
    else if is_word (b'B' ∷ b'I' ∷ b'G' ∷ b'I' ∷ b'N' ∷ b'T' ∷ []) name
    then some DataType.big_int
    else if is_word (b'D' ∷ b'O' ∷ b'U' ∷ b'B' ∷ b'L' ∷ b'E' ∷ []) name
    then some DataType.double
    else if is_word (b'T' ∷ b'E' ∷ b'X' ∷ b'T' ∷ []) name
    then some (DataType.varchar (2 ^ 32 - 1))
    else if is_word (b'B' ∷ b'O' ∷ b'O' ∷ b'L' ∷ b'E' ∷ b'A' ∷ b'N' ∷ []) name
    then some DataType.boolean
    else none

unfoldable pub parse_type_name : List Token → Parsed DataType
unfolding type_of_word unexpected
parse_type_name ((TokenKind.identifier name, o) ∷ ts) = elim (type_of_word name) [
  | some t ↦ parsed t ts
  | none ↦ unexpected a_type_name ((TokenKind.identifier name, o) ∷ ts)
]
parse_type_name ts = unexpected a_type_name ts

unfoldable pub parse_col_def : List Token → Parsed ColumnDef
unfolding expect_identifier parse_type_name
parse_col_def ts = expect_identifier ts >>= λ name rest. parse_type_name rest >>= λ t rest.
    parsed (record { name = name; data_type = t; nullable = true }) rest
