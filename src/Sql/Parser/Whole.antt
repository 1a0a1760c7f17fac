-- ===== src/Sql/Parser/Whole.antt =====
-- `parse` of crates/sql/src/parser.rs and the statements that create tables and indexes.
use simple_rdbms.Common.{ℕ, zero, suc, Bool, true, false, List, [], ◌∷◌, length, if◌then◌else◌}
use simple_rdbms.Sql.Ast.{Statement}
use simple_rdbms.Sql.Token.{TokenKind, Token, a_token, a_statement, end_of_statement}
use simple_rdbms.Sql.Token.{explain_of_transaction_control, nested_explain}
use simple_rdbms.Sql.Parser.{Parsed, parsed, failed, unfinished, ◌>>=◌, unexpected, is_word}
use simple_rdbms.Sql.Parser.{expect_identifier, expect_r_paren}
use simple_rdbms.Sql.Parser.Statements.{expect_table, expect_l_paren, expect_on, comma_separated}
use simple_rdbms.Sql.Parser.Statements.{parse_col_def, parse_select, parse_insert}

-- Behind CREATE.
unfoldable pub parse_create_table : List Token → Parsed Statement
unfolding expect_table expect_identifier expect_l_paren comma_separated parse_col_def expect_r_paren
parse_create_table ts = expect_table ts >>= λ _ rest. expect_identifier rest >>= λ table rest.
    expect_l_paren rest >>= λ _ rest. comma_separated parse_col_def rest >>= λ columns rest.
    expect_r_paren rest >>= λ _ rest.
    parsed (Statement.create_table (record { table = table; columns = columns })) rest

-- Behind CREATE INDEX.
unfoldable pub parse_create_index : List Token → Parsed Statement
unfolding expect_identifier expect_on expect_l_paren expect_r_paren
parse_create_index ts = expect_identifier ts >>= λ index_name rest. expect_on rest >>= λ _ rest.
    expect_identifier rest >>= λ table rest. expect_l_paren rest >>= λ _ rest.
    expect_identifier rest >>= λ column rest. expect_r_paren rest >>= λ _ rest.
    parsed
      (Statement.create_index (record { index_name = index_name; table = table; column = column }))
      rest

unfoldable pub parse_start : List Token → Parsed Statement
unfolding unexpected
parse_start ((TokenKind.transaction, o) ∷ ts) = parsed Statement.begin ts
parse_start ts = unexpected (a_token TokenKind.transaction) ts

-- The match of `parse_explain` on the inner statement.
unfoldable pub explained : ℕ → Bool → Statement → List Token → Parsed Statement
explained offset verbose Statement.begin ts = failed (explain_of_transaction_control offset)
explained offset verbose Statement.commit ts = failed (explain_of_transaction_control offset)
explained offset verbose Statement.rollback ts = failed (explain_of_transaction_control offset)
explained offset verbose (Statement.explain v inner) ts = failed (nested_explain offset)
explained offset verbose inner ts = parsed (Statement.explain verbose inner) ts

-- `consume_verbose_keyword`
unfoldable pub consume_verbose_keyword : List Token → Bool × List Token
consume_verbose_keyword ((TokenKind.identifier name, o) ∷ ts) =
    if is_word (b'V' ∷ b'E' ∷ b'R' ∷ b'B' ∷ b'O' ∷ b'S' ∷ b'E' ∷ []) name
    then (true, ts)
    else (false, (TokenKind.identifier name, o) ∷ ts)
consume_verbose_keyword ts = (false, ts)

-- Each EXPLAIN takes fuel.
unfoldable pub parse_statement : ℕ → List Token → Parsed Statement
unfolding parse_select parse_insert parse_create_index parse_create_table parse_start explained
    consume_verbose_keyword unexpected
parse_statement zero ts = unfinished
parse_statement (suc n) ((TokenKind.select, o) ∷ ts) = parse_select ts
parse_statement (suc n) ((TokenKind.insert, o) ∷ ts) = parse_insert ts
parse_statement (suc n) ((TokenKind.create, o) ∷ (TokenKind.index, o₁) ∷ ts) = parse_create_index ts
parse_statement (suc n) ((TokenKind.create, o) ∷ ts) = parse_create_table ts
parse_statement (suc n) ((TokenKind.begin, o) ∷ ts) = parsed Statement.begin ts
parse_statement (suc n) ((TokenKind.start, o) ∷ ts) = parse_start ts
parse_statement (suc n) ((TokenKind.commit, o) ∷ ts) = parsed Statement.commit ts
parse_statement (suc n) ((TokenKind.rollback, o) ∷ ts) = parsed Statement.rollback ts
parse_statement (suc n) ((TokenKind.explain, o) ∷ ts) =
    let (verbose, rest) = consume_verbose_keyword ts in
    parse_statement n rest >>= λ inner rest. explained o verbose inner rest
parse_statement (suc n) ts = unexpected a_statement ts

-- The end of a statement, behind its semicolon.
unfoldable pub parse_end : Statement → List Token → Parsed Statement
unfolding unexpected
parse_end statement ((TokenKind.eof, o) ∷ ts) = parsed statement ((TokenKind.eof, o) ∷ ts)
parse_end statement ts = unexpected end_of_statement ts

unfoldable pub after_semicolon : List Token → List Token
after_semicolon ((TokenKind.semicolon, o) ∷ ts) = ts
after_semicolon ts = ts

unfoldable pub parse : List Token → Parsed Statement
unfolding parse_statement parse_end after_semicolon
parse ts = parse_statement (suc (length ts)) ts >>= λ statement rest.
    parse_end statement (after_semicolon rest)
