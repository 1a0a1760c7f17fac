-- ===== src/Sql/Parser/Atoms.antt =====
-- What crates/sql/src/parser.rs reads of an atom and where its loops stop.
use simple_rdbms.Common.{ℕ, suc, ◌≡◌, refl, ap, ◌∙◌, true, false, Option}
use simple_rdbms.Common.{none, some, List, ◌∷◌, length}
use simple_rdbms.Sql.Ast.{Name, Expr, literal, session_context, column}
use simple_rdbms.Sql.Ast.{parameter, SessionContextName}
use simple_rdbms.Sql.Ast.{current_catalog, current_schema, current_user, session_user, version}
use simple_rdbms.Sql.Token.{TokenKind, Token}
use simple_rdbms.Sql.Parser.{Parsed, parsed, ◌>>=◌, keyword, parse_named}
use simple_rdbms.Sql.Parser.{parse_primary, parse_unary, comparisons, parse_comparison, null_tests}
use simple_rdbms.Sql.Parser.{parse_is_null, parse_not, conjuncts, parse_and, disjuncts, parse_or}
use simple_rdbms.Sql.Parser.{function, expect_r_paren, expect_identifier}
use simple_rdbms.Sql.Parser.Spelling.{tok, context_word, spell, IsSpelled, stops}
use simple_rdbms.Types.Value.{Value}

module _ (p : List Token → Parsed Expr) where
  pub comparisons-stop :
      (n : ℕ) (e : Expr) (kind : TokenKind) (o : ℕ) (ts : List Token)
      → stops kind ≡ true
      → comparisons p (suc n) e ((kind, o) ∷ ts) ≡ parsed e ((kind, o) ∷ ts)
  unfolding comparisons
  comparisons-stop n e TokenKind.eq o ts h = cc
  comparisons-stop n e TokenKind.not_eq o ts h = cc
  comparisons-stop n e TokenKind.lt o ts h = cc
  comparisons-stop n e TokenKind.lt_eq o ts h = cc
  comparisons-stop n e TokenKind.gt o ts h = cc
  comparisons-stop n e TokenKind.gt_eq o ts h = cc
  comparisons-stop n e kind o ts h = refl

  pub null_tests-stop :
      (e : Expr) (kind : TokenKind) (o : ℕ) (ts : List Token)
      → stops kind ≡ true
      → null_tests p e ((kind, o) ∷ ts) ≡ parsed e ((kind, o) ∷ ts)
  unfolding null_tests
  null_tests-stop e TokenKind.is o ts h = cc
  null_tests-stop e kind o ts h = refl

  pub conjuncts-stop :
      (n : ℕ) (e : Expr) (kind : TokenKind) (o : ℕ) (ts : List Token)
      → stops kind ≡ true
      → conjuncts p (suc n) e ((kind, o) ∷ ts) ≡ parsed e ((kind, o) ∷ ts)
  unfolding conjuncts
  conjuncts-stop n e TokenKind.and o ts h = cc
  conjuncts-stop n e kind o ts h = refl

  pub disjuncts-stop :
      (n : ℕ) (e : Expr) (kind : TokenKind) (o : ℕ) (ts : List Token)
      → stops kind ≡ true
      → disjuncts p (suc n) e ((kind, o) ∷ ts) ≡ parsed e ((kind, o) ∷ ts)
  unfolding disjuncts
  disjuncts-stop n e TokenKind.or o ts h = cc
  disjuncts-stop n e kind o ts h = refl

  -- An operand in parentheses.
  pub paren-read :
      (e : Expr) (rest : List Token)
      → p (spell e (tok TokenKind.r_paren ∷ rest)) ≡ parsed e (tok TokenKind.r_paren ∷ rest)
      → parse_unary p (tok TokenKind.l_paren ∷ spell e (tok TokenKind.r_paren ∷ rest))
        ≡ parsed e rest
  unfolding parse_unary parse_primary expect_r_paren
  paren-read e rest h = ap (λ r. r >>= λ e ts. expect_r_paren ts >>= λ _ ts. parsed e ts) h

module _ (p : List Token → Parsed Expr) (kind : TokenKind) (o : ℕ) (ts : List Token)
    (stop : stops kind ≡ true) where
  abbrev behind : List Token
  behind = (kind, o) ∷ ts

  pub from_not :
      (us : List Token) (e : Expr)
      → parse_not p us ≡ parsed e behind
      → parse_or p us ≡ parsed e behind
  unfolding parse_or parse_and
  from_not us e h =
      ap
        (λ r. (r >>= λ l rest. conjuncts p (suc (length rest)) l rest) >>= λ l rest.
          disjuncts p (suc (length rest)) l rest)
        h
      ∙ ap (λ r. r >>= λ l rest. disjuncts p (suc (length rest)) l rest)
          (conjuncts-stop p (length behind) e kind o ts stop)
      ∙ disjuncts-stop p (length behind) e kind o ts stop

  pub from_comparison :
      (us : List Token) (e : Expr)
      → parse_comparison p us ≡ parsed e behind
      → parse_is_null p us ≡ parsed e behind
  unfolding parse_is_null
  from_comparison us e h =
      ap (λ r. r >>= λ e rest. null_tests p e rest) h ∙ null_tests-stop p e kind o ts stop

  pub from_unary :
      (us : List Token) (e : Expr)
      → parse_unary p us ≡ parsed e behind
      → parse_is_null p us ≡ parsed e behind
  unfolding parse_comparison
  from_unary us e h = from_comparison us e (
      ap (λ r. r >>= λ l rest. comparisons p (suc (length rest)) l rest) h
      ∙ comparisons-stop p (length behind) e kind o ts stop)

  pub literal-read :
      (v : Value)
      → IsSpelled (literal v)
      → parse_or p (spell (literal v) behind) ≡ parsed (literal v) behind
  unfolding spell parse_not parse_unary parse_primary
  literal-read (Value.integer v) h = absurd h
  literal-read (Value.boolean true) h =
      let us = spell (literal (Value.boolean true)) behind in
      from_not us (literal (Value.boolean true)) (from_unary us (literal (Value.boolean true)) refl)
  literal-read (Value.boolean false) h =
      let us = spell (literal (Value.boolean false)) behind in
      from_not us (literal (Value.boolean false))
        (from_unary us (literal (Value.boolean false)) refl)
  literal-read v h =
      let us = spell (literal v) behind in from_not us (literal v) (from_unary us (literal v) refl)

  pub parameter-read :
      (index : ℕ) → parse_or p (spell (parameter index) behind) ≡ parsed (parameter index) behind
  unfolding spell parse_not parse_unary parse_primary
  parameter-read index =
      let us = spell (parameter index) behind in
      from_not us (parameter index) (from_unary us (parameter index) refl)

  named-read :
      (name : Name) (e : Expr)
      → parse_named name 0 behind ≡ parsed e behind
      → parse_or p (tok (TokenKind.identifier name) ∷ behind) ≡ parsed e behind
  unfolding parse_not parse_unary parse_primary
  named-read name e h =
      let us = tok (TokenKind.identifier name) ∷ behind in from_not us e (from_unary us e h)

  parse_named-keyword :
      (name : Name)
      → parse_named name 0 behind ≡ elim (keyword name) [
        | some context ↦ parsed (session_context context) behind
        | none ↦ parsed (column none name) behind
      ]
  unfolding parse_named
  parse_named-keyword name = go kind stop
    where
      go :
          (kind : TokenKind)
          → stops kind ≡ true
          → parse_named name 0 ((kind, o) ∷ ts) ≡ elim (keyword name) [
            | some context ↦ parsed (session_context context) ((kind, o) ∷ ts)
            | none ↦ parsed (column none name) ((kind, o) ∷ ts)
          ]
      go TokenKind.dot h = cc
      go TokenKind.l_paren h = cc
      go kind h = refl

  pub context-read :
      (c : SessionContextName)
      → parse_or p (spell (session_context c) behind) ≡ parsed (session_context c) behind
  unfolding spell parse_not parse_unary parse_primary parse_named keyword function
  context-read current_catalog =
      named-read (context_word current_catalog) (session_context current_catalog)
        (parse_named-keyword (context_word current_catalog))
  context-read current_schema =
      named-read (context_word current_schema) (session_context current_schema)
        (parse_named-keyword (context_word current_schema))
  context-read current_user =
      named-read (context_word current_user) (session_context current_user)
        (parse_named-keyword (context_word current_user))
  context-read session_user =
      named-read (context_word session_user) (session_context session_user)
        (parse_named-keyword (context_word session_user))
  context-read version =
      let us = spell (session_context version) behind in
      from_not us (session_context version) (from_unary us (session_context version) refl)

  pub column-read :
      (table : Option Name) (name : Name)
      → IsSpelled (column table name)
      → parse_or p (spell (column table name) behind) ≡ parsed (column table name) behind
  unfolding spell parse_not parse_unary parse_primary parse_named expect_identifier
  column-read none name h =
      named-read name (column none name) (parse_named-keyword name ∙ rw h refl)
  column-read (some table) name h =
      let us = spell (column (some table) name) behind in
      from_not us (column (some table) name) (from_unary us (column (some table) name) refl)
