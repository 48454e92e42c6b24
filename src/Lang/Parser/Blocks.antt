-- ===== src/Lang/Parser/Blocks.antt =====
-- include/ep2/lang/Parser.h: declarations and blocks, from `parseReturn` to `parseBlock`.
use alkali.Prelude.{ℕ, zero, suc, Bool, true, false, ◌&&◌, ◌||◌, Option, none, some}
use alkali.Lang.Token.{
  Token, same, tok_identifier, tok_eq, tok_eof, tok_var, tok_return, tok_generate, tok_if, tok_else,
  tok_semicolon, tok_parenthese_open, tok_parenthese_close, tok_bracket_open, tok_bracket_close,
  tok_angle_bracket_open,
}
use alkali.Lang.Ast.{
  Expr, Exprs, OptExpr, OptBlock, VarDecl, var_decl, return_void, return_expr, if_else, no_exprs,
  cons_expr, null_expr, some_expr, null_block, some_block,
}
use alkali.Lang.Stream.{
  Lexemes, Parser, ok, fault, out_of_fuel, cur, next, skip, pure, ◌>>=◌, ◌>>◌, is, unchecked,
  parse_error, when, branch, on_some, consume, expect_id,
}
use alkali.Lang.Parser.Types.{parse_type}
use alkali.Lang.Parser.Exprs.{parse_expression}

abbrev pub opt_expr : Option Expr → OptExpr
opt_expr none = null_expr
opt_expr (some e) = some_expr e

abbrev pub opt_block : Option Exprs → OptBlock
opt_block none = null_block
opt_block (some b) = some_block b

-- `parseDeclaration` with `parseTypedDeclaration`: neither the type nor the initialiser is tested.
unfoldable pub parse_declaration : ℕ → Bool → Parser VarDecl
unfolding expect_id consume parse_type parse_expression
parse_declaration f requires_initializer = do
  type ← unchecked (parse_type f)
  id ← expect_id
  e ←
      when tok_eq (consume tok_eq >> do e ← unchecked (parse_expression f); pure (opt_expr e))
        (branch requires_initializer parse_error (pure null_expr))
  on_some type (λ ts. fault) (λ t. pure (record { name = id; type = t; init_val = e }))

-- A declaration as an expression of a block.
abbrev pub var_decl_expr : VarDecl → Expr
var_decl_expr d = var_decl d.name d.type d.init_val

-- `parseReturn`, for `return` and `generate`. Its test of the optional does not see a null inside.
unfoldable pub parse_return : ℕ → Token → Parser Expr
unfolding consume parse_expression
parse_return f token = do
  consume token
  when tok_semicolon (pure return_void)
      do e ← unchecked (parse_expression f); pure (return_expr (opt_expr e))

-- An identifier behind which an identifier or '<' is peeked begins a declaration.
unfoldable pub starts_declaration : Lexemes → Bool
unfolding cur next same
starts_declaration ts =
    is tok_identifier ts && (is tok_identifier (next ts) || is tok_angle_bracket_open (next ts))

-- The expression statements that `if (…)` does not end: each wants a semicolon behind it.
unfoldable pub parse_simple : ℕ → Parser Expr
unfolding parse_declaration parse_return starts_declaration parse_expression
parse_simple f =
    when tok_var (do d ← parse_declaration f true; pure (var_decl_expr d))
      (when tok_return (parse_return f tok_return) (
        when tok_generate (parse_return f tok_generate) (λ ts.
          branch (starts_declaration ts) (do d ← parse_declaration f false; pure (var_decl_expr d))
            (parse_expression f) ts)))

-- `if (!isBlock && getCurToken() != ';')` is the error; otherwise the semicolons are swallowed.
abbrev pub semicolons : Parser (Unit {0})
semicolons ts = ok tt (skip tok_semicolon ts)

unfoldable mutual
  pub parse_block : ℕ → Parser Exprs
  parse_block zero ts = out_of_fuel
  parse_block (suc f) ts =
      when tok_bracket_open
        (do
          consume tok_bracket_open
          semicolons
          es ← parse_statements f
          when tok_bracket_close (consume tok_bracket_close >> pure es) parse_error)
        parse_error ts

  -- The loop of `parseBlock`, up to '}' or the end.
  pub parse_statements : ℕ → Parser Exprs
  parse_statements zero ts = out_of_fuel
  parse_statements (suc f) ts =
      when tok_bracket_close (pure no_exprs)
        (when tok_eof (pure no_exprs) (
          when tok_if
            (do e ← parse_if f; semicolons; es ← parse_statements f; pure (cons_expr e es))
            (do
              e ← parse_simple f
              when tok_semicolon (semicolons >> do es ← parse_statements f; pure (cons_expr e es))
                  parse_error)))
        ts

  -- The block behind the condition is not tested for null, the one behind `else` is.
  pub parse_if : ℕ → Parser Expr
  parse_if zero ts = out_of_fuel
  parse_if (suc f) ts =
      (do
        consume tok_if
        consume tok_parenthese_open
        c ← parse_expression f
        consume tok_parenthese_close
        then_block ← unchecked (parse_block f)
        when tok_else
            (consume tok_else >> do
              else_block ← parse_block f
              pure (if_else c (opt_block then_block) (some_block else_block)))
            (pure (if_else c (opt_block then_block) null_block)))
        ts
