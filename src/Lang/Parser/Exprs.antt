-- ===== src/Lang/Parser/Exprs.antt =====
-- include/ep2/lang/Parser.h: expressions, from `parseNumberExpr` to `parseExpression`.
use alkali.Prelude.{
  ℕ, zero, suc, ◌+◌, ◌^◌, Bool, true, false, List, [], ◌∷◌, Option, none, some, ltb,
}
use alkali.Lang.Token.{
  Text, Token, tok_identifier, tok_number, tok_comma, tok_star, tok_plus, tok_minus, tok_slash,
  tok_eq, tok_cmp_eq, tok_cmp_le, tok_cmp_ge, tok_angle_bracket_open, tok_angle_bracket_close,
  tok_colon, tok_dot, tok_parenthese_open, tok_parenthese_close, tok_bracket_open,
  tok_bracket_close, tok_sbracket_open, tok_sbracket_close,
}
use alkali.Lang.Ast.{
  Expr, Exprs, Instance, instance_number, any_instance, num, struct_literal, atom_literal,
  port_literal, path, bin_op, call, init, no_exprs, cons_expr, var_type, no_params,
}
use alkali.Lang.Stream.{
  Parser, null, out_of_fuel, cur, pure, ◌>>=◌, ◌>>◌, unchecked, parse_error, when, branch, on_some,
  after, consume, expect_id, expect_value,
}
use alkali.Lang.Parser.Types.{parse_atom}

-- `getTokPrecedence`; `none` is -1.
unfoldable pub get_tok_precedence : Token → Option ℕ
get_tok_precedence tok_eq = some 10
get_tok_precedence tok_minus = some 20
get_tok_precedence tok_plus = some 20
get_tok_precedence tok_star = some 40
get_tok_precedence tok_slash = some 40
get_tok_precedence tok_cmp_eq = some 15
get_tok_precedence tok_cmp_le = some 15
get_tok_precedence tok_cmp_ge = some 15
get_tok_precedence tok_angle_bracket_open = some 15
get_tok_precedence tok_angle_bracket_close = some 15
get_tok_precedence _ = none

-- `tokPrec < nextPrec`, where the second may be -1.
unfoldable pub binds_tighter : ℕ → Option ℕ → Bool
binds_tighter p none = false
binds_tighter p (some q) = ltb p q

-- The loop over a port list, from the '[' or ',' before a port. A token that is neither a name nor
-- '*' stays where it is, with no message.
unfoldable mutual
  pub parse_ports : ℕ → Parser (List Text)
  parse_ports zero ts = out_of_fuel
  parse_ports (suc f) ts =
      after
        (when tok_identifier (do s ← expect_id; ss ← parse_more_ports f; pure (s ∷ ss))
          (when tok_star (do consume tok_star; ss ← parse_more_ports f; pure ((b'*' ∷ []) ∷ ss))
            (parse_more_ports f)))
        ts

  pub parse_more_ports : ℕ → Parser (List Text)
  parse_more_ports zero ts = out_of_fuel
  parse_more_ports (suc f) ts = when tok_comma (parse_ports f) (pure []) ts

-- `parsePortLiteralExpr`.
unfoldable pub parse_instance : Parser Instance
unfolding consume expect_value
parse_instance =
    when tok_number (do n ← expect_value (2 ^ 31); pure (instance_number n))
      (when tok_star (consume tok_star >> pure any_instance) parse_error)

unfoldable pub parse_port_literal_expr : Parser Expr
unfolding consume expect_id parse_instance
parse_port_literal_expr = do
  consume tok_sbracket_open
  event ← expect_id
  atom ← when tok_colon (after expect_id) (pure [])
  consume tok_comma
  instance' ← parse_instance
  consume tok_sbracket_close
  pure (port_literal event atom instance')

-- `while (getCurToken() == '.')` behind an identifier: the further names of the path.
unfoldable pub parse_dots : ℕ → Parser (List Text)
parse_dots zero ts = out_of_fuel
parse_dots (suc f) ts =
    when tok_dot (do consume tok_dot; s ← expect_id; ss ← parse_dots f; pure (s ∷ ss)) (pure []) ts

-- The port lists behind a call, if there are any.
unfoldable pub parse_connect : ℕ → Parser (List Text × List Text)
unfolding parse_ports consume
parse_connect f =
    when tok_sbracket_open
      (do
        ins ← parse_ports f
        consume tok_sbracket_close
        when tok_sbracket_open
            (do outs ← parse_ports f; consume tok_sbracket_close; pure (ins, outs)) parse_error)
      (pure ([], []))

-- The atom before '{' is the first value of an initialiser.
abbrev pub with_atom : Option Text → Exprs → Exprs
with_atom none es = es
with_atom (some a) es = cons_expr (atom_literal a) es

abbrev pub is_single : List Text → Bool
is_single [] = true
is_single (_ ∷ _) = false

unfoldable mutual
  pub parse_expression : ℕ → Parser Expr
  parse_expression zero ts = out_of_fuel
  parse_expression (suc f) ts = (do lhs ← parse_primary f; parse_bin_op_rhs f 0 lhs) ts

  pub parse_primary : ℕ → Parser Expr
  parse_primary zero ts = out_of_fuel
  parse_primary (suc f) ts = primary_switch f (cur ts) ts

  -- The `switch` of `parsePrimary`.
  pub primary_switch : ℕ → Token → Parser Expr
  primary_switch zero _ ts = out_of_fuel
  primary_switch (suc f) tok_identifier ts = parse_identifier_expr f ts
  primary_switch (suc f) tok_colon ts = (do a ← parse_atom; pure (atom_literal a)) ts
  primary_switch (suc f) tok_number ts = (do n ← expect_value (2 ^ 64); pure (num n)) ts
  primary_switch (suc f) tok_parenthese_open ts = parse_paren_expr f ts
  primary_switch (suc f) tok_sbracket_open ts = parse_port_literal_expr ts
  primary_switch (suc f) tok_bracket_open ts = parse_struct_literal_expr f ts
  primary_switch (suc f) _ ts = null ts

  pub parse_bin_op_rhs : ℕ → ℕ → Expr → Parser Expr
  parse_bin_op_rhs zero expr_prec lhs ts = out_of_fuel
  parse_bin_op_rhs (suc f) expr_prec lhs ts =
      on_some (get_tok_precedence (cur ts)) (pure lhs)
        (λ tok_prec. branch (ltb tok_prec expr_prec) (pure lhs) (
          after (do
            first ← parse_primary f
            rhs ← parse_tighter f tok_prec first
            parse_bin_op_rhs f expr_prec (bin_op (cur ts) lhs rhs))))
        ts

  -- `if (tokPrec < nextPrec) rhs = parseBinOpRHS(tokPrec + 1, rhs)`.
  pub parse_tighter : ℕ → ℕ → Expr → Parser Expr
  parse_tighter zero tok_prec rhs ts = out_of_fuel
  parse_tighter (suc f) tok_prec rhs ts =
      branch (binds_tighter tok_prec (get_tok_precedence (cur ts)))
        (parse_bin_op_rhs f (tok_prec + 1) rhs) (pure rhs) ts

  pub parse_paren_expr : ℕ → Parser Expr
  parse_paren_expr zero ts = out_of_fuel
  parse_paren_expr (suc f) ts =
      after
        (do
          e ← parse_expression f
          when tok_parenthese_close (consume tok_parenthese_close >> pure e) parse_error)
        ts

  pub parse_struct_literal_expr : ℕ → Parser Expr
  parse_struct_literal_expr zero ts = out_of_fuel
  parse_struct_literal_expr (suc f) ts =
      (do consume tok_bracket_open; vs ← parse_struct_values f; pure (struct_literal vs)) ts

  pub parse_struct_values : ℕ → Parser Exprs
  parse_struct_values zero ts = out_of_fuel
  parse_struct_values (suc f) ts =
      (do
        v ←
            when tok_number (do n ← expect_value (2 ^ 64); pure (num n))
              (when tok_bracket_open (parse_struct_literal_expr f) parse_error)
        when tok_bracket_close (after (pure (cons_expr v no_exprs))) (
            when tok_comma (after (do vs ← parse_struct_values f; pure (cons_expr v vs)))
              parse_error))
        ts

  pub parse_identifier_expr : ℕ → Parser Expr
  parse_identifier_expr zero ts = out_of_fuel
  parse_identifier_expr (suc f) ts =
      (do
        name ← expect_id
        names ← parse_dots f
        atom ← when tok_colon (unchecked parse_atom) (pure none)
        when tok_parenthese_open (parse_call_expr f name names)
            (when tok_bracket_open (parse_init_expr f name names atom) (pure (path name names))))
        ts

  pub parse_call_expr : ℕ → Text → List Text → Parser Expr
  parse_call_expr zero name names ts = out_of_fuel
  parse_call_expr (suc f) name names ts =
      (do
        consume tok_parenthese_open
        args ← when tok_parenthese_close (pure no_exprs) (parse_args f)
        consume tok_parenthese_close
        (ins, outs) ← parse_connect f
        pure (call name names args ins outs))
        ts

  -- `parse_args` stops before the ')'.
  pub parse_args : ℕ → Parser Exprs
  parse_args zero ts = out_of_fuel
  parse_args (suc f) ts =
      (do
        e ← parse_expression f
        when tok_parenthese_close (pure (cons_expr e no_exprs))
            (when tok_comma (after (do es ← parse_args f; pure (cons_expr e es))) parse_error))
        ts

  pub parse_init_expr : ℕ → Text → List Text → Option Text → Parser Expr
  parse_init_expr zero name names atom ts = out_of_fuel
  parse_init_expr (suc f) name names atom ts =
      (do
        consume tok_bracket_open
        branch (is_single names)
            (do es ← parse_init_values f; pure (init (var_type name no_params) (with_atom atom es)))
            parse_error)
        ts

  pub parse_init_values : ℕ → Parser Exprs
  parse_init_values zero ts = out_of_fuel
  parse_init_values (suc f) ts =
      (do
        e ← parse_expression f
        when tok_bracket_close (consume tok_bracket_close >> pure (cons_expr e no_exprs)) (
            when tok_comma (consume tok_comma >> do es ← parse_init_values f; pure (cons_expr e es))
              parse_error))
        ts
