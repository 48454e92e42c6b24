-- ===== src/Lang/Fuel/Exprs.antt =====
-- The expression parser ends, with fuel above 20 for each lexeme of the input and a few more.
use alkali.Prelude.{ℕ, zero, suc, ◌+◌, ◌*◌, ◌^◌, ◌<◌, ◌≡◌, refl, arith, length, ltb}
use alkali.Lang.Token.{
  Token, same, tok_identifier, tok_number, tok_colon, tok_parenthese_open, tok_parenthese_close,
  tok_bracket_open, tok_sbracket_open,
}
use alkali.Lang.Ast.{Expr}
use alkali.Lang.Stream.{Lexemes, cur, next}
use alkali.Lang.Ends.{
  Ends, ended, nulled, Ends-mono, Ends-branch, Ends-on_some, Ends-bind, length-next, then_consume,
  then_value,
}
use alkali.Lang.Fuel.Types.{parse_atom-Ends}
use alkali.Lang.Fuel.Ports.{parse_port_literal_expr-Ends}
use alkali.Lang.Parser.Exprs.{
  get_tok_precedence, binds_tighter, parse_expression, parse_primary, primary_switch,
  parse_bin_op_rhs, parse_tighter, parse_paren_expr, parse_struct_literal_expr,
}
use alkali.Lang.Fuel.Bounds.{get_tok_precedence-pos, cur-eq_pos, ExprsEnd}
use alkali.Lang.Fuel.Lists.{
  args-step, init_values-step, struct_values-step, call-step, init-step, identifier-step,
}

module _ {f : ℕ} (ih : ExprsEnd f) (ts : Lexemes) where
  expression-step : 20 * length ts + 4 < suc f → Ends (length ts) (parse_expression (suc f) ts)
  unfolding parse_expression
  expression-step h =
      Ends-bind (ih.primary ts (omega arith)) (omega arith)
        λ lhs ts₁ h₁. Ends-mono (omega arith) (ih.bin_op_rhs 0 lhs ts₁ (omega arith))

  primary-step : 20 * length ts + 3 < suc f → Ends (length ts) (parse_primary (suc f) ts)
  unfolding parse_primary
  primary-step h = ih.switch (cur ts) ts refl (omega arith)

  switch-step :
      (t : Token)
      → cur ts ≡ t
      → 20 * length ts + 2 < suc f
      → Ends (length ts) (primary_switch (suc f) t ts)
  unfolding primary_switch same
  switch-step tok_identifier e h = ih.identifier ts (omega arith)
  switch-step tok_colon e h =
      Ends-bind (parse_atom-Ends ts) (omega arith) λ a ts₁ h₁. ended (omega arith)
  switch-step tok_number e h = then_value ts (2 ^ 64) (omega arith) λ n ts₁ h₁. ended (omega arith)
  switch-step tok_parenthese_open e h =
      ih.paren ts (cur-eq_pos ts tok_parenthese_open e refl) (omega arith)
  switch-step tok_sbracket_open e h = parse_port_literal_expr-Ends ts
  switch-step tok_bracket_open e h = ih.struct_literal ts (omega arith)
  switch-step _ e h = nulled (omega arith)

  bin_op_rhs-step :
      (p : ℕ) (lhs : Expr)
      → 20 * length ts < suc f
      → Ends (suc (length ts)) (parse_bin_op_rhs (suc f) p lhs ts)
  unfolding parse_bin_op_rhs
  bin_op_rhs-step p lhs h =
      let h₀ = length-next ts in
      Ends-on_some (get_tok_precedence (cur ts)) (ended (omega arith)) λ q e.
        let pos = get_tok_precedence-pos ts q e in
        Ends-branch (ltb q p) (λ _. ended (omega arith))
          λ _. Ends-bind (ih.primary (next ts) (omega arith)) (omega arith) λ first ts₁ h₁.
            Ends-bind (ih.tighter q first ts₁ (omega arith)) (omega arith)
              λ rhs ts₂ h₂. Ends-mono (omega arith) (ih.bin_op_rhs p _ ts₂ (omega arith))

  tighter-step :
      (p : ℕ) (rhs : Expr)
      → 20 * length ts + 1 < suc f
      → Ends (suc (length ts)) (parse_tighter (suc f) p rhs ts)
  unfolding parse_tighter
  tighter-step p rhs h =
      Ends-branch (binds_tighter p (get_tok_precedence (cur ts)))
        (λ _. ih.bin_op_rhs (p + 1) rhs ts (omega arith)) (λ _. ended (omega arith))

  paren-step :
      0 < length ts → 20 * length ts < suc f → Ends (length ts) (parse_paren_expr (suc f) ts)
  unfolding parse_paren_expr same
  paren-step pos h =
      let h₀ = length-next ts in
      Ends-bind (ih.expression (next ts) (omega arith)) (omega arith) λ e ts₁ h₁.
        Ends-branch (same (cur ts₁) tok_parenthese_close)
          (λ _.
            then_consume ts₁ tok_parenthese_close refl (omega arith)
              λ _ ts₂ h₂. ended (omega arith))
          (λ _. nulled (omega arith))

  struct_literal-step :
      20 * length ts < suc f → Ends (length ts) (parse_struct_literal_expr (suc f) ts)
  unfolding parse_struct_literal_expr same
  struct_literal-step h = then_consume ts tok_bracket_open refl (omega arith) λ _ ts₁ h₁.
      Ends-bind (ih.struct_values ts₁ (omega arith)) (omega arith) λ vs ts₂ h₂. ended (omega arith)

ExprsEnd-all : (f : ℕ) → ExprsEnd f
ExprsEnd-all zero = record {
  expression = λ ts h. absurd (omega arith);
  primary = λ ts h. absurd (omega arith);
  switch = λ t ts e h. absurd (omega arith);
  bin_op_rhs = λ p lhs ts h. absurd (omega arith);
  tighter = λ p rhs ts h. absurd (omega arith);
  paren = λ ts pos h. absurd (omega arith);
  struct_literal = λ ts h. absurd (omega arith);
  struct_values = λ ts h. absurd (omega arith);
  identifier = λ ts h. absurd (omega arith);
  call = λ name names ts h. absurd (omega arith);
  args = λ ts h. absurd (omega arith);
  init = λ name names atom ts h. absurd (omega arith);
  init_values = λ ts h. absurd (omega arith);
}
ExprsEnd-all (suc f) =
    let ih = ExprsEnd-all f in
    record {
      expression = expression-step ih;
      primary = primary-step ih;
      switch = λ t ts. switch-step ih ts t;
      bin_op_rhs = λ p lhs ts. bin_op_rhs-step ih ts p lhs;
      tighter = λ p rhs ts. tighter-step ih ts p rhs;
      paren = paren-step ih;
      struct_literal = struct_literal-step ih;
      struct_values = struct_values-step ih;
      identifier = identifier-step ih;
      call = λ name names ts. call-step ih ts name names;
      args = args-step ih;
      init = λ name names atom ts. init-step ih ts name names atom;
      init_values = init_values-step ih;
    }

pub parse_expression-Ends :
    (f : ℕ) (ts : Lexemes) → 20 * length ts + 4 < f → Ends (length ts) (parse_expression f ts)
parse_expression-Ends f = (ExprsEnd-all f).expression
