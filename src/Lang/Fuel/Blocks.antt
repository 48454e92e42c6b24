-- ===== src/Lang/Fuel/Blocks.antt =====
-- Declarations, statements and blocks end.
use alkali.Prelude.{ℕ, zero, suc, ◌+◌, ◌*◌, ◌<◌, ◌≡◌, refl, Bool, true, false, arith, length}
use alkali.Lang.Token.{
  Token, same, tok_eof, tok_eq, tok_var, tok_return, tok_generate, tok_if, tok_else, tok_semicolon,
  tok_parenthese_open, tok_parenthese_close, tok_bracket_open, tok_bracket_close,
}
use alkali.Lang.Ast.{null_expr}
use alkali.Lang.Stream.{
  Lexemes, cur, skip, pure, ◌>>=◌, ◌>>◌, when, branch, unchecked, parse_error, consume,
}
use alkali.Lang.Ends.{
  Ends, ended, nulled, faulted, Ends-kept, Ends-branch, Ends-on_some, Ends-bind, then_consume,
  then_id, length-skip,
}
use alkali.Lang.Fuel.Types.{parse_type-Ends}
use alkali.Lang.Fuel.Exprs.{parse_expression-Ends}
use alkali.Lang.Parser.Exprs.{parse_expression}
use alkali.Lang.Parser.Blocks.{
  opt_expr, parse_declaration, parse_return, starts_declaration, parse_simple, parse_block,
  parse_statements, parse_if,
}

module _ (f : ℕ) where
  initializer-Ends :
      (requires : Bool) (ts : Lexemes)
      → 20 * length ts + 4 < f
      → Ends (suc (length ts)) (
          when tok_eq
            (consume tok_eq >> do e ← unchecked (parse_expression f); pure (opt_expr e))
            (branch requires parse_error (pure null_expr))
            ts)
  unfolding same
  initializer-Ends requires ts h =
      Ends-branch (same (cur ts) tok_eq)
        (λ _. then_consume ts tok_eq refl (omega arith) λ _ ts₁ h₁.
          Ends-kept (parse_expression-Ends f ts₁ (omega arith)) λ e ts₂ h₂. ended (omega arith))
        (λ _. Ends-branch requires (λ _. nulled (omega arith)) (λ _. ended (omega arith)))

  pub parse_declaration-Ends :
      (requires : Bool) (ts : Lexemes)
      → 20 * length ts + 4 < f
      → Ends (length ts) (parse_declaration f requires ts)
  unfolding parse_declaration
  parse_declaration-Ends requires ts h =
      Ends-kept (parse_type-Ends f ts (omega arith)) λ type ts₁ h₁.
        then_id ts₁ (omega arith) λ id ts₂ h₂.
          Ends-bind (initializer-Ends requires ts₂ (omega arith)) (omega arith)
            λ e ts₃ h₃. Ends-on_some type faulted λ t _. ended (omega arith)

  parse_return-Ends :
      (t : Token) (ts : Lexemes)
      → same tok_eof t ≡ false
      → 20 * length ts + 4 < f
      → Ends (length ts) (parse_return f t ts)
  unfolding parse_return same
  parse_return-Ends t ts ne h = then_consume ts t ne (omega arith) λ _ ts₁ h₁.
      Ends-branch (same (cur ts₁) tok_semicolon) (λ _. ended (omega arith))
        (λ _. Ends-kept (parse_expression-Ends f ts₁ (omega arith)) λ e ts₂ h₂. ended (omega arith))

  parse_simple-Ends : (ts : Lexemes) → 20 * length ts + 4 < f → Ends (length ts) (parse_simple f ts)
  unfolding parse_simple same
  parse_simple-Ends ts h =
      Ends-branch (same (cur ts) tok_var)
        (λ _.
          Ends-bind (parse_declaration-Ends true ts h) (omega arith)
            λ d ts₁ h₁. ended (omega arith))
        (λ _.
          Ends-branch (same (cur ts) tok_return) (λ _. parse_return-Ends tok_return ts refl h)
            (λ _.
              Ends-branch (same (cur ts) tok_generate)
                (λ _. parse_return-Ends tok_generate ts refl h)
                (λ _.
                  Ends-branch (starts_declaration ts)
                    (λ _.
                      Ends-bind (parse_declaration-Ends false ts h) (omega arith)
                        λ d ts₁ h₁. ended (omega arith))
                    (λ _. parse_expression-Ends f ts h))))

mutual
  unfolding parse_block same

  pub parse_block-Ends :
      (f : ℕ) (ts : Lexemes) → 20 * length ts < f → Ends (length ts) (parse_block f ts)
  parse_block-Ends zero ts h = absurd (omega arith)
  parse_block-Ends (suc f) ts h =
      Ends-branch (same (cur ts) tok_bracket_open)
        (λ _. then_consume ts tok_bracket_open refl (omega arith) λ _ ts₁ h₁.
          let h₂ = length-skip tok_semicolon ts₁ in
          Ends-bind (parse_statements-Ends f (skip tok_semicolon ts₁) (omega arith)) (omega arith)
            λ es ts₃ h₃.
              Ends-branch (same (cur ts₃) tok_bracket_close)
                (λ _.
                  then_consume ts₃ tok_bracket_close refl (omega arith)
                    λ _ ts₄ h₄. ended (omega arith))
                (λ _. nulled (omega arith)))
        (λ _. nulled (omega arith))

  parse_statements-Ends :
      (f : ℕ) (ts : Lexemes)
      → 20 * length ts + 5 < f
      → Ends (suc (length ts)) (parse_statements f ts)
  parse_statements-Ends zero ts h = absurd (omega arith)
  parse_statements-Ends (suc f) ts h =
      Ends-branch (same (cur ts) tok_bracket_close) (λ _. ended (omega arith))
        (λ _.
          Ends-branch (same (cur ts) tok_eof) (λ _. ended (omega arith))
            (λ _.
              Ends-branch (same (cur ts) tok_if)
                (λ _. Ends-bind (parse_if-Ends f ts (omega arith)) (omega arith) λ e ts₁ h₁.
                  let h₂ = length-skip tok_semicolon ts₁ in
                  Ends-bind (parse_statements-Ends f (skip tok_semicolon ts₁) (omega arith))
                    (omega arith) λ es ts₃ h₃. ended (omega arith))
                (λ _. Ends-bind (parse_simple-Ends f ts (omega arith)) (omega arith) λ e ts₁ h₁.
                  let h₂ = length-skip tok_semicolon ts₁ in
                  Ends-branch (same (cur ts₁) tok_semicolon)
                    (λ _.
                      Ends-bind (parse_statements-Ends f (skip tok_semicolon ts₁) (omega arith))
                        (omega arith) λ es ts₃ h₃. ended (omega arith))
                    (λ _. nulled (omega arith)))))

  parse_if-Ends : (f : ℕ) (ts : Lexemes) → 20 * length ts < f → Ends (length ts) (parse_if f ts)
  parse_if-Ends zero ts h = absurd (omega arith)
  parse_if-Ends (suc f) ts h = then_consume ts tok_if refl (omega arith) λ _ ts₁ h₁.
      then_consume ts₁ tok_parenthese_open refl (omega arith) λ _ ts₂ h₂.
        Ends-bind (parse_expression-Ends f ts₂ (omega arith)) (omega arith) λ c ts₃ h₃.
          then_consume ts₃ tok_parenthese_close refl (omega arith) λ _ ts₄ h₄.
            Ends-kept (parse_block-Ends f ts₄ (omega arith)) λ b ts₅ h₅.
              Ends-branch (same (cur ts₅) tok_else)
                (λ _. then_consume ts₅ tok_else refl (omega arith) λ _ ts₆ h₆.
                  Ends-bind (parse_block-Ends f ts₆ (omega arith)) (omega arith)
                    λ b' ts₇ h₇. ended (omega arith))
                (λ _. ended (omega arith))
