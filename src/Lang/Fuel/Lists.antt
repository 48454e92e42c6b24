-- ===== src/Lang/Fuel/Lists.antt =====
-- Arguments, values, calls and initialisers end, with one more unit of fuel.
use alkali.Prelude.{ℕ, suc, ◌+◌, ◌*◌, ◌^◌, ◌<◌, refl, List, Option, none, arith, length}
use alkali.Lang.Token.{
  Text, same, tok_number, tok_comma, tok_colon, tok_parenthese_open, tok_parenthese_close,
  tok_bracket_open, tok_bracket_close,
}
use alkali.Lang.Ast.{num, no_exprs}
use alkali.Lang.Stream.{Lexemes, cur, next, pure, when, unchecked, expect_value, parse_error, ◌>>=◌}
use alkali.Lang.Ends.{
  Ends, ended, nulled, Ends-mono, Ends-keep, Ends-branch, Ends-bind, cur-pos, length-next,
  then_consume, then_id, then_value,
}
use alkali.Lang.Fuel.Types.{parse_atom-Ends}
use alkali.Lang.Fuel.Ports.{parse_dots-Ends, parse_connect-Ends}
use alkali.Lang.Parser.Types.{parse_atom}
use alkali.Lang.Parser.Exprs.{
  parse_struct_literal_expr, parse_struct_values, parse_identifier_expr, parse_call_expr,
  parse_args, parse_init_expr, parse_init_values, is_single,
}
use alkali.Lang.Fuel.Bounds.{ExprsEnd}

module _ {f : ℕ} (ih : ExprsEnd f) (ts : Lexemes) where
  pub args-step : 20 * length ts + 5 < suc f → Ends (length ts) (parse_args (suc f) ts)
  unfolding parse_args same
  args-step h = Ends-bind (ih.expression ts (omega arith)) (omega arith) λ e ts₁ h₁.
      let h₀ = length-next ts₁ in
      Ends-branch (same (cur ts₁) tok_parenthese_close) (λ _. ended (omega arith))
        (λ _.
          Ends-branch (same (cur ts₁) tok_comma)
            (λ c.
              let pos = cur-pos tok_comma ts₁ refl c in
              Ends-bind (ih.args (next ts₁) (omega arith)) (omega arith)
                λ es ts₂ h₂. ended (omega arith))
            (λ _. nulled (omega arith)))

  pub init_values-step :
      20 * length ts + 5 < suc f → Ends (length ts) (parse_init_values (suc f) ts)
  unfolding parse_init_values same
  init_values-step h = Ends-bind (ih.expression ts (omega arith)) (omega arith) λ e ts₁ h₁.
      Ends-branch (same (cur ts₁) tok_bracket_close)
        (λ _. then_consume ts₁ tok_bracket_close refl (omega arith) λ _ ts₂ h₂. ended (omega arith))
        (λ _.
          Ends-branch (same (cur ts₁) tok_comma)
            (λ _. then_consume ts₁ tok_comma refl (omega arith) λ _ ts₂ h₂.
              Ends-bind (ih.init_values ts₂ (omega arith)) (omega arith)
                λ es ts₃ h₃. ended (omega arith))
            (λ _. nulled (omega arith)))

  pub struct_values-step :
      20 * length ts + 1 < suc f → Ends (length ts) (parse_struct_values (suc f) ts)
  unfolding parse_struct_values same
  struct_values-step h = Ends-bind value-Ends (omega arith) λ v ts₁ h₁.
      let h₀ = length-next ts₁ in
      Ends-branch (same (cur ts₁) tok_bracket_close) (λ _. ended (omega arith))
        (λ _.
          Ends-branch (same (cur ts₁) tok_comma)
            (λ c.
              let pos = cur-pos tok_comma ts₁ refl c in
              Ends-bind (ih.struct_values (next ts₁) (omega arith)) (omega arith)
                λ vs ts₂ h₂. ended (omega arith))
            (λ _. nulled (omega arith)))
    where
      value-Ends : Ends (length ts) (
          when tok_number
            (do n ← expect_value (2 ^ 64); pure (num n))
            (when tok_bracket_open (parse_struct_literal_expr f) parse_error)
            ts)
      value-Ends =
          Ends-branch (same (cur ts) tok_number)
            (λ _. then_value ts (2 ^ 64) (omega arith) λ n ts₁ h₁. ended (omega arith))
            (λ _.
              Ends-branch (same (cur ts) tok_bracket_open) (λ _. ih.struct_literal ts (omega arith))
                (λ _. nulled (omega arith)))

  pub call-step :
      (name : Text) (names : List Text)
      → 20 * length ts < suc f
      → Ends (length ts) (parse_call_expr (suc f) name names ts)
  unfolding parse_call_expr same
  call-step name names h = then_consume ts tok_parenthese_open refl (omega arith) λ _ ts₁ h₁.
      Ends-bind (args-Ends ts₁ (omega arith)) (omega arith) λ es ts₂ h₂.
        then_consume ts₂ tok_parenthese_close refl (omega arith) λ _ ts₃ h₃.
          Ends-bind (parse_connect-Ends f ts₃ (omega arith)) (omega arith)
            λ ports ts₄ h₄. ended (omega arith)
    where
      args-Ends :
          (ts : Lexemes)
          → 20 * length ts + 5 < f
          → Ends (suc (length ts)) (when tok_parenthese_close (pure no_exprs) (parse_args f) ts)
      args-Ends ts h =
          Ends-branch (same (cur ts) tok_parenthese_close) (λ _. ended (omega arith))
            (λ _. Ends-mono (omega arith) (ih.args ts (omega arith)))

  pub init-step :
      (name : Text) (names : List Text) (atom : Option Text)
      → 20 * length ts < suc f
      → Ends (length ts) (parse_init_expr (suc f) name names atom ts)
  unfolding parse_init_expr same
  init-step name names atom h = then_consume ts tok_bracket_open refl (omega arith) λ _ ts₁ h₁.
      Ends-branch (is_single names)
        (λ _.
          Ends-bind (ih.init_values ts₁ (omega arith)) (omega arith)
            λ es ts₂ h₂. ended (omega arith))
        (λ _. nulled (omega arith))

  pub identifier-step : 20 * length ts < suc f → Ends (length ts) (parse_identifier_expr (suc f) ts)
  unfolding parse_identifier_expr same
  identifier-step h = then_id ts (omega arith) λ name ts₁ h₁.
      Ends-bind (parse_dots-Ends f ts₁ (omega arith)) (omega arith) λ names ts₂ h₂.
        Ends-bind (atom-Ends ts₂) (omega arith) λ atom ts₃ h₃.
          Ends-branch (same (cur ts₃) tok_parenthese_open)
            (λ _. Ends-mono (omega arith) (ih.call name names ts₃ (omega arith)))
            (λ _.
              Ends-branch (same (cur ts₃) tok_bracket_open)
                (λ _. Ends-mono (omega arith) (ih.init name names atom ts₃ (omega arith)))
                (λ _. ended (omega arith)))
    where
      atom-Ends :
          (ts : Lexemes)
          → Ends (suc (length ts)) (when tok_colon (unchecked parse_atom) (pure none) ts)
      atom-Ends ts =
          Ends-branch (same (cur ts) tok_colon) (λ _. Ends-keep (parse_atom-Ends ts))
            (λ _. ended (omega arith))
