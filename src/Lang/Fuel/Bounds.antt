-- ===== src/Lang/Fuel/Bounds.antt =====
-- What the fuel of the expression parser has to be, of each of its functions.
use alkali.Prelude.{
  subst, ℕ, suc, ◌+◌, ◌*◌, ◌<◌, ◌≡◌, false, [], ◌∷◌, List, Option, some, arith, length,
}
use alkali.Lang.Token.{Text, Token, same, tok_eof}
use alkali.Lang.Ast.{Expr}
use alkali.Lang.Stream.{Lexemes, cur}
use alkali.Lang.Ends.{Ends}
use alkali.Lang.Parser.Exprs.{
  get_tok_precedence, parse_expression, parse_primary, primary_switch, parse_bin_op_rhs,
  parse_tighter, parse_paren_expr, parse_struct_literal_expr, parse_struct_values,
  parse_identifier_expr, parse_call_expr, parse_args, parse_init_expr, parse_init_values,
}

pub get_tok_precedence-pos :
    (ts : Lexemes) (p : ℕ) → get_tok_precedence (cur ts) ≡ some p → 0 < length ts
unfolding cur get_tok_precedence
get_tok_precedence-pos [] p e = cc
get_tok_precedence-pos (x ∷ ts) p e = omega arith

pub cur-eq_pos : (ts : Lexemes) (t : Token) → cur ts ≡ t → same tok_eof t ≡ false → 0 < length ts
unfolding cur same
cur-eq_pos [] t e ne = absurd (subst (λ u. same tok_eof u ≡ false → ⊥) e (λ h. cc) ne)
cur-eq_pos (x ∷ ts) t e ne = omega arith

-- What is proved by induction on the fuel `f`, of all the functions at once.
pub record ExprsEnd (f : ℕ) : Type 0 where
  pub expression :
      (ts : Lexemes) → 20 * length ts + 4 < f → Ends (length ts) (parse_expression f ts)
  pub primary : (ts : Lexemes) → 20 * length ts + 3 < f → Ends (length ts) (parse_primary f ts)
  pub switch :
      (t : Token) (ts : Lexemes)
      → cur ts ≡ t
      → 20 * length ts + 2 < f
      → Ends (length ts) (primary_switch f t ts)
  pub bin_op_rhs :
      (p : ℕ) (lhs : Expr) (ts : Lexemes)
      → 20 * length ts < f
      → Ends (suc (length ts)) (parse_bin_op_rhs f p lhs ts)
  pub tighter :
      (p : ℕ) (rhs : Expr) (ts : Lexemes)
      → 20 * length ts + 1 < f
      → Ends (suc (length ts)) (parse_tighter f p rhs ts)
  pub paren :
      (ts : Lexemes) → 0 < length ts → 20 * length ts < f → Ends (length ts) (parse_paren_expr f ts)
  pub struct_literal :
      (ts : Lexemes) → 20 * length ts < f → Ends (length ts) (parse_struct_literal_expr f ts)
  pub struct_values :
      (ts : Lexemes) → 20 * length ts + 1 < f → Ends (length ts) (parse_struct_values f ts)
  pub identifier :
      (ts : Lexemes) → 20 * length ts < f → Ends (length ts) (parse_identifier_expr f ts)
  pub call :
      (name : Text) (names : List Text) (ts : Lexemes)
      → 20 * length ts < f
      → Ends (length ts) (parse_call_expr f name names ts)
  pub args : (ts : Lexemes) → 20 * length ts + 5 < f → Ends (length ts) (parse_args f ts)
  pub init :
      (name : Text) (names : List Text) (atom : Option Text) (ts : Lexemes)
      → 20 * length ts < f
      → Ends (length ts) (parse_init_expr f name names atom ts)
  pub init_values :
      (ts : Lexemes) → 20 * length ts + 5 < f → Ends (length ts) (parse_init_values f ts)
