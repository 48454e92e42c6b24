-- ===== src/Lang/RoundTrip/Compound.antt =====
-- Printed expressions that hold others, each from what is known of its parts.
use alkali.Prelude.{
  ℕ, zero, suc, ◌+◌, ◌*◌, ◌^◌, ◌≤◌, ◌<◌, ◌≡◌, refl, false, List, ◌∷◌, arith, length,
}
use alkali.Lang.Token.{
  Text, same, tok_comma, tok_parenthese_open, tok_parenthese_close, tok_bracket_open,
  tok_bracket_close,
}
use alkali.Lang.Number.Exact.{digits, convert-digits}
use alkali.Lang.Ast.{
  Expr, Exprs, num, struct_literal, call, init, no_exprs, cons_expr, var_type, no_params,
}
use alkali.Lang.Stream.{
  Lexemes, Run, ok, word, numeral, sign, cur, next, consume, expect_id, expect_value,
}
use alkali.Lang.Parser.Exprs.{
  parse_dots, parse_expression, parse_primary, parse_struct_literal_expr, parse_struct_values,
  parse_identifier_expr, parse_call_expr, parse_args, parse_init_expr, parse_init_values,
}
use alkali.Lang.Printer.{emit_dots, emit_ports, Paired}
use alkali.Lang.RoundTrip.Length.{length-emit_dots}
use alkali.Lang.RoundTrip.Follows.{Closes}
use alkali.Lang.RoundTrip.Chain.{ReadsPrimary}
use alkali.Lang.RoundTrip.Leaves.{parse_dots-emit, parse_connect-emit}

-- With fuel by the length of `ts`, the parser `p` reads `a` off `ts` and leaves `rest`.
abbrev pub Reads {ℓ} : {A : Type ℓ} → ℕ → (ℕ → Lexemes → Run A) → A → Lexemes → Lexemes → Type ℓ
Reads c p a ts rest = (f : ℕ) → 20 * length ts + c < f → p f ts ≡ ok a rest

-- `( e )`.
pub ReadsPrimary-paren :
    (e : Expr) (ts rest : Lexemes)
    → Reads 4 parse_expression e ts (sign tok_parenthese_close ∷ rest)
    → ReadsPrimary e (sign tok_parenthese_open ∷ ts) rest
unfolding parse_primary cur same next consume
ReadsPrimary-paren e ts rest reads zero b = absurd (omega arith)
ReadsPrimary-paren e ts rest reads (suc zero) b = absurd (omega arith)
ReadsPrimary-paren e ts rest reads (suc (suc zero)) b = absurd (omega arith)
ReadsPrimary-paren e ts rest reads (suc (suc (suc f))) b = rw (reads f (omega arith))

-- `{ v, … }`.
pub parse_struct_literal_expr-Reads :
    (vs : Exprs) (ts rest : Lexemes)
    → Reads 1 parse_struct_values vs ts rest
    → Reads 0 parse_struct_literal_expr (struct_literal vs) (sign tok_bracket_open ∷ ts) rest
unfolding parse_struct_literal_expr cur same next consume
parse_struct_literal_expr-Reads vs ts rest reads zero b = absurd (omega arith)
parse_struct_literal_expr-Reads vs ts rest reads (suc f) b = rw (reads f (omega arith))

pub ReadsPrimary-struct :
    (vs : Exprs) (ts rest : Lexemes)
    → Reads 1 parse_struct_values vs ts rest
    → ReadsPrimary (struct_literal vs) (sign tok_bracket_open ∷ ts) rest
unfolding parse_primary cur
ReadsPrimary-struct vs ts rest reads zero b = absurd (omega arith)
ReadsPrimary-struct vs ts rest reads (suc zero) b = absurd (omega arith)
ReadsPrimary-struct vs ts rest reads (suc (suc f)) b =
    parse_struct_literal_expr-Reads vs ts rest reads f (omega arith)

-- The arguments of a call, up to its ')'.
module _ (e : Expr) (ts rest : Lexemes) where
  pub parse_args-last :
      Reads 4 parse_expression e ts (sign tok_parenthese_close ∷ rest)
      → Reads 5 parse_args (cons_expr e no_exprs) ts (sign tok_parenthese_close ∷ rest)
  unfolding parse_args cur same next
  parse_args-last reads zero b = absurd (omega arith)
  parse_args-last reads (suc f) b = rw (reads f (omega arith))

  pub parse_args-more :
      (es : Exprs) (more : Lexemes)
      → length (sign tok_comma ∷ more) < length ts
      → Reads 4 parse_expression e ts (sign tok_comma ∷ more)
      → Reads 5 parse_args es more rest
      → Reads 5 parse_args (cons_expr e es) ts rest
  unfolding parse_args cur same next
  parse_args-more es more lt reads reads' zero b = absurd (omega arith)
  parse_args-more es more lt reads reads' (suc f) b =
      rw (reads f (omega arith), reads' f (omega arith))

  pub parse_init_values-last :
      Reads 4 parse_expression e ts (sign tok_bracket_close ∷ rest)
      → Reads 5 parse_init_values (cons_expr e no_exprs) ts rest
  unfolding parse_init_values cur same next consume
  parse_init_values-last reads zero b = absurd (omega arith)
  parse_init_values-last reads (suc f) b = rw (reads f (omega arith))

  pub parse_init_values-more :
      (es : Exprs) (more : Lexemes)
      → length (sign tok_comma ∷ more) < length ts
      → Reads 4 parse_expression e ts (sign tok_comma ∷ more)
      → Reads 5 parse_init_values es more rest
      → Reads 5 parse_init_values (cons_expr e es) ts rest
  unfolding parse_init_values cur same next consume
  parse_init_values-more es more lt reads reads' zero b = absurd (omega arith)
  parse_init_values-more es more lt reads reads' (suc f) b =
      rw (reads f (omega arith), reads' f (omega arith))

-- The values of a struct literal, up to behind its '}'.
module _ (n : ℕ) (rest : Lexemes) (h : n < 2 ^ 53) where
  pub parse_struct_values-num_last :
      Reads 1 parse_struct_values
        (cons_expr (num n) no_exprs)
        (numeral (digits n) ∷ sign tok_bracket_close ∷ rest)
        rest
  unfolding parse_struct_values cur same next expect_value
  parse_struct_values-num_last zero b = absurd (omega arith)
  parse_struct_values-num_last (suc f) b = rw (convert-digits (2 ^ 64) n h (omega arith))

  pub parse_struct_values-num_more :
      (vs : Exprs) (more : Lexemes)
      → Reads 1 parse_struct_values vs more rest
      → Reads 1 parse_struct_values
          (cons_expr (num n) vs)
          (numeral (digits n) ∷ sign tok_comma ∷ more)
          rest
  unfolding parse_struct_values cur same next expect_value
  parse_struct_values-num_more vs more reads zero b = absurd (omega arith)
  parse_struct_values-num_more vs more reads (suc f) b =
      rw (convert-digits (2 ^ 64) n h (omega arith), reads f (omega arith))

module _ (ws : Exprs) (ts rest : Lexemes) where
  pub parse_struct_values-struct_last :
      Reads 1 parse_struct_values ws ts (sign tok_bracket_close ∷ rest)
      → Reads 1 parse_struct_values
          (cons_expr (struct_literal ws) no_exprs)
          (sign tok_bracket_open ∷ ts)
          rest
  unfolding parse_struct_values cur same next
  parse_struct_values-struct_last reads zero b = absurd (omega arith)
  parse_struct_values-struct_last reads (suc f) b =
      rw (parse_struct_literal_expr-Reads ws ts _ reads f (omega arith))

  pub parse_struct_values-struct_more :
      (vs : Exprs) (more : Lexemes)
      → length (sign tok_comma ∷ more) < length ts
      → Reads 1 parse_struct_values ws ts (sign tok_comma ∷ more)
      → Reads 1 parse_struct_values vs more rest
      → Reads 1 parse_struct_values
          (cons_expr (struct_literal ws) vs)
          (sign tok_bracket_open ∷ ts)
          rest
  unfolding parse_struct_values cur same next
  parse_struct_values-struct_more vs more lt reads reads' zero b = absurd (omega arith)
  parse_struct_values-struct_more vs more lt reads reads' (suc f) b =
      rw (parse_struct_literal_expr-Reads ws ts _ reads f (omega arith), reads' f (omega arith))

-- A call, and an initialiser, behind the name that they begin with.
pub parse_call_expr-empty :
    (name : Text) (names ins outs : List Text) (rest : Lexemes)
    → Paired ins outs
    → Closes (cur rest)
    → Reads 0
        (λ f. parse_call_expr f name names)
        (call name names no_exprs ins outs)
        (sign tok_parenthese_open
          ∷ sign tok_parenthese_close
          ∷ emit_ports ins (emit_ports outs rest))
        rest
unfolding parse_call_expr cur same next consume
parse_call_expr-empty name names ins outs rest p c zero b = absurd (omega arith)
parse_call_expr-empty name names ins outs rest p c (suc f) b =
    rw (parse_connect-emit f ins outs rest p c (omega arith))

pub parse_call_expr-args :
    (name : Text) (names ins outs : List Text) (args : Exprs) (ts rest : Lexemes)
    → Paired ins outs
    → Closes (cur rest)
    → length (sign tok_parenthese_close ∷ emit_ports ins (emit_ports outs rest)) ≤ length ts
    → same (cur ts) tok_parenthese_close ≡ false
    → Reads 5 parse_args args ts (sign tok_parenthese_close ∷ emit_ports ins (emit_ports outs rest))
    → Reads 0
        (λ f. parse_call_expr f name names)
        (call name names args ins outs)
        (sign tok_parenthese_open ∷ ts)
        rest
unfolding parse_call_expr cur same next consume
parse_call_expr-args name names ins outs args ts rest p c le ne reads zero b = absurd (omega arith)
parse_call_expr-args name names ins outs args ts rest p c le ne reads (suc f) b =
    rw (ne, reads f (omega arith), parse_connect-emit f ins outs rest p c (omega arith))

pub parse_identifier_expr-call :
    (name : Text) (names : List Text) (e : Expr) (ts rest : Lexemes)
    → Reads 0 (λ f. parse_call_expr f name names) e (sign tok_parenthese_open ∷ ts) rest
    → Reads 0 parse_identifier_expr e
        (word name ∷ emit_dots names (sign tok_parenthese_open ∷ ts))
        rest
unfolding parse_identifier_expr cur same expect_id
parse_identifier_expr-call name names e ts rest reads zero b = absurd (omega arith)
parse_identifier_expr-call name names e ts rest reads (suc f) b =
    let h = length-emit_dots names (sign tok_parenthese_open ∷ ts) in
    rw (parse_dots-emit f names (sign tok_parenthese_open ∷ ts) refl (omega arith))
      (reads f (omega arith))

pub parse_identifier_expr-init :
    (name : Text) (es : Exprs) (ts rest : Lexemes)
    → Reads 5 parse_init_values es ts rest
    → Reads 0 parse_identifier_expr
        (init (var_type name no_params) es)
        (word name ∷ sign tok_bracket_open ∷ ts)
        rest
unfolding parse_identifier_expr parse_dots parse_init_expr cur same next consume expect_id
parse_identifier_expr-init name es ts rest reads zero b = absurd (omega arith)
parse_identifier_expr-init name es ts rest reads (suc zero) b = absurd (omega arith)
parse_identifier_expr-init name es ts rest reads (suc (suc f)) b = rw (reads f (omega arith))
