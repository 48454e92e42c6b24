-- ===== src/Lang/Fuel/Ports.antt =====
-- The parts of an expression that hold no expression end: ports, paths and port literals.
use alkali.Prelude.{ℕ, zero, suc, ◌+◌, ◌*◌, ◌^◌, ◌<◌, refl, [], arith, length}
use alkali.Lang.Token.{
  same, tok_identifier, tok_number, tok_comma, tok_star, tok_colon, tok_dot, tok_sbracket_open,
  tok_sbracket_close,
}
use alkali.Lang.Stream.{Lexemes, cur, next, pure, when, after, expect_id}
use alkali.Lang.Ends.{
  Ends, ended, nulled, Ends-mono, Ends-branch, Ends-bind, cur-pos, length-next, then_consume,
  then_id, then_value, expect_id-Ends,
}
use alkali.Lang.Parser.Exprs.{
  parse_ports, parse_more_ports, parse_instance, parse_port_literal_expr, parse_dots, parse_connect,
}

mutual
  unfolding parse_ports same

  parse_ports-Ends :
      (f : ℕ) (ts : Lexemes)
      → 0 < length ts
      → 20 * length ts < f
      → Ends (length ts) (parse_ports f ts)
  parse_ports-Ends zero ts pos h = absurd (omega arith)
  parse_ports-Ends (suc f) ts pos h =
      let h₀ = length-next ts in
      Ends-branch (same (cur (next ts)) tok_identifier)
        (λ e. then_id (next ts) (omega arith) λ s ts₁ h₁.
          Ends-bind (parse_more_ports-Ends f ts₁ (omega arith)) (omega arith)
            λ ss ts₂ h₂. ended (omega arith))
        (λ e.
          Ends-branch (same (cur (next ts)) tok_star)
            (λ e'. then_consume (next ts) tok_star refl (omega arith) λ _ ts₁ h₁.
              Ends-bind (parse_more_ports-Ends f ts₁ (omega arith)) (omega arith)
                λ ss ts₂ h₂. ended (omega arith))
            (λ e'. Ends-mono (omega arith) (parse_more_ports-Ends f (next ts) (omega arith))))

  parse_more_ports-Ends :
      (f : ℕ) (ts : Lexemes)
      → 20 * length ts + 1 < f
      → Ends (suc (length ts)) (parse_more_ports f ts)
  parse_more_ports-Ends zero ts h = absurd (omega arith)
  parse_more_ports-Ends (suc f) ts h =
      Ends-branch (same (cur ts) tok_comma)
        (λ e.
          Ends-mono (omega arith)
            (parse_ports-Ends f ts (cur-pos tok_comma ts refl e) (omega arith)))
        (λ e. ended (omega arith))

pub parse_dots-Ends :
    (f : ℕ) (ts : Lexemes) → 20 * length ts < f → Ends (suc (length ts)) (parse_dots f ts)
unfolding parse_dots same
parse_dots-Ends zero ts h = absurd (omega arith)
parse_dots-Ends (suc f) ts h =
    Ends-branch (same (cur ts) tok_dot)
      (λ e. then_consume ts tok_dot refl (omega arith) λ _ ts₁ h₁.
        then_id ts₁ (omega arith) λ s ts₂ h₂.
          Ends-bind (parse_dots-Ends f ts₂ (omega arith)) (omega arith)
            λ ss ts₃ h₃. ended (omega arith))
      (λ e. ended (omega arith))

parse_instance-Ends : (ts : Lexemes) → Ends (length ts) (parse_instance ts)
unfolding parse_instance same
parse_instance-Ends ts =
    Ends-branch (same (cur ts) tok_number)
      (λ e. then_value ts (2 ^ 31) (omega arith) λ n ts₁ h₁. ended (omega arith))
      (λ e.
        Ends-branch (same (cur ts) tok_star)
          (λ e'. then_consume ts tok_star refl (omega arith) λ _ ts₁ h₁. ended (omega arith))
          (λ e'. nulled (omega arith)))

pub parse_port_literal_expr-Ends : (ts : Lexemes) → Ends (length ts) (parse_port_literal_expr ts)
unfolding parse_port_literal_expr same
parse_port_literal_expr-Ends ts = then_consume ts tok_sbracket_open refl (omega arith) λ _ ts₁ h₁.
    then_id ts₁ (omega arith) λ event ts₂ h₂. Ends-bind (atom-Ends ts₂) (omega arith) λ atom ts₃ h₃.
      then_consume ts₃ tok_comma refl (omega arith) λ _ ts₄ h₄.
        Ends-bind (parse_instance-Ends ts₄) (omega arith) λ i ts₅ h₅.
          then_consume ts₅ tok_sbracket_close refl (omega arith) λ _ ts₆ h₆. ended (omega arith)
  where
    atom-Ends :
        (ts : Lexemes) → Ends (suc (length ts)) (when tok_colon (after expect_id) (pure []) ts)
    atom-Ends ts =
        let h₀ = length-next ts in
        Ends-branch (same (cur ts) tok_colon)
          (λ e. Ends-mono (omega arith) (expect_id-Ends (next ts))) (λ e. ended (omega arith))

pub parse_connect-Ends :
    (f : ℕ) (ts : Lexemes) → 20 * length ts < f → Ends (suc (length ts)) (parse_connect f ts)
unfolding parse_connect same
parse_connect-Ends f ts h =
    Ends-branch (same (cur ts) tok_sbracket_open)
      (λ e.
        Ends-bind (parse_ports-Ends f ts (cur-pos tok_sbracket_open ts refl e) (omega arith))
          (omega arith)
          λ ins ts₁ h₁. then_consume ts₁ tok_sbracket_close refl (omega arith) λ _ ts₂ h₂.
            Ends-branch (same (cur ts₂) tok_sbracket_open)
              (λ e'.
                Ends-bind
                  (parse_ports-Ends f ts₂ (cur-pos tok_sbracket_open ts₂ refl e') (omega arith))
                  (omega arith)
                  λ outs ts₃ h₃.
                    then_consume ts₃ tok_sbracket_close refl (omega arith)
                      λ _ ts₄ h₄. ended (omega arith))
              (λ e'. nulled (omega arith)))
      (λ e. ended (omega arith))
