-- ===== src/Lang/Fuel/Types.antt =====
-- `parse_type` and `parse_atom` end, with fuel above 20 for each lexeme of the input.
use alkali.Prelude.{ℕ, zero, suc, ◌+◌, ◌*◌, ◌^◌, ◌<◌, refl, arith, length}
use alkali.Lang.Token.{
  same, tok_number, tok_identifier, tok_comma, tok_colon, tok_angle_bracket_open,
  tok_angle_bracket_close,
}
use alkali.Lang.Stream.{Lexemes, cur, next}
use alkali.Lang.Ends.{
  Ends, ended, nulled, Ends-mono, Ends-keep, Ends-branch, Ends-bind, cur-pos, length-next,
  then_consume, then_id, then_value, expect_id-Ends,
}
use alkali.Lang.Parser.Types.{parse_type, parse_params, parse_more_params, parse_atom}

pub parse_atom-Ends : (ts : Lexemes) → Ends (length ts) (parse_atom ts)
unfolding parse_atom same
parse_atom-Ends ts =
    Ends-branch (same (cur ts) tok_colon)
      (λ e.
        then_consume ts tok_colon refl (omega arith)
          λ _ ts₁ h₁. Ends-mono (omega arith) (expect_id-Ends ts₁))
      (λ e. nulled (omega arith))

mutual
  unfolding parse_type same

  pub parse_type-Ends :
      (f : ℕ) (ts : Lexemes) → 20 * length ts < f → Ends (length ts) (parse_type f ts)
  parse_type-Ends zero ts h = absurd (omega arith)
  parse_type-Ends (suc f) ts h = then_id ts (omega arith) λ name ts₁ h₁.
      Ends-branch (same (cur ts₁) tok_angle_bracket_open)
        (λ e. Ends-bind (parse_params-Ends f ts₁ (omega arith)) (omega arith) λ ps ts₂ h₂.
          then_consume ts₂ tok_angle_bracket_close refl (omega arith)
            λ _ ts₃ h₃. ended (omega arith))
        (λ e. ended (omega arith))

  parse_params-Ends :
      (f : ℕ) (ts : Lexemes) → 20 * length ts < f → Ends (length ts) (parse_params f ts)
  parse_params-Ends zero ts h = absurd (omega arith)
  parse_params-Ends (suc f) ts h =
      let h₀ = length-next ts in
      Ends-branch (same (cur (next ts)) tok_number)
        (λ e. then_value (next ts) (2 ^ 63) (omega arith) λ n ts₁ h₁.
          Ends-bind (parse_more_params-Ends f ts₁ (omega arith)) (omega arith)
            λ ps ts₂ h₂. ended (omega arith))
        (λ e.
          Ends-branch (same (cur (next ts)) tok_identifier)
            (λ e'.
              let pos = cur-pos tok_identifier (next ts) refl e' in
              Ends-bind (Ends-keep (parse_type-Ends f (next ts) (omega arith))) (omega arith)
                λ t ts₁ h₁.
                  Ends-bind (parse_more_params-Ends f ts₁ (omega arith)) (omega arith)
                    λ ps ts₂ h₂. ended (omega arith))
            (λ e'. nulled (omega arith)))

  parse_more_params-Ends :
      (f : ℕ) (ts : Lexemes)
      → 20 * length ts + 1 < f
      → Ends (suc (length ts)) (parse_more_params f ts)
  parse_more_params-Ends zero ts h = absurd (omega arith)
  parse_more_params-Ends (suc f) ts h =
      Ends-branch (same (cur ts) tok_comma)
        (λ e. Ends-mono (omega arith) (parse_params-Ends f ts (omega arith)))
        (λ e. ended (omega arith))
