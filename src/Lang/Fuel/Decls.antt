-- ===== src/Lang/Fuel/Decls.antt =====
-- Functions and structs end.
use alkali.Prelude.{ℕ, zero, suc, ◌+◌, ◌*◌, ◌<◌, ◌≡◌, refl, ◌&&◌, false, [], arith, length}
use alkali.Lang.Token.{
  Token, same, tok_eof, tok_comma, tok_colon, tok_semicolon, tok_handler, tok_parenthese_open,
  tok_parenthese_close, tok_bracket_open, tok_bracket_close,
}
use alkali.Lang.Stream.{Lexemes, cur, next, is, pure, ◌>>◌, when, branch, parse_error, consume}
use alkali.Lang.Ends.{
  Ends, ended, nulled, faulted, Ends-kept, Ends-branch, Ends-on_some, Ends-bind, cur-pos,
  length-next, then_consume, then_id,
}
use alkali.Lang.Fuel.Types.{parse_type-Ends, parse_atom-Ends}
use alkali.Lang.Fuel.Blocks.{parse_declaration-Ends, parse_block-Ends}
use alkali.Lang.Parser.Decls.{
  parse_parameters, parse_handler_atom, parse_prototype, parse_definition, parse_fields,
  parse_struct,
}

parse_parameters-Ends :
    (f : ℕ) (ts : Lexemes)
    → 0 < length ts
    → 20 * length ts < f
    → Ends (length ts) (parse_parameters f ts)
unfolding parse_parameters same
parse_parameters-Ends zero ts pos h = absurd (omega arith)
parse_parameters-Ends (suc f) ts pos h =
    let h₀ = length-next ts in
    Ends-bind (parse_type-Ends f (next ts) (omega arith)) (omega arith) λ type ts₁ h₁.
      then_id ts₁ (omega arith) λ name ts₂ h₂.
        Ends-branch (same (cur ts₂) tok_comma)
          (λ e.
            Ends-bind (parse_parameters-Ends f ts₂ (cur-pos tok_comma ts₂ refl e) (omega arith))
              (omega arith) λ args ts₃ h₃. ended (omega arith))
          (λ e. ended (omega arith))

parse_handler_atom-Ends :
    (t : Token) (ts : Lexemes) → Ends (suc (length ts)) (parse_handler_atom t ts)
unfolding parse_handler_atom same
parse_handler_atom-Ends t ts =
    Ends-branch (same t tok_handler && is tok_colon ts)
      (λ _.
        Ends-kept (parse_atom-Ends ts)
          λ a ts₁ h₁. Ends-on_some a faulted λ s _. ended (omega arith))
      (λ _. ended (omega arith))

module _ (f : ℕ) where
  arguments-Ends :
      (ts : Lexemes)
      → 20 * length ts < f
      → Ends (length ts) (
          when tok_parenthese_open
            (λ ts.
              branch
                (is tok_parenthese_close (next ts))
                (consume tok_parenthese_open >> pure [])
                (parse_parameters f)
                ts)
            parse_error
            ts)
  unfolding same
  arguments-Ends ts h =
      Ends-branch (same (cur ts) tok_parenthese_open)
        (λ e.
          Ends-branch (is tok_parenthese_close (next ts))
            (λ _.
              then_consume ts tok_parenthese_open refl (omega arith)
                λ _ ts₁ h₁. ended (omega arith))
            (λ _. parse_parameters-Ends f ts (cur-pos tok_parenthese_open ts refl e) h))
        (λ e. nulled (omega arith))

  parse_prototype-Ends :
      (t : Token) (ts : Lexemes)
      → same tok_eof t ≡ false
      → 20 * length ts < f
      → Ends (length ts) (parse_prototype f t ts)
  unfolding parse_prototype same
  parse_prototype-Ends t ts ne h =
      Ends-branch (same (cur ts) t)
        (λ _. then_consume ts t ne (omega arith) λ _ ts₁ h₁.
          then_id ts₁ (omega arith) λ name ts₂ h₂.
            Ends-bind (parse_handler_atom-Ends t ts₂) (omega arith) λ atom ts₃ h₃.
              Ends-bind (arguments-Ends ts₃ (omega arith)) (omega arith) λ args ts₄ h₄.
                Ends-branch (same (cur ts₄) tok_parenthese_close)
                  (λ _.
                    then_consume ts₄ tok_parenthese_close refl (omega arith)
                      λ _ ts₅ h₅. ended (omega arith))
                  (λ _. nulled (omega arith)))
        (λ _. nulled (omega arith))

  pub parse_definition-Ends :
      (t : Token) (ts : Lexemes)
      → same tok_eof t ≡ false
      → 20 * length ts < f
      → Ends (length ts) (parse_definition f t ts)
  unfolding parse_definition
  parse_definition-Ends t ts ne h =
      Ends-bind (parse_prototype-Ends t ts ne h) (omega arith) λ proto ts₁ h₁.
        Ends-bind (parse_block-Ends f ts₁ (omega arith)) (omega arith)
          λ body ts₂ h₂. ended (omega arith)

parse_fields-Ends :
    (f : ℕ) (ts : Lexemes) → 20 * length ts + 5 < f → Ends (suc (length ts)) (parse_fields f ts)
unfolding parse_fields same
parse_fields-Ends zero ts h = absurd (omega arith)
parse_fields-Ends (suc f) ts h =
    Ends-branch (same (cur ts) tok_bracket_close) (λ _. ended (omega arith))
      (λ _. Ends-bind (parse_declaration-Ends f false ts (omega arith)) (omega arith) λ d ts₁ h₁.
        Ends-branch (same (cur ts₁) tok_semicolon)
          (λ _. then_consume ts₁ tok_semicolon refl (omega arith) λ _ ts₂ h₂.
            Ends-bind (parse_fields-Ends f ts₂ (omega arith)) (omega arith)
              λ ds ts₃ h₃. ended (omega arith))
          (λ _. nulled (omega arith)))

pub parse_struct-Ends :
    (f : ℕ) (t : Token) (ts : Lexemes)
    → same tok_eof t ≡ false
    → 20 * length ts < f
    → Ends (length ts) (parse_struct f t ts)
unfolding parse_struct same
parse_struct-Ends f t ts ne h = then_consume ts t ne (omega arith) λ _ ts₁ h₁.
    then_id ts₁ (omega arith) λ name ts₂ h₂.
      Ends-branch (same (cur ts₂) tok_bracket_open)
        (λ _. then_consume ts₂ tok_bracket_open refl (omega arith) λ _ ts₃ h₃.
          Ends-bind (parse_fields-Ends f ts₃ (omega arith)) (omega arith) λ ds ts₄ h₄.
            then_consume ts₄ tok_bracket_close refl (omega arith) λ _ ts₅ h₅. ended (omega arith))
        (λ _. nulled (omega arith))
