-- ===== src/Lang/Fuel/Attributes.antt =====
-- Attributes and scopes end.
use alkali.Prelude.{
  ℕ, zero, suc, ◌*◌, ◌<◌, ◌≡◌, refl, true, false, List, [], ◌∷◌, ◌++◌, arith, length,
}
use alkali.Lang.Token.{
  Text, Token, same, tok_eof, tok_identifier, tok_comma, tok_colon, tok_semicolon, tok_eq,
  tok_scope, tok_parenthese_open, tok_parenthese_close, tok_sbracket_open, tok_sbracket_close,
  tok_angle_bracket_open, tok_angle_bracket_close,
}
use alkali.Lang.Ast.{Attributes}
use alkali.Lang.Stream.{
  Lexemes, Parser, cur, next, pure, ◌>>=◌, ◌>>◌, when, consume, expect_id, parse_error,
}
use alkali.Lang.Ends.{
  Ends, ended, nulled, Ends-mono, Ends-branch, Ends-bind, cur-pos, length-next, then_consume,
  then_id,
}
use alkali.Lang.Parser.Modules.{
  separate_loop, separate_by, attr_name, attr_value, attr_entry, parse_attributes,
  parse_scope_handlers, parse_scope,
}

-- A list of what `p` reads, if `p` takes nothing or something off every shorter input.
module _ {ℓ} {S : Type ℓ} (close sep : Token) (ne_close : same tok_eof close ≡ false)
    (ne_sep : same tok_eof sep ≡ false) (p : S → Parser S) (bound : ℕ)
    (p-Ends : (s : S) (ts : Lexemes) → length ts < bound → Ends (suc (length ts)) (p s ts)) where
  separate_loop-Ends :
      (f : ℕ) (s : S) (ts : Lexemes)
      → 0 < length ts
      → length ts < suc bound
      → 20 * length ts < f
      → Ends (length ts) (separate_loop f close sep p s ts)
  unfolding separate_loop
  separate_loop-Ends zero s ts pos b h = absurd (omega arith)
  separate_loop-Ends (suc f) s ts pos b h =
      let h₀ = length-next ts in
      Ends-bind (p-Ends s (next ts) (omega arith)) (omega arith) λ s' ts₁ h₁.
        Ends-branch (same (cur ts₁) sep)
          (λ e.
            Ends-mono (omega arith)
              (separate_loop-Ends f s' ts₁ (cur-pos sep ts₁ ne_sep e) (omega arith) (omega arith)))
          (λ _.
            Ends-branch (same (cur ts₁) close)
              (λ _. then_consume ts₁ close ne_close (omega arith) λ _ ts₂ h₂. ended (omega arith))
              (λ _. ended (omega arith)))

  separate_by-Ends :
      (from : Token)
      → same tok_eof from ≡ false
      → (f : ℕ) (s : S) (ts : Lexemes) → length ts < suc bound
      → 20 * length ts < f
      → Ends (suc (length ts)) (separate_by f from close sep p s ts)
  unfolding separate_by
  separate_by-Ends from ne_from f s ts b h =
      Ends-branch (same (cur ts) from)
        (λ e. Ends-mono (omega arith) (separate_loop-Ends f s ts (cur-pos from ts ne_from e) b h))
        (λ _. ended (omega arith))

attr_name-Ends : (ss : List Text) (ts : Lexemes) → Ends (suc (length ts)) (attr_name ss ts)
unfolding attr_name same
attr_name-Ends ss ts =
    Ends-branch (same (cur ts) tok_identifier)
      (λ _. then_id ts (omega arith) λ s ts₁ h₁. ended (omega arith)) (λ _. ended (omega arith))

module _ (f : ℕ) where
  attr_value-Ends : (ts : Lexemes) → 20 * length ts < f → Ends (suc (length ts)) (attr_value f ts)
  unfolding attr_value same
  attr_value-Ends ts h =
      Ends-branch (same (cur ts) tok_eq)
        (λ _. then_consume ts tok_eq refl (omega arith) λ _ ts₁ h₁.
          Ends-branch (same (cur ts₁) tok_identifier)
            (λ _. then_id ts₁ (omega arith) λ s ts₂ h₂. ended (omega arith))
            (λ _.
              Ends-branch (same (cur ts₁) tok_parenthese_open)
                (λ e.
                  Ends-bind
                    (separate_by-Ends tok_parenthese_close tok_comma refl refl attr_name (length ts)
                      (λ ss ts' _. attr_name-Ends ss ts') tok_parenthese_open refl f [] ts₁
                      (omega arith) (omega arith))
                    (omega arith) λ ss ts₂ h₂. ended (omega arith))
                (λ _. ended (omega arith))))
        (λ _. ended (omega arith))

  attr_entry-Ends :
      (attrs : Attributes) (ts : Lexemes)
      → 20 * length ts < f
      → Ends (suc (length ts)) (attr_entry f attrs ts)
  unfolding attr_entry same
  attr_entry-Ends attrs ts h =
      Ends-branch (same (cur ts) tok_identifier)
        (λ _. then_id ts (omega arith) λ key ts₁ h₁.
          Ends-bind (attr_value-Ends ts₁ (omega arith)) (omega arith)
            λ v ts₂ h₂. ended (omega arith))
        (λ _. ended (omega arith))

  pub parse_attributes-Ends :
      (attrs : Attributes) (ts : Lexemes)
      → same (cur ts) tok_sbracket_open ≡ true
      → 20 * length ts < f
      → Ends (length ts) (parse_attributes f attrs ts)
  unfolding parse_attributes same
  parse_attributes-Ends attrs ts e h = rw e (
      separate_loop-Ends tok_sbracket_close tok_comma refl refl (attr_entry f) (length ts)
        (λ attrs' ts' b. attr_entry-Ends attrs' ts' (omega arith)) f attrs ts
        (cur-pos tok_sbracket_open ts refl e) (omega arith) h)

parse_scope_handlers-Ends :
    (f : ℕ) (ts : Lexemes)
    → 0 < length ts
    → 20 * length ts < f
    → Ends (length ts) (parse_scope_handlers f ts)
unfolding parse_scope_handlers same
parse_scope_handlers-Ends zero ts pos h = absurd (omega arith)
parse_scope_handlers-Ends (suc f) ts pos h =
    let h₀ = length-next ts in
    then_id (next ts) (omega arith) λ handler ts₁ h₁.
      Ends-bind (atom-Ends handler ts₁) (omega arith) λ name ts₂ h₂.
        Ends-branch (same (cur ts₂) tok_comma)
          (λ e.
            Ends-bind (parse_scope_handlers-Ends f ts₂ (cur-pos tok_comma ts₂ refl e) (omega arith))
              (omega arith) λ names ts₃ h₃. ended (omega arith))
          (λ _. ended (omega arith))
  where
    atom-Ends :
        (handler : Text) (ts : Lexemes)
        → Ends (suc (length ts)) (
            when tok_colon
              (consume tok_colon >> do atom ← expect_id; pure (handler ++ b':' ∷ atom))
              (pure handler)
              ts)
    atom-Ends handler ts =
        Ends-branch (same (cur ts) tok_colon)
          (λ _.
            then_consume ts tok_colon refl (omega arith)
              λ _ ts₁ h₁. then_id ts₁ (omega arith) λ atom ts₂ h₂. ended (omega arith))
          (λ _. ended (omega arith))

module _ (f : ℕ) where
  handlers-Ends :
      (ts : Lexemes)
      → 20 * length ts < f
      → Ends (suc (length ts)) (
          when tok_angle_bracket_open
            (do
              hs ← parse_scope_handlers f
              when tok_angle_bracket_close (consume tok_angle_bracket_close >> pure hs) parse_error)
            (pure [])
            ts)
  unfolding same
  handlers-Ends ts h =
      Ends-branch (same (cur ts) tok_angle_bracket_open)
        (λ e.
          Ends-bind (parse_scope_handlers-Ends f ts (cur-pos tok_angle_bracket_open ts refl e) h)
            (omega arith)
            λ hs ts₁ h₁.
              Ends-branch (same (cur ts₁) tok_angle_bracket_close)
                (λ _.
                  then_consume ts₁ tok_angle_bracket_close refl (omega arith)
                    λ _ ts₂ h₂. ended (omega arith))
                (λ _. nulled (omega arith)))
        (λ _. ended (omega arith))

  key-Ends :
      (ts : Lexemes)
      → Ends (suc (length ts)) (
          when tok_sbracket_open
            (consume tok_sbracket_open >> do
              key ← expect_id
              when tok_sbracket_close (consume tok_sbracket_close >> pure key) parse_error)
            (pure [])
            ts)
  unfolding same
  key-Ends ts =
      Ends-branch (same (cur ts) tok_sbracket_open)
        (λ _. then_consume ts tok_sbracket_open refl (omega arith) λ _ ts₁ h₁.
          then_id ts₁ (omega arith) λ key ts₂ h₂.
            Ends-branch (same (cur ts₂) tok_sbracket_close)
              (λ _.
                then_consume ts₂ tok_sbracket_close refl (omega arith)
                  λ _ ts₃ h₃. ended (omega arith))
              (λ _. nulled (omega arith)))
        (λ _. ended (omega arith))

  pub parse_scope-Ends : (ts : Lexemes) → 20 * length ts < f → Ends (length ts) (parse_scope f ts)
  unfolding parse_scope same
  parse_scope-Ends ts h = then_consume ts tok_scope refl (omega arith) λ _ ts₁ h₁.
      then_id ts₁ (omega arith) λ name ts₂ h₂.
        Ends-bind (handlers-Ends ts₂ (omega arith)) (omega arith) λ hs ts₃ h₃.
          Ends-bind (key-Ends ts₃) (omega arith) λ key ts₄ h₄.
            then_consume ts₄ tok_semicolon refl (omega arith) λ _ ts₅ h₅. ended (omega arith)
