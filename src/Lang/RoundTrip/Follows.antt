-- ===== src/Lang/RoundTrip/Follows.antt =====
-- What may stand behind a printed expression without being read as a part of it.
use alkali.Prelude.{ℕ, ◌≤◌, ◌≡◌, refl, false, ◌∷◌, some, arith, ltb-false, Option-cases, inl, inr}
use alkali.Lang.Token.{
  Token, same, tok_dot, tok_colon, tok_parenthese_open, tok_bracket_open, tok_sbracket_open, tok_eq,
  tok_plus,
}
use alkali.Lang.Stream.{Lexemes, sign, cur}
use alkali.Lang.Parser.Exprs.{get_tok_precedence, binds_tighter}

-- No token that goes on with a primary expression.
pub record Closes (t : Token) : Type 0 where
  pub no_dot : same t tok_dot ≡ false
  pub no_colon : same t tok_colon ≡ false
  pub no_paren : same t tok_parenthese_open ≡ false
  pub no_brace : same t tok_bracket_open ≡ false
  pub no_bracket : same t tok_sbracket_open ≡ false

-- Nor an operator that binds more tightly than `p`.
pub record Follows (p : ℕ) (rest : Lexemes) : Type 0 where
  pub closes : Closes (cur rest)
  pub loose : (q : ℕ) → get_tok_precedence (cur rest) ≡ some q → q ≤ p

operator-Closes : (t : Token) (q : ℕ) → get_tok_precedence t ≡ some q → Closes t
unfolding get_tok_precedence same
operator-Closes tok_eq q e = record {
  no_dot = refl;
  no_colon = refl;
  no_paren = refl;
  no_brace = refl;
  no_bracket = refl;
}
operator-Closes tok_plus q e = record {
  no_dot = refl;
  no_colon = refl;
  no_paren = refl;
  no_brace = refl;
  no_bracket = refl;
}
operator-Closes _ q e = ground arith

pub operator-Follows :
    (t : Token) (q : ℕ) (rest : Lexemes) → get_tok_precedence t ≡ some q → Follows q (sign t ∷ rest)
unfolding cur
operator-Follows t q rest e = record {
  closes = operator-Closes t q e;
  loose = λ q' e'. ground arith;
}

module _ (p : ℕ) {rest : Lexemes} (fo : Follows p rest) where
  pub Follows-mono : (q : ℕ) → p ≤ q → Follows q rest
  Follows-mono q le = record {
    closes = fo.closes;
    loose = λ q' e. let le' = fo.loose q' e in omega arith;
  }

  -- The operator behind, if any, is left to the loop outside.
  pub binds_tighter-loose :
      (q : ℕ) → p ≤ q → binds_tighter q (get_tok_precedence (cur rest)) ≡ false
  unfolding binds_tighter
  binds_tighter-loose q le = elim (Option-cases (get_tok_precedence (cur rest))) [
    | inl e ↦ rw e
    | inr (q', e) ↦ rw e (let le' = fo.loose q' e in ltb-false q q' (omega arith))
  ]
