-- ===== src/Lang/RoundTrip/Operations.antt =====
-- A printed operation, from its operands; and the closing tokens behind an expression.
use alkali.Prelude.{
  ℕ, ◌+◌, ◌≤◌, ◌≡◌, refl, inl, inr, false, ◌∷◌, some, arith, ltb, not_ltb→le, Bool-cases,
}
use alkali.Lang.Token.{Token, same, tok_comma, tok_parenthese_close, tok_bracket_close}
use alkali.Lang.Ast.{
  Expr, var_decl, return_void, return_expr, num, struct_literal, atom_literal, port_literal, path,
  bin_op, call, init, if_else, var_type,
}
use alkali.Lang.Stream.{Lexemes, sign, cur}
use alkali.Lang.Parser.Exprs.{get_tok_precedence}
use alkali.Lang.Printer.{precedence, emit, Printable}
use alkali.Lang.RoundTrip.Follows.{Follows, Follows-mono}
use alkali.Lang.RoundTrip.Chain.{Chain, closed-Chain, open-Chain, parse_expression-Chain}
use alkali.Lang.RoundTrip.Compound.{ReadsPrimary-paren}

-- The first lexeme of an expression is never ')'.
pub emit-start :
    (p : ℕ) (e : Expr) (rest : Lexemes)
    → Printable e
    → same (cur (emit p e rest)) tok_parenthese_close ≡ false
unfolding emit Printable cur same
emit-start p (num n) rest pr = refl
emit-start p (struct_literal vs) rest pr = refl
emit-start p (atom_literal a) rest pr = refl
emit-start p (port_literal event atom i) rest pr = refl
emit-start p (path name names) rest pr = refl
emit-start p (bin_op t l r) rest pr =
    let rec = emit-start (precedence t) l (sign t ∷ emit (precedence t + 1) r rest) pr.1 in
    elim (Bool-cases (ltb (precedence t) p)) [ inl e ↦ rw (e, emit) | inr e ↦ rw (e, emit) rec ]
emit-start p (call name names args ins outs) rest pr = refl
emit-start p (init (var_type name _) es) rest pr = refl
emit-start p (var_decl x ty e) rest pr = absurd pr
emit-start p return_void rest pr = absurd pr
emit-start p (return_expr e) rest pr = absurd pr
emit-start p (if_else c a b) rest pr = absurd pr

-- Closing tokens end an expression at every place.
module _ (ts : Lexemes) where
  pub paren-Follows : (p : ℕ) → Follows p (sign tok_parenthese_close ∷ ts)
  unfolding cur same get_tok_precedence
  paren-Follows p = record {
    closes = record {
      no_dot = refl;
      no_colon = refl;
      no_paren = refl;
      no_brace = refl;
      no_bracket = refl;
    };
    loose = λ q e. cc;
  }

  pub brace-Follows : (p : ℕ) → Follows p (sign tok_bracket_close ∷ ts)
  unfolding cur same get_tok_precedence
  brace-Follows p = record {
    closes = record {
      no_dot = refl;
      no_colon = refl;
      no_paren = refl;
      no_brace = refl;
      no_bracket = refl;
    };
    loose = λ q e. cc;
  }

  pub comma-Follows : (p : ℕ) → Follows p (sign tok_comma ∷ ts)
  unfolding cur same get_tok_precedence
  comma-Follows p = record {
    closes = record {
      no_dot = refl;
      no_colon = refl;
      no_paren = refl;
      no_brace = refl;
      no_bracket = refl;
    };
    loose = λ q e. cc;
  }

-- An operation, from its operands, with parentheses where they are wanted.
module _ (t : Token) (op : get_tok_precedence t ≡ some (precedence t)) (l r : Expr) where
  unfoldable pub Operands : Lexemes → Type 0
  Operands rest =
      Chain (precedence t) l (emit (precedence t) l (sign t ∷ emit (precedence t + 1) r rest))
        (sign t ∷ emit (precedence t + 1) r rest)
      × Chain (precedence t + 1) r (emit (precedence t + 1) r rest) rest

  pub bin_op-Chain :
      (p : ℕ) (rest : Lexemes)
      → Follows p rest
      → (p ≤ precedence t → Operands rest)
      → Operands (sign tok_parenthese_close ∷ rest)
      → Chain p (bin_op t l r) (emit p (bin_op t l r) rest) rest
  unfolding emit Operands get_tok_precedence cur
  bin_op-Chain p rest fo operands (cl', cr') =
      let q = precedence t in
      elim (Bool-cases (ltb q p)) [
        | inl e ↦
            let whole = open-Chain t q 0 op (omega arith) (paren-Follows rest q) cl' cr' in
            let shorter = whole.shorter in
            let longer = whole.longer in
            rw (e, emit)
              (closed-Chain p (omega arith)
                (ReadsPrimary-paren _ _ rest λ f b. parse_expression-Chain f 0 whole refl b))
        | inr e ↦
            let le = not_ltb→le q p e in
            let (cl, cr) = operands le in
            rw (e, emit) (open-Chain t q p op le (Follows-mono p fo q le) cl cr)
      ]
