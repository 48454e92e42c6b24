-- ===== src/Lang/RoundTrip/Length.antt =====
-- A printed expression takes lexemes, so that the fuel which its length gives is enough.
use alkali.Prelude.{ℕ, ◌+◌, ◌≤◌, List, [], ◌∷◌, arith, length, ltb, Bool-cases, inl, inr}
use alkali.Lang.Token.{Text, tok_parenthese_open, tok_parenthese_close}
use alkali.Lang.Ast.{
  Expr, Exprs, num, struct_literal, atom_literal, port_literal, path, bin_op, call, init, no_exprs,
  cons_expr, var_type,
}
use alkali.Lang.Stream.{Lexemes, sign}
use alkali.Lang.Printer.{
  emit_dots, emit_port, emit_more_ports, emit_ports, emit_atom, emit_instance, emit, emit_exprs,
  emit_more_exprs, precedence,
}

pub length-emit_dots : (ss : List Text) (rest : Lexemes) → length rest ≤ length (emit_dots ss rest)
unfolding emit_dots
length-emit_dots [] rest = omega arith
length-emit_dots (s ∷ ss) rest = omega (arith, length-emit_dots ss rest)

pub length-emit_more_ports :
    (ss : List Text) (rest : Lexemes) → length rest ≤ length (emit_more_ports ss rest)
unfolding emit_more_ports emit_port
length-emit_more_ports [] rest = omega arith
length-emit_more_ports (s ∷ ss) rest = omega (arith, length-emit_more_ports ss rest)

pub length-emit_ports :
    (ss : List Text) (rest : Lexemes) → length rest ≤ length (emit_ports ss rest)
unfolding emit_ports emit_port
length-emit_ports [] rest = omega arith
length-emit_ports (s ∷ ss) rest = omega (arith, length-emit_more_ports ss (_ ∷ rest))

pub length-emit_atom : (a : Text) (rest : Lexemes) → length rest ≤ length (emit_atom a rest)
unfolding emit_atom
length-emit_atom [] rest = omega arith
length-emit_atom (c ∷ s) rest = omega arith

mutual
  unfolding emit

  pub length-emit_le : (p : ℕ) (e : Expr) (rest : Lexemes) → length rest ≤ length (emit p e rest)
  length-emit_le p (num n) rest = omega arith
  length-emit_le p (struct_literal vs) rest = omega (arith, length-emit_exprs vs (_ ∷ rest))
  length-emit_le p (atom_literal a) rest = omega arith
  length-emit_le p (port_literal event atom i) rest =
      omega (arith, length-emit_atom atom (_ ∷ emit_instance i ∷ _ ∷ rest))
  length-emit_le p (path name names) rest = omega (arith, length-emit_dots names rest)
  length-emit_le p (bin_op t l r) rest =
      let closed = sign tok_parenthese_close ∷ rest in
      let q = precedence t in
      elim (Bool-cases (ltb q p)) [
        | inl e ↦
            rw (e, emit)
              (omega (
                arith,
                length-emit_le q l (sign t ∷ emit (q + 1) r closed),
                length-emit_le (q + 1) r closed,
              ))
        | inr e ↦
            rw (e, emit)
              (omega (
                arith,
                length-emit_le q l (sign t ∷ emit (q + 1) r rest),
                length-emit_le (q + 1) r rest,
              ))
      ]
  length-emit_le p (call name names args ins outs) rest =
      let ports = emit_ports ins (emit_ports outs rest) in
      let closed = emit_exprs args (sign tok_parenthese_close ∷ ports) in
      omega (
        arith,
        length-emit_dots names (sign tok_parenthese_open ∷ closed),
        length-emit_exprs args (sign tok_parenthese_close ∷ ports),
        length-emit_ports ins (emit_ports outs rest),
        length-emit_ports outs rest,
      )
  length-emit_le p (init (var_type name _) es) rest = omega (arith, length-emit_exprs es (_ ∷ rest))
  length-emit_le p _ rest = omega arith

  pub length-emit_exprs : (es : Exprs) (rest : Lexemes) → length rest ≤ length (emit_exprs es rest)
  length-emit_exprs no_exprs rest = omega arith
  length-emit_exprs (cons_expr e es) rest =
      omega (arith, length-emit_le 0 e (emit_more_exprs es rest), length-emit_more_exprs es rest)

  pub length-emit_more_exprs :
      (es : Exprs) (rest : Lexemes) → length rest ≤ length (emit_more_exprs es rest)
  length-emit_more_exprs no_exprs rest = omega arith
  length-emit_more_exprs (cons_expr e es) rest =
      omega (arith, length-emit_le 0 e (emit_more_exprs es rest), length-emit_more_exprs es rest)
