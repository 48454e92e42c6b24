-- ===== src/Lang/Printer.antt =====
-- The surface syntax of the expressions that the parser reads, printed in front of what follows. A
-- binary operation is in parentheses where its operator binds less tightly than its place wants.
use alkali.Prelude.{
  ℕ, ◌+◌, ◌^◌, ◌<◌, ◌≡◌, Bool, true, false, List, [], ◌∷◌, none, some, ltb, ◌==◌, if◌then◌else◌,
}
use alkali.Lang.Token.{
  Text, Token, tok_comma, tok_star, tok_colon, tok_dot, tok_parenthese_open, tok_parenthese_close,
  tok_bracket_open, tok_bracket_close, tok_sbracket_open, tok_sbracket_close,
}
use alkali.Lang.Number.Exact.{digits}
use alkali.Lang.Ast.{
  Expr, Exprs, Instance, instance_number, any_instance, num, struct_literal, atom_literal,
  port_literal, path, bin_op, call, init, no_exprs, cons_expr, VarType, var_type, no_params,
}
use alkali.Lang.Stream.{Lexeme, Lexemes, word, numeral, sign}
use alkali.Lang.Parser.Exprs.{get_tok_precedence}

unfoldable pub emit_dots : List Text → Lexemes → Lexemes
emit_dots [] rest = rest
emit_dots (s ∷ ss) rest = sign tok_dot ∷ word s ∷ emit_dots ss rest

unfoldable pub is_star : Text → Bool
is_star [] = false
is_star (c ∷ []) = c == b'*'
is_star (c ∷ d ∷ s) = false

unfoldable pub emit_port : Text → Lexemes → Lexemes
unfolding is_star
emit_port s rest = (if is_star s then sign tok_star else word s) ∷ rest

unfoldable pub emit_more_ports : List Text → Lexemes → Lexemes
unfolding emit_port
emit_more_ports [] rest = rest
emit_more_ports (s ∷ ss) rest = sign tok_comma ∷ emit_port s (emit_more_ports ss rest)

-- A port list, in brackets.
unfoldable pub emit_ports : List Text → Lexemes → Lexemes
unfolding emit_port emit_more_ports
emit_ports [] rest = rest
emit_ports (s ∷ ss) rest =
    sign tok_sbracket_open ∷ emit_port s (emit_more_ports ss (sign tok_sbracket_close ∷ rest))

unfoldable pub emit_atom : Text → Lexemes → Lexemes
emit_atom [] rest = rest
emit_atom (c ∷ s) rest = sign tok_colon ∷ word (c ∷ s) ∷ rest

unfoldable pub emit_instance : Instance → Lexeme
emit_instance (instance_number n) = numeral (digits n)
emit_instance any_instance = sign tok_star

-- The precedence of an operator; 0 where there is none.
unfoldable pub precedence : Token → ℕ
unfolding get_tok_precedence
precedence t = elim (get_tok_precedence t) [ none ↦ 0 | some q ↦ q ]

unfoldable mutual
  -- At a place that wants operators of precedence `p` or more.
  pub emit : ℕ → Expr → Lexemes → Lexemes
  emit p (num n) rest = numeral (digits n) ∷ rest
  emit p (struct_literal vs) rest =
      sign tok_bracket_open ∷ emit_exprs vs (sign tok_bracket_close ∷ rest)
  emit p (atom_literal a) rest = sign tok_colon ∷ word a ∷ rest
  emit p (port_literal event atom i) rest =
      sign tok_sbracket_open
      ∷ word event
      ∷ emit_atom atom (sign tok_comma ∷ emit_instance i ∷ sign tok_sbracket_close ∷ rest)
  emit p (path name names) rest = word name ∷ emit_dots names rest
  emit p (bin_op t l r) rest = elim (ltb (precedence t) p) [
    | true ↦
        sign tok_parenthese_open
        ∷ emit (precedence t) l
            (sign t ∷ emit (precedence t + 1) r (sign tok_parenthese_close ∷ rest))
    | false ↦ emit (precedence t) l (sign t ∷ emit (precedence t + 1) r rest)
  ]
  emit p (call name names args ins outs) rest =
      word name
      ∷ emit_dots names (
          sign tok_parenthese_open
          ∷ emit_exprs args (sign tok_parenthese_close ∷ emit_ports ins (emit_ports outs rest)))
  emit p (init (var_type name _) es) rest =
      word name ∷ sign tok_bracket_open ∷ emit_exprs es (sign tok_bracket_close ∷ rest)
  emit p _ rest = rest

  -- A list with commas between.
  pub emit_exprs : Exprs → Lexemes → Lexemes
  emit_exprs no_exprs rest = rest
  emit_exprs (cons_expr e es) rest = emit 0 e (emit_more_exprs es rest)

  pub emit_more_exprs : Exprs → Lexemes → Lexemes
  emit_more_exprs no_exprs rest = rest
  emit_more_exprs (cons_expr e es) rest = sign tok_comma ∷ emit 0 e (emit_more_exprs es rest)

-- Ports behind a call: none, or some in both lists.
abbrev pub Paired : List Text → List Text → Type 0
Paired [] [] = Unit
Paired [] (_ ∷ _) = ⊥
Paired (_ ∷ _) [] = ⊥
Paired (_ ∷ _) (_ ∷ _) = Unit

abbrev pub NonEmpty : Exprs → Type 0
NonEmpty no_exprs = ⊥
NonEmpty (cons_expr _ _) = Unit

abbrev pub InstanceFits : Instance → Type 0
InstanceFits (instance_number n) = n < 2 ^ 31
InstanceFits any_instance = Unit

abbrev pub Plain : VarType → Type 0
Plain (var_type name ps) = ps ≡ no_params

-- What has a printed form: numbers that a double holds, operators in binary operations, lists that
-- are not empty where the syntax wants one, and only numbers and struct literals in a struct literal.
unfoldable mutual
  pub Printable : Expr → Type 0
  Printable (num n) = n < 2 ^ 53
  Printable (struct_literal vs) = NonEmpty vs × PrintableValues vs
  Printable (atom_literal a) = Unit
  Printable (port_literal event atom i) = InstanceFits i
  Printable (path name names) = Unit
  Printable (bin_op t l r) =
      (get_tok_precedence t ≡ some (precedence t)) × Printable l × Printable r
  Printable (call name names args ins outs) = Paired ins outs × AllPrintable args
  Printable (init type es) = Plain type × NonEmpty es × AllPrintable es
  Printable _ = ⊥

  pub AllPrintable : Exprs → Type 0
  AllPrintable no_exprs = Unit
  AllPrintable (cons_expr e es) = Printable e × AllPrintable es

  pub PrintableValues : Exprs → Type 0
  PrintableValues no_exprs = Unit
  PrintableValues (cons_expr (num n) es) = (n < 2 ^ 53) × PrintableValues es
  PrintableValues (cons_expr (struct_literal vs) es) =
      NonEmpty vs × PrintableValues vs × PrintableValues es
  PrintableValues (cons_expr _ es) = ⊥
