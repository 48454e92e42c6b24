-- ===== src/Lang/RoundTrip/Exprs.antt =====
-- Every printable expression is read back by the loop over operators, by induction on it.
use alkali.Prelude.{ℕ, ◌+◌, ◌*◌, ◌<◌, ◌≡◌, refl, sym, ap, ◌∙◌, List, [], ◌∷◌, none, arith, length}
use alkali.Lang.Token.{
  Text, same, tok_comma, tok_parenthese_open, tok_parenthese_close, tok_bracket_close,
  tok_sbracket_close,
}
use alkali.Lang.Ast.{
  Expr, Exprs, var_decl, return_void, return_expr, num, struct_literal, atom_literal, port_literal,
  path, bin_op, call, init, if_else, no_exprs, cons_expr, var_type,
}
use alkali.Lang.Stream.{Lexemes, ok, sign, cur}
use alkali.Lang.Parser.Exprs.{
  get_tok_precedence, parse_expression, parse_args, parse_init_values, parse_struct_values,
  parse_call_expr,
}
use alkali.Lang.Printer.{
  emit_ports, emit_instance, precedence, emit, emit_exprs, Printable, AllPrintable, PrintableValues,
  NonEmpty, Paired,
}
use alkali.Lang.RoundTrip.Length.{
  length-emit_dots, length-emit_ports, length-emit_atom, length-emit_exprs,
}
use alkali.Lang.RoundTrip.Follows.{Closes, Follows, operator-Follows, Follows-mono}
use alkali.Lang.RoundTrip.Chain.{Chain, closed-Chain, parse_expression-Chain}
use alkali.Lang.RoundTrip.Leaves.{
  ReadsPrimary-num, ReadsPrimary-atom, ReadsPrimary-port, ReadsPrimary-identifier,
  parse_identifier_expr-path,
}
use alkali.Lang.RoundTrip.Compound.{
  Reads, ReadsPrimary-struct, parse_args-last, parse_args-more, parse_init_values-last,
  parse_init_values-more, parse_struct_values-num_last, parse_struct_values-num_more,
  parse_struct_values-struct_last, parse_struct_values-struct_more, parse_call_expr-empty,
  parse_call_expr-args, parse_identifier_expr-call, parse_identifier_expr-init,
}
use alkali.Lang.RoundTrip.Operations.{
  emit-start, paren-Follows, brace-Follows, comma-Follows, Operands, bin_op-Chain,
}

call-Reads :
    (name : Text) (names ins outs : List Text) (args : Exprs) (rest : Lexemes)
    → Paired ins outs
    → AllPrintable args
    → Closes (cur rest)
    → (NonEmpty args
        → Reads 5 parse_args args
            (emit_exprs args (sign tok_parenthese_close ∷ emit_ports ins (emit_ports outs rest)))
            (sign tok_parenthese_close ∷ emit_ports ins (emit_ports outs rest)))
    → Reads 0
        (λ f. parse_call_expr f name names)
        (call name names args ins outs)
        (sign tok_parenthese_open
          ∷ emit_exprs args (sign tok_parenthese_close ∷ emit_ports ins (emit_ports outs rest)))
        rest
unfolding emit Printable
call-Reads name names ins outs no_exprs rest paired h c reads =
    parse_call_expr-empty name names ins outs rest paired c
call-Reads name names ins outs (cons_expr e es) rest paired h c reads =
    parse_call_expr-args name names ins outs (cons_expr e es) _ rest paired c
      (length-emit_exprs (cons_expr e es) _) (emit-start 0 e _ h.0) (reads tt)

mutual
  unfolding emit Printable Operands cur get_tok_precedence

  pub expr-Chain :
      (p : ℕ) (e : Expr) (rest : Lexemes)
      → Printable e
      → Follows p rest
      → Chain p e (emit p e rest) rest
  expr-Chain p (num n) rest h fo = closed-Chain p (omega arith) (ReadsPrimary-num n rest h)
  expr-Chain p (struct_literal vs) rest (ne, h) fo =
      let le = length-emit_exprs vs (sign tok_bracket_close ∷ rest) in
      closed-Chain p (omega arith) (ReadsPrimary-struct vs _ rest (values-Reads vs rest ne h))
  expr-Chain p (atom_literal a) rest h fo = closed-Chain p (omega arith) (ReadsPrimary-atom a rest)
  expr-Chain p (port_literal event atom i) rest h fo =
      let le =
        length-emit_atom atom (sign tok_comma ∷ emit_instance i ∷ sign tok_sbracket_close ∷ rest) in
      closed-Chain p (omega arith) (ReadsPrimary-port event atom i rest h)
  expr-Chain p (path name names) rest h fo =
      let le = length-emit_dots names rest in
      closed-Chain p (omega arith) (
        ReadsPrimary-identifier _ name _ rest
          λ f b. parse_identifier_expr-path f name names rest fo.closes (omega arith))
  expr-Chain p (bin_op t l r) rest (op, hl, hr) fo =
      let q = precedence t in
      bin_op-Chain t op l r p rest fo
        (λ le. (
          expr-Chain q l _ hl (operator-Follows t q _ op),
          expr-Chain (q + 1) r rest hr (Follows-mono p fo (q + 1) (omega arith)),
        ))
        (
          expr-Chain q l _ hl (operator-Follows t q _ op),
          expr-Chain (q + 1) r _ hr (paren-Follows rest (q + 1)),
        )
  expr-Chain p (call name names args ins outs) rest (paired, h) fo =
      let ports = emit_ports ins (emit_ports outs rest) in
      let closed = emit_exprs args (sign tok_parenthese_close ∷ ports) in
      let le = length-emit_dots names (sign tok_parenthese_open ∷ closed) in
      let le' = length-emit_exprs args (sign tok_parenthese_close ∷ ports) in
      let le″ = length-emit_ports ins (emit_ports outs rest) in
      let le‴ = length-emit_ports outs rest in
      closed-Chain p (omega arith) (
        ReadsPrimary-identifier _ name _ rest (
          parse_identifier_expr-call name names _ closed rest (
            call-Reads name names ins outs args rest paired h fo.closes
              λ ne. args-Reads args _ ne h)))
  expr-Chain p (init (var_type name ps) es) rest (plain, ne, h) fo =
      let le = length-emit_exprs es (sign tok_bracket_close ∷ rest) in
      rw plain (
        closed-Chain p (omega arith) (
          ReadsPrimary-identifier _ name _ rest
            (parse_identifier_expr-init name es _ rest (init_values-Reads es rest ne h))))
  expr-Chain p (var_decl _ _ _) rest h fo = absurd h
  expr-Chain p return_void rest h fo = absurd h
  expr-Chain p (return_expr _) rest h fo = absurd h
  expr-Chain p (if_else _ _ _) rest h fo = absurd h

  args-Reads :
      (es : Exprs) (rest : Lexemes)
      → NonEmpty es
      → AllPrintable es
      → Reads 5 parse_args es
          (emit_exprs es (sign tok_parenthese_close ∷ rest))
          (sign tok_parenthese_close ∷ rest)
  args-Reads no_exprs rest ne h = absurd ne
  args-Reads (cons_expr e no_exprs) rest ne (h, hs) =
      parse_args-last e _ rest
        λ f b. parse_expression-Chain f 0 (expr-Chain 0 e _ h (paren-Follows rest 0)) refl b
  args-Reads (cons_expr e (cons_expr e' es)) rest ne (h, hs) =
      let more = emit_exprs (cons_expr e' es) (sign tok_parenthese_close ∷ rest) in
      let chain = expr-Chain 0 e _ h (comma-Follows more 0) in
      let shorter = chain.shorter in
      let longer = chain.longer in
      parse_args-more e _ _ (cons_expr e' es) more (omega arith)
        (λ f b. parse_expression-Chain f 0 chain refl b) (args-Reads (cons_expr e' es) rest tt hs)

  init_values-Reads :
      (es : Exprs) (rest : Lexemes)
      → NonEmpty es
      → AllPrintable es
      → Reads 5 parse_init_values es (emit_exprs es (sign tok_bracket_close ∷ rest)) rest
  init_values-Reads no_exprs rest ne h = absurd ne
  init_values-Reads (cons_expr e no_exprs) rest ne (h, hs) =
      parse_init_values-last e _ rest
        λ f b. parse_expression-Chain f 0 (expr-Chain 0 e _ h (brace-Follows rest 0)) refl b
  init_values-Reads (cons_expr e (cons_expr e' es)) rest ne (h, hs) =
      let more = emit_exprs (cons_expr e' es) (sign tok_bracket_close ∷ rest) in
      let chain = expr-Chain 0 e _ h (comma-Follows more 0) in
      let shorter = chain.shorter in
      let longer = chain.longer in
      parse_init_values-more e _ _ (cons_expr e' es) more (omega arith)
        (λ f b. parse_expression-Chain f 0 chain refl b)
        (init_values-Reads (cons_expr e' es) rest tt hs)

  values-Reads :
      (vs : Exprs) (rest : Lexemes)
      → NonEmpty vs
      → PrintableValues vs
      → Reads 1 parse_struct_values vs (emit_exprs vs (sign tok_bracket_close ∷ rest)) rest
  values-Reads no_exprs rest ne h = absurd ne
  values-Reads (cons_expr (num n) no_exprs) rest ne (h, hs) = parse_struct_values-num_last n rest h
  values-Reads (cons_expr (num n) (cons_expr e es)) rest ne (h, hs) =
      parse_struct_values-num_more n rest h (cons_expr e es) _
        (values-Reads (cons_expr e es) rest tt hs)
  values-Reads (cons_expr (struct_literal ws) no_exprs) rest ne (nw, hw, hs) =
      parse_struct_values-struct_last ws _ rest (values-Reads ws _ nw hw)
  values-Reads (cons_expr (struct_literal ws) (cons_expr e es)) rest ne (nw, hw, hs) =
      let le = length-emit_exprs ws (
        sign tok_bracket_close
        ∷ sign tok_comma
        ∷ emit_exprs (cons_expr e es) (sign tok_bracket_close ∷ rest)) in
      parse_struct_values-struct_more ws _ rest (cons_expr e es) _ (omega arith)
        (values-Reads ws _ nw hw) (values-Reads (cons_expr e es) rest tt hs)
  values-Reads (cons_expr _ es) rest ne h = absurd h

-- Printing at the place of a whole expression and parsing gives the expression back, and what
-- followed it, where that is no operator and cannot go on with the last primary expression. The
-- fuel wanted grows with the input only.
pub parse_expression-emit :
    (e : Expr) (rest : Lexemes) (f : ℕ)
    → Printable e
    → Closes (cur rest)
    → get_tok_precedence (cur rest) ≡ none
    → 20 * length (emit 0 e rest) + 4 < f
    → parse_expression f (emit 0 e rest) ≡ ok e rest
parse_expression-emit e rest f h closes stop b =
    let fo : Follows 0 rest = record { closes = closes; loose = λ q e'. cc } in
    parse_expression-Chain f 0 (expr-Chain 0 e rest h fo) stop b

-- The end of the input ends an expression.
pub eof-Closes : Closes (cur [])
unfolding cur same
eof-Closes = record {
  no_dot = refl;
  no_colon = refl;
  no_paren = refl;
  no_brace = refl;
  no_bracket = refl;
}

-- The grammar is unambiguous: expressions that print alike are the same.
pub emit-injective :
    (e e' : Expr) → Printable e → Printable e' → emit 0 e [] ≡ emit 0 e' [] → e ≡ e'
unfolding get_tok_precedence cur
emit-injective e e' h h' same_text =
    let f = 20 * (length (emit 0 e []) + length (emit 0 e' [])) + 5 in
    let reads = parse_expression-emit e [] f h eof-Closes refl (omega arith) in
    let reads' = parse_expression-emit e' [] f h' eof-Closes refl (omega arith) in
    let both : ok e [] ≡ ok e' [] = sym reads ∙ ap (parse_expression f) same_text ∙ reads' in cc
