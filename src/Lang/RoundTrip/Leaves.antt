-- ===== src/Lang/RoundTrip/Leaves.antt =====
-- Printed expressions that hold no other: numbers, atoms, port literals, paths, and the port lists
-- behind a call.
use alkali.Prelude.{
  ℕ, zero, suc, ◌+◌, ◌*◌, ◌^◌, ◌<◌, ◌≡◌, refl, ap, true, false, List, [], ◌∷◌, arith, length,
  ==_iff, Bool-cases, inl, inr,
}
use alkali.Lang.Token.{
  Text, Token, same, tok_dot, tok_colon, tok_comma, tok_sbracket_open, tok_sbracket_close,
}
use alkali.Lang.Number.Exact.{digits, convert-digits}
use alkali.Lang.Ast.{
  Expr, Instance, instance_number, any_instance, num, atom_literal, port_literal, path,
}
use alkali.Lang.Stream.{
  Lexemes, ok, word, numeral, sign, cur, next, consume, expect_id, expect_value,
}
use alkali.Lang.Parser.Types.{parse_atom}
use alkali.Lang.Parser.Exprs.{
  parse_primary, parse_identifier_expr, parse_dots, parse_ports, parse_more_ports, parse_connect,
  parse_port_literal_expr, parse_instance,
}
use alkali.Lang.Printer.{
  emit_dots, is_star, emit_port, emit_more_ports, emit_ports, emit_atom, emit_instance, Paired,
  InstanceFits,
}
use alkali.Lang.RoundTrip.Length.{length-emit_more_ports}
use alkali.Lang.RoundTrip.Follows.{Closes}
use alkali.Lang.RoundTrip.Chain.{ReadsPrimary}

pub parse_dots-emit :
    (f : ℕ) (ss : List Text) (rest : Lexemes)
    → same (cur rest) tok_dot ≡ false
    → 20 * length (emit_dots ss rest) < f
    → parse_dots f (emit_dots ss rest) ≡ ok ss rest
unfolding parse_dots emit_dots same consume expect_id
parse_dots-emit zero ss rest h b = absurd (omega arith)
parse_dots-emit (suc f) [] rest h b = rw h
parse_dots-emit (suc f) (s ∷ ss) rest h b = rw (parse_dots-emit f ss rest h (omega arith))

pub ReadsPrimary-num :
    (n : ℕ) (rest : Lexemes) → n < 2 ^ 53 → ReadsPrimary (num n) (numeral (digits n) ∷ rest) rest
unfolding parse_primary cur expect_value
ReadsPrimary-num n rest h zero b = absurd (omega arith)
ReadsPrimary-num n rest h (suc zero) b = absurd (omega arith)
ReadsPrimary-num n rest h (suc (suc f)) b = rw (convert-digits (2 ^ 64) n h (omega arith))

pub ReadsPrimary-atom :
    (a : Text) (rest : Lexemes)
    → ReadsPrimary (atom_literal a) (sign tok_colon ∷ word a ∷ rest) rest
unfolding parse_primary cur parse_atom same next
ReadsPrimary-atom a rest zero b = absurd (omega arith)
ReadsPrimary-atom a rest (suc zero) b = absurd (omega arith)
ReadsPrimary-atom a rest (suc (suc f)) b = refl

parse_instance-emit :
    (i : Instance) (rest : Lexemes)
    → InstanceFits i
    → parse_instance (emit_instance i ∷ rest) ≡ ok i rest
unfolding parse_instance emit_instance cur same next
parse_instance-emit (instance_number n) rest h = rw (convert-digits (2 ^ 31) n (omega arith) h)
parse_instance-emit any_instance rest h = refl

parse_port_literal_expr-emit :
    (event atom : Text) (i : Instance) (rest : Lexemes)
    → InstanceFits i
    → parse_port_literal_expr (
        sign tok_sbracket_open
        ∷ word event
        ∷ emit_atom atom (sign tok_comma ∷ emit_instance i ∷ sign tok_sbracket_close ∷ rest))
      ≡ ok (port_literal event atom i) rest
unfolding parse_port_literal_expr emit_atom cur same next
parse_port_literal_expr-emit event [] i rest h =
    rw (parse_instance-emit i (sign tok_sbracket_close ∷ rest) h)
parse_port_literal_expr-emit event (c ∷ s) i rest h =
    rw (parse_instance-emit i (sign tok_sbracket_close ∷ rest) h)

pub ReadsPrimary-port :
    (event atom : Text) (i : Instance) (rest : Lexemes)
    → InstanceFits i
    → ReadsPrimary
        (port_literal event atom i)
        (sign tok_sbracket_open
          ∷ word event
          ∷ emit_atom atom (sign tok_comma ∷ emit_instance i ∷ sign tok_sbracket_close ∷ rest))
        rest
unfolding parse_primary cur
ReadsPrimary-port event atom i rest h zero b = absurd (omega arith)
ReadsPrimary-port event atom i rest h (suc zero) b = absurd (omega arith)
ReadsPrimary-port event atom i rest h (suc (suc f)) b =
    parse_port_literal_expr-emit event atom i rest h

-- A name is read by `parse_identifier_expr`.
pub ReadsPrimary-identifier :
    (e : Expr) (name : Text) (ts rest : Lexemes)
    → ((f : ℕ)
        → 20 * length (word name ∷ ts) + 0 < f
        → parse_identifier_expr f (word name ∷ ts) ≡ ok e rest)
    → ReadsPrimary e (word name ∷ ts) rest
unfolding parse_primary cur
ReadsPrimary-identifier e name ts rest reads zero b = absurd (omega arith)
ReadsPrimary-identifier e name ts rest reads (suc zero) b = absurd (omega arith)
ReadsPrimary-identifier e name ts rest reads (suc (suc f)) b = reads f (omega arith)

pub parse_identifier_expr-path :
    (f : ℕ) (name : Text) (names : List Text) (rest : Lexemes)
    → Closes (cur rest)
    → 20 * length (word name ∷ emit_dots names rest) < f
    → parse_identifier_expr f (word name ∷ emit_dots names rest) ≡ ok (path name names) rest
unfolding parse_identifier_expr expect_id same
parse_identifier_expr-path zero name names rest c b = absurd (omega arith)
parse_identifier_expr-path (suc f) name names rest c b =
    rw (parse_dots-emit f names rest c.no_dot (omega arith), c.no_colon, c.no_paren, c.no_brace)

is_star-eq : (s : Text) → is_star s ≡ true → (b'*' ∷ []) ≡ s
unfolding is_star
is_star-eq [] e = cc
is_star-eq (c ∷ []) e = ap (λ (d : ℕ). d ∷ []) (let h = (==_iff c b'*').0 e in omega arith)
is_star-eq (c ∷ d ∷ s) e = cc

mutual
  unfolding parse_ports emit_more_ports emit_port same consume expect_id cur next

  parse_ports-emit :
      (f : ℕ) (sep : Token) (s : Text) (ss : List Text) (rest : Lexemes)
      → 20 * length (sign sep ∷ emit_port s (emit_more_ports ss (sign tok_sbracket_close ∷ rest)))
        < f
      → parse_ports f (sign sep ∷ emit_port s (emit_more_ports ss (sign tok_sbracket_close ∷ rest)))
        ≡ ok (s ∷ ss) (sign tok_sbracket_close ∷ rest)
  parse_ports-emit zero sep s ss rest b = absurd (omega arith)
  parse_ports-emit (suc f) sep s ss rest b =
      let more = parse_more_ports-emit f ss rest (omega arith) in
      elim (Bool-cases (is_star s)) [ inl e ↦ rw (e, more, is_star-eq s e) | inr e ↦ rw (e, more) ]

  parse_more_ports-emit :
      (f : ℕ) (ss : List Text) (rest : Lexemes)
      → 20 * length (emit_more_ports ss (sign tok_sbracket_close ∷ rest)) + 1 < f
      → parse_more_ports f (emit_more_ports ss (sign tok_sbracket_close ∷ rest))
        ≡ ok ss (sign tok_sbracket_close ∷ rest)
  parse_more_ports-emit zero ss rest b = absurd (omega arith)
  parse_more_ports-emit (suc f) [] rest b = refl
  parse_more_ports-emit (suc f) (s ∷ ss) rest b =
      parse_ports-emit f tok_comma s ss rest (omega arith)

pub parse_connect-emit :
    (f : ℕ) (ins outs : List Text) (rest : Lexemes)
    → Paired ins outs
    → Closes (cur rest)
    → 20 * length (emit_ports ins (emit_ports outs rest)) < f
    → parse_connect f (emit_ports ins (emit_ports outs rest)) ≡ ok (ins, outs) rest
unfolding parse_connect emit_ports cur same next
parse_connect-emit f [] [] rest p c b = rw c.no_bracket
parse_connect-emit f [] (_ ∷ _) rest p c b = absurd p
parse_connect-emit f (_ ∷ _) [] rest p c b = absurd p
parse_connect-emit f (i ∷ ins) (o ∷ outs) rest p c b =
    let tail = emit_ports (o ∷ outs) rest in
    let h = length-emit_more_ports ins (sign tok_sbracket_close ∷ tail) in
    rw (
      parse_ports-emit f tok_sbracket_open i ins tail (omega arith),
      parse_ports-emit f tok_sbracket_open o outs rest (omega arith),
    )
