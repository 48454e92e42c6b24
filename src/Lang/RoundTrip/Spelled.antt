-- ===== src/Lang/RoundTrip/Spelled.antt =====
-- Printed expressions that can be spelled in a file: what their names have to be.
use alkali.Prelude.{
  subst, none-ne-some, ◌||◌, ◌∙◌, sym, ℕ, zero, suc, ◌+◌, ◌/◌, ◌%◌, ◌<◌, ◌≤◌, ◌≡◌, sym, ap, ◌∙◌,
  true, false, List, [], ◌∷◌, some, ltb, ◌⊎◌, inl, inr, Bool-cases, arith, ◌==◌,
}
use alkali.Lang.Token.{tok_eof, tok_identifier, tok_number, tok_char, tok_code, Text, Token}
use alkali.Lang.Number.Exact.{digits, digits_onto}
use alkali.Lang.Ast.{
  Expr, Exprs, Instance, instance_number, any_instance, num, struct_literal, atom_literal,
  port_literal, path, bin_op, call, init, no_exprs, cons_expr, var_type,
}
use alkali.Lang.Stream.{Lexemes, word, sign}
use alkali.Lang.Parser.Exprs.{get_tok_precedence}
use alkali.Lang.Printer.{
  emit_dots, is_star, emit_port, emit_more_ports, emit_ports, emit_atom, emit_instance, precedence,
  emit, emit_exprs, emit_more_exprs,
}
use alkali.Lang.Lexer.Chars.{is_digit, is_number_char}
use alkali.Lang.Lexer.Spelling.{Spellable, AllSpellable, All, IsNumber}

-- Names that the lexer reads as names.
unfoldable pub AllWords : List Text → Type 0
unfolding Spellable
AllWords [] = Unit
AllWords (s ∷ ss) = Spellable (word s) × AllWords ss

-- Ports are names or a star.
unfoldable pub AllPorts : List Text → Type 0
unfolding Spellable is_star
AllPorts [] = Unit
AllPorts (s ∷ ss) = ((is_star s ≡ true) ⊎ Spellable (word s)) × AllPorts ss

unfoldable pub AtomSpelled : Text → Type 0
unfolding Spellable
AtomSpelled [] = Unit
AtomSpelled (c ∷ s) = Spellable (word (c ∷ s))

-- An expression whose names are names and whose operators are operators of the lexer.
unfoldable mutual
  unfolding AllWords AllPorts AtomSpelled Spellable

  pub Spelled : Expr → Type 0
  Spelled (num n) = Unit
  Spelled (struct_literal vs) = AllSpelled vs
  Spelled (atom_literal a) = Spellable (word a)
  Spelled (port_literal event atom i) = Spellable (word event) × AtomSpelled atom
  Spelled (path name names) = Spellable (word name) × AllWords names
  Spelled (bin_op t l r) = (get_tok_precedence t ≡ some (precedence t)) × Spelled l × Spelled r
  Spelled (call name names args ins outs) =
      Spellable (word name) × AllWords names × AllSpelled args × AllPorts ins × AllPorts outs
  Spelled (init (var_type name ps) es) = Spellable (word name) × AllSpelled es
  Spelled _ = Unit

  pub AllSpelled : Exprs → Type 0
  AllSpelled no_exprs = Unit
  AllSpelled (cons_expr e es) = Spelled e × AllSpelled es

digit-is_digit : (n : ℕ) → is_digit (b'0' + n % 10) ≡ true
unfolding is_digit
digit-is_digit n = ground arith

digits_onto-IsNumber :
    (fuel n : ℕ) (s : Text) → n < fuel → All is_number_char s → IsNumber (digits_onto fuel n s)
unfolding digits_onto is_number_char
digits_onto-IsNumber zero n s h all = absurd (omega arith)
digits_onto-IsNumber (suc fuel) n s h all =
    let s' = (b'0' + n % 10) ∷ s in
    elim (Bool-cases (ltb n 10)) [
      | inl small ↦
          let last : digits_onto (suc fuel) n s ≡ s' = rw (small, digits_onto) in
          subst IsNumber (sym last) (digit-is_digit n, all)
      | inr big ↦
          let le : 10 ≤ n = ground arith in
          let more : digits_onto (suc fuel) n s ≡ digits_onto fuel (n / 10) s' =
            rw (big, digits_onto) in
          subst IsNumber (sym more) (
            digits_onto-IsNumber fuel (n / 10) s' (omega arith)
              (ap (λ b. b || (b'0' + n % 10 == b'.')) (digit-is_digit n), all))
    ]

digits-IsNumber : (n : ℕ) → IsNumber (digits n)
unfolding digits
digits-IsNumber n = digits_onto-IsNumber (suc n) n [] (omega arith) tt

operator-Spellable : (t : Token) (q : ℕ) → get_tok_precedence t ≡ some q → Spellable (sign t)
unfolding get_tok_precedence Spellable
operator-Spellable tok_eof q e = absurd (none-ne-some e)
operator-Spellable tok_identifier q e = absurd (none-ne-some e)
operator-Spellable tok_number q e = absurd (none-ne-some e)
operator-Spellable (tok_char c) q e = absurd (none-ne-some e)
operator-Spellable (tok_code c) q e = absurd (none-ne-some e)
operator-Spellable _ q e = tt

emit_dots-AllSpellable :
    (ss : List Text) (rest : Lexemes)
    → AllWords ss
    → AllSpellable rest
    → AllSpellable (emit_dots ss rest)
unfolding emit_dots AllWords AllSpellable
emit_dots-AllSpellable [] rest h all = all
emit_dots-AllSpellable (s ∷ ss) rest (hs, h) all = (tt, (hs, emit_dots-AllSpellable ss rest h all))

emit_port-AllSpellable :
    (s : Text) (rest : Lexemes)
    → (is_star s ≡ true) ⊎ Spellable (word s)
    → AllSpellable rest
    → AllSpellable (emit_port s rest)
unfolding emit_port AllSpellable
emit_port-AllSpellable s rest h all = elim (Bool-cases (is_star s)) [
  | inl star ↦ rw star (tt, all)
  | inr other ↦ elim h [
    | inl star ↦ let nothing : true ≡ false = sym star ∙ other in cc
    | inr name ↦ rw other (name, all)
  ]
]

emit_more_ports-AllSpellable :
    (ss : List Text) (rest : Lexemes)
    → AllPorts ss
    → AllSpellable rest
    → AllSpellable (emit_more_ports ss rest)
unfolding emit_more_ports AllPorts AllSpellable
emit_more_ports-AllSpellable [] rest h all = all
emit_more_ports-AllSpellable (s ∷ ss) rest (hs, h) all = (
  tt,
  emit_port-AllSpellable s (emit_more_ports ss rest) hs
      (emit_more_ports-AllSpellable ss rest h all),
)

emit_ports-AllSpellable :
    (ss : List Text) (rest : Lexemes)
    → AllPorts ss
    → AllSpellable rest
    → AllSpellable (emit_ports ss rest)
unfolding emit_ports AllPorts AllSpellable
emit_ports-AllSpellable [] rest h all = all
emit_ports-AllSpellable (s ∷ ss) rest (hs, h) all =
    (tt, emit_port-AllSpellable s _ hs (emit_more_ports-AllSpellable ss _ h (tt, all)))

emit_atom-AllSpellable :
    (a : Text) (rest : Lexemes)
    → AtomSpelled a
    → AllSpellable rest
    → AllSpellable (emit_atom a rest)
unfolding emit_atom AtomSpelled AllSpellable
emit_atom-AllSpellable [] rest h all = all
emit_atom-AllSpellable (c ∷ s) rest h all = (tt, (h, all))

emit_instance-Spellable : (i : Instance) → Spellable (emit_instance i)
unfolding emit_instance Spellable
emit_instance-Spellable (instance_number n) = digits-IsNumber n
emit_instance-Spellable any_instance = tt

mutual
  unfolding emit Spelled AllSpellable

  pub emit-AllSpellable :
      (p : ℕ) (e : Expr) (rest : Lexemes)
      → Spelled e
      → AllSpellable rest
      → AllSpellable (emit p e rest)
  emit-AllSpellable p (num n) rest h all = (digits-IsNumber n, all)
  emit-AllSpellable p (struct_literal vs) rest h all =
      (tt, emit_exprs-AllSpellable vs _ h (tt, all))
  emit-AllSpellable p (atom_literal a) rest h all = (tt, (h, all))
  emit-AllSpellable p (port_literal event atom i) rest (he, ha) all =
      (tt, (he, emit_atom-AllSpellable atom _ ha (tt, (emit_instance-Spellable i, (tt, all)))))
  emit-AllSpellable p (path name names) rest (hn, h) all =
      (hn, emit_dots-AllSpellable names rest h all)
  emit-AllSpellable p (bin_op t l r) rest (op, hl, hr) all =
      let sign_t = operator-Spellable t (precedence t) op in
      elim (Bool-cases (ltb (precedence t) p)) [
        | inl loose ↦
            rw (loose, emit, AllSpellable)
              (
                tt,
                emit-AllSpellable (precedence t) l _ hl
                    (sign_t, emit-AllSpellable (precedence t + 1) r _ hr (tt, all)),
              )
        | inr tight ↦
            rw (tight, emit, AllSpellable)
              (emit-AllSpellable (precedence t) l _ hl
                (sign_t, emit-AllSpellable (precedence t + 1) r rest hr all))
      ]
  emit-AllSpellable p (call name names args ins outs) rest (hn, hs, ha, hi, ho) all = (
    hn,
    emit_dots-AllSpellable names _ hs (
      tt,
      emit_exprs-AllSpellable args _ ha
          (tt, emit_ports-AllSpellable ins _ hi (emit_ports-AllSpellable outs rest ho all)),
    ),
  )
  emit-AllSpellable p (init (var_type name ps) es) rest (hn, h) all =
      (hn, (tt, emit_exprs-AllSpellable es _ h (tt, all)))
  emit-AllSpellable p _ rest h all = all

  emit_exprs-AllSpellable :
      (es : Exprs) (rest : Lexemes)
      → AllSpelled es
      → AllSpellable rest
      → AllSpellable (emit_exprs es rest)
  emit_exprs-AllSpellable no_exprs rest h all = all
  emit_exprs-AllSpellable (cons_expr e es) rest (he, h) all =
      emit-AllSpellable 0 e _ he (emit_more_exprs-AllSpellable es rest h all)

  emit_more_exprs-AllSpellable :
      (es : Exprs) (rest : Lexemes)
      → AllSpelled es
      → AllSpellable rest
      → AllSpellable (emit_more_exprs es rest)
  emit_more_exprs-AllSpellable no_exprs rest h all = all
  emit_more_exprs-AllSpellable (cons_expr e es) rest (he, h) all =
      (tt, emit-AllSpellable 0 e _ he (emit_more_exprs-AllSpellable es rest h all))
