-- ===== src/Lang/RoundTrip/Chain.antt =====
-- How the loop over binary operators reads a printed expression: first its leftmost primary
-- expression, and then what is behind that, until the whole has been put together.
use alkali.Prelude.{
  ℕ, zero, suc, ◌+◌, ◌*◌, ◌≤◌, ◌<◌, ◌≡◌, refl, ◌⊎◌, inl, inr, ◌∷◌, none, some, arith, length,
  lt→ltb, ltb-false, Option-cases,
}
use alkali.Lang.Token.{Token}
use alkali.Lang.Ast.{Expr, bin_op}
use alkali.Lang.Stream.{Lexemes, Run, ok, sign, cur, next}
use alkali.Lang.Parser.Exprs.{
  get_tok_precedence, binds_tighter, parse_primary, parse_bin_op_rhs, parse_tighter,
  parse_expression,
}
use alkali.Lang.RoundTrip.Follows.{Follows, binds_tighter-loose}

-- With fuel by the length of `ts`, `e` is read off `ts` as a primary expression and leaves `rest`.
abbrev pub ReadsPrimary : Expr → Lexemes → Lexemes → Type 0
ReadsPrimary e ts rest = (f : ℕ) → 20 * length ts + 3 < f → parse_primary f ts ≡ ok e rest

pub record Chain (p : ℕ) (e : Expr) (ts rest : Lexemes) : Type 0 where
  pub first : Expr
  pub behind : Lexemes
  pub shorter : length behind < length ts
  pub longer : length rest ≤ length behind
  pub primary : ReadsPrimary first ts behind
  -- The loop on `first` comes to the loop on the whole.
  pub loop :
      (p₀ : ℕ)
      → p₀ ≤ p
      → (g : ℕ) (R : Run Expr) → 20 * length behind < g
      → ((g' : ℕ) → 20 * length rest < g' → parse_bin_op_rhs g' p₀ e rest ≡ R)
      → parse_bin_op_rhs g p₀ first behind ≡ R
  pub head :
      ((first ≡ e) × (behind ≡ rest))
      ⊎ ((q : ℕ) × (get_tok_precedence (cur behind) ≡ some q) × (p ≤ q))

pub closed-Chain :
    (p : ℕ) {e : Expr} {ts rest : Lexemes}
    → length rest < length ts
    → ReadsPrimary e ts rest
    → Chain p e ts rest
closed-Chain p {e} {rest} lt reads = record {
  first = e;
  behind = rest;
  shorter = lt;
  longer = omega arith;
  primary = reads;
  loop = λ p₀ le g R b k. k g b;
  head = inl (refl, refl);
}

-- The loop stops where the operator behind binds less tightly than it wants.
pub parse_bin_op_rhs-stop :
    (g p : ℕ) (e : Expr) (rest : Lexemes)
    → 0 < g
    → ((q : ℕ) → get_tok_precedence (cur rest) ≡ some q → q < p)
    → parse_bin_op_rhs g p e rest ≡ ok e rest
unfolding parse_bin_op_rhs
parse_bin_op_rhs-stop zero p e rest pos loose = absurd (omega arith)
parse_bin_op_rhs-stop (suc g) p e rest pos loose =
    elim (Option-cases (get_tok_precedence (cur rest))) [
      | inl eq ↦ rw eq
      | inr (q, eq) ↦ rw (eq, lt→ltb q p (loose q eq))
    ]

module _ (q : ℕ) {r : Expr} {ts rest : Lexemes} (fo : Follows q rest)
    (c : Chain (q + 1) r ts rest) where
  -- The right operand of an operator of precedence `q`, from its first primary expression on.
  parse_tighter-Chain :
      (g : ℕ) → 20 * length c.behind + 1 < g → parse_tighter g q c.first c.behind ≡ ok r rest
  unfolding parse_tighter binds_tighter
  parse_tighter-Chain zero b = absurd (omega arith)
  parse_tighter-Chain (suc g) b = elim (c.head) [
    | inl (same_first, same_rest) ↦
        rw (same_first, same_rest, binds_tighter-loose q fo q (omega arith))
    | inr (q', e, le) ↦
        rw (e, lt→ltb q q' (omega arith))
          (c.loop (q + 1) (omega arith) g (ok r rest) (omega arith) λ g' b'.
            parse_bin_op_rhs-stop g' (q + 1) r rest (omega arith)
              λ q″ e″. let le″ = fo.loose q″ e″ in omega arith)
  ]

-- An operation with no parentheses, from its operands.
module _ (t : Token) (q p : ℕ) (op : get_tok_precedence t ≡ some q) (le : p ≤ q) {l r : Expr}
    {ts tsr rest : Lexemes} (fo : Follows q rest) (cl : Chain q l ts (sign t ∷ tsr))
    (cr : Chain (q + 1) r tsr rest) where
  -- One round of the loop, over the operator and its right operand.
  round :
      (p₀ g : ℕ) (R : Run Expr)
      → p₀ ≤ q
      → 20 * length (sign t ∷ tsr) < g
      → ((g' : ℕ) → 20 * length rest < g' → parse_bin_op_rhs g' p₀ (bin_op t l r) rest ≡ R)
      → parse_bin_op_rhs g p₀ l (sign t ∷ tsr) ≡ R
  unfolding parse_bin_op_rhs cur next
  round p₀ zero R le₀ b k = absurd (omega arith)
  round p₀ (suc g) R le₀ b k =
      let shorter = cr.shorter in
      let longer = cr.longer in
      rw
        (
          op,
          ltb-false q p₀ le₀,
          cr.primary g (omega arith),
          parse_tighter-Chain q fo cr g (omega arith),
        )
        (k g (omega arith))

  pub open-Chain : Chain p (bin_op t l r) ts rest
  unfolding cur
  open-Chain = record {
    first = cl.first;
    behind = cl.behind;
    shorter = cl.shorter;
    longer = (let h = cl.longer in let h' = cr.longer in let h″ = cr.shorter in omega arith);
    primary = cl.primary;
    loop =
        λ p₀ le₀ g R b k. cl.loop p₀ (omega arith) g R b λ g' b'. round p₀ g' R (omega arith) b' k;
    head = leftmost cl.head;
  }
    where
      leftmost :
          ((cl.first ≡ l) × (cl.behind ≡ sign t ∷ tsr))
            ⊎ ((q' : ℕ) × (get_tok_precedence (cur cl.behind) ≡ some q') × (q ≤ q'))
          → ((cl.first ≡ bin_op t l r) × (cl.behind ≡ rest))
            ⊎ ((q' : ℕ) × (get_tok_precedence (cur cl.behind) ≡ some q') × (p ≤ q'))
      leftmost (inl (_, e)) = inr (q, rw e op, le)
      leftmost (inr (q', e, le')) = inr (q', e, omega arith)

-- A whole expression.
pub parse_expression-Chain :
    (f p : ℕ) {e : Expr} {ts rest : Lexemes}
    → Chain p e ts rest
    → get_tok_precedence (cur rest) ≡ none
    → 20 * length ts + 4 < f
    → parse_expression f ts ≡ ok e rest
unfolding parse_expression
parse_expression-Chain zero p c stop b = absurd (omega arith)
parse_expression-Chain (suc f) p {e} {rest} c stop b =
    let shorter = c.shorter in
    rw (c.primary f (omega arith)) (
      c.loop 0 (omega arith) f (ok e rest) (omega arith)
        λ g' b'. parse_bin_op_rhs-stop g' 0 e rest (omega arith) λ q e'. cc)
