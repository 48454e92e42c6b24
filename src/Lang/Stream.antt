-- ===== src/Lang/Stream.antt =====
-- The lexer as the parser uses it, include/ep2/lang/Lexer.h: the lexemes still to be read, the
-- current token first, and the parser's runs over them. At the end the current token is `tok_eof`,
-- and stays so.
use alkali.Prelude.{ℕ, Bool, true, false, List, [], ◌∷◌, Option, none, some, if◌then◌else◌}
use alkali.Lang.Token.{Text, Token, same, tok_eof, tok_identifier, tok_number}
use alkali.Lang.Number.{convert}

-- A token with what `getId` and `getValue` give while it is the current one.
pub data Lexeme : Type 0 where
  word : Text → Lexeme
  numeral : Text → Lexeme
  sign : Token → Lexeme

abbrev pub Lexemes : Type 0
Lexemes = List Lexeme

unfoldable pub kind : Lexeme → Token
kind (word s) = tok_identifier
kind (numeral s) = tok_number
kind (sign t) = t

-- `getCurToken`.
unfoldable pub cur : Lexemes → Token
unfolding kind
cur [] = tok_eof
cur (x ∷ ts) = kind x

-- The input behind the current token.
unfoldable pub next : Lexemes → Lexemes
next [] = []
next (x ∷ ts) = ts

-- A run ends with a value, with `nullptr` after a message, or in a failed assertion, the use of a
-- null pointer or a conversion that is undefined (`fault`). The model may run out of fuel.
pub data Run {ℓ} (A : Type ℓ) : Type ℓ where
  ok : A → Lexemes → Run A
  null : Lexemes → Run A
  fault : Run A
  out_of_fuel : Run A

abbrev pub Parser {ℓ} : Type ℓ → Type ℓ
Parser A = Lexemes → Run A

abbrev pub pure {ℓ} : {A : Type ℓ} → A → Parser A
pure a ts = ok a ts

module _ {ℓ κ} {A : Type ℓ} {B : Type κ} where
  abbrev pub and_then : Run A → (A → Parser B) → Run B
  and_then (ok a ts) f = f a ts
  and_then (null ts) f = null ts
  and_then fault f = fault
  and_then out_of_fuel f = out_of_fuel

  -- A null result is passed on, as by `if (!p) return nullptr`.
  infixl 1 ◌>>=◌ ◌>>◌
  abbrev pub ◌>>=◌ : Parser A → (A → Parser B) → Parser B
  p >>= f = λ ts. and_then (p ts) f

  abbrev pub ◌>>◌ : Parser A → Parser B → Parser B
  p >> q = p >>= λ _. q

-- A null result is kept as a value, where the source does not test it.
module _ {ℓ} {A : Type ℓ} where
  abbrev pub keep : Run A → Run (Option A)
  keep (ok a ts) = ok (some a) ts
  keep (null ts) = ok none ts
  keep fault = fault
  keep out_of_fuel = out_of_fuel

  abbrev pub unchecked : Parser A → Parser (Option A)
  unchecked p ts = keep (p ts)

  abbrev pub parse_error : Parser A
  parse_error ts = null ts

  -- `if (b) p else q`.
  abbrev pub branch : Bool → Parser A → Parser A → Parser A
  branch b p q ts = elim b [ true ↦ p ts | false ↦ q ts ]

  -- `if (getCurToken() == t) p else q`.
  abbrev pub when : Token → Parser A → Parser A → Parser A
  when t p q ts = branch (same (cur ts) t) p q ts

  -- `p` on the input behind the current token.
  abbrev pub after : Parser A → Parser A
  after p ts = p (next ts)

module _ {ℓ κ} {A : Type ℓ} {B : Type κ} where
  abbrev pub on_some : Option A → Parser B → (A → Parser B) → Parser B
  on_some o p q ts = elim o [ none ↦ p ts | some a ↦ q a ts ]

abbrev pub is : Token → Lexemes → Bool
is t ts = same (cur ts) t

-- `consume` asserts that the current token is `t`; `checkConsume` writes a message before.
unfoldable pub consume : Token → Parser (Unit {0})
unfolding cur next same
consume t ts = if same (cur ts) t then ok tt (next ts) else fault

-- `getId` and then `consume(tok_identifier)`; and null where the current token is another one.
unfoldable pub expect_id : Parser Text
expect_id (word s ∷ ts) = ok s ts
expect_id ts = null ts

-- The value of a number, converted to an integer type with values below `bound`.
unfoldable pub expect_value : ℕ → Parser ℕ
expect_value bound (numeral s ∷ ts) = on_some (convert bound s) (λ ts. fault) pure ts
expect_value bound ts = null ts

-- `while (getCurToken() == ';') consume(Token(';'))` for the token `t`.
unfoldable pub skip : Token → Lexemes → Lexemes
unfolding kind same
skip t [] = []
skip t (x ∷ ts) = elim (same (kind x) t) [ true ↦ skip t ts | false ↦ x ∷ ts ]
