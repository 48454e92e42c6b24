-- ===== src/Lang/RoundTrip/Files.antt =====
-- From a file to the tree: an expression that is printed and spelled in a file is read by the lexer
-- and the parser together.
use alkali.Prelude.{ℕ, ◌+◌, ◌*◌, ◌<◌, ◌≡◌, refl, ap, [], Option, some, some-chain, ◌>>=◌, length}
use alkali.Lang.Token.{Text}
use alkali.Lang.Ast.{Expr}
use alkali.Lang.Stream.{cur, Run, ok}
use alkali.Lang.Parser.Exprs.{get_tok_precedence, parse_expression}
use alkali.Lang.Printer.{emit, Printable}
use alkali.Lang.Lexer.Scan.{tokenize, new_lexer}
use alkali.Lang.Lexer.Buffer.{new_buffer}
use alkali.Lang.Lexer.View.{visible, buffer_source}
use alkali.Lang.Lexer.Stream.{tokenize-file}
use alkali.Lang.RoundTrip.Exprs.{parse_expression-emit, eof-Closes}
use alkali.Lang.Lexer.Spelling.{AllSpellable, spell_all}
use alkali.Lang.RoundTrip.Spelled.{Spelled, emit-AllSpellable}

-- An expression of a file: all its tokens, and the parser over them.
unfoldable pub read_expression : Text → ℕ → ℕ → Option (Run Expr)
unfolding tokenize parse_expression
read_expression memory f g = do
  ts ← tokenize buffer_source f (new_lexer (new_buffer memory))
  some (parse_expression g ts)

-- A file that holds a printed expression, spelled with a space behind each lexeme, up to its end or
-- its first NUL character, is read as this expression and nothing is left. Fuel by the length of
-- the text and of the lexemes is enough.
pub read_expression-emit :
    (e : Expr) (memory : Text) (f g : ℕ)
    → Printable e
    → Spelled e
    → visible memory ≡ spell_all (emit 0 e [])
    → length (spell_all (emit 0 e [])) + 6 < f
    → 20 * length (emit 0 e []) + 4 < g
    → read_expression memory f g ≡ some (ok e [])
unfolding read_expression cur get_tok_precedence AllSpellable
read_expression-emit e memory f g printable spelled text hf hg =
    some-chain _
      (tokenize-file (emit 0 e []) memory (emit-AllSpellable 0 e [] spelled tt) text f hf)
      (ap some (parse_expression-emit e [] g printable eof-Closes refl hg))
