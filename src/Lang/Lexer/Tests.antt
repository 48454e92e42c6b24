-- ===== src/Lang/Lexer/Tests.antt =====
-- Runs of the lexer of include/ep2/lang/Lexer.h on small files.
use alkali.Lang.Lexer.Scan.{
  take_symbol, take_number, take_name, skip_space, skip_comment, lexeme, is_comparison, in_comment,
  get_tok_input, get_next_token, get_identifier_str, comparison, advance, Lexer, new_lexer, get_tok,
  tokenize, peek_next_token,
}
use alkali.Lang.Lexer.Spelling.{
  spell_token, spell, keyword_text, Spellable, AllSpellable, spell_all,
}
use alkali.Lang.Lexer.Buffer.{
  Buffer, save_location, refill, read_next_line, get_next_char, new_buffer,
}
use alkali.Lang.Lexer.Chars.{
  same_text, lookup_token, keyword, is_space, is_number_char, is_name_char, is_digit, is_alpha,
}
use alkali.Lang.Token.{
  Token, same, negative_token, ascii_token, Text, value, token_of_byte, tok_if, tok_cmp_le,
  tok_semicolon,
}
use alkali.Prelude.{◌≡◌, refl, false, [], ◌∷◌, some, arith}
use alkali.Lang.Stream.{Lexemes, word, numeral, sign}
use alkali.Lang.Lexer.Natural.{map_source, map_token}
use alkali.Lang.Lexer.View.{
  text_source, buffer_source, view, visible, still_to_come, get_tok-still_to_come,
}
use alkali.Lang.Lexer.Peek.{Transparent}
use alkali.Lang.Lexer.Ends.{get_tok-ends, peek_next_token-buffer}
use alkali.Lang.Lexer.Stream.{tokenize-file}

-- if ax <= 12.5 ;
abbrev sample : Lexemes
sample =
    sign tok_if
    ∷ word (b'a' ∷ b'x' ∷ [])
    ∷ sign tok_cmp_le
    ∷ numeral (b'1' ∷ b'2' ∷ b'.' ∷ b'5' ∷ [])
    ∷ sign tok_semicolon
    ∷ []

abbrev sample_file : Text
sample_file =
    b'i' ∷ b'f' ∷ b' ' ∷ b'a' ∷ b'x' ∷ b' ' ∷ b'<' ∷ b'=' ∷ b' ' ∷ b'1' ∷ b'2' ∷ b'.' ∷ b'5' ∷ b' '
    ∷ b';' ∷ b' ' ∷ 0 ∷ b'z' ∷ []

-- A comment in the middle of a line, and a name behind it.
abbrev comment_file : Text
comment_file = b'#' ∷ b'x' ∷ b'\n' ∷ b'a' ∷ b';' ∷ 0 ∷ []

comment-tokenize :
    tokenize buffer_source 30 (new_lexer (new_buffer comment_file))
    ≡ some (word (b'a' ∷ []) ∷ sign tok_semicolon ∷ [])
unfolding tokenize get_next_token get_tok get_tok_input skip_space take_name take_number
    skip_comment take_symbol advance lexeme get_identifier_str in_comment is_comparison comparison
    value same is_space is_alpha is_digit is_name_char is_number_char keyword lookup_token same_text
    token_of_byte ascii_token negative_token peek_next_token get_next_char refill read_next_line
    save_location
comment-tokenize = refl

tokenize-file_example : tokenize buffer_source 40 (new_lexer (new_buffer sample_file)) ≡ some sample
unfolding AllSpellable Spellable spell_all spell spell_token keyword_text visible keyword
    lookup_token same_text is_alpha is_digit is_name_char is_number_char value
tokenize-file_example =
    tokenize-file sample sample_file
      (tt, (((refl, (refl, tt)), refl), (tt, ((refl, (refl, (refl, (refl, tt)))), (tt, tt))))) refl
      40 (omega arith)

get_tok-still_to_come_example :
    get_tok text_source 20 false (map_source view (new_lexer (new_buffer comment_file)))
    ≡ map_token view (get_tok buffer_source 20 false (new_lexer (new_buffer comment_file)))
get_tok-still_to_come_example = get_tok-still_to_come 20 false (new_lexer (new_buffer comment_file))

get_tok-ends_example :
    (p : Token × Lexer Buffer) × (get_tok buffer_source 20 false
        (new_lexer (new_buffer comment_file))
      ≡ some p)
unfolding view still_to_come visible
get_tok-ends_example = get_tok-ends 20 false (new_lexer (new_buffer comment_file)) (omega arith)

peek_next_token-buffer_example :
    (t : Token) × (l' : Lexer Buffer) × (peek_next_token buffer_source 20
        (new_lexer (new_buffer comment_file))
      ≡ some (t, l'))
    × Transparent buffer_source 20 (new_lexer (new_buffer comment_file)) t l'
unfolding view still_to_come visible
peek_next_token-buffer_example =
    peek_next_token-buffer 20 (new_lexer (new_buffer comment_file)) refl (omega arith)
