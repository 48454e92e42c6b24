-- ===== src/Lang/Lexer/View.antt =====
-- What the lexer of a `LexerBuffer` reads: its memory up to the first NUL character, one character
-- after the other. The lines in between are not to be seen.
use alkali.Prelude.{
  ℕ, ◌+◌, Bool, true, false, [], ◌∷◌, ◌++◌, ◌≡◌, refl, ap, ◌==◌, inl, inr, Bool-cases,
  if◌then◌else◌, List-cases, sym, ◌∙◌,
}
use alkali.Lang.Token.{Text, Token, tok_eof, token_of_byte}
use alkali.Lang.Lexer.Buffer.{Buffer, read_next_line, refill, get_next_char, save_location}
use alkali.Lang.Lexer.Scan.{Source, Lexer, get_tok}
use alkali.Lang.Lexer.Natural.{IsView, map_source, map_token, get_tok-view}

-- `LexerBuffer` as the source of a lexer.
abbrev pub buffer_source : Source Buffer
buffer_source = record { next_char = get_next_char; save = save_location }

-- A text, read from front to back, with no positions.
abbrev pub next_of_text : Text → Token × Text
next_of_text [] = (tok_eof, [])
next_of_text (c ∷ s) = (token_of_byte c, s)

abbrev pub text_source : Source Text
text_source = record { next_char = next_of_text; save = λ s. s }

-- The characters before the first NUL.
unfoldable pub visible : Text → Text
visible [] = []
visible (c ∷ s) = elim (c == 0) [ true ↦ [] | false ↦ c ∷ visible s ]

-- The characters still to come: none where the line buffer is empty.
unfoldable pub still_to_come : Text → Text → Text
unfolding visible
still_to_come [] memory = []
still_to_come (c ∷ s) memory = c ∷ s ++ visible memory

unfoldable pub view : Buffer → Text
unfolding still_to_come
view b = still_to_come b.cur_line_buffer b.memory

-- One step of `read_next_line` and of `visible`, by the character in front.
module _ (c : ℕ) (s : Text) where
  nul-read_next_line : (c == 0) ≡ true → read_next_line (c ∷ s) ≡ ([], c ∷ s)
  unfolding read_next_line
  nul-read_next_line e = rw (read_next_line, e)

  feed-read_next_line :
      (c == 0) ≡ false → (c == b'\n') ≡ true → read_next_line (c ∷ s) ≡ (c ∷ [], s)
  unfolding read_next_line
  feed-read_next_line e e' = rw (read_next_line, e, e')

  other-read_next_line :
      (c == 0) ≡ false
      → (c == b'\n') ≡ false
      → read_next_line (c ∷ s) ≡ (c ∷ (read_next_line s).0, (read_next_line s).1)
  unfolding read_next_line
  other-read_next_line e e' = rw (read_next_line, e, e')

  nul-visible : (c == 0) ≡ true → visible (c ∷ s) ≡ []
  unfolding visible
  nul-visible e = rw (visible, e)

  other-visible : (c == 0) ≡ false → visible (c ∷ s) ≡ c ∷ visible s
  unfolding visible
  other-visible e = rw (visible, e)

read_next_line-visible :
    (m : Text) → (read_next_line m).0 ++ visible (read_next_line m).1 ≡ visible m
unfolding read_next_line visible
read_next_line-visible [] = refl
read_next_line-visible (c ∷ s) = elim (Bool-cases (c == 0)) [
  | inl e ↦ rw (nul-read_next_line c s e)
  | inr e ↦ elim (Bool-cases (c == b'\n')) [
    | inl e' ↦ rw (feed-read_next_line c s e e', other-visible c s e)
    | inr e' ↦
        rw (other-read_next_line c s e e', other-visible c s e)
          (ap (λ t. c ∷ t) (read_next_line-visible s))
  ]
]

read_next_line-still_to_come :
    (m : Text) → still_to_come (read_next_line m).0 (read_next_line m).1 ≡ visible m
unfolding still_to_come read_next_line visible
read_next_line-still_to_come [] = refl
read_next_line-still_to_come (c ∷ s) = elim (Bool-cases (c == 0)) [
  | inl e ↦ rw (nul-read_next_line c s e, nul-visible c s e)
  | inr e ↦ elim (Bool-cases (c == b'\n')) [
    | inl e' ↦ rw (feed-read_next_line c s e e', other-visible c s e)
    | inr e' ↦
        rw (other-read_next_line c s e e', other-visible c s e)
          (ap (λ t. c ∷ t) (read_next_line-visible s))
  ]
]

refill-view :
    (s m : Text) (b : Buffer)
    → b.cur_line_buffer ≡ s
    → b.memory ≡ m
    → view (refill b) ≡ s ++ visible m
unfolding refill view still_to_come
refill-view [] m b e e' = rw (e, e') (read_next_line-still_to_come m)
refill-view (c ∷ s) m b e e' = rw (e, e')

if-view : (b : Bool) (l l' : Buffer) → view l ≡ view l' → view (if b then l else l') ≡ view l
if-view true l l' e = refl
if-view false l l' e = sym e

get_next_char-view :
    (b : Buffer) → next_of_text (view b) ≡ ((get_next_char b).0, view (get_next_char b).1)
unfolding get_next_char view still_to_come
get_next_char-view b = elim (List-cases b.cur_line_buffer) [
  | inl e ↦ simp (view, e, get_next_char, still_to_come)
  | inr (c, s, e) ↦
      let b' = refill (record b { cur_line_buffer = s; cur_col = b.cur_col + 1 }) in
      let fed : Buffer = record b' { cur_line_num = b'.cur_line_num + 1; cur_col = 0 } in
      let same_view : view (if c == b'\n' then fed else b') ≡ s ++ visible b.memory =
        if-view (c == b'\n') fed b' refl ∙ refill-view s b.memory _ refl refl in
      simp (view, e, get_next_char, still_to_come) (ap (λ t. (token_of_byte c, t)) (sym same_view))
]

-- The lines of a `LexerBuffer` are a view of its memory.
pub view-IsView : IsView buffer_source text_source view
unfolding view save_location
view-IsView = record { next = get_next_char-view; save = λ b. refl }

-- A token is read off the lines of a `LexerBuffer` as it is off its memory with no lines, with any
-- fuel, peeked at or not.
pub get_tok-still_to_come :
    (f : ℕ) (peek : Bool) (l : Lexer Buffer)
    → get_tok text_source f peek (map_source view l)
      ≡ map_token view (get_tok buffer_source f peek l)
get_tok-still_to_come = get_tok-view buffer_source text_source view view-IsView
