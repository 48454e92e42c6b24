-- ===== src/Lang/Parser/Modules.antt =====
-- include/ep2/lang/Parser.h: `separateBy` and `parseModule`.
use alkali.Prelude.{
  ℕ, zero, suc, ◌+◌, ◌*◌, true, false, List, [], ◌∷◌, ◌++◌, Option, none, some, length,
}
use alkali.Lang.Token.{
  Text, Token, tok_identifier, tok_comma, tok_colon, tok_semicolon, tok_eq, tok_parenthese_open,
  tok_parenthese_close, tok_sbracket_open, tok_sbracket_close, tok_angle_bracket_open,
  tok_angle_bracket_close, tok_handler, tok_controller, tok_event, tok_struct, tok_def, tok_extern,
  tok_scope, tok_global, tok_eof,
}
use alkali.Lang.Ast.{
  AttrValue, Attributes, attr_string, attr_bool, attr_list, Definition, scope, global, Module,
}
use alkali.Lang.Attributes.{insert_or_assign}
use alkali.Lang.Stream.{
  Lexemes, Parser, Run, ok, null, fault, out_of_fuel, cur, pure, ◌>>=◌, ◌>>◌, unchecked,
  parse_error, when, on_some, after, consume, expect_id,
}
use alkali.Lang.Parser.Blocks.{parse_declaration}
use alkali.Lang.Parser.Decls.{parse_definition, parse_struct}

-- `separateBy`, over what the callback changes. The callback signals an error by a non-null pointer,
-- but `parseError` is null: after an error the loop goes on, here with what is in `S`.
unfoldable pub separate_loop {ℓ} :
    {S : Type ℓ} → ℕ → (close sep : Token) → (S → Parser S) → S → Parser S
unfolding consume
separate_loop zero close sep f s ts = out_of_fuel
separate_loop (suc n) close sep f s ts =
    after
      (do
        s' ← f s
        when sep (separate_loop n close sep f s') (when close (consume close >> pure s') (pure s')))
      ts

unfoldable pub separate_by {ℓ} :
    {S : Type ℓ} → ℕ → (from close sep : Token) → (S → Parser S) → S → Parser S
unfolding separate_loop
separate_by n from close sep f s = when from (separate_loop n close sep f s) (pure s)

unfoldable pub attr_name : List Text → Parser (List Text)
unfolding expect_id
attr_name ss = when tok_identifier (do s ← expect_id; pure (ss ++ s ∷ [])) (pure ss)

-- The value of an attribute: a name, a list of names, or true where no '=' follows the key. Behind
-- '=' the default value of the variant, an empty string, stays if neither follows.
unfoldable pub attr_value : ℕ → Parser AttrValue
unfolding consume expect_id separate_by attr_name
attr_value f =
    when tok_eq
      (consume tok_eq
        >> when tok_identifier (do s ← expect_id; pure (attr_string s))
            (when tok_parenthese_open
              (do
                ss ← separate_by f tok_parenthese_open tok_parenthese_close tok_comma attr_name []
                pure (attr_list ss))
              (pure (attr_string []))))
      (pure (attr_bool true))

unfoldable pub attr_entry : ℕ → Attributes → Parser Attributes
unfolding expect_id attr_value insert_or_assign
attr_entry f attrs =
    when tok_identifier (do key ← expect_id; v ← attr_value f; pure (insert_or_assign key v attrs))
      (pure attrs)

-- `'[' … ']'` before a record.
unfoldable pub parse_attributes : ℕ → Attributes → Parser Attributes
unfolding separate_by attr_entry
parse_attributes f = separate_by f tok_sbracket_open tok_sbracket_close tok_comma (attr_entry f)

-- The handlers of a scope, from the '<' or ',' before one.
unfoldable pub parse_scope_handlers : ℕ → Parser (List Text)
unfolding expect_id consume
parse_scope_handlers zero ts = out_of_fuel
parse_scope_handlers (suc f) ts =
    after
      (do
        handler ← expect_id
        name ←
            when tok_colon (consume tok_colon >> do atom ← expect_id; pure (handler ++ b':' ∷ atom))
              (pure handler)
        when tok_comma (do names ← parse_scope_handlers f; pure (name ∷ names)) (pure (name ∷ [])))
      ts

unfoldable pub parse_scope : ℕ → Parser Definition
unfolding consume expect_id parse_scope_handlers
parse_scope f = do
  consume tok_scope
  name ← expect_id
  handlers ←
      when tok_angle_bracket_open
        (do
          hs ← parse_scope_handlers f
          when tok_angle_bracket_close (consume tok_angle_bracket_close >> pure hs) parse_error)
        (pure [])
  partition_key ←
      when tok_sbracket_open
        (consume tok_sbracket_open >> do
          key ← expect_id
          when tok_sbracket_close (consume tok_sbracket_close >> pure key) parse_error)
        (pure [])
  consume tok_semicolon
  pure (scope name handlers partition_key)

-- The declaration is dereferenced with no test.
unfoldable pub parse_global : ℕ → Parser Definition
unfolding consume parse_declaration
parse_global f = do
  consume tok_global
  decl ← unchecked (parse_declaration f false)
  on_some decl (λ ts. fault) (λ d. consume tok_semicolon >> pure (global d))

abbrev pub extern_key : Text
extern_key = b'e' ∷ b'x' ∷ b't' ∷ b'e' ∷ b'r' ∷ b'n' ∷ []

-- Enough for every input.
abbrev pub module_fuel : Lexemes → ℕ
module_fuel ts = 20 * length ts + 20

unfoldable mutual
  -- The loop of `parseModule`, with the attributes that stand before the next record.
  pub parse_records : ℕ → Attributes → Parser Module
  parse_records zero attrs ts = out_of_fuel
  parse_records (suc f) attrs ts = record_switch f attrs (cur ts) ts

  -- The `switch` of `parseModule`.
  pub record_switch : ℕ → Attributes → Token → Parser Module
  record_switch zero attrs _ ts = out_of_fuel
  record_switch (suc f) attrs tok_eof ts = ok [] ts
  record_switch (suc f) attrs tok_def ts =
      (do d ← unchecked (parse_definition f tok_def); add_record f attrs d) ts
  record_switch (suc f) attrs tok_handler ts =
      (do d ← unchecked (parse_definition f tok_handler); add_record f attrs d) ts
  record_switch (suc f) attrs tok_controller ts =
      (do d ← unchecked (parse_definition f tok_controller); add_record f attrs d) ts
  record_switch (suc f) attrs tok_struct ts =
      (do d ← unchecked (parse_struct f tok_struct); add_record f attrs d) ts
  record_switch (suc f) attrs tok_event ts =
      (do d ← unchecked (parse_struct f tok_event); add_record f attrs d) ts
  record_switch (suc f) attrs tok_extern ts =
      (consume tok_extern >> parse_records f (insert_or_assign extern_key (attr_bool true) attrs))
        ts
  record_switch (suc f) attrs tok_sbracket_open ts =
      (do attrs' ← parse_attributes f attrs; parse_records f attrs') ts
  record_switch (suc f) attrs tok_scope ts = (do d ← parse_scope f; add_record f attrs (some d)) ts
  record_switch (suc f) attrs tok_global ts =
      (do d ← parse_global f; add_record f attrs (some d)) ts
  record_switch (suc f) attrs _ ts = null ts

  -- A null record ends the loop; that is an error unless the input has ended.
  pub add_record : ℕ → Attributes → Option Definition → Parser Module
  add_record zero attrs d ts = out_of_fuel
  add_record (suc f) attrs none ts = when tok_eof (pure []) parse_error ts
  add_record (suc f) attrs (some d) ts =
      (do
        records ← parse_records f []
        pure (record { definition = d; attributes = attrs } ∷ records))
        ts

-- `parseModule`, on the lexemes of a file.
unfoldable pub parse_module : Lexemes → Run Module
unfolding parse_records
parse_module ts = parse_records (module_fuel ts) [] ts
