-- ===== src/Lang/Parser/Decls.antt =====
-- include/ep2/lang/Parser.h: `parsePrototype`, `parseDefinition` and `parseStruct`.
use alkali.Prelude.{ℕ, zero, suc, false, List, [], ◌∷◌, Option, none, some, ◌&&◌}
use alkali.Lang.Token.{
  Text, Token, same, tok_comma, tok_colon, tok_semicolon, tok_parenthese_open, tok_parenthese_close,
  tok_bracket_open, tok_bracket_close, tok_handler, tok_controller, tok_event,
}
use alkali.Lang.Ast.{
  VarDecl, Prototype, FunctionType, function_controller, function_handler, Definition, function,
  struct_def, null_expr,
}
use alkali.Lang.Stream.{
  Parser, fault, out_of_fuel, next, pure, ◌>>=◌, ◌>>◌, is, unchecked, parse_error, when, branch,
  on_some, after, consume, expect_id,
}
use alkali.Lang.Parser.Types.{parse_type, parse_atom}
use alkali.Lang.Parser.Blocks.{parse_declaration, parse_block}

-- The loop over the parameters, from the '(' or ',' before one.
unfoldable pub parse_parameters : ℕ → Parser (List VarDecl)
unfolding parse_type expect_id
parse_parameters zero ts = out_of_fuel
parse_parameters (suc f) ts =
    after
      (do
        type ← parse_type f
        name ← expect_id
        let arg : VarDecl = record { name = name; type = type; init_val = null_expr }
        when tok_comma (do args ← parse_parameters f; pure (arg ∷ args)) (pure (arg ∷ [])))
      ts

-- `if (token == tok_handler && getCurToken() == tok_colon)`: the atom, dereferenced with no test.
unfoldable pub parse_handler_atom : Token → Parser (Option Text)
unfolding parse_atom same
parse_handler_atom token ts =
    branch (same token tok_handler && is tok_colon ts)
      (do a ← unchecked parse_atom; on_some a (λ ts. fault) (λ s. pure (some s))) (pure none) ts

unfoldable pub function_type_of : Token → FunctionType
function_type_of tok_controller = function_controller
function_type_of _ = function_handler

unfoldable pub parse_prototype : ℕ → Token → Parser Prototype
unfolding consume expect_id parse_handler_atom parse_parameters function_type_of
parse_prototype f token =
    when token
      (do
        consume token
        name ← expect_id
        atom ← parse_handler_atom token
        args ←
            when tok_parenthese_open
              (λ ts.
                branch (is tok_parenthese_close (next ts)) (consume tok_parenthese_open >> pure [])
                  (parse_parameters f) ts)
              parse_error
        when tok_parenthese_close
            (consume tok_parenthese_close
              >> pure (record {
                name = name;
                args = args;
                atom = atom;
                function_type = function_type_of token;
              }))
            parse_error)
      parse_error

unfoldable pub parse_definition : ℕ → Token → Parser Definition
unfolding parse_prototype parse_block
parse_definition f token = do
  proto ← parse_prototype f token
  body ← parse_block f
  pure (function proto body)

-- The loop over the fields of a struct, up to '}'.
unfoldable pub parse_fields : ℕ → Parser (List VarDecl)
unfolding parse_declaration consume
parse_fields zero ts = out_of_fuel
parse_fields (suc f) ts =
    when tok_bracket_close (pure [])
      (do
        decl ← parse_declaration f false
        when tok_semicolon (consume tok_semicolon >> do decls ← parse_fields f; pure (decl ∷ decls))
            parse_error)
      ts

unfoldable pub parse_struct : ℕ → Token → Parser Definition
unfolding consume expect_id parse_fields same
parse_struct f token_type = do
  consume token_type
  name ← expect_id
  when tok_bracket_open
      (do
        consume tok_bracket_open
        decls ← parse_fields f
        consume tok_bracket_close
        pure (struct_def (same token_type tok_event) name decls))
      parse_error
