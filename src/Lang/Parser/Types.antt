-- ===== src/Lang/Parser/Types.antt =====
-- include/ep2/lang/Parser.h: `parseType` and `parseAtom`.
use alkali.Prelude.{ℕ, zero, suc, ◌^◌, Option, none, some}
use alkali.Lang.Token.{
  Text, tok_identifier, tok_number, tok_comma, tok_angle_bracket_open, tok_angle_bracket_close,
  tok_colon,
}
use alkali.Lang.Ast.{VarType, Params, var_type, no_params, integer, type_param, null_param}
use alkali.Lang.Stream.{
  Parser, out_of_fuel, pure, ◌>>=◌, ◌>>◌, unchecked, parse_error, when, after, consume, expect_id,
  expect_value,
}

abbrev pub add_param : Option VarType → Params → Params
add_param none ps = null_param ps
add_param (some t) ps = type_param t ps

-- `parse_params` is the loop over the template parameters, from the '<' or ',' before one. A
-- parameter that is no type is left null, since `emplace_back(parseType())` is not tested.
unfoldable mutual
  pub parse_type : ℕ → Parser VarType
  parse_type zero ts = out_of_fuel
  parse_type (suc f) ts =
      (do
        name ← expect_id
        when tok_angle_bracket_open
            (do ps ← parse_params f; consume tok_angle_bracket_close; pure (var_type name ps))
            (pure (var_type name no_params)))
        ts

  pub parse_params : ℕ → Parser Params
  parse_params zero ts = out_of_fuel
  parse_params (suc f) ts =
      after
        (when tok_number
          (do n ← expect_value (2 ^ 63); ps ← parse_more_params f; pure (integer n ps))
          (when tok_identifier
            (do t ← unchecked (parse_type f); ps ← parse_more_params f; pure (add_param t ps))
            parse_error))
        ts

  pub parse_more_params : ℕ → Parser Params
  parse_more_params zero ts = out_of_fuel
  parse_more_params (suc f) ts = when tok_comma (parse_params f) (pure no_params) ts

-- `parseAtom`: ':' and an identifier.
unfoldable pub parse_atom : Parser Text
unfolding consume expect_id
parse_atom = when tok_colon (consume tok_colon >> expect_id) parse_error
