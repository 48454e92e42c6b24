-- ===== src/Lang/Fuel/Modules.antt =====
-- The parser of a module ends within the fuel that `parse_module` gives it.
use alkali.Prelude.{ℕ, zero, suc, ◌+◌, ◌*◌, ◌≤◌, ◌<◌, ◌≡◌, refl, none, some, false, arith, length}
use alkali.Lang.Token.{
  Token, same, tok_eof, tok_def, tok_handler, tok_controller, tok_struct, tok_event, tok_extern,
  tok_sbracket_open, tok_scope, tok_global, tok_semicolon,
}
use alkali.Lang.Ast.{Attributes, Definition}
use alkali.Lang.Stream.{Lexemes, Run, keep, and_then, cur}
use alkali.Lang.Ends.{
  Ends, ended, nulled, faulted, Ends-mono, Ends-kept, Ends-branch, Ends-on_some, Ends-bind,
  then_consume,
}
use alkali.Lang.Fuel.Blocks.{parse_declaration-Ends}
use alkali.Lang.Fuel.Decls.{parse_definition-Ends, parse_struct-Ends}
use alkali.Lang.Fuel.Attributes.{parse_attributes-Ends, parse_scope-Ends}
use alkali.Lang.Parser.Modules.{parse_global, parse_records, record_switch, add_record}

parse_global-Ends :
    (f : ℕ) (ts : Lexemes) → 20 * length ts < f → Ends (length ts) (parse_global f ts)
unfolding parse_global same
parse_global-Ends f ts h = then_consume ts tok_global refl (omega arith) λ _ ts₁ h₁.
    Ends-kept (parse_declaration-Ends f false ts₁ (omega arith)) λ d ts₂ h₂.
      Ends-on_some d faulted
        λ d' _. then_consume ts₂ tok_semicolon refl (omega arith) λ _ ts₃ h₃. ended (omega arith)

add_none-Ends :
    (f : ℕ) (attrs : Attributes) (ts : Lexemes)
    → 0 < f
    → Ends (suc (length ts)) (add_record f attrs none ts)
unfolding parse_records
add_none-Ends zero attrs ts h = absurd (omega arith)
add_none-Ends (suc f) attrs ts h =
    Ends-branch (same (cur ts) tok_eof) (λ _. ended (omega arith)) (λ _. nulled (omega arith))

-- A null record leads to other things than a record.
module _ (f : ℕ) (attrs : Attributes) {n m : ℕ} where
  then_add :
      {r : Run Definition}
      → Ends n r
      → ((ts : Lexemes) → length ts ≤ n → Ends m (add_record f attrs none ts))
      → ((d : Definition) (ts : Lexemes) → length ts < n → Ends m (add_record f attrs (some d) ts))
      → Ends m (and_then (keep r) (add_record f attrs))
  then_add (ended {a} {ts} h) kn ks = ks a ts h
  then_add (nulled {ts} h) kn ks = kn ts h
  then_add faulted kn ks = faulted

mutual
  unfolding parse_records same

  parse_records-Ends :
      (f : ℕ) (attrs : Attributes) (ts : Lexemes)
      → 20 * length ts + 2 < f
      → Ends (suc (length ts)) (parse_records f attrs ts)
  parse_records-Ends zero attrs ts h = absurd (omega arith)
  parse_records-Ends (suc f) attrs ts h = record_switch-Ends f attrs (cur ts) ts refl (omega arith)

  record_switch-Ends :
      (f : ℕ) (attrs : Attributes) (t : Token) (ts : Lexemes)
      → cur ts ≡ t
      → 20 * length ts + 1 < f
      → Ends (suc (length ts)) (record_switch f attrs t ts)
  record_switch-Ends zero attrs t ts e h = absurd (omega arith)
  record_switch-Ends (suc f) attrs tok_eof ts e h = ended (omega arith)
  record_switch-Ends (suc f) attrs tok_def ts e h =
      then_add f attrs (parse_definition-Ends f tok_def ts refl (omega arith))
        (λ ts₁ h₁. Ends-mono (omega arith) (add_none-Ends f attrs ts₁ (omega arith)))
        (λ d ts₁ h₁. Ends-mono (omega arith) (add_record-Ends f attrs d ts₁ (omega arith)))
  record_switch-Ends (suc f) attrs tok_handler ts e h =
      then_add f attrs (parse_definition-Ends f tok_handler ts refl (omega arith))
        (λ ts₁ h₁. Ends-mono (omega arith) (add_none-Ends f attrs ts₁ (omega arith)))
        (λ d ts₁ h₁. Ends-mono (omega arith) (add_record-Ends f attrs d ts₁ (omega arith)))
  record_switch-Ends (suc f) attrs tok_controller ts e h =
      then_add f attrs (parse_definition-Ends f tok_controller ts refl (omega arith))
        (λ ts₁ h₁. Ends-mono (omega arith) (add_none-Ends f attrs ts₁ (omega arith)))
        (λ d ts₁ h₁. Ends-mono (omega arith) (add_record-Ends f attrs d ts₁ (omega arith)))
  record_switch-Ends (suc f) attrs tok_struct ts e h =
      then_add f attrs (parse_struct-Ends f tok_struct ts refl (omega arith))
        (λ ts₁ h₁. Ends-mono (omega arith) (add_none-Ends f attrs ts₁ (omega arith)))
        (λ d ts₁ h₁. Ends-mono (omega arith) (add_record-Ends f attrs d ts₁ (omega arith)))
  record_switch-Ends (suc f) attrs tok_event ts e h =
      then_add f attrs (parse_struct-Ends f tok_event ts refl (omega arith))
        (λ ts₁ h₁. Ends-mono (omega arith) (add_none-Ends f attrs ts₁ (omega arith)))
        (λ d ts₁ h₁. Ends-mono (omega arith) (add_record-Ends f attrs d ts₁ (omega arith)))
  record_switch-Ends (suc f) attrs tok_extern ts e h =
      then_consume ts tok_extern refl (omega arith)
        λ _ ts₁ h₁. Ends-mono (omega arith) (parse_records-Ends f _ ts₁ (omega arith))
  record_switch-Ends (suc f) attrs tok_sbracket_open ts e h =
      Ends-bind (parse_attributes-Ends f attrs ts (rw e refl) (omega arith)) (omega arith)
        λ attrs' ts₁ h₁. Ends-mono (omega arith) (parse_records-Ends f attrs' ts₁ (omega arith))
  record_switch-Ends (suc f) attrs tok_scope ts e h =
      Ends-bind (parse_scope-Ends f ts (omega arith)) (omega arith)
        λ d ts₁ h₁. Ends-mono (omega arith) (add_record-Ends f attrs d ts₁ (omega arith))
  record_switch-Ends (suc f) attrs tok_global ts e h =
      Ends-bind (parse_global-Ends f ts (omega arith)) (omega arith)
        λ d ts₁ h₁. Ends-mono (omega arith) (add_record-Ends f attrs d ts₁ (omega arith))
  record_switch-Ends (suc f) attrs _ ts e h = nulled (omega arith)

  add_record-Ends :
      (f : ℕ) (attrs : Attributes) (d : Definition) (ts : Lexemes)
      → 20 * length ts + 3 < f
      → Ends (suc (length ts)) (add_record f attrs (some d) ts)
  add_record-Ends zero attrs d ts h = absurd (omega arith)
  add_record-Ends (suc f) attrs d ts h =
      Ends-bind (parse_records-Ends f _ ts (omega arith)) (omega arith)
        λ rs ts₁ h₁. ended (omega arith)
