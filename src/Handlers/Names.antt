-- ===== src/Handlers/Names.antt =====
-- include/ep2/dialect/Passes.h and lib/ep2/HandlerDependencyAnalysis.cpp: `HandlerFullName`, and the
-- maps from it. A function of the module has a number, its key in the maps of functions.
pub mod Texts
use Prim.Native.Nat.{Ordering}
use alkali.Prelude.{ℕ, Bool, true, false, ◌&&◌, List, [], ◌∷◌, ◌++◌, Option, none, some}
use alkali.Lang.Token.{Text}
use alkali.Lang.Attributes.{compare_text}
use alkali.Lang.Lexer.Chars.{same_text}

pub record HandlerFullName : Type 0 where
  pub event : Text
  pub atom : Text

-- What stands behind the event, with `_` or `:` in front of the atom.
unfoldable pub suffix : ℕ → HandlerFullName → Text
suffix mark name = elim name.atom [ [] ↦ [] | c ∷ cs ↦ mark ∷ c ∷ cs ]

unfoldable pub mangle : HandlerFullName → Text
unfolding suffix
mangle name =
    (b'_' ∷ b'_' ∷ b'h' ∷ b'a' ∷ b'n' ∷ b'd' ∷ b'l' ∷ b'e' ∷ b'r' ∷ b'_' ∷ [])
    ++ (name.event ++ suffix b'_' name)

unfoldable pub join : HandlerFullName → Text
unfolding suffix
join name = name.event ++ suffix b':' name

-- `operator<`, by `std::tie`.
unfoldable pub compare_name : HandlerFullName → HandlerFullName → Ordering
unfolding compare_text
compare_name l r = elim (compare_text l.event r.event) [
  | Ordering.lt ↦ Ordering.lt
  | Ordering.gt ↦ Ordering.gt
  | Ordering.eq ↦ compare_text l.atom r.atom
]

-- A function of the module, with what its `ReturnOp`s with an operand lead to.
pub record HandlerOp : Type 0 where
  pub key : ℕ
  pub name : HandlerFullName
  pub is_controller : Bool
  pub is_handler : Bool
  pub is_extern : Bool
  pub returns : List HandlerFullName

abbrev pub NameMap : Type 0
NameMap = List (HandlerFullName × HandlerOp)

-- `emplace`: an entry that is there stays.
unfoldable pub emplace : HandlerFullName → HandlerOp → NameMap → NameMap
unfolding compare_name
emplace name op [] = (name, op) ∷ []
emplace name op ((j, w) ∷ m) = elim (compare_name name j) [
  | Ordering.lt ↦ (name, op) ∷ (j, w) ∷ m
  | Ordering.eq ↦ (j, w) ∷ m
  | Ordering.gt ↦ (j, w) ∷ emplace name op m
]

unfoldable pub find_name : HandlerFullName → NameMap → Option HandlerOp
unfolding compare_name
find_name name [] = none
find_name name ((j, w) ∷ m) = elim (compare_name name j) [
  | Ordering.eq ↦ some w
  | _ ↦ find_name name m
]

-- The entry for the event alone.
unfoldable pub find_general : Text → NameMap → Option HandlerOp
find_general event [] = none
find_general event ((j, w) ∷ m) =
    let rest = find_general event m in
    elim (same_text j.event event && same_text j.atom []) [ true ↦ some w | false ↦ rest ]

-- `lookupHandler`; `none` is the null handler.
unfoldable pub lookup_handler : NameMap → HandlerFullName → Option HandlerOp
unfolding find_name find_general
lookup_handler handlers fullname = elim (find_name fullname handlers) [
  | some op ↦ some op
  | none ↦ find_general fullname.event handlers
]

-- `lookupController`.
unfoldable pub lookup_controller : NameMap → HandlerFullName → Option HandlerOp
lookup_controller [] fullname = none
lookup_controller ((j, w) ∷ m) fullname =
    let rest = lookup_controller m fullname in
    elim (same_text j.event fullname.event) [ true ↦ some w | false ↦ rest ]
