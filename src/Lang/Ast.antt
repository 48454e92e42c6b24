-- ===== src/Lang/Ast.antt =====
-- include/ep2/lang/AST.h: the syntax tree. Source locations, which only serve messages, are left
-- out. A `unique_ptr` that the parser may leave null is a type with a constructor for null.
use alkali.Prelude.{ℕ, Bool, List, Option}
use alkali.Lang.Token.{Text, Token}

-- `VarType` and its template parameters, an integer or a type each.
mutual
  pub data VarType : Type 0 where
    var_type : Text → Params → VarType

  pub data Params : Type 0 where
    no_params : Params
    integer : ℕ → Params → Params
    type_param : VarType → Params → Params
    null_param : Params → Params

-- The instance number of a port literal; `any_instance` is -1.
pub data Instance : Type 0 where
  instance_number : ℕ → Instance
  any_instance : Instance

-- The expressions that the parser builds, with their lists and their optional children.
mutual
  pub data Expr : Type 0 where
    var_decl : Text → VarType → OptExpr → Expr
    return_void : Expr
    return_expr : OptExpr → Expr
    num : ℕ → Expr
    struct_literal : Exprs → Expr
    atom_literal : Text → Expr
    port_literal : Text → Text → Instance → Expr
    path : Text → List Text → Expr
    bin_op : Token → Expr → Expr → Expr
    call : Text → List Text → Exprs → List Text → List Text → Expr
    init : VarType → Exprs → Expr
    if_else : Expr → OptBlock → OptBlock → Expr

  pub data Exprs : Type 0 where
    no_exprs : Exprs
    cons_expr : Expr → Exprs → Exprs

  pub data OptExpr : Type 0 where
    null_expr : OptExpr
    some_expr : Expr → OptExpr

  pub data OptBlock : Type 0 where
    null_block : OptBlock
    some_block : Exprs → OptBlock

-- A parameter of a function or a field of a struct: a `VarDeclExprAST`.
pub record VarDecl : Type 0 where
  pub name : Text
  pub type : VarType
  pub init_val : OptExpr

pub data FunctionType : Type 0 where
  function_controller function_handler : FunctionType

pub record Prototype : Type 0 where
  pub name : Text
  pub args : List VarDecl
  pub atom : Option Text
  pub function_type : FunctionType

pub data AttrValue : Type 0 where
  attr_string : Text → AttrValue
  attr_bool : Bool → AttrValue
  attr_list : List Text → AttrValue

-- `std::map<std::string, …>`, in the order of its keys.
abbrev pub Attributes : Type 0
Attributes = List (Text × AttrValue)

pub data Definition : Type 0 where
  function : Prototype → Exprs → Definition
  struct_def : Bool → Text → List VarDecl → Definition
  scope : Text → List Text → Text → Definition
  global : VarDecl → Definition

pub record Record : Type 0 where
  pub definition : Definition
  pub attributes : Attributes

abbrev pub Module : Type 0
Module = List Record
