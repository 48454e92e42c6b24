-- ===== src/Lang/Parser.antt =====
-- include/ep2/lang/Parser.h. Each function that calls itself or loops takes fuel, of which each call
-- and each round costs a unit.
pub mod Types
pub mod Exprs
pub mod Blocks
pub mod Decls
pub mod Modules
