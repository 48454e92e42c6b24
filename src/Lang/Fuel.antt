-- ===== src/Lang/Fuel.antt =====
-- The fuel of the parser suffices, and every part of it but a list that may be empty takes a lexeme.
pub mod Types
pub mod Ports
pub mod Bounds
pub mod Lists
pub mod Exprs
pub mod Blocks
pub mod Decls
pub mod Attributes
pub mod Modules
