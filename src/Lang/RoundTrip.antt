-- ===== src/Lang/RoundTrip.antt =====
-- What is printed is parsed back.
pub mod Length
pub mod Follows
pub mod Chain
pub mod Leaves
pub mod Compound
pub mod Operations
pub mod Exprs
pub mod Spelled
pub mod Files
