-- ===== src/Lang.antt =====
-- The αIR front end, include/ep2/lang.
pub mod Token
pub mod Number
pub mod Ast
pub mod Attributes
pub mod Stream
pub mod Ends
pub mod Parser
pub mod Fuel
pub mod Lexer
pub mod Printer
pub mod RoundTrip
pub mod Errors
pub mod Tests
