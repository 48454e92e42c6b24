-- ===== src/Handlers.antt =====
-- lib/ep2/HandlerDependencyAnalysis.cpp: which handlers lead to which, in which connected components,
-- and in which order. A function is known by a number, the one that its key in a map has.
pub mod Maps
pub mod Sets
pub mod Names
pub mod Dependencies
pub mod Components
mod Tests
