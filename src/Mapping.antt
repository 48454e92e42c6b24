-- ===== src/Mapping.antt =====
-- include/ep2/passes/Mapping.h and lib/ep2/Passes/Mapping: which compute units run which handler of a
-- pipeline, and the search for a better pipeline.
pub mod Model
pub mod Greedy
pub mod Search
mod Tests
