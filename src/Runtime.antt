-- ===== src/Runtime.antt =====
-- runtime-llvm: the runtime of the programs for a host with threads.
pub mod Buffers
pub mod Tables
pub mod Queues
pub mod Threads
pub mod Externs
pub mod Tests
