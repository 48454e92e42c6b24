-- ===== src/Netronome.antt =====
-- runtime_lib/netronome_runtime/lib: the library of the programs for Netronome cards.
pub mod Copy
pub mod Cam
pub mod FlowTable
pub mod Net
pub mod Packets
pub mod Dma
pub mod Tests
