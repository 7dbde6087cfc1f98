-- ===== src/Chunking.antt =====
-- src/qdap/chunking: payloads split into chunks and batches, their metadata, and reassembly.
pub mod Strategy
pub mod Meta
pub mod Split
pub mod Frames
pub mod Reassembler
pub mod Carried
pub mod Transfer
