-- ===== src/Framing.antt =====
-- The message framing of src/framing: block headers, the block automaton, the writer, the reader.
pub mod Header
pub mod BlockState
pub mod Writing
pub mod IoError
pub mod Source
pub mod Retry
pub mod Reading
pub mod Transport
mod Tests
