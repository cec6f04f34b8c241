-- ===== src/Conn.antt =====
-- The connection of src/conn.rs.
pub mod Watchdog
pub mod Operation
mod Tests
