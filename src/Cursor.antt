-- ===== src/Cursor.antt =====
-- The cursor of src/cursor: the buffer of a server's reply and the rows in it.
pub mod Search
pub mod Notices
pub mod Types
pub mod Replies
pub mod ReplyBuf
pub mod RowSet
mod Tests
mod ReplyTests
pub mod Upload
pub mod Windows
pub mod Delayed
