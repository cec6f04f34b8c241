-- ===== src/Parms.antt =====
-- The connection parameters of src/parms.
pub mod Parm
pub mod Errors
pub mod Percent
pub mod Value
pub mod Parameters
pub mod Setters
pub mod Validated
pub mod Urls
mod Tests
