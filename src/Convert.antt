-- ===== src/Convert.antt =====
-- The conversions of src/convert.
pub mod RawDecimal
mod Tests
