-- ===== src/Go.antt =====
-- The parts of Go and of its standard library that the program uses: strings as bytes, the
-- decimal print of integers, signed integers and floats, maps, and times.
pub mod Int
pub mod Text
pub mod Trim
pub mod Utf8
pub mod Decimal
pub mod Float
pub mod Dict
pub mod Time
