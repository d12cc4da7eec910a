-- ===== src/Std.antt =====
-- What the program uses of Go's standard library: encoding/binary and hash/crc32.
pub mod LittleEndian
pub mod Crc32
pub mod Hex
pub mod Decimal
pub mod Paths
pub mod Digits
pub mod ParseInt
