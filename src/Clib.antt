-- ===== src/Clib.antt =====
-- What the programs use of C itself: `int` arithmetic of 32 bits and the scanning and printing of text.
pub mod Int32
pub mod Int64
pub mod Scan
pub mod Print
pub mod Bytes
pub mod Bits
pub mod Qsort
pub mod Strcmp
