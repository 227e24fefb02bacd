-- ===== src/Go.antt =====
-- What the source uses of Go's own language and standard library: error values, strings, strconv
-- and path/filepath.
pub mod Result
pub mod Text
pub mod Strconv
pub mod Bytes
pub mod Filepath
pub mod Maps
pub mod Ascii
pub mod Hex
