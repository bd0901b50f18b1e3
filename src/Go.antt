-- ===== src/Go.antt =====
-- What the program uses of Go: results of fallible calls, maps, `strings`, `sort`, `reflect` and
-- `net`. The header of the library says what of them is left out.
pub mod Results
pub mod Maps
pub mod Strings
pub mod Reflect
pub mod Net
