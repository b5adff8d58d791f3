-- ===== src/Dwarf.antt =====
-- src/dwarf.cpp and src/dwarf.h: the parser of unwinding tables, as compiled for x86-64.
-- The memory is a function from addresses to bytes. Each `get` takes the place of `_ptr` and returns
-- the value with the new place. A 32-bit value, signed or not, is its bit pattern. The loops over
-- bytes with a continuation bit run on fuel: `none` is no value of the code.
mod Reading
pub mod Records
pub mod Expressions
pub mod Instructions
pub mod Sections
pub mod Leb
pub mod Compression
pub mod Ending
mod Tests
unfoldable pub use Reading.*
