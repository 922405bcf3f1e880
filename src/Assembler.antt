-- ===== src/Assembler.antt =====
-- The assembler source/programs/nas.c: its tables, the coding of instructions, the splitting of a
-- line into tokens, the symbols with their references, and the passes of `main`.
pub mod Tables
pub mod Encode
pub mod Machine
pub mod Fields
pub mod Forms
pub mod Jumps
pub mod RoundTrip
pub mod Overwrite
pub mod Tokens
pub mod Symbols
pub mod Program
pub mod Pass
pub mod References
pub mod Reading
pub mod Invariant
pub mod Ending
pub mod Resolve
pub mod Typing
pub mod Matching
mod Tests
