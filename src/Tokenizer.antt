-- ===== src/Tokenizer.antt =====
-- src/engine/tokenizer.cpp: byte-pair encoding. Strings are lists of bytes.
pub mod Symbols
pub mod Bytes
pub mod Pieces
pub mod Merge
pub mod Encode
pub mod Coded
pub mod RoundTrip
pub mod Load
mod Tests
