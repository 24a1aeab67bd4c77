-- ===== src/Engine.antt =====
-- The engine in src/engine/decode.cu: how a turn begins from a saved cache, what it counts, and what
-- it saves. The transformer pass itself is CUDA code, and a parameter here.
pub mod Hydrate
pub mod SaveTurn
pub mod Saved
pub mod Resume
pub mod Generate
pub mod Materialize
pub mod Context
mod Tests
