-- ===== src/Sampler.antt =====
-- src/engine/sample.cpp. The floats and the algorithms of the standard library are arguments (Floats,
-- Algorithms); the draw of the random generator is an argument too.
pub mod Floats
pub mod Algorithms
pub mod Draw
pub mod Token
pub mod Range
pub mod Bounded
pub mod Greedy
pub mod TopK
mod Tests
