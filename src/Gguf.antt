-- ===== src/Gguf.antt =====
-- src/engine/model.cpp: reading a GGUF file, the tensors found in it, and the mapping of the file into
-- the device's memory.
pub mod Reader
pub mod TensorTable
pub mod Weights
pub mod Config
pub mod Region
pub mod Tests
