-- ===== src/Types.antt =====
-- tools/seed-generation/tpm2_types.py: the TPM structures and their `to_bytes` methods.
pub mod Enums
pub mod Attributes
pub mod Algorithms
pub mod Public
pub mod Buffers
pub mod Sessions
pub mod Pcr
pub mod Nv
