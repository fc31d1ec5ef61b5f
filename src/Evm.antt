-- ===== src/Evm.antt =====
-- crates/covenant-evm-backend/src: the assembler, the storage layout and the code
-- generator of the EVM backend.
pub mod Asm
pub mod Codegen
pub mod Storage
