-- ===== src/Runtime.antt =====
-- crates/covenant-evm-runtime/src: the EVM that runs a contract's tests.
pub mod U256
pub mod Clock
pub mod Bytes
pub mod Precompiles
pub mod Address
pub mod Evm
pub mod Chain
