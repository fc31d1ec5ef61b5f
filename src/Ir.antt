-- ===== src/Ir.antt =====
-- crates/covenant-ir/src: the SSA intermediate representation and its validator.
pub mod Ident
pub mod Opcode
pub mod Function
pub mod Module
pub mod Validate
