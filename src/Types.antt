-- ===== src/Types.antt =====
-- crates/covenant-types/src: types and operator dispatch.
pub mod Ty
pub mod Operator
