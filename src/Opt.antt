-- ===== src/Opt.antt =====
-- crates/covenant-opt/src: the optimizer passes.
pub mod Effect
pub mod Effects
pub mod Dce
pub mod Fold
pub mod Rewrite
pub mod Cse
pub mod Coalesce
pub mod FheFold
pub mod Precompute
pub mod Manager
