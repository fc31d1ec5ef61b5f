-- ===== src/Ir/Module.antt =====
-- crates/covenant-ir/src/module.rs: the parts of a module that the modelled passes read. Left out are
-- the construct's kind and privacy, errors, events, choices, external contracts and metadata, and
-- the privacy and initialisers of a field.
use covenant_language.Base.{ℕ, Bool, Option, List}
use covenant_language.Types.Ty.{Ty}
use covenant_language.Ir.Ident.{Ident, Span, GlobalId, StructTypeId}
use covenant_language.Ir.Function.{IrFunction}

pub record IrField : Type 0 where
  pub id : GlobalId
  pub name : Ident
  pub ty : Ty
  pub span : Span
  pub explicit_slot : Option ℕ

pub record IrStructField : Type 0 where
  pub name : Ident
  pub ty : Ty
  pub indexed : Bool

pub record IrStruct : Type 0 where
  pub id : StructTypeId
  pub name : Ident
  pub fields : List IrStructField
  pub span : Span

pub record IrModule : Type 0 where
  pub source_id : ℕ
  pub name : Ident
  pub fields : List IrField
  pub structs : List IrStruct
  pub functions : List IrFunction
