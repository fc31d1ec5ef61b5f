-- ===== src/Ir/Ident.antt =====
-- Source positions (crates/covenant-diag/src/lib.rs), identifiers (crates/covenant-parser/src/ast.rs)
-- the built-in predicates (crates/covenant-resolver/src/binding.rs) and the IR's ids.
use covenant_language.Base.{ℕ, String}

-- A half-open byte range; `source` is the `u32` inside `SourceId`.
pub record Span : Type 0 where
  pub source : ℕ
  pub start : ℕ
  pub end : ℕ

pub record Ident : Type 0 where
  pub name : String
  pub span : Span

pub data BuiltinPredicate : Type 0 where
  first_time_caller registered_key losing_bidder known_issuer party anyone_after_grace
        valid_vdf_proof not_deposited not_funded not_released not_drawn not_yet_revealed funded
        released drawn deposited validator_majority :
      BuiltinPredicate

-- crates/covenant-ir/src/id.rs: the newtyped `u32` indices.
abbrev pub Value : Type 0
Value = ℕ

abbrev pub BlockId : Type 0
BlockId = ℕ

abbrev pub FunctionId : Type 0
FunctionId = ℕ

abbrev pub GlobalId : Type 0
GlobalId = ℕ

abbrev pub StructTypeId : Type 0
StructTypeId = ℕ
