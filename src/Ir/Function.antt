-- ===== src/Ir/Function.antt =====
-- Instructions, terminators, blocks and functions: crates/covenant-ir/src/instr.rs, block.rs and
-- function.rs. `HashMap`s keyed by a value are association lists, the newest entry first. Left out
-- are the fields that no modelled pass reads: the stdlib call and gas hint of an instruction, and
-- a function's id, kind, qualifiers and locals. Integers of a constant are `u128`s.
use covenant_language.Base.{ℕ, Bool, Option, none, some, String, List, ◌==◌, if◌then◌else◌, [], ◌∷◌}
use covenant_language.Types.Ty.{Ty}
use covenant_language.Privacy.{PrivacyDomain}
use covenant_language.Ir.Ident.{Ident, Span, Value, BlockId, FunctionId, GlobalId}
use covenant_language.Ir.Opcode.{Opcode}

pub data DurationUnit : Type 0 where
  seconds minutes hours days weeks : DurationUnit

pub data IrConstant : Type 0 where
  integer : ℕ → IrConstant
  text : String → IrConstant
  hex : List ℕ → IrConstant
  bool : Bool → IrConstant
  duration : ℕ → DurationUnit → IrConstant
  address hash : List ℕ → IrConstant
  zero_address : IrConstant

pub data LangIdent : Type 0 where
  caller now current_block block msg deployer this zero_address owner this_chain other_chain phase
        proof_payload opens_at closes_at opened_at party parties guardians admin holders tally
        posts :
      LangIdent

-- What an SSA value is.
pub data ValueInfo : Type 0 where
  const : IrConstant → ValueInfo
  param : FunctionId → ℕ → ValueInfo
  block_param : BlockId → ℕ → ValueInfo
  instr_result : ℕ → BlockId → ValueInfo
  storage_read : GlobalId → ValueInfo
  lang_value : LangIdent → ValueInfo

pub record Instr : Type 0 where
  pub result : Option Value
  pub opcode : Opcode
  pub operands : List Value
  pub from_lift : Bool
  pub span : Span

pub data Terminator : Type 0 where
  jump : BlockId → List Value → Terminator
  branch : Value → BlockId → List Value → BlockId → List Value → Terminator
  fhe_branch : Value → BlockId → List Value → BlockId → List Value → BlockId → Terminator
  return : Option Value → Terminator
  revert : Ident → List Value → Terminator
  unreachable : Terminator

pub record IrBlock : Type 0 where
  pub id : BlockId
  pub params : List Value
  pub instructions : List Instr
  pub terminator : Terminator
  pub span : Span

pub record IrParam : Type 0 where
  pub name : Ident
  pub ty : Ty
  pub value : Value

pub record IrFunction : Type 0 where
  pub name : Ident
  pub params : List IrParam
  pub returns : Option Ty
  pub precomputes : List Value
  pub blocks : List IrBlock
  pub entry : BlockId
  pub values : List (Value × ValueInfo)
  pub value_types : List (Value × Ty)
  pub value_privacy : List (Value × PrivacyDomain)
  pub value_spans : List (Value × Span)
  pub span : Span

-- `func.blocks.iter().find(|b| b.id == bid)`.
unfoldable pub find_block : BlockId → List IrBlock → Option IrBlock
find_block bid [] = none
find_block bid (b ∷ bs) = if b.id == bid then some b else find_block bid bs
