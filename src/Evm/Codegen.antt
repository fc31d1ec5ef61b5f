-- ===== src/Evm/Codegen.antt =====
-- crates/covenant-evm-backend/src/codegen.rs: the code that each instruction becomes. Every SSA value
-- lives at its own word of memory; an operand is loaded onto the stack, a result is stored back.
-- The source appends to one assembler; here an emitter yields the operations that it appends, and
-- with them the diagnostics that it reports. `none` is the panic of an index out of range.
pub mod Arith
pub mod Storage
pub mod Calls
pub mod Opcodes
pub mod Terminators
pub mod Functions
pub mod Exec
pub mod Bytecode
pub mod Tests
use covenant_language.Base.{
  ℕ, zero, suc, ◌+◌, ◌*◌, ◌/◌, ◌%◌, ◌^◌, Bool, true, false, Option, none, some, String, List, [],
  ◌∷◌, ◌++◌, ◌==◌, max, ltb, length, lookup, if◌then◌else◌,
}
use covenant_language.Types.Ty.{Ty}
use covenant_language.Ir.Ident.{Span, Value, BuiltinPredicate}
use covenant_language.Ir.Opcode.{Opcode}
use covenant_language.Ir.Function.{IrConstant, ValueInfo, Instr, IrBlock, IrFunction}
use covenant_language.Evm.Asm.{AsmOp, skip_zeros, trimmed_bytes, max_push_bytes}

-- The diagnostics of this file, with the data whose texts the source formats.
pub data CodegenDiagnostic : Type 0 where
  div_by_zero_literal : Span → String → CodegenDiagnostic
  unlowered_amnesia_opcode : Span → Opcode → CodegenDiagnostic
  unlowered_builtin_predicate : Span → Option BuiltinPredicate → CodegenDiagnostic
  transfer_from_unsupported : Span → CodegenDiagnostic
  text_constant_too_long : Span → ℕ → CodegenDiagnostic
  dynamic_return_not_encoded : Span → Ty → CodegenDiagnostic
  pq_key_abi_static_dynamic_mismatch : Span → String → CodegenDiagnostic
  unlowered_vdf_qualifier warn_only_caller_noop : Span → CodegenDiagnostic
  helper_refusal : Span → Opcode → CodegenDiagnostic

abbrev pub Code : Type 0
Code = List AsmOp

abbrev pub Emission : Type 0
Emission = Code × List CodegenDiagnostic

abbrev pub unreported : Code → Emission
unreported code = (code, [])

abbrev pub ssa_memory_base : ℕ
ssa_memory_base = 0x80

-- A `u32`.
unfoldable pub value_memory_offset : Value → ℕ
value_memory_offset v = (ssa_memory_base + v * 32) % 2 ^ 32

-- `u128::to_be_bytes`: the last `count` digits to the base 256.
unfoldable pub be_digits : ℕ → ℕ → List ℕ
be_digits zero n = []
be_digits (suc count) n = be_digits count (n / 256) ++ n % 256 ∷ []

abbrev pub or_zero_byte : List ℕ → List ℕ
or_zero_byte [] = 0 ∷ []
or_zero_byte (b ∷ bs) = b ∷ bs

unfoldable pub big_endian_u128 : ℕ → List ℕ
unfolding be_digits skip_zeros
big_endian_u128 n = or_zero_byte (skip_zeros (be_digits 16 n))

abbrev pub bool_byte : Bool → ℕ
bool_byte true = 1
bool_byte false = 0

-- What `push_u32` appends.
abbrev pub number : ℕ → AsmOp
number n = AsmOp.push_bytes (trimmed_bytes n)

unfoldable pub const_op : IrConstant → AsmOp
unfolding big_endian_u128
const_op (IrConstant.integer n) = AsmOp.push_bytes (big_endian_u128 n)
const_op (IrConstant.bool b) = AsmOp.push_bytes (bool_byte b ∷ [])
const_op (IrConstant.hash b) = AsmOp.push_bytes b
const_op (IrConstant.address b) = AsmOp.push_bytes b
const_op IrConstant.zero_address = AsmOp.push0
const_op (IrConstant.duration n _) = AsmOp.push_bytes (big_endian_u128 n)
const_op (IrConstant.hex b) =
    if ltb max_push_bytes (length b) then AsmOp.push0 else AsmOp.push_bytes b
const_op (IrConstant.text _) = AsmOp.push0

abbrev pub const_info : ValueInfo → Option IrConstant
const_info (ValueInfo.const c) = some c
const_info _ = none

unfoldable pub const_value : IrFunction → Value → Option IrConstant
const_value f v = elim (lookup v f.values) [ some info ↦ const_info info | none ↦ none ]

unfoldable pub load_operand : IrFunction → Value → Code
unfolding const_value const_op value_memory_offset
load_operand f v = elim (const_value f v) [
  | some c ↦ const_op c ∷ []
  | none ↦ number (value_memory_offset v) ∷ AsmOp.op 0x51 ∷ []
]

unfoldable pub mstore_result : Option Value → Code
unfolding value_memory_offset
mstore_result (some r) = number (value_memory_offset r) ∷ AsmOp.op 0x52 ∷ []
mstore_result none = AsmOp.op 0x50 ∷ []

abbrev pub revert_label : String
revert_label = "__revert__"

-- `push_label("__revert__")`, `JUMPI`.
abbrev pub revert_if : Code
revert_if = AsmOp.push_label revert_label ∷ AsmOp.op 0x57 ∷ []

-- Words stored one after the other, from an offset on, counting from `i`.
unfoldable pub store_words : IrFunction → ℕ → ℕ → List Value → Code
unfolding load_operand
store_words f base i [] = []
store_words f base i (v ∷ vs) =
    load_operand f v
    ++ (number ((base + i * 32) % 2 ^ 32) ∷ AsmOp.op 0x52 ∷ store_words f base (i + 1) vs)

abbrev pub highest : ℕ → List ℕ → ℕ
highest acc [] = acc
highest acc (v ∷ vs) = highest (max acc v) vs

abbrev pub keys {ℓ} : {A : Type ℓ} → List (ℕ × A) → List ℕ
keys [] = []
keys ((k, _) ∷ m) = k ∷ keys m

-- The first offset past every value of the function.
unfoldable pub scratch_base : IrFunction → ℕ
scratch_base f =
    (ssa_memory_base + (highest 0 (keys f.values ++ keys f.value_types) + 1) * 32) % 2 ^ 32

abbrev pub is_result : Value → Option Value → Bool
is_result v (some r) = r == v
is_result v none = false

-- The first instruction whose result is the value.
unfoldable pub defined_in : Value → List Instr → Option Instr
defined_in v [] = none
defined_in v (i ∷ is) = if is_result v i.result then some i else defined_in v is

unfoldable pub defining_instr : Value → List IrBlock → Option Instr
unfolding defined_in
defining_instr v [] = none
defining_instr v (b ∷ bs) = elim (defined_in v b.instructions) [
  | some i ↦ some i
  | none ↦ defining_instr v bs
]
