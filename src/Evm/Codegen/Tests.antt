-- ===== src/Evm/Codegen/Tests.antt =====
-- Instances of the laws of crates/covenant-evm-backend/src/codegen.rs at small functions.
use covenant_language.Base.{
  ℕ, ◌+◌, ◌≤◌, ◌≡◌, refl, ap, false, none, some, String, List, [], ◌∷◌, ◌++◌, arith, length, All,
}
use covenant_language.Ir.Ident.{Ident, Span}
use covenant_language.Ir.Opcode.{Opcode}
use covenant_language.Ir.Function.{Instr, IrBlock, IrFunction, Terminator}
use covenant_language.Ir.Module.{IrModule}
use covenant_language.Runtime.Bytes.{window}
use covenant_language.Runtime.Address.{from_low_u64}
use covenant_language.Runtime.U256.{zero_word, from_u64, wrapping_add}
use covenant_language.Runtime.U256.Bits.{from_be_bytes}
use covenant_language.Runtime.Evm.{CallEnv, Machine, Flow, Next, default_host, push, pop, ◌>>=◌}
use covenant_language.Runtime.Evm.Step.{instruction, run, start}
use covenant_language.Runtime.Precompiles.{default_state}
use covenant_language.Evm.Asm.{
  AsmOp, assemble, label_offsets, trimmed_bytes, skip_zeros, u32_be_bytes, op_len,
}
use covenant_language.Evm.Asm.Image.{Fits, image_all, image, total_len}
use covenant_language.Evm.Codegen.{
  Code, unreported, load_operand, mstore_result, const_value, value_memory_offset,
}
use covenant_language.Evm.Codegen.Arith.{binop}
use covenant_language.Evm.Codegen.Opcodes.{Backend, emit_opcode, emit_instr}
use covenant_language.Evm.Codegen.Exec.{exec}
use covenant_language.Evm.Codegen.Exec.Memory.{word_bytes}
use covenant_language.Evm.Codegen.Exec.Values.{operand, slot_bytes_of}
use covenant_language.Evm.Codegen.Exec.Plain.{Assigns}
use covenant_language.Evm.Codegen.Exec.Checked.{LabelAt}
use covenant_language.Evm.Codegen.Bytecode.Pc.{at_pc}
use covenant_language.Evm.Codegen.Bytecode.Runs.{run-exec}
use covenant_language.Evm.Codegen.Bytecode.Plain.{run-plain}
use covenant_language.Evm.Codegen.Bytecode.Places.{assembled-LabelAt}

abbrev pub span : Span
span = record { source = 0; start = 0; end = 0 }

abbrev pub named : String → Ident
named s = record { name = s; span = span }

abbrev pub no_hash : List ℕ → List ℕ
no_hash bs = window 32 []

abbrev pub show : ℕ → String
show n = "n"

abbrev pub backend : Backend
backend = record {
  show = show;
  selector = λ s. [];
  helper = λ o. record { address = []; selector = []; use_call = false; refusals = [] };
  event = λ s n. record { topic_hash = []; indexed_mask = [] };
}

-- A block of two parameters.
abbrev pub target_block : IrBlock
target_block = record {
  id = 1;
  params = 2 ∷ 3 ∷ [];
  instructions = [];
  terminator = Terminator.return none;
  span = span;
}

abbrev pub function : IrFunction
function = record {
  name = named "go";
  params = [];
  returns = none;
  precomputes = [];
  blocks = target_block ∷ [];
  entry = 1;
  values = [];
  value_types = [];
  value_privacy = [];
  value_spans = [];
  span = span;
}

abbrev pub ir : IrModule
ir = record {
  source_id = 0;
  name = named "m";
  fields = [];
  structs = [];
  functions = function ∷ [];
}

-- `v2 = v0 OP v1`.
abbrev pub instr : Opcode → Instr
instr o = record {
  result = some 2;
  opcode = o;
  operands = 0 ∷ 1 ∷ [];
  from_lift = false;
  span = span;
}

abbrev pub env : CallEnv
env = record {
  caller = from_low_u64 1;
  address = from_low_u64 2;
  value = zero_word;
  input = [];
  timestamp = 0;
  block_number = 0;
  chain_id = 1;
  is_static = false;
}

-- The first value is seven and the second is five.
abbrev pub machine : Machine
machine = record (start no_hash env [] default_host default_state) {
  memory = window 159 [] ++ (7 ∷ (window 31 [] ++ 5 ∷ []));
  pc = 1;
}

-- MLOAD of the two values, ADD, MSTORE of the third.
abbrev pub sum_code : Code
sum_code =
    AsmOp.push_bytes (0xa0 ∷ [])
    ∷ AsmOp.op 0x51
    ∷ AsmOp.push_bytes (0x80 ∷ [])
    ∷ AsmOp.op 0x51
    ∷ AsmOp.op 0x01
    ∷ AsmOp.push_bytes (0xc0 ∷ [])
    ∷ AsmOp.op 0x52
    ∷ []

sum-emitted : emit_instr backend ir function (instr Opcode.add) ≡ some (unreported sum_code)
unfolding emit_instr emit_opcode binop load_operand mstore_result const_value value_memory_offset
    trimmed_bytes skip_zeros u32_be_bytes
sum-emitted = refl

abbrev pub before : Code
before = AsmOp.label_def "start" ∷ []

abbrev pub behind : Code
behind = AsmOp.op 0x00 ∷ []

sum-Fits : All Fits (before ++ (sum_code ++ behind))
sum-Fits = (tt, (omega arith, (tt, (omega arith, (tt, (tt, (omega arith, (tt, (tt, tt)))))))))

seven_five :
    wrapping_add (operand function 0 machine.memory) (operand function 1 machine.memory)
    ≡ from_u64 12
unfolding wrapping_add operand const_value slot_bytes_of word_bytes value_memory_offset
    from_be_bytes from_u64
seven_five = refl

run-plain_example :
    (code : List ℕ) × (missing : List String) × (n : Machine) × (k : ℕ) × (assemble
        (before ++ (sum_code ++ behind))
      ≡ some (code, missing))
    × (k ≤ length sum_code)
    × (run no_hash env code (k + 3) machine
        ≡ run no_hash env code 3 (at_pc (total_len before + total_len sum_code) n))
    × Assigns 2 (from_u64 12) 0 machine n
unfolding const_value total_len op_len
run-plain_example =
    run-plain no_hash env backend ir function (instr Opcode.add) (from_u64 12) 2 0 machine
      (before ++ (sum_code ++ behind)) before sum_code behind 3 sum-emitted refl sum-Fits refl
      (ap some seven_five) (tt, (tt, tt)) refl (omega arith) (omega arith) (λ e. omega (arith, e))
      (omega arith)

-- PUSH1 3, PUSH1 2, ADD, STOP.
abbrev pub small_ops : Code
small_ops = AsmOp.push_bytes (3 ∷ []) ∷ AsmOp.push_bytes (2 ∷ []) ∷ AsmOp.op 0x01 ∷ []

abbrev pub small_code : List ℕ
small_code = 0x60 ∷ 3 ∷ 0x60 ∷ 2 ∷ 0x01 ∷ 0x00 ∷ []

abbrev pub fresh : Machine
fresh = start no_hash env small_code default_host default_state

abbrev pub five : Machine
five = record fresh { stack = from_u64 5 ∷ [] }

small-exec : exec no_hash env small_code [] small_ops fresh ≡ Flow.go Next.fall five
unfolding exec instruction push pop ◌>>=◌ wrapping_add from_be_bytes from_u64
small-exec = refl

small_bytes : small_code ≡ image_all [] small_ops ++ 0x00 ∷ []
unfolding image_all image
small_bytes = refl

run-exec_example :
    (k : ℕ) × (k ≤ length small_ops)
    × (run no_hash env small_code (k + 1) fresh
        ≡ run no_hash env small_code 1 (at_pc (0 + total_len small_ops) five))
run-exec_example =
    run-exec no_hash env small_code [] small_ops (0x00 ∷ []) fresh five Next.fall 1 small_bytes
      ((omega arith, tt, tt), ((omega arith, tt, tt), ((refl, tt, refl), tt))) small-exec

assembled-LabelAt_example :
    LabelAt "start"
      (image_all (label_offsets [] 0 (before ++ behind)) (before ++ behind))
      (label_offsets [] 0 (before ++ behind))
      0
unfolding total_len op_len
assembled-LabelAt_example =
    assembled-LabelAt "start" (before ++ behind) [] behind refl tt tt (omega arith)
