-- ===== src/Evm/Codegen/Exec/Tests.antt =====
-- Instances of the laws of single operations in crates/covenant-evm-backend/src/codegen.rs.
use covenant_language.Base.{ℕ, ◌≤◌, ◌≡◌, ◌⊎◌, refl, true, false, none, some, List, [], ◌∷◌, arith}
use covenant_language.Ir.Opcode.{Opcode}
use covenant_language.Ir.Function.{Instr, IrFunction, find_block}
use covenant_language.Ir.Module.{IrModule}
use covenant_language.Runtime.U256.{U256, from_u64, is_zero}
use covenant_language.Runtime.U256.Value.{IsWord, value}
use covenant_language.Runtime.U256.Bits.{from_be_bytes}
use covenant_language.Runtime.U256.Div.{div}
use covenant_language.Runtime.Evm.{sload, Machine, Flow, Next}
use covenant_language.Runtime.Evm.Jumpdests.{compute_jumpdests, scan, scan_width}
use covenant_language.Types.Ty.{Ty}
use covenant_language.Evm.Storage.{slot_for_global, slot_from, advance, slot_advance}
use covenant_language.Evm.Codegen.Storage.{map_base_slot}
use covenant_language.Evm.Asm.{Labels, find_label}
use covenant_language.Evm.Codegen.{
  defining_instr, defined_in, Code, unreported, const_value, value_memory_offset, revert_label,
}
use covenant_language.Evm.Codegen.Opcodes.{emit_instr}
use covenant_language.Evm.Codegen.Terminators.{pass_block_args}
use covenant_language.Evm.Codegen.Functions.{Entry, dispatch_all}
use covenant_language.Evm.Codegen.Exec.{exec, pushed_word}
use covenant_language.Evm.Codegen.Exec.Memory.{word_bytes}
use covenant_language.Evm.Codegen.Exec.Values.{operand, slot_bytes_of}
use covenant_language.Evm.Codegen.Exec.Plain.{Yields}
use covenant_language.Evm.Codegen.Exec.Checked.{LabelAt, RevertsAt, GoesTo}
use covenant_language.Evm.Codegen.Exec.Guards.{emit_instr-quotient}
use covenant_language.Evm.Codegen.Exec.Lists.{Refuses, emit_instr-access}
use covenant_language.Evm.Codegen.Exec.Maps.{entry_bytes, emit_instr-sload}
use covenant_language.Evm.Codegen.Exec.Entries.{emit_instr-sload-sstore}
use covenant_language.Evm.Codegen.Exec.Blocks.{Passes, pass_block_args-Passes}
use covenant_language.Evm.Codegen.Exec.Dispatch.{dispatched, first_selected, dispatch_all-first}
use covenant_language.Evm.Codegen.Tests.{
  span, named, no_hash, show, backend, target_block, function, ir, instr, env, machine,
}

-- The label of reverts and that of the function, both at a JUMPDEST.
abbrev jump_code : List ℕ
jump_code = 0x5b ∷ []

abbrev jump_labels : Labels
jump_labels = (revert_label, 0) ∷ ("fn_go", 0) ∷ []

reverts_at : RevertsAt jump_code jump_labels 0
unfolding find_label compute_jumpdests scan scan_width
reverts_at = record { found = refl; small = omega arith; marked = refl }

seven_word : operand function 0 machine.memory ≡ from_u64 7
unfolding operand const_value slot_bytes_of word_bytes value_memory_offset from_be_bytes from_u64
seven_word = refl

five_word : operand function 1 machine.memory ≡ from_u64 5
unfolding operand const_value slot_bytes_of word_bytes value_memory_offset from_be_bytes from_u64
five_word = refl

first-IsWord : IsWord (operand function 0 machine.memory)
unfolding operand const_value slot_bytes_of word_bytes value_memory_offset from_be_bytes
first-IsWord = record {
  below0 = omega arith;
  below1 = omega arith;
  below2 = omega arith;
  below3 = omega arith;
}

second-IsWord : IsWord (operand function 1 machine.memory)
unfolding operand const_value slot_bytes_of word_bytes value_memory_offset from_be_bytes
second-IsWord = record {
  below0 = omega arith;
  below1 = omega arith;
  below2 = omega arith;
  below3 = omega arith;
}

abbrev x_word : U256
x_word = operand function 0 machine.memory

abbrev y_word : U256
y_word = operand function 1 machine.memory

emit_instr-quotient_example :
    (ops : Code) × (emit_instr backend ir function (instr Opcode.div) ≡ some (unreported ops))
    × (((is_zero y_word ≡ false)
          × Yields no_hash env jump_code jump_labels ops 2 (div x_word y_word) 0 machine)
        ⊎ ((is_zero y_word ≡ true) × GoesTo no_hash env jump_code jump_labels 0 ops machine))
unfolding const_value
emit_instr-quotient_example =
    emit_instr-quotient no_hash env jump_code jump_labels 0 reverts_at backend ir function
      (instr Opcode.div) 0 1 2 0 machine refl refl (omega arith) (omega arith)
      (λ e. omega (arith, e)) (omega arith) div refl refl

-- A read at the index 7 of a list of length 5.
abbrev past_end : Instr
past_end = record (instr Opcode.list_get) { operands = 1 ∷ 0 ∷ [] }

five_seven : value y_word ≤ value x_word
unfolding from_u64 value
five_seven = rw (five_word, seven_word) (omega arith)

emit_instr-access_example :
    Refuses no_hash env jump_code jump_labels 0 machine (emit_instr backend ir function past_end)
emit_instr-access_example =
    emit_instr-access no_hash env jump_code jump_labels 0 reverts_at backend ir function 1 0 machine
      (omega arith) past_end refl second-IsWord first-IsWord five_seven

-- A contract with a map as its second field, and a function whose value 5 is that map.
abbrev map_module : IrModule
map_module = record ir {
  fields =
      record { id = 0; name = named "owner"; ty = Ty.address; span = span; explicit_slot = none }
      ∷ record {
        id = 1;
        name = named "balances";
        ty = Ty.map Ty.address Ty.amount;
        span = span;
        explicit_slot = none;
      }
      ∷ [];
}

abbrev map_function : IrFunction
map_function = record function {
  blocks =
      record target_block {
        instructions =
            record {
              result = some 5;
              opcode = Opcode.sload 1;
              operands = [];
              from_lift = false;
              span = span;
            }
            ∷ [];
      }
      ∷ [];
}

balances_slot : map_base_slot map_module map_function 5 ≡ some 1
unfolding map_base_slot defining_instr defined_in slot_for_global slot_from advance slot_advance
balances_slot = refl

abbrev entry_word : U256
entry_word = from_be_bytes (
    no_hash (
      entry_bytes no_hash env jump_code jump_labels map_module map_function 5 0 1 balances_slot
        (omega arith) machine.memory))

emit_instr-sload_example :
    (ops : Code) × (emit_instr backend map_module map_function
        (record (instr Opcode.map_get) { operands = 5 ∷ 0 ∷ [] })
      ≡ some (unreported ops))
    × Yields no_hash env jump_code jump_labels ops 2
        (sload machine.host env.address entry_word)
        1
        machine
emit_instr-sload_example =
    emit_instr-sload no_hash env jump_code jump_labels map_module map_function 5 0 1 balances_slot
      (omega arith) backend (record (instr Opcode.map_get) { operands = 5 ∷ 0 ∷ [] }) 2 1 machine
      refl refl refl (omega arith) (omega arith) (λ e. omega (arith, e)) (omega arith)

emit_instr-sload-sstore_example :
    (set : Code) × (get : Code) × (n : Machine) × (emit_instr backend map_module map_function
        (record (instr Opcode.map_set) { operands = 5 ∷ 0 ∷ 1 ∷ [] })
      ≡ some (unreported set))
    × (emit_instr backend map_module map_function
          (record (instr Opcode.map_get) { operands = 5 ∷ 0 ∷ [] })
        ≡ some (unreported get))
    × (exec no_hash env jump_code jump_labels set machine ≡ Flow.go Next.fall n)
    × Yields no_hash env jump_code jump_labels get 2 (operand map_function 1 machine.memory) 1 n
emit_instr-sload-sstore_example =
    emit_instr-sload-sstore no_hash env jump_code jump_labels map_module map_function 5 0 1
      balances_slot (omega arith) backend
      (record (instr Opcode.map_set) { operands = 5 ∷ 0 ∷ 1 ∷ [] })
      (record (instr Opcode.map_get) { operands = 5 ∷ 0 ∷ [] }) 1 2 1 machine refl refl refl refl
      refl (omega arith) (omega arith) (omega arith) (λ e. omega (arith, e)) (omega arith) refl

pass_block_args-Passes_example :
    (n : Machine) × (exec no_hash env jump_code jump_labels
        (pass_block_args show function (0 ∷ 1 ∷ []) 1)
        machine
      ≡ Flow.go Next.fall n)
    × Passes function (0 ∷ 1 ∷ []) (2 ∷ 3 ∷ []) 0 machine n
unfolding find_block
pass_block_args-Passes_example =
    pass_block_args-Passes no_hash env jump_code jump_labels show function (0 ∷ 1 ∷ []) 1
      target_block 0 machine refl
      (omega arith, omega arith, refl, refl, (omega arith, omega arith, refl, refl, tt))
      (omega arith) refl (omega arith)

abbrev entry : Entry
entry = record {
  function = function;
  traits = record {
    is_payable = false;
    is_initializer = false;
    is_non_reentrant = false;
    only_caller_guards = 0;
    is_vdf_locked = false;
  };
  selector = some (1 ∷ 2 ∷ 3 ∷ 4 ∷ []);
}

go-LabelAt : LabelAt "fn_go" jump_code jump_labels 0
unfolding find_label compute_jumpdests scan scan_width
go-LabelAt = record { found = refl; small = omega arith; marked = refl }

-- The selector of the function on the stack.
abbrev called : Machine
called = record machine { stack = pushed_word (1 ∷ 2 ∷ 3 ∷ 4 ∷ []) ∷ [] }

dispatch_all-first_example :
    exec no_hash env jump_code jump_labels (dispatch_all (entry ∷ [])) called
    ≡ Flow.go
        (dispatched no_hash env jump_code jump_labels
          (λ f. 0)
          (first_selected (pushed_word (1 ∷ 2 ∷ 3 ∷ 4 ∷ [])) (entry ∷ [])))
        called
dispatch_all-first_example =
    dispatch_all-first no_hash env jump_code jump_labels (λ f. 0) (entry ∷ [])
      (pushed_word (1 ∷ 2 ∷ 3 ∷ 4 ∷ [])) [] called refl (go-LabelAt, tt) (omega arith)
