-- ===== src/Evm/Codegen/Storage.antt =====
-- Maps, lists and structs in crates/covenant-evm-backend/src/codegen.rs. An entry of a map lies at the hash
-- of the key and the field's slot; the elements of a list lie from the hash of its slot on.
use covenant_language.Base.{
  ℕ, zero, suc, ◌+◌, ◌%◌, ◌^◌, Bool, true, false, Option, none, some, List, [], ◌∷◌, ◌++◌, ltb,
  lookup, if◌then◌else◌,
}
use covenant_language.Types.Ty.{Ty}
use covenant_language.Ir.Ident.{Value}
use covenant_language.Ir.Opcode.{Opcode}
use covenant_language.Ir.Function.{IrFunction}
use covenant_language.Ir.Module.{IrModule}
use covenant_language.Evm.Asm.{AsmOp}
use covenant_language.Evm.Storage.{slot_for_global, stride_of}
use covenant_language.Evm.Codegen.{
  Code, number, load_operand, mstore_result, revert_if, defining_instr,
}

abbrev pub loaded_slot : IrModule → Opcode → Option ℕ
loaded_slot m (Opcode.sload id) = some (slot_for_global m id)
loaded_slot m _ = none

abbrev pub new_operands : List Value → Opcode → Option (List Value)
new_operands vs (Opcode.struct_new _) = some vs
new_operands vs _ = none

abbrev pub element_ty : Option Ty → Option Ty
element_ty (some (Ty.list t)) = some t
element_ty _ = none

abbrev pub is_struct : Ty → Bool
is_struct (Ty.struct _) = true
is_struct _ = false

module _ (m : IrModule) (f : IrFunction) where
  unfoldable pub map_base_slot : Value → Option ℕ
  unfolding defining_instr
  map_base_slot v = elim (defining_instr v f.blocks) [
    | some i ↦ loaded_slot m i.opcode
    | none ↦ none
  ]

  unfoldable pub struct_new_operands : Value → Option (List Value)
  unfolding defining_instr
  struct_new_operands v = elim (defining_instr v f.blocks) [
    | some i ↦ new_operands i.operands i.opcode
    | none ↦ none
  ]

  -- The slot number of the field, or the run-time value where the field is not known.
  unfoldable pub base_word : Value → Code
  unfolding map_base_slot load_operand
  base_word v = elim (map_base_slot v) [ some slot ↦ number slot ∷ [] | none ↦ load_operand f v ]

  unfoldable pub emit_map_slot : List Value → Code
  unfolding base_word load_operand
  emit_map_slot (handle ∷ key ∷ vs) =
      load_operand f key
      ++ (AsmOp.push0
          ∷ AsmOp.op 0x52
          ∷ (base_word handle
              ++ (number 32 ∷ AsmOp.op 0x52 ∷ number 64 ∷ AsmOp.push0 ∷ AsmOp.op 0x20 ∷ [])))
  emit_map_slot _ = AsmOp.push0 ∷ []

  unfoldable pub list_elem_stride : Value → ℕ
  list_elem_stride v = elim (element_ty (lookup v f.value_types)) [
    | some t ↦ stride_of m t % 2 ^ 32
    | none ↦ 1
  ]

  unfoldable pub list_elem_is_struct : Value → Bool
  list_elem_is_struct v = elim (element_ty (lookup v f.value_types)) [
    | some t ↦ is_struct t
    | none ↦ false
  ]

  unfoldable pub emit_list_base_addr : Value → Code
  unfolding base_word
  emit_list_base_addr v =
      base_word v ++ (AsmOp.push0 ∷ AsmOp.op 0x52 ∷ number 32 ∷ AsmOp.push0 ∷ AsmOp.op 0x20 ∷ [])

  unfoldable pub emit_list_bounds_check : Value → Value → Code
  unfolding load_operand
  emit_list_bounds_check handle index =
      load_operand f index ++ (load_operand f handle ++ (AsmOp.op 0x11 ∷ AsmOp.op 0x15 ∷ revert_if))

  abbrev pub scaled : ℕ → Code
  scaled stride = if ltb 1 stride then number stride ∷ AsmOp.op 0x02 ∷ [] else []

  unfoldable pub emit_list_elem_addr : Value → Value → ℕ → Code
  unfolding emit_list_bounds_check emit_list_base_addr load_operand
  emit_list_elem_addr handle index stride =
      emit_list_bounds_check handle index
      ++ (emit_list_base_addr handle
          ++ (load_operand f index ++ (scaled stride ++ AsmOp.op 0x01 ∷ [])))

  -- A field of a struct, its number added to the struct's address.
  abbrev pub field_offset : ℕ → Code
  field_offset zero = []
  field_offset (suc k) = number (suc k) ∷ AsmOp.op 0x01 ∷ []

  -- The fields of a new element, from field `k` on.
  unfoldable pub append_fields : Value → ℕ → ℕ → List Value → Code
  unfolding emit_list_base_addr load_operand
  append_fields handle stride k [] = []
  append_fields handle stride k (v ∷ vs) =
      (load_operand f v
        ++ (emit_list_base_addr handle
            ++ (load_operand f handle
                ++ (number stride
                    ∷ AsmOp.op 0x02
                    ∷ AsmOp.op 0x01
                    ∷ (field_offset (k % 2 ^ 32) ++ AsmOp.op 0x55 ∷ [])))))
      ++ append_fields handle stride (k + 1) vs

  unfoldable pub append_element : Value → Value → Code
  unfolding struct_new_operands append_fields list_elem_stride emit_list_base_addr load_operand
  append_element handle v = elim (struct_new_operands v) [
    | some fields ↦ append_fields handle (list_elem_stride handle) 0 fields
    | none ↦
        load_operand f v
        ++ (emit_list_base_addr handle
            ++ (load_operand f handle ++ (AsmOp.op 0x01 ∷ AsmOp.op 0x55 ∷ [])))
  ]

  unfoldable pub list_append_code : Value → Value → Option Value → Code
  unfolding append_element load_operand mstore_result
  list_append_code handle v result =
      append_element handle v
      ++ (load_operand f handle ++ (number 1 ∷ AsmOp.op 0x01 ∷ mstore_result result))

  unfoldable pub list_get_code : Value → Value → Option Value → Code
  unfolding emit_list_elem_addr list_elem_stride list_elem_is_struct mstore_result
  list_get_code handle index result =
      emit_list_elem_addr handle index (list_elem_stride handle)
      ++ ((if list_elem_is_struct handle then [] else AsmOp.op 0x54 ∷ []) ++ mstore_result result)

  unfoldable pub list_set_code : Value → Value → Value → Code
  unfolding emit_list_elem_addr list_elem_stride load_operand
  list_set_code handle index v =
      load_operand f v
      ++ (emit_list_elem_addr handle index (list_elem_stride handle) ++ AsmOp.op 0x55 ∷ [])

  unfoldable pub struct_get_code : ℕ → Value → Option Value → Code
  unfolding load_operand mstore_result
  struct_get_code k x result =
      load_operand f x ++ (field_offset k ++ (AsmOp.op 0x54 ∷ mstore_result result))

  unfoldable pub struct_set_code : ℕ → Value → Value → Code
  unfolding load_operand
  struct_set_code k x v =
      load_operand f v ++ (load_operand f x ++ (field_offset k ++ AsmOp.op 0x55 ∷ []))
