-- ===== src/Evm/Codegen/Opcodes.antt =====
-- The opcodes of crates/covenant-evm-backend/src/codegen.rs: what an instruction becomes.
use covenant_language.Base.{ℕ, Option, none, some, String, List, [], ◌∷◌, ◌++◌, get_elem?, length}
use covenant_language.Ir.Ident.{Span, Value}
use covenant_language.Ir.Opcode.{Opcode}
use covenant_language.Ir.Function.{Instr, IrFunction}
use covenant_language.Ir.Module.{IrModule}
use covenant_language.Evm.Asm.{AsmOp, ◌>>=◌}
use covenant_language.Evm.Storage.{deployer_slot, slot_for_global}
use covenant_language.Evm.Codegen.{
  CodegenDiagnostic, Code, Emission, unreported, number, load_operand, mstore_result, revert_label,
  revert_if,
}
use covenant_language.Evm.Codegen.Arith.{
  binop, binop_shift, negated_binop, unary_op, signed_neg_code, add_checked_code, sub_checked_code,
  mul_checked_code, binop_div_guarded,
}
use covenant_language.Evm.Codegen.Storage.{
  emit_map_slot, list_get_code, list_set_code, list_append_code, struct_get_code, struct_set_code,
}
use covenant_language.Evm.Codegen.Calls.{
  HelperCall, EventShape, emit_keccak, emit_log, emit_transfer, emit_precompile_call,
  assert_encrypted_code, emit_external_call,
}

-- What the source takes from the formatter, the ABI, the target and the configuration: decimal texts,
-- selectors of signatures, helper calls, and the shape of an event of so many operands.
pub record Backend : Type 0 where
  pub show : ℕ → String
  pub selector : String → List ℕ
  pub helper : Opcode → HelperCall
  pub event : String → ℕ → EventShape

-- Operands by their number; an index out of range panics.
abbrev pub with_one : {A : Type 0} → List Value → (Value → A) → Option A
with_one vs k = do x ← get_elem? vs 0; some (k x)

abbrev pub with_two : {A : Type 0} → List Value → (Value → Value → A) → Option A
with_two vs k = do y ← get_elem? vs 1; x ← get_elem? vs 0; some (k x y)

abbrev pub with_three : {A : Type 0} → List Value → (Value → Value → Value → A) → Option A
with_three vs k = do z ← get_elem? vs 2; y ← get_elem? vs 1; x ← get_elem? vs 0; some (k x y z)

abbrev pub trap : Code
trap = AsmOp.push_label revert_label ∷ AsmOp.op 0x56 ∷ []

-- The first operand, if there is one.
abbrev pub first_or : {A : Type 0} → List Value → A → (Value → A) → A
first_or [] d k = d
first_or (x ∷ vs) d k = k x

module _ (backend : Backend) (m : IrModule) (f : IrFunction) (span : Span) (vs : List Value)
    (result : Option Value) where
  -- An instruction of one, two or three operands whose code reports nothing.
  abbrev one : (Value → Code) → Option Emission
  one k = with_one vs (λ x. unreported (k x))

  abbrev two : (Value → Value → Code) → Option Emission
  two k = with_two vs (λ x y. unreported (k x y))

  abbrev loads : AsmOp → Option Emission
  loads o = some (unreported (o ∷ mstore_result result))

  abbrev nothing : Option Emission
  nothing = some (unreported (AsmOp.push0 ∷ mstore_result result))

  abbrev helper_call : Opcode → Option Emission
  helper_call o =
      some (emit_precompile_call f (backend.helper o) vs result, (backend.helper o).refusals)

  abbrev unlowered : Opcode → Option Emission
  unlowered o = some (trap, CodegenDiagnostic.unlowered_amnesia_opcode span o ∷ [])

  unfoldable pub emit_opcode : Opcode → Option Emission
  emit_opcode Opcode.add = two (λ x y. binop f 0x01 x y result)
  emit_opcode Opcode.sub = two (λ x y. binop f 0x03 x y result)
  emit_opcode Opcode.mul = two (λ x y. binop f 0x02 x y result)
  emit_opcode Opcode.add_checked = two (λ x y. add_checked_code f x y result)
  emit_opcode Opcode.time_add = two (λ x y. add_checked_code f x y result)
  emit_opcode Opcode.duration_add = two (λ x y. add_checked_code f x y result)
  emit_opcode Opcode.sub_checked = two (λ x y. sub_checked_code f x y result)
  emit_opcode Opcode.time_sub = two (λ x y. sub_checked_code f x y result)
  emit_opcode Opcode.duration_sub = two (λ x y. sub_checked_code f x y result)
  emit_opcode Opcode.mul_checked = two (λ x y. mul_checked_code f backend.show x y result)
  emit_opcode Opcode.duration_scale = two (λ x y. mul_checked_code f backend.show x y result)
  emit_opcode Opcode.div = with_two vs (λ x y. binop_div_guarded f 0x04 "division" span x y result)
  emit_opcode Opcode.modulo =
      with_two vs (λ x y. binop_div_guarded f 0x06 "remainder" span x y result)
  emit_opcode Opcode.bit_and = two (λ x y. binop f 0x16 x y result)
  emit_opcode Opcode.logical_and = two (λ x y. binop f 0x16 x y result)
  emit_opcode Opcode.bit_or = two (λ x y. binop f 0x17 x y result)
  emit_opcode Opcode.logical_or = two (λ x y. binop f 0x17 x y result)
  emit_opcode Opcode.bit_xor = two (λ x y. binop f 0x18 x y result)
  emit_opcode Opcode.eq = two (λ x y. binop f 0x14 x y result)
  emit_opcode Opcode.text_equals = two (λ x y. binop f 0x14 x y result)
  emit_opcode Opcode.lt = two (λ x y. binop f 0x10 x y result)
  emit_opcode Opcode.gt = two (λ x y. binop f 0x11 x y result)
  emit_opcode Opcode.text_concat = two (λ x y. binop f 0x01 x y result)
  emit_opcode Opcode.bytes_concat = two (λ x y. binop f 0x01 x y result)
  emit_opcode Opcode.list_concat = two (λ x y. binop f 0x01 x y result)
  emit_opcode Opcode.shift_left = two (λ x y. binop_shift f 0x1b x y result)
  emit_opcode Opcode.shift_right = two (λ x y. binop_shift f 0x1c x y result)
  emit_opcode Opcode.ne = two (λ x y. negated_binop f 0x14 x y result)
  emit_opcode Opcode.le = two (λ x y. negated_binop f 0x11 x y result)
  emit_opcode Opcode.ge = two (λ x y. negated_binop f 0x10 x y result)
  emit_opcode Opcode.logical_not = one (λ x. unary_op f 0x15 x result)
  emit_opcode Opcode.bit_not = one (λ x. unary_op f 0x19 x result)
  emit_opcode Opcode.signed_neg = one (λ x. signed_neg_code f x result)
  emit_opcode (Opcode.sload id) =
      some (unreported (number (slot_for_global m id) ∷ AsmOp.op 0x54 ∷ mstore_result result))
  emit_opcode (Opcode.sstore id) =
      one (λ x. load_operand f x ++ (number (slot_for_global m id) ∷ AsmOp.op 0x55 ∷ []))
  emit_opcode Opcode.map_get =
      some (unreported (emit_map_slot m f vs ++ (AsmOp.op 0x54 ∷ mstore_result result)))
  emit_opcode Opcode.map_set = do
    v ← get_elem? vs 2
    some (unreported (load_operand f v ++ (emit_map_slot m f vs ++ AsmOp.op 0x55 ∷ [])))
  emit_opcode Opcode.map_delete =
      some (unreported (AsmOp.push0 ∷ (emit_map_slot m f vs ++ AsmOp.op 0x55 ∷ [])))
  emit_opcode Opcode.map_length = nothing
  emit_opcode Opcode.map_has = nothing
  emit_opcode Opcode.map_keys = nothing
  emit_opcode Opcode.map_values = nothing
  emit_opcode Opcode.list_slice = nothing
  emit_opcode Opcode.list_first = nothing
  emit_opcode Opcode.list_last = nothing
  emit_opcode Opcode.list_arg_max = nothing
  emit_opcode Opcode.list_arg_min = nothing
  emit_opcode Opcode.bytes_length = nothing
  emit_opcode Opcode.text_length = nothing
  emit_opcode Opcode.zk_proof_payload = nothing
  emit_opcode Opcode.load_zero_address = nothing
  emit_opcode (Opcode.struct_new _) = nothing
  emit_opcode (Opcode.choice_match _) = nothing
  emit_opcode Opcode.list_length = one (λ x. load_operand f x ++ mstore_result result)
  emit_opcode Opcode.list_get = two (λ x y. list_get_code m f x y result)
  emit_opcode Opcode.list_set = with_three vs (λ x y z. unreported (list_set_code m f x y z))
  emit_opcode Opcode.list_append = two (λ x y. list_append_code m f x y result)
  emit_opcode (Opcode.struct_get k) = one (λ x. struct_get_code m f k x result)
  emit_opcode (Opcode.struct_set k) = two (λ x y. struct_set_code m f k x y)
  emit_opcode Opcode.keccak = some (unreported (emit_keccak f vs result))
  emit_opcode Opcode.blake2 = some (unreported (emit_keccak f vs result))
  emit_opcode Opcode.hmac = some (unreported (emit_keccak f vs result))
  emit_opcode Opcode.abi_encode = some (
      unreported (
        first_or vs (AsmOp.push0 ∷ mstore_result result)
          (λ x. load_operand f x ++ mstore_result result)))
  emit_opcode Opcode.abi_decode = some (
      unreported (
        first_or vs (AsmOp.push0 ∷ mstore_result result)
          (λ x. load_operand f x ++ mstore_result result)))
  emit_opcode Opcode.abi_pack = some (
      unreported (
        first_or vs (AsmOp.push0 ∷ mstore_result result)
          (λ x. load_operand f x ++ mstore_result result)))
  emit_opcode Opcode.fhe_encrypt_trivial = helper_call Opcode.fhe_encrypt_trivial
  emit_opcode Opcode.fhe_encrypt_fresh = helper_call Opcode.fhe_encrypt_fresh
  emit_opcode Opcode.fhe_add = helper_call Opcode.fhe_add
  emit_opcode Opcode.fhe_sub = helper_call Opcode.fhe_sub
  emit_opcode Opcode.fhe_mul = helper_call Opcode.fhe_mul
  emit_opcode Opcode.fhe_cmp_eq = helper_call Opcode.fhe_cmp_eq
  emit_opcode Opcode.fhe_cmp_ne = helper_call Opcode.fhe_cmp_ne
  emit_opcode Opcode.fhe_cmp_lt = helper_call Opcode.fhe_cmp_lt
  emit_opcode Opcode.fhe_cmp_le = helper_call Opcode.fhe_cmp_le
  emit_opcode Opcode.fhe_cmp_gt = helper_call Opcode.fhe_cmp_gt
  emit_opcode Opcode.fhe_cmp_ge = helper_call Opcode.fhe_cmp_ge
  emit_opcode Opcode.fhe_and = helper_call Opcode.fhe_and
  emit_opcode Opcode.fhe_or = helper_call Opcode.fhe_or
  emit_opcode Opcode.fhe_not = helper_call Opcode.fhe_not
  emit_opcode Opcode.fhe_select = helper_call Opcode.fhe_select
  emit_opcode Opcode.fhe_bootstrap = helper_call Opcode.fhe_bootstrap
  emit_opcode Opcode.fhe_ciphertext_hash = helper_call Opcode.fhe_ciphertext_hash
  emit_opcode Opcode.zk_verify = helper_call Opcode.zk_verify
  emit_opcode Opcode.zk_nullifier = helper_call Opcode.zk_nullifier
  emit_opcode Opcode.vdf_eval = helper_call Opcode.vdf_eval
  emit_opcode Opcode.vdf_verify = helper_call Opcode.vdf_verify
  emit_opcode Opcode.pq_verify_dilithium = helper_call Opcode.pq_verify_dilithium
  emit_opcode Opcode.pq_hybrid_verify = helper_call Opcode.pq_hybrid_verify
  emit_opcode Opcode.pq_rand = helper_call Opcode.pq_rand
  emit_opcode Opcode.kyber_encrypt = helper_call Opcode.kyber_encrypt
  emit_opcode Opcode.kyber_decrypt = helper_call Opcode.kyber_decrypt
  emit_opcode Opcode.amnesia_begin = helper_call Opcode.amnesia_begin
  emit_opcode Opcode.amnesia_submit_share = helper_call Opcode.amnesia_submit_share
  emit_opcode Opcode.amnesia_finalize = helper_call Opcode.amnesia_finalize
  emit_opcode Opcode.destruction_commitment = helper_call Opcode.destruction_commitment
  emit_opcode Opcode.reveal_decrypt = helper_call Opcode.reveal_decrypt
  emit_opcode Opcode.shamir_split = unlowered Opcode.shamir_split
  emit_opcode Opcode.shamir_reconstruct = unlowered Opcode.shamir_reconstruct
  emit_opcode Opcode.vdf_lock = unlowered Opcode.vdf_lock
  emit_opcode Opcode.vdf_unlock = unlowered Opcode.vdf_unlock
  emit_opcode Opcode.pq_insert = unlowered Opcode.pq_insert
  emit_opcode Opcode.pq_pop = unlowered Opcode.pq_pop
  emit_opcode Opcode.pq_top_key = unlowered Opcode.pq_top_key
  emit_opcode Opcode.pq_top_value = unlowered Opcode.pq_top_value
  emit_opcode Opcode.pq_length = unlowered Opcode.pq_length
  emit_opcode (Opcode.emit e) = some (unreported (emit_log f (backend.event e.name (length vs)) vs))
  emit_opcode Opcode.transfer = some (emit_transfer f span vs)
  emit_opcode Opcode.assert = one (λ x. load_operand f x ++ (AsmOp.op 0x15 ∷ revert_if))
  emit_opcode Opcode.assert_encrypted = with_one vs (λ x.
      let h = backend.helper Opcode.assert_encrypted in (assert_encrypted_code f h x, h.refusals))
  emit_opcode Opcode.is_caller_sender = loads (AsmOp.push_bytes (1 ∷ []))
  emit_opcode Opcode.caller_matches_principal =
      some (trap, CodegenDiagnostic.unlowered_builtin_predicate span none ∷ [])
  emit_opcode (Opcode.builtin_predicate_call p) =
      some (trap, CodegenDiagnostic.unlowered_builtin_predicate span (some p) ∷ [])
  emit_opcode Opcode.load_caller = loads (AsmOp.op 0x33)
  emit_opcode Opcode.load_msg_sender = loads (AsmOp.op 0x33)
  emit_opcode Opcode.load_msg_value = loads (AsmOp.op 0x34)
  emit_opcode Opcode.load_now = loads (AsmOp.op 0x42)
  emit_opcode Opcode.load_block_timestamp = loads (AsmOp.op 0x42)
  emit_opcode Opcode.load_block_number = loads (AsmOp.op 0x43)
  emit_opcode Opcode.load_chain_id = loads (AsmOp.op 0x46)
  emit_opcode Opcode.load_this = loads (AsmOp.op 0x30)
  emit_opcode Opcode.load_deployer =
      some (unreported (number deployer_slot ∷ AsmOp.op 0x54 ∷ mstore_result result))
  emit_opcode Opcode.mload = one (λ x. load_operand f x ++ (AsmOp.op 0x51 ∷ mstore_result result))
  emit_opcode Opcode.mstore =
      two (λ x y. load_operand f y ++ (load_operand f x ++ AsmOp.op 0x52 ∷ []))
  emit_opcode (Opcode.coerce _) =
      some (unreported (first_or vs [] (λ x. load_operand f x ++ mstore_result result)))
  emit_opcode (Opcode.external_call sig is_view n) =
      some (unreported (emit_external_call f (backend.selector sig) is_view n vs result))

unfoldable pub emit_instr : Backend → IrModule → IrFunction → Instr → Option Emission
emit_instr backend m f i = emit_opcode backend m f i.span i.operands i.result i.opcode
