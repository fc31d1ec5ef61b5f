-- ===== src/Evm/Codegen/Calls.antt =====
-- Hashes, transfers and calls in crates/covenant-evm-backend/src/codegen.rs. What the source looks up in
-- the ABI, the target and the configuration for a call or an event is an argument.
use covenant_language.Base.{
  ℕ, zero, suc, not, ◌+◌, ◌*◌, ◌%◌, ◌^◌, Bool, true, false, Option, none, some, List, [], ◌∷◌, ◌++◌,
  ◌==◌, length, lookup, ltb, ◌||◌, contains, if◌then◌else◌,
}
use mathlib.Core.List.{reverse}
use covenant_language.Types.Ty.{Ty}
use covenant_language.Ir.Ident.{Value, Span}
use covenant_language.Ir.Function.{Instr, IrBlock, IrFunction, Terminator}
use covenant_language.Evm.Asm.{AsmOp}
use covenant_language.Evm.Codegen.{
  CodegenDiagnostic, Code, Emission, unreported, number, load_operand, mstore_result, revert_if,
  store_words, scratch_base,
}

abbrev pub gas_word : AsmOp
gas_word = AsmOp.push_bytes (0xff ∷ 0xff ∷ 0xff ∷ 0xff ∷ [])

-- One word of calldata or of a return: a ciphertext stands for its handle.
unfoldable pub is_static_abi_ty : Ty → Bool
is_static_abi_ty Ty.address = true
is_static_abi_ty Ty.bool = true
is_static_abi_ty Ty.hash = true
is_static_abi_ty Ty.duration = true
is_static_abi_ty Ty.time = true
is_static_abi_ty Ty.amount = true
is_static_abi_ty Ty.pq_key = true
is_static_abi_ty (Ty.choice _) = true
is_static_abi_ty Ty.unknown = true
is_static_abi_ty (Ty.ciphertext t) = is_static_abi_ty t
is_static_abi_ty _ = false

abbrev pub returns_value : Value → Option Value → Bool
returns_value v (some r) = r == v
returns_value v none = false

abbrev pub used_by_terminator : Value → Terminator → Bool
used_by_terminator v (Terminator.jump t args) = contains v args
used_by_terminator v (Terminator.branch c t ts e es) = c == v || (contains v ts || contains v es)
used_by_terminator v (Terminator.fhe_branch c t ts e es m) =
    c == v || (contains v ts || contains v es)
used_by_terminator v (Terminator.return r) = returns_value v r
used_by_terminator v (Terminator.revert e args) = contains v args
used_by_terminator v Terminator.unreachable = false

abbrev pub used_by_instrs : Value → List Instr → Bool
used_by_instrs v [] = false
used_by_instrs v (i ∷ is) = contains v i.operands || used_by_instrs v is

unfoldable pub consumed_in : Value → List IrBlock → Bool
consumed_in v [] = false
consumed_in v (b ∷ bs) =
    used_by_instrs v b.instructions || (used_by_terminator v b.terminator || consumed_in v bs)

unfoldable pub value_is_consumed : IrFunction → Value → Bool
unfolding consumed_in
value_is_consumed f v = consumed_in v f.blocks

abbrev pub first_words : ℕ → List Value → List Value
first_words zero vs = []
first_words (suc n) [] = []
first_words (suc n) (v ∷ vs) = v ∷ first_words n vs

-- The address, the selector and the kind of call that the configuration resolves for an opcode, and
-- the refusals of its gates.
pub record HelperCall : Type 0 where
  pub address : List ℕ
  pub selector : List ℕ
  pub use_call : Bool
  pub refusals : List CodegenDiagnostic

-- The topic of an event and which of its parameters are indexed.
pub record EventShape : Type 0 where
  pub topic_hash : List ℕ
  pub indexed_mask : List Bool

-- The operands that are indexed, or those that are not, from parameter `i` on.
abbrev pub operands_with : Bool → List Bool → List Value → List Value
operands_with true mask [] = []
operands_with true [] (v ∷ vs) = operands_with true [] vs
operands_with true (true ∷ mask) (v ∷ vs) = v ∷ operands_with true mask vs
operands_with true (false ∷ mask) (v ∷ vs) = operands_with true mask vs
operands_with false mask [] = []
operands_with false [] (v ∷ vs) = v ∷ operands_with false [] vs
operands_with false (true ∷ mask) (v ∷ vs) = operands_with false mask vs
operands_with false (false ∷ mask) (v ∷ vs) = v ∷ operands_with false mask vs

module _ (f : IrFunction) where
  unfoldable pub load_each : List Value → Code
  unfolding load_operand
  load_each [] = []
  load_each (v ∷ vs) = load_operand f v ++ load_each vs

  unfoldable pub emit_keccak : List Value → Option Value → Code
  unfolding store_words scratch_base mstore_result
  emit_keccak vs result =
      store_words f (scratch_base f) 0 vs
      ++ (number (length vs * 32 % 2 ^ 32)
          ∷ number (scratch_base f)
          ∷ AsmOp.op 0x20
          ∷ mstore_result result)

  -- One topic for the event and one for each indexed parameter: four at most.
  abbrev pub log_op : ℕ → Code
  log_op topics =
      if ltb topics 5
      then AsmOp.op (0xa0 + topics) ∷ []
      else AsmOp.push0 ∷ AsmOp.push0 ∷ AsmOp.op 0xfd ∷ []

  unfoldable pub emit_log : EventShape → List Value → Code
  unfolding store_words scratch_base load_each
  emit_log e vs =
      let topics = operands_with true e.indexed_mask vs in
      let words = operands_with false e.indexed_mask vs in
      let base = if length words == 0 then 0 else scratch_base f in
      store_words f base 0 words
      ++ (load_each (reverse topics)
          ++ (AsmOp.push_bytes e.topic_hash
              ∷ number (length words * 32 % 2 ^ 32)
              ∷ number base
              ∷ log_op (1 + length topics)))

  unfoldable pub emit_transfer : Span → List Value → Emission
  unfolding load_operand
  emit_transfer span (amount ∷ to ∷ []) = unreported (
      AsmOp.push0
      ∷ AsmOp.push0
      ∷ AsmOp.push0
      ∷ AsmOp.push0
      ∷ (load_operand f amount
          ++ (load_operand f to ++ (gas_word ∷ AsmOp.op 0xf1 ∷ AsmOp.op 0x15 ∷ revert_if))))
  emit_transfer span (amount ∷ source ∷ to ∷ []) =
      (AsmOp.push0 ∷ [], CodegenDiagnostic.transfer_from_unsupported span ∷ [])
  emit_transfer span _ = unreported (AsmOp.push0 ∷ [])

  abbrev pub call_op : Bool → AsmOp
  call_op true = AsmOp.op 0xf1
  call_op false = AsmOp.op 0xfa

  -- `value` is an argument of CALL only.
  abbrev pub no_value : Bool → Code
  no_value true = AsmOp.push0 ∷ []
  no_value false = []

  unfoldable pub emit_precompile_call : HelperCall → List Value → Option Value → Code
  unfolding store_words mstore_result
  emit_precompile_call h vs result =
      (AsmOp.push0
        ∷ AsmOp.push0
        ∷ AsmOp.op 0x52
        ∷ AsmOp.push_bytes h.selector
        ∷ number 0x20
        ∷ AsmOp.op 0x52
        ∷ store_words f 0x40 0 vs)
      ++ ((number 32
            ∷ AsmOp.push0
            ∷ number ((4 + length vs * 32) % 2 ^ 32)
            ∷ number 0x3c
            ∷ no_value h.use_call)
          ++ ((AsmOp.push_bytes h.address
                ∷ gas_word
                ∷ call_op h.use_call
                ∷ AsmOp.op 0x15
                ∷ revert_if)
              ++ ((AsmOp.op 0x3d ∷ number 32 ∷ AsmOp.op 0x14 ∷ AsmOp.op 0x15 ∷ revert_if)
                  ++ (AsmOp.push0 ∷ AsmOp.op 0x51 ∷ mstore_result result))))

  unfoldable pub assert_encrypted_code : HelperCall → Value → Code
  unfolding load_operand
  assert_encrypted_code h x =
      (AsmOp.push_bytes h.selector ∷ AsmOp.push0 ∷ AsmOp.op 0x52 ∷ load_operand f x)
      ++ ((number 0x20
            ∷ AsmOp.op 0x52
            ∷ AsmOp.push0
            ∷ number 0x40
            ∷ AsmOp.op 0x52
            ∷ number 1
            ∷ number 0x40
            ∷ number 36
            ∷ number 0x1c
            ∷ AsmOp.push_bytes h.address
            ∷ gas_word
            ∷ AsmOp.op 0xfa
            ∷ AsmOp.op 0x15
            ∷ revert_if)
          ++ ((AsmOp.op 0x3d ∷ AsmOp.op 0x15 ∷ revert_if)
              ++ (number 0x40 ∷ AsmOp.op 0x51 ∷ AsmOp.op 0x15 ∷ revert_if)))

  -- The width of the returned data: one word, or at least one.
  abbrev pub width_check : Bool → Code
  width_check true = AsmOp.op 0x14 ∷ AsmOp.op 0x15 ∷ []
  width_check false = AsmOp.op 0x11 ∷ []

  unfoldable pub exact_word : Value → Bool
  unfolding is_static_abi_ty
  exact_word r = elim (lookup r f.value_types) [ some t ↦ is_static_abi_ty t | none ↦ true ]

  unfoldable pub read_returned : Option Value → Code
  unfolding value_is_consumed exact_word mstore_result
  read_returned none = []
  read_returned (some r) =
      if value_is_consumed f r
      then (AsmOp.op 0x3d
          ∷ number 32
          ∷ (width_check (exact_word r)
              ++ (revert_if ++ (AsmOp.push0 ∷ AsmOp.op 0x51 ∷ mstore_result (some r)))))
      else []

  abbrev pub callee : List Value → Code
  callee [] = AsmOp.push0 ∷ []
  callee (a ∷ vs) = load_operand f a

  -- The first `n` operands after the callee, as far as there are some.
  abbrev pub arguments : ℕ → List Value → List Value
  arguments n [] = []
  arguments n (a ∷ vs) = first_words n vs

  unfoldable pub emit_external_call : List ℕ → Bool → ℕ → List Value → Option Value → Code
  unfolding load_operand store_words read_returned
  emit_external_call sel is_view arg_count vs result =
      (AsmOp.push_bytes sel
        ∷ AsmOp.push_bytes (0xe0 ∷ [])
        ∷ AsmOp.op 0x1b
        ∷ AsmOp.push0
        ∷ AsmOp.op 0x52
        ∷ store_words f 4 0 (arguments arg_count vs))
      ++ ((number 32
            ∷ number 0
            ∷ number ((4 + arg_count * 32) % 2 ^ 32)
            ∷ AsmOp.push0
            ∷ no_value (not is_view))
          ++ (callee vs
              ++ ((gas_word ∷ call_op (not is_view) ∷ AsmOp.op 0x15 ∷ revert_if)
                  ++ read_returned result)))
