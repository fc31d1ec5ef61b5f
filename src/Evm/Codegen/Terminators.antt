-- ===== src/Evm/Codegen/Terminators.antt =====
-- The ends of blocks in crates/covenant-evm-backend/src/codegen.rs: jumps with their block arguments,
-- returns and reverts. `utf8` is the bytes of a text; `error_selector` is that of a declared error.
use Prim.Native.String.{◌++◌ as text_append}
use covenant_language.Base.{
  ℕ, zero, ◌+◌, ◌-◌, ◌*◌, ◌%◌, ◌^◌, Option, none, some, String, List, [], ◌∷◌, ◌++◌, ltb, length,
  lookup, if◌then◌else◌,
}
use covenant_language.Ir.Ident.{Span, Value, BlockId}
use covenant_language.Ir.Function.{IrConstant, Terminator, IrFunction, find_block}
use covenant_language.Evm.Asm.{AsmOp}
use covenant_language.Evm.Codegen.{
  CodegenDiagnostic, Code, Emission, unreported, number, value_memory_offset, big_endian_u128,
  const_value, load_operand, store_words,
}
use covenant_language.Evm.Codegen.Calls.{is_static_abi_ty}

abbrev pub empty_revert : Code
empty_revert = AsmOp.push0 ∷ AsmOp.push0 ∷ AsmOp.op 0xfd ∷ []

-- What a text constant of at most 32 bytes returns: its offset, its length and its bytes.
abbrev pub shift_left : ℕ → Code
shift_left zero = []
shift_left n = AsmOp.push_bytes (big_endian_u128 n) ∷ AsmOp.op 0x1b ∷ []

abbrev pub text_bytes : List ℕ → Code
text_bytes [] = []
text_bytes (b ∷ bs) =
    AsmOp.push_bytes (b ∷ bs)
    ∷ (shift_left ((32 - length (b ∷ bs)) * 8) ++ (number 0x40 ∷ AsmOp.op 0x52 ∷ []))

unfoldable pub emit_text_return : List ℕ → Code
emit_text_return bs =
    (number 0x20
      ∷ AsmOp.push0
      ∷ AsmOp.op 0x52
      ∷ AsmOp.push_bytes (big_endian_u128 (length bs))
      ∷ number 0x20
      ∷ AsmOp.op 0x52
      ∷ text_bytes bs)
    ++ (number 96 ∷ AsmOp.push0 ∷ AsmOp.op 0xf3 ∷ [])

abbrev pub text_constant : Option IrConstant → Option String
text_constant (some (IrConstant.text t)) = some t
text_constant _ = none

module _ (show : ℕ → String) (f : IrFunction) where
  unfoldable pub block_label : BlockId → String
  block_label b = text_append "fn_" (text_append f.name.name (text_append "_b" (show b)))

  -- Each argument's word is copied to its parameter's, in order.
  unfoldable pub copy_args : List Value → List Value → Code
  unfolding load_operand value_memory_offset
  copy_args (a ∷ args) (p ∷ params) =
      load_operand f a ++ (number (value_memory_offset p) ∷ AsmOp.op 0x52 ∷ copy_args args params)
  copy_args _ _ = []

  unfoldable pub pass_block_args : List Value → BlockId → Code
  unfolding copy_args find_block
  pass_block_args args target = elim (find_block target f.blocks) [
    | some b ↦ copy_args args b.params
    | none ↦ []
  ]

  module _ (utf8 : String → List ℕ) (error_selector : String → Option (List ℕ)) where
    abbrev pub text_return : Span → List ℕ → Emission
    text_return span bs =
        if ltb 32 (length bs)
        then (empty_revert, CodegenDiagnostic.text_constant_too_long span (length bs) ∷ [])
        else unreported (emit_text_return bs)

    -- A dynamic type has no encoder: the word is returned, with a warning.
    abbrev pub dynamic_warning : Span → Value → List CodegenDiagnostic
    dynamic_warning span v = elim (lookup v f.value_types) [
      | none ↦ []
      | some t ↦
          if is_static_abi_ty t
          then []
          else CodegenDiagnostic.dynamic_return_not_encoded
              (elim (lookup v f.value_spans) [ some s ↦ s | none ↦ span ]) t
            ∷ []
    ]

    abbrev pub word_return : Value → Code
    word_return v =
        load_operand f v
        ++ (AsmOp.push0 ∷ AsmOp.op 0x52 ∷ number 32 ∷ AsmOp.push0 ∷ AsmOp.op 0xf3 ∷ [])

    unfoldable pub return_code : Span → Option Value → Emission
    unfolding const_value
    return_code span none = unreported (AsmOp.push0 ∷ AsmOp.push0 ∷ AsmOp.op 0xf3 ∷ [])
    return_code span (some v) = elim (text_constant (const_value f v)) [
      | some t ↦ text_return span (utf8 t)
      | none ↦ (word_return v, dynamic_warning span v)
    ]

    -- The selector in the first four bytes of memory, and each argument in a word after it.
    unfoldable pub revert_code : String → List Value → Code
    revert_code name args = elim (error_selector name) [
      | none ↦ empty_revert
      | some sel ↦
          (AsmOp.push_bytes sel
            ∷ AsmOp.push_bytes (0xe0 ∷ [])
            ∷ AsmOp.op 0x1b
            ∷ AsmOp.push0
            ∷ AsmOp.op 0x52
            ∷ store_words f 4 0 args)
          ++ (number ((4 + length args * 32) % 2 ^ 32) ∷ AsmOp.push0 ∷ AsmOp.op 0xfd ∷ [])
    ]

    unfoldable pub emit_terminator : Span → Terminator → Emission
    unfolding pass_block_args block_label load_operand return_code revert_code
    emit_terminator span (Terminator.jump target args) = unreported (
        pass_block_args args target ++ (AsmOp.push_label (block_label target) ∷ AsmOp.op 0x56 ∷ []))
    emit_terminator span (Terminator.branch c then_target then_args else_target else_args) =
        unreported (
          load_operand f c
          ++ (pass_block_args then_args then_target
              ++ (AsmOp.push_label (block_label then_target)
                  ∷ AsmOp.op 0x57
                  ∷ (pass_block_args else_args else_target
                      ++ (AsmOp.push_label (block_label else_target) ∷ AsmOp.op 0x56 ∷ [])))))
    emit_terminator span
          (Terminator.fhe_branch c then_target then_args else_target else_args merge) =
        unreported (
          pass_block_args then_args then_target
          ++ (AsmOp.push_label (block_label then_target) ∷ AsmOp.op 0x56 ∷ []))
    emit_terminator span (Terminator.return v) = return_code span v
    emit_terminator span (Terminator.revert e args) = unreported (revert_code e.name args)
    emit_terminator span Terminator.unreachable = unreported (AsmOp.op 0xfe ∷ [])
