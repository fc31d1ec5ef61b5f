-- ===== src/Evm/Codegen/Arith.antt =====
-- The arithmetic of crates/covenant-evm-backend/src/codegen.rs. `x` and `y` are the first and the
-- second operand; `show` is the decimal text of a `u32`, which the standard library formats.
use Prim.Native.String.{◌++◌ as text_append}
use covenant_language.Base.{ℕ, Option, none, some, String, [], ◌∷◌, ◌++◌, ◌==◌, if◌then◌else◌}
use covenant_language.Ir.Ident.{Span, Value}
use covenant_language.Ir.Function.{IrConstant, IrFunction}
use covenant_language.Evm.Asm.{AsmOp}
use covenant_language.Evm.Codegen.{
  CodegenDiagnostic, Code, Emission, const_value, load_operand, mstore_result, revert_if,
}

module _ (f : IrFunction) where
  -- `lhs OP rhs`: the right operand is pushed first.
  unfoldable pub binop : ℕ → Value → Value → Option Value → Code
  unfolding load_operand mstore_result
  binop op x y result =
      load_operand f y ++ (load_operand f x ++ (AsmOp.op op ∷ mstore_result result))

  -- The shifts take their count from the top of the stack.
  unfoldable pub binop_shift : ℕ → Value → Value → Option Value → Code
  unfolding load_operand mstore_result
  binop_shift op x y result =
      load_operand f x ++ (load_operand f y ++ (AsmOp.op op ∷ mstore_result result))

  -- `!=`, `<=` and `>=`: the opposite comparison, negated.
  unfoldable pub negated_binop : ℕ → Value → Value → Option Value → Code
  unfolding load_operand mstore_result
  negated_binop op x y result =
      load_operand f y ++ (load_operand f x ++ (AsmOp.op op ∷ AsmOp.op 0x15 ∷ mstore_result result))

  unfoldable pub unary_op : ℕ → Value → Option Value → Code
  unfolding load_operand mstore_result
  unary_op op x result = load_operand f x ++ (AsmOp.op op ∷ mstore_result result)

  -- `0 - x`.
  unfoldable pub signed_neg_code : Value → Option Value → Code
  unfolding load_operand mstore_result
  signed_neg_code x result =
      load_operand f x ++ (AsmOp.push0 ∷ AsmOp.op 0x03 ∷ mstore_result result)

  unfoldable pub add_checked_code : Value → Value → Option Value → Code
  unfolding load_operand mstore_result
  add_checked_code x y result =
      load_operand f y
      ++ (load_operand f x
          ++ (AsmOp.op 0x01
              ∷ AsmOp.op 0x80
              ∷ (load_operand f x ++ (AsmOp.op 0x11 ∷ (revert_if ++ mstore_result result)))))

  unfoldable pub sub_checked_code : Value → Value → Option Value → Code
  unfolding load_operand mstore_result
  sub_checked_code x y result =
      load_operand f y
      ++ (load_operand f x
          ++ (AsmOp.op 0x10
              ∷ (revert_if
                  ++ (load_operand f y
                      ++ (load_operand f x ++ (AsmOp.op 0x03 ∷ mstore_result result))))))

  module _ (show : ℕ → String) where
    unfoldable pub mul_ok_label : Option Value → String
    mul_ok_label result = text_append "__mulok_" (
        text_append f.name.name
          (text_append "_" (show (elim result [ some v ↦ v | none ↦ 0xffffffff ]))))

    unfoldable pub mul_checked_code : Value → Value → Option Value → Code
    unfolding load_operand mstore_result mul_ok_label
    mul_checked_code x y result =
        load_operand f y
        ++ (load_operand f x
            ++ (AsmOp.op 0x02
                ∷ (load_operand f x
                    ++ (AsmOp.op 0x15
                        ∷ AsmOp.push_label (mul_ok_label result)
                        ∷ AsmOp.op 0x57
                        ∷ AsmOp.op 0x80
                        ∷ (load_operand f x
                            ++ (AsmOp.op 0x90
                                ∷ AsmOp.op 0x04
                                ∷ (load_operand f y
                                    ++ (AsmOp.op 0x14
                                        ∷ AsmOp.op 0x15
                                        ∷ (revert_if
                                            ++ (AsmOp.label_def (mul_ok_label result)
                                                ∷ mstore_result result))))))))))

  -- The guard of a division: none for a literal divisor.
  unfoldable pub div_guard : Span → String → Value → Emission
  unfolding const_value load_operand
  div_guard span what y = elim (const_value f y) [
    | some (IrConstant.integer n) ↦
        if n == 0 then ([], CodegenDiagnostic.div_by_zero_literal span what ∷ []) else ([], [])
    | _ ↦ (load_operand f y ++ (AsmOp.op 0x15 ∷ revert_if), [])
  ]

  unfoldable pub binop_div_guarded : ℕ → String → Span → Value → Value → Option Value → Emission
  unfolding div_guard binop
  binop_div_guarded op what span x y result =
      ((div_guard span what y).0 ++ binop op x y result, (div_guard span what y).1)
