-- ===== src/Opt/Fold/Tests.antt =====
-- Instances of the laws of crates/covenant-opt/src/constant_fold.rs.
use covenant_language.Base.{ℕ, ◌^◌, ◌≡◌, refl, some, List, [], ◌∷◌, arith}
use covenant_language.Ir.Opcode.{Opcode}
use covenant_language.Ir.Function.{IrConstant}
use covenant_language.Opt.Effects.{checked_mul}
use covenant_language.Opt.Fold.{fold_constants, int2, fold_shift_left}
use covenant_language.Opt.Fold.Words.{word_op, fold_constants-word_op}

abbrev six_by_seven : List IrConstant
six_by_seven = IrConstant.integer 6 ∷ IrConstant.integer 7 ∷ []

product_folds : fold_constants Opcode.mul six_by_seven ≡ some (IrConstant.integer 42)
unfolding fold_constants int2 checked_mul
product_folds = refl

-- A shift past the 128th bit folds to zero, though the word has the bit.
shift_loses_bit :
    fold_constants Opcode.shift_left (IrConstant.integer 2 ∷ IrConstant.integer 127 ∷ [])
    ≡ some (IrConstant.integer 0)
unfolding fold_constants int2 fold_shift_left
shift_loses_bit = refl

word_keeps_bit : word_op Opcode.shift_left 2 127 ≡ 2 ^ 128
unfolding word_op
word_keeps_bit = refl

abbrev forty_two : ℕ
forty_two = 42

fold_constants-word_op_example : forty_two ≡ word_op Opcode.mul 6 7
fold_constants-word_op_example =
    fold_constants-word_op Opcode.mul 6 7 forty_two (omega arith) (omega arith) tt product_folds
