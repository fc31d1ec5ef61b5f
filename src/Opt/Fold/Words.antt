-- ===== src/Opt/Fold/Words.antt =====
-- Folding (crates/covenant-opt/src/constant_fold.rs) against the 256-bit words in which the folded
-- operations would have been computed.
use Prim.Native.Nat.{bit_and, bit_or, bit_xor}
use covenant_language.Base.{
  ℕ, ◌+◌, ◌-◌, ◌*◌, ◌/◌, ◌%◌, ◌^◌, ◌<◌, ◌≡◌, ap, Option, none, some, [], ◌∷◌, arith, ◌==◌,
  if◌then◌else◌,
}
use covenant_language.Ir.Opcode.{Opcode}
use covenant_language.Ir.Function.{IrConstant}
use covenant_language.Opt.Effects.{checked_add, checked_sub, checked_mul}
use covenant_language.Opt.Fold.{
  checked_div, checked_rem, fold_shift_left, fold_shift_right, int2, integer_of, fold_constants,
}

-- The word operation of the virtual machine, with quotient and remainder by zero being zero.
unfoldable pub word_op : Opcode → ℕ → ℕ → ℕ
word_op Opcode.add a b = (a + b) % 2 ^ 256
word_op Opcode.add_checked a b = (a + b) % 2 ^ 256
word_op Opcode.sub a b = (a + (2 ^ 256 - b)) % 2 ^ 256
word_op Opcode.sub_checked a b = (a + (2 ^ 256 - b)) % 2 ^ 256
word_op Opcode.mul a b = a * b % 2 ^ 256
word_op Opcode.mul_checked a b = a * b % 2 ^ 256
word_op Opcode.div a b = if b == 0 then 0 else a / b
word_op Opcode.modulo a b = if b == 0 then 0 else a % b
word_op Opcode.bit_and a b = bit_and a b
word_op Opcode.bit_or a b = bit_or a b
word_op Opcode.bit_xor a b = bit_xor a b
word_op Opcode.shift_left a b = a * 2 ^ b % 2 ^ 256
word_op Opcode.shift_right a b = a / 2 ^ b
word_op _ a b = 0

-- A left shift must not leave the 128 bits.
abbrev pub InRange : Opcode → ℕ → ℕ → Type 0
InRange Opcode.shift_left a b = a * 2 ^ b < 2 ^ 128
InRange _ a b = Unit {0}

abbrev integer_value : Option IrConstant → ℕ
integer_value (some (IrConstant.integer n)) = n
integer_value _ = 0

pub int2-some :
    (op : ℕ → ℕ → Option ℕ) (a b r : ℕ)
    → int2 op (IrConstant.integer a ∷ IrConstant.integer b ∷ []) ≡ some (IrConstant.integer r)
    → op a b ≡ some r
unfolding int2
int2-some op a b r h = go (op a b) h
  where
    go : (o : Option ℕ) → integer_of o ≡ some (IrConstant.integer r) → o ≡ some r
    go none e = cc
    go (some n) e = ap (λ o. some (integer_value o)) e

-- Where the fold of an operation on two integers gives an integer, that is the word which the
-- operation yields at run time, for a left shift if its result has 128 bits.
pub fold_constants-word_op :
    (op : Opcode) (a b r : ℕ)
    → a < 2 ^ 128
    → b < 2 ^ 128
    → InRange op a b
    → fold_constants op (IrConstant.integer a ∷ IrConstant.integer b ∷ [])
      ≡ some (IrConstant.integer r)
    → r ≡ word_op op a b
unfolding fold_constants word_op checked_add checked_sub checked_mul checked_div checked_rem
    fold_shift_left fold_shift_right
fold_constants-word_op Opcode.add a b r ha hb f h = ground (arith, int2-some checked_add a b r h)
fold_constants-word_op Opcode.add_checked a b r ha hb f h =
    ground (arith, int2-some checked_add a b r h)
fold_constants-word_op Opcode.sub a b r ha hb f h = ground (arith, int2-some checked_sub a b r h)
fold_constants-word_op Opcode.sub_checked a b r ha hb f h =
    ground (arith, int2-some checked_sub a b r h)
fold_constants-word_op Opcode.mul a b r ha hb f h = ground (arith, int2-some checked_mul a b r h)
fold_constants-word_op Opcode.mul_checked a b r ha hb f h =
    ground (arith, int2-some checked_mul a b r h)
fold_constants-word_op Opcode.div a b r ha hb f h = ground (arith, int2-some checked_div a b r h)
fold_constants-word_op Opcode.modulo a b r ha hb f h = ground (arith, int2-some checked_rem a b r h)
fold_constants-word_op Opcode.bit_and a b r ha hb f h =
    ground (arith, int2-some (λ a b. some (bit_and a b)) a b r h)
fold_constants-word_op Opcode.bit_or a b r ha hb f h =
    ground (arith, int2-some (λ a b. some (bit_or a b)) a b r h)
fold_constants-word_op Opcode.bit_xor a b r ha hb f h =
    ground (arith, int2-some (λ a b. some (bit_xor a b)) a b r h)
fold_constants-word_op Opcode.shift_left a b r ha hb f h =
    ground (arith, int2-some fold_shift_left a b r h)
fold_constants-word_op Opcode.shift_right a b r ha hb f h =
    ground (arith, int2-some fold_shift_right a b r h)
fold_constants-word_op _ a b r ha hb f h = cc
