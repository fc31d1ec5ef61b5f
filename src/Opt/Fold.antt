-- ===== src/Opt/Fold.antt =====
-- `try_fold` of crates/covenant-opt/src/constant_fold.rs (with `as_const` of helpers.rs): the value of
-- an operation on constants, computed at compile time in `u128`.
pub mod Words
pub mod Values
pub mod Pass
pub mod Tests
use Prim.Native.Nat.{bit_and, bit_or, bit_xor}
use Prim.Native.String.{◌++◌ as text_append}
use covenant_language.Base.{
  ℕ, ◌*◌, ◌/◌, ◌%◌, ◌^◌, Bool, not, ◌&&◌, ◌||◌, Option, none, some, List, [], ◌∷◌, ◌++◌, ltb, leb,
  ◌==◌, if◌then◌else◌, lookup,
}
use covenant_language.Ir.Ident.{Value}
use covenant_language.Ir.Opcode.{Opcode}
use covenant_language.Ir.Function.{IrConstant, ValueInfo, IrFunction}
use covenant_language.Opt.Effects.{checked_add, checked_sub, checked_mul}

unfoldable pub checked_div : ℕ → ℕ → Option ℕ
checked_div a b = if b == 0 then none else some (a / b)

unfoldable pub checked_rem : ℕ → ℕ → Option ℕ
checked_rem a b = if b == 0 then none else some (a % b)

-- `a << b` of a `u128` drops the bits past the 128th.
unfoldable pub fold_shift_left : ℕ → ℕ → Option ℕ
fold_shift_left a b = if leb 128 b then none else some (a * 2 ^ b % 2 ^ 128)

unfoldable pub fold_shift_right : ℕ → ℕ → Option ℕ
fold_shift_right a b = if leb 128 b then none else some (a / 2 ^ b)

abbrev pub integer_of : Option ℕ → Option IrConstant
integer_of (some r) = some (IrConstant.integer r)
integer_of none = none

unfoldable pub int2 : (ℕ → ℕ → Option ℕ) → List IrConstant → Option IrConstant
int2 op (IrConstant.integer a ∷ IrConstant.integer b ∷ []) = integer_of (op a b)
int2 op _ = none

unfoldable pub cmp2 : (ℕ → ℕ → Bool) → List IrConstant → Option IrConstant
cmp2 op (IrConstant.integer a ∷ IrConstant.integer b ∷ []) = some (IrConstant.bool (op a b))
cmp2 op _ = none

unfoldable pub bool2 : (Bool → Bool → Bool) → List IrConstant → Option IrConstant
bool2 op (IrConstant.bool a ∷ IrConstant.bool b ∷ []) = some (IrConstant.bool (op a b))
bool2 op _ = none

abbrev pub fold_not : List IrConstant → Option IrConstant
fold_not (IrConstant.bool b ∷ []) = some (IrConstant.bool (not b))
fold_not _ = none

abbrev pub fold_text : List IrConstant → Option IrConstant
fold_text (IrConstant.text a ∷ IrConstant.text b ∷ []) = some (IrConstant.text (text_append a b))
fold_text _ = none

abbrev pub fold_bytes : List IrConstant → Option IrConstant
fold_bytes (IrConstant.hex a ∷ IrConstant.hex b ∷ []) = some (IrConstant.hex (a ++ b))
fold_bytes _ = none

-- The match on the opcode, once every operand is a constant.
unfoldable pub fold_constants : Opcode → List IrConstant → Option IrConstant
unfolding int2 cmp2 bool2 checked_div checked_rem fold_shift_left fold_shift_right
fold_constants Opcode.add cs = int2 checked_add cs
fold_constants Opcode.add_checked cs = int2 checked_add cs
fold_constants Opcode.sub cs = int2 checked_sub cs
fold_constants Opcode.sub_checked cs = int2 checked_sub cs
fold_constants Opcode.mul cs = int2 checked_mul cs
fold_constants Opcode.mul_checked cs = int2 checked_mul cs
fold_constants Opcode.div cs = int2 checked_div cs
fold_constants Opcode.modulo cs = int2 checked_rem cs
fold_constants Opcode.bit_and cs = int2 (λ a b. some (bit_and a b)) cs
fold_constants Opcode.bit_or cs = int2 (λ a b. some (bit_or a b)) cs
fold_constants Opcode.bit_xor cs = int2 (λ a b. some (bit_xor a b)) cs
fold_constants Opcode.shift_left cs = int2 fold_shift_left cs
fold_constants Opcode.shift_right cs = int2 fold_shift_right cs
fold_constants Opcode.eq cs = cmp2 (λ a b. a == b) cs
fold_constants Opcode.ne cs = cmp2 (λ a b. not (a == b)) cs
fold_constants Opcode.lt cs = cmp2 (λ a b. ltb a b) cs
fold_constants Opcode.le cs = cmp2 (λ a b. leb a b) cs
fold_constants Opcode.gt cs = cmp2 (λ a b. ltb b a) cs
fold_constants Opcode.ge cs = cmp2 (λ a b. leb b a) cs
fold_constants Opcode.logical_and cs = bool2 (λ a b. a && b) cs
fold_constants Opcode.logical_or cs = bool2 (λ a b. a || b) cs
fold_constants Opcode.logical_not cs = fold_not cs
fold_constants Opcode.text_concat cs = fold_text cs
fold_constants Opcode.bytes_concat cs = fold_bytes cs
fold_constants _ cs = none

abbrev pub const_of : Option ValueInfo → Option IrConstant
const_of (some (ValueInfo.const c)) = some c
const_of _ = none

unfoldable pub as_const : IrFunction → Value → Option IrConstant
as_const func v = const_of (lookup v func.values)

-- `collect::<Option<Vec<_>>>`: nothing unless every operand is a constant.
unfoldable pub all_consts : IrFunction → List Value → Option (List IrConstant)
all_consts func [] = some []
all_consts func (v ∷ vs) = elim (as_const func v) [
  | none ↦ none
  | some c ↦ elim (all_consts func vs) [ none ↦ none | some cs ↦ some (c ∷ cs) ]
]

unfoldable pub try_fold : IrFunction → Opcode → List Value → Option IrConstant
try_fold func op operands = elim (all_consts func operands) [
  | none ↦ none
  | some cs ↦ fold_constants op cs
]
