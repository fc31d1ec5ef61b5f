-- ===== src/Opt/Effects.antt =====
-- The remaining questions of the effect model (crates/covenant-opt/src/effects.rs): which values are
-- integer constants, whether a trapping instruction can trap, and on what its trap depends.
-- `checked_add` and its like are the checked operations of `u128`.
use covenant_language.Base.{
  ℕ, ◌+◌, ◌*◌, ◌-◌, ◌^◌, Bool, true, false, not, Option, none, some, List, [], ◌∷◌, ltb, leb, ◌==◌,
  get_elem?, lookup, if◌then◌else◌,
}
use covenant_language.Ir.Ident.{Value}
use covenant_language.Ir.Opcode.{Opcode}
use covenant_language.Ir.Function.{IrConstant, ValueInfo, Instr, IrFunction}

abbrev pub u128_mod : ℕ
u128_mod = 2 ^ 128

unfoldable pub checked_add : ℕ → ℕ → Option ℕ
checked_add a b = if ltb (a + b) u128_mod then some (a + b) else none

unfoldable pub checked_sub : ℕ → ℕ → Option ℕ
checked_sub a b = if leb b a then some (a - b) else none

unfoldable pub checked_mul : ℕ → ℕ → Option ℕ
checked_mul a b = if ltb (a * b) u128_mod then some (a * b) else none

abbrev pub Consts : Type 0
Consts = List (Value × ℕ)

-- Collecting into a map lets a later entry of a value hide an earlier one.
unfoldable pub collect_integers : Consts → List (Value × ValueInfo) → Consts
collect_integers m [] = m
collect_integers m ((v, ValueInfo.const (IrConstant.integer n)) ∷ r) =
    collect_integers ((v, n) ∷ m) r
collect_integers m (_ ∷ r) = collect_integers m r

unfoldable pub integer_constants : IrFunction → Consts
integer_constants func = collect_integers [] func.values

unfoldable pub operand_const : Consts → List Value → ℕ → Option ℕ
operand_const consts operands i = elim (get_elem? operands i) [
  | some v ↦ lookup v consts
  | none ↦ none
]

abbrev pub is_some {ℓ} : {A : Type ℓ} → Option A → Bool
is_some (some _) = true
is_some none = false

-- `matches!(d, Some(d) if d != 0)`.
unfoldable pub nonzero_divisor : Option ℕ → Bool
nonzero_divisor (some d) = not (d == 0)
nonzero_divisor none = false

-- `matches!((a, b), (Some(a), Some(b)) if op(a, b).is_some())`.
unfoldable pub both_succeed : (ℕ → ℕ → Option ℕ) → Option ℕ → Option ℕ → Bool
both_succeed op (some a) (some b) = is_some (op a b)
both_succeed op _ _ = false

unfoldable pub trap_can_fire_at : Opcode → (ℕ → Option ℕ) → Bool
unfolding nonzero_divisor both_succeed checked_add checked_sub checked_mul
trap_can_fire_at Opcode.div c = not (nonzero_divisor (c 1))
trap_can_fire_at Opcode.modulo c = not (nonzero_divisor (c 1))
trap_can_fire_at Opcode.add_checked c = not (both_succeed checked_add (c 0) (c 1))
trap_can_fire_at Opcode.sub_checked c = not (both_succeed checked_sub (c 0) (c 1))
trap_can_fire_at Opcode.mul_checked c = not (both_succeed checked_mul (c 0) (c 1))
trap_can_fire_at _ c = true

unfoldable pub trap_can_fire : Instr → Consts → Bool
unfolding trap_can_fire_at operand_const
trap_can_fire instr consts = trap_can_fire_at instr.opcode (operand_const consts instr.operands)

unfoldable pub trap_depends_only_on_operands : Opcode → Bool
trap_depends_only_on_operands Opcode.div = true
trap_depends_only_on_operands Opcode.modulo = true
trap_depends_only_on_operands Opcode.add_checked = true
trap_depends_only_on_operands Opcode.sub_checked = true
trap_depends_only_on_operands Opcode.mul_checked = true
trap_depends_only_on_operands _ = false
