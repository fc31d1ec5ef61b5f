-- ===== src/Runtime/U256.antt =====
-- crates/covenant-evm-runtime/src/u256.rs: 256-bit numbers of four 64-bit limbs, the least one first.
-- The loops over the four limbs are written out; a `u128` holds the sum of two limbs and a carry.
pub mod Value
pub mod Order
pub mod Mul
pub mod Bits
pub mod Div
pub mod Tests
use Prim.Native.Nat.{compare, Ordering}
use covenant_language.Base.{ℕ, ◌+◌, ◌-◌, ◌*◌, ◌/◌, ◌%◌, ◌^◌, Bool, ◌&&◌, ◌==◌, if◌then◌else◌}

pub record U256 : Type 0 where
  pub limb0 : ℕ
  pub limb1 : ℕ
  pub limb2 : ℕ
  pub limb3 : ℕ

abbrev pub u64_mod : ℕ
u64_mod = 2 ^ 64

abbrev pub limbs : ℕ → ℕ → ℕ → ℕ → U256
limbs a b c d = record { limb0 = a; limb1 = b; limb2 = c; limb3 = d }

abbrev pub zero_word : U256
zero_word = limbs 0 0 0 0

abbrev pub one_word : U256
one_word = limbs 1 0 0 0

unfoldable pub from_u64 : ℕ → U256
from_u64 v = limbs v 0 0 0

unfoldable pub from_u128 : ℕ → U256
from_u128 v = limbs (v % 2 ^ 64) (v / 2 ^ 64 % 2 ^ 64) 0 0

unfoldable pub low_u64 : U256 → ℕ
low_u64 a = a.limb0

-- The two halves do not overlap, so the `|` of the source is a sum.
unfoldable pub low_u128 : U256 → ℕ
low_u128 a = a.limb0 + a.limb1 * 2 ^ 64

unfoldable pub is_zero : U256 → Bool
is_zero a = a.limb0 == 0 && (a.limb1 == 0 && (a.limb2 == 0 && a.limb3 == 0))

unfoldable pub fits_u64 : U256 → Bool
fits_u64 a = a.limb1 == 0 && (a.limb2 == 0 && a.limb3 == 0)

unfoldable pub wrapping_add : U256 → U256 → U256
wrapping_add a b =
    let sum0 = a.limb0 + b.limb0 + 0 in
    let sum1 = a.limb1 + b.limb1 + sum0 / 2 ^ 64 in
    let sum2 = a.limb2 + b.limb2 + sum1 / 2 ^ 64 in
    let sum3 = a.limb3 + b.limb3 + sum2 / 2 ^ 64 in
    limbs (sum0 % 2 ^ 64) (sum1 % 2 ^ 64) (sum2 % 2 ^ 64) (sum3 % 2 ^ 64)

-- `!x` of a `u64`.
abbrev pub limb_not : ℕ → ℕ
limb_not x = 2 ^ 64 - 1 - x

unfoldable pub bitnot : U256 → U256
bitnot a = limbs (limb_not a.limb0) (limb_not a.limb1) (limb_not a.limb2) (limb_not a.limb3)

unfoldable pub wrapping_sub : U256 → U256 → U256
unfolding wrapping_add bitnot
wrapping_sub a b = wrapping_add a (wrapping_add (bitnot b) one_word)

-- One limb of the comparison: `Equal` goes on to the next one.
abbrev pub or_else_compare : Ordering → Ordering → Ordering
or_else_compare Ordering.eq o = o
or_else_compare Ordering.lt o = Ordering.lt
or_else_compare Ordering.gt o = Ordering.gt

unfoldable pub cmp : U256 → U256 → Ordering
cmp a b = or_else_compare (compare a.limb3 b.limb3) (
    or_else_compare (compare a.limb2 b.limb2)
      (or_else_compare (compare a.limb1 b.limb1) (compare a.limb0 b.limb0)))
