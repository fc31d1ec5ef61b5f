-- ===== src/Runtime/U256/Value.antt =====
-- The arithmetic of crates/covenant-evm-runtime/src/u256.rs against the numbers that the words stand
-- for.
use Prim.Native.Nat.{compare, Ordering}
use covenant_language.Base.{ℕ, ◌+◌, ◌-◌, ◌*◌, ◌%◌, ◌^◌, ◌<◌, ◌≡◌, refl, sym, ap, ◌∙◌, arith}
use covenant_language.Runtime.U256.{
  U256, wrapping_add, wrapping_sub, bitnot, cmp, or_else_compare, one_word,
}

-- Every limb is a `u64`.
pub record IsWord (a : U256) : Type 0 where
  pub below0 : a.limb0 < 2 ^ 64
  pub below1 : a.limb1 < 2 ^ 64
  pub below2 : a.limb2 < 2 ^ 64
  pub below3 : a.limb3 < 2 ^ 64

unfoldable pub value : U256 → ℕ
value a = a.limb0 + (2 ^ 64) * (a.limb1 + (2 ^ 64) * (a.limb2 + (2 ^ 64) * a.limb3))

pub wrapping_add-IsWord : (a b : U256) → IsWord (wrapping_add a b)
unfolding wrapping_add
wrapping_add-IsWord a b = record {
  below0 = omega arith;
  below1 = omega arith;
  below2 = omega arith;
  below3 = omega arith;
}

-- Addition is that of the numbers, modulo 2 ^ 256, whatever the limbs.
pub value-wrapping_add : (a b : U256) → value (wrapping_add a b) ≡ (value a + value b) % 2 ^ 256
unfolding wrapping_add value
value-wrapping_add a b = omega arith

value-bitnot : (a : U256) → IsWord a → value (bitnot a) ≡ 2 ^ 256 - 1 - value a
unfolding bitnot value
value-bitnot a h = omega (arith, h.below0, h.below1, h.below2, h.below3)

pub value_bound : (a : U256) → IsWord a → value a < 2 ^ 256
unfolding value
value_bound a h = omega (arith, h.below0, h.below1, h.below2, h.below3)

value-one_word : value one_word ≡ 1
unfolding value
value-one_word = refl

-- Subtraction of words is that of the numbers, modulo 2 ^ 256.
pub value-wrapping_sub :
    (a b : U256) → IsWord b → value (wrapping_sub a b) ≡ (value a + (2 ^ 256 - value b)) % 2 ^ 256
unfolding wrapping_sub
value-wrapping_sub a b h = omega (
  arith,
  value-wrapping_add a (wrapping_add (bitnot b) one_word),
  value-wrapping_add (bitnot b) one_word,
  value-bitnot b h,
  value_bound b h,
  value-one_word,
)

or_else_compare_assoc :
    (x y z : Ordering)
    → or_else_compare (or_else_compare x y) z ≡ or_else_compare x (or_else_compare y z)
or_else_compare_assoc Ordering.lt y z = refl
or_else_compare_assoc Ordering.eq y z = refl
or_else_compare_assoc Ordering.gt y z = refl

compare-digits :
    (lo lo' hi hi' : ℕ)
    → lo < 2 ^ 64
    → lo' < 2 ^ 64
    → or_else_compare (compare hi hi') (compare lo lo')
      ≡ compare (lo + (2 ^ 64) * hi) (lo' + (2 ^ 64) * hi')
compare-digits lo lo' hi hi' h k = ground arith

-- The comparison of two words is that of their numbers.
pub cmp_lem : (a b : U256) → IsWord a → IsWord b → cmp a b ≡ compare (value a) (value b)
unfolding cmp value
cmp_lem a b h k =
    let c0 = compare a.limb0 b.limb0 in
    let c1 = compare a.limb1 b.limb1 in
    sym (
      or_else_compare_assoc (compare a.limb3 b.limb3) (compare a.limb2 b.limb2)
        (or_else_compare c1 c0))
    ∙ ap (λ o. or_else_compare o (or_else_compare c1 c0))
        (compare-digits a.limb2 b.limb2 a.limb3 b.limb3 h.below2 k.below2)
    ∙ sym (or_else_compare_assoc _ c1 c0)
    ∙ ap (λ o. or_else_compare o c0) (compare-digits a.limb1 b.limb1 _ _ h.below1 k.below1)
    ∙ compare-digits a.limb0 b.limb0 _ _ h.below0 k.below0
