-- ===== src/Runtime/U256/Tests.antt =====
-- Instances of the laws of crates/covenant-evm-runtime/src/u256.rs and clock.rs.
use covenant_language.Base.{◌-◌, ◌*◌, ◌%◌, ◌^◌, ◌≡◌, refl}
use covenant_language.Runtime.U256.{
  U256, limbs, one_word, zero_word, wrapping_add, wrapping_sub, bitnot,
}
use covenant_language.Runtime.U256.Value.{value}
use covenant_language.Runtime.U256.Mul.{wrapping_mul, mul_limbs, mul_row}
use covenant_language.Runtime.U256.Mul.Product.{value-wrapping_mul}

abbrev greatest : U256
greatest = limbs (2 ^ 64 - 1) (2 ^ 64 - 1) (2 ^ 64 - 1) (2 ^ 64 - 1)

overflow_wraps : wrapping_add greatest one_word ≡ zero_word
unfolding wrapping_add
overflow_wraps = refl

borrow_wraps : wrapping_sub zero_word one_word ≡ greatest
unfolding wrapping_sub wrapping_add bitnot
borrow_wraps = refl

-- The square of the greatest word is one, modulo 2 ^ 256.
square_wraps : wrapping_mul greatest greatest ≡ one_word
unfolding wrapping_mul mul_limbs mul_row
square_wraps = refl

value-wrapping_mul_example :
    value (wrapping_mul greatest one_word) ≡ value greatest * value one_word % 2 ^ 256
value-wrapping_mul_example = value-wrapping_mul greatest one_word
