-- ===== src/Runtime/U256/Div.antt =====
-- `divmod`, `div` and `rem` of crates/covenant-evm-runtime/src/u256.rs: long division, bit by bit.
use Prim.Native.Nat.{bit_or}
use covenant_language.Base.{ℕ, zero, suc, ◌/◌, ◌%◌, ◌^◌, not, ◌==◌, get_or, if◌then◌else◌}
use covenant_language.Runtime.U256.{U256, limbs, is_zero, zero_word, wrapping_sub}
use covenant_language.Runtime.U256.Mul.{limb_list}
use covenant_language.Runtime.U256.Bits.{shl, less}

-- `limbs[i / 64] |= 1 << i % 64`, seen from one limb.
abbrev pub set_in_limb : ℕ → ℕ → ℕ → ℕ
set_in_limb i limb v = if i / 64 == limb then bit_or v (2 ^ (i % 64)) else v

unfoldable pub set_bit : U256 → ℕ → U256
set_bit q i =
    limbs (set_in_limb i 0 q.limb0) (set_in_limb i 1 q.limb1) (set_in_limb i 2 q.limb2)
      (set_in_limb i 3 q.limb3)

unfoldable pub bit_of : U256 → ℕ → ℕ
bit_of numer i = get_or (limb_list numer) (i / 64) 0 / 2 ^ (i % 64) % 2

-- One round of the loop, on the quotient and the remainder.
unfoldable pub div_round : U256 → U256 → ℕ → U256 × U256 → U256 × U256
unfolding shl
div_round numer denom i qr =
    let shifted = shl qr.1 1 in
    let r = record shifted { limb0 = bit_or shifted.limb0 (bit_of numer i) } in
    if not (less r denom) then (set_bit qr.0 i, wrapping_sub r denom) else (qr.0, r)

-- The rounds for the bits below `i`, the greatest one first.
unfoldable pub div_rounds : U256 → U256 → ℕ → U256 × U256 → U256 × U256
div_rounds numer denom zero qr = qr
div_rounds numer denom (suc i) qr = div_rounds numer denom i (div_round numer denom i qr)

unfoldable pub divmod : U256 → U256 → U256 × U256
divmod numer denom =
    if less numer denom
    then (zero_word, numer)
    else div_rounds numer denom 256 (zero_word, zero_word)

unfoldable pub div : U256 → U256 → U256
div a b = if is_zero b then zero_word else (divmod a b).0

unfoldable pub rem : U256 → U256 → U256
rem a b = if is_zero b then zero_word else (divmod a b).1
